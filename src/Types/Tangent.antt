-- ===== src/Types/Tangent.antt =====
-- src/python/ksc/type.py: `tangent_type`.
use knossos_ksc.Base.{
  ◌≡◌, refl, inl, inr, ◌⊎◌, Bool, true, false, ◌&&◌, Bool-cases, &&-left, &&-right,
}
use knossos_ksc.Base.Result.{ok, err, not_implemented}
use knossos_ksc.Types.Defs.{
  KsType, KsTypes, float, any_type, tensor, tuple, lam_type, lm_type, nil, cons, tangent_type,
  tangent_types,
}

-- No function type, linear map or Any anywhere in the type.
unfoldable mutual
  pub is_first_order : KsType → Bool
  is_first_order any_type = false
  is_first_order (lam_type a r) = false
  is_first_order (lm_type a r) = false
  is_first_order (tensor n t) = is_first_order t
  is_first_order (tuple ts) = all_first_order ts
  is_first_order _ = true

  pub all_first_order : KsTypes → Bool
  all_first_order nil = true
  all_first_order (cons t ts) = is_first_order t && all_first_order ts

-- The type has a tangent type, which is its own.
abbrev pub HasTangent : KsType → Type 0
HasTangent t = (s : KsType) × (tangent_type t ≡ ok s) × (tangent_type s ≡ ok s)

abbrev HaveTangents : KsTypes → Type 0
HaveTangents ts = (ss : KsTypes) × (tangent_types ts ≡ ok ss) × (tangent_types ss ≡ ok ss)

mutual
  unfolding tangent_type is_first_order

  tangent-total : (t : KsType) → is_first_order t ≡ true → HasTangent t
  tangent-total any_type h = cc
  tangent-total (lam_type a r) h = cc
  tangent-total (lm_type a r) h = cc
  tangent-total (tensor n t) h = let (s, p, q) = tangent-total t h in (tensor n s, rw p, rw q)
  tangent-total (tuple ts) h = let (ss, p, q) = tangents-total ts h in (tuple ss, rw p, rw q)
  tangent-total float h = (float, refl, refl)
  tangent-total _ h = (tuple nil, refl, refl)

  tangents-total : (ts : KsTypes) → all_first_order ts ≡ true → HaveTangents ts
  tangents-total nil h = (nil, refl, refl)
  tangents-total (cons t ts) h =
      let (s, p, q) = tangent-total t (&&-left _ _ h) in
      let (ss, ps, qs) = tangents-total ts (&&-right (is_first_order t) _ h) in
      (cons s ss, rw (p, ps), rw (q, qs))

mutual
  unfolding tangent_type is_first_order

  tangent-fails : (t : KsType) → is_first_order t ≡ false → tangent_type t ≡ err not_implemented
  tangent-fails any_type h = refl
  tangent-fails (lam_type a r) h = refl
  tangent-fails (lm_type a r) h = refl
  tangent-fails (tensor n t) h = rw (tangent-fails t h)
  tangent-fails (tuple ts) h = rw (tangents-fail ts h)
  tangent-fails _ h = cc

  tangents-fail :
      (ts : KsTypes) → all_first_order ts ≡ false → tangent_types ts ≡ err not_implemented
  tangents-fail nil h = cc
  tangents-fail (cons t ts) h = elim (Bool-cases (is_first_order t)) [
    | inl e ↦ let (s, p, q) = tangent-total t e in rw (p, tangents-fail ts (rw e at h))
    | inr e ↦ rw (tangent-fails t e)
  ]

-- A type that is first-order throughout has a tangent type, whose tangent type is itself; at every
-- other type `tangent_type` raises NotImplementedError.
pub tangent_type_lem :
    (t : KsType)
    → ((is_first_order t ≡ true) × HasTangent t)
      ⊎ ((is_first_order t ≡ false) × (tangent_type t ≡ err not_implemented))
tangent_type_lem t = elim (Bool-cases (is_first_order t)) [
  | inl e ↦ inl (e, tangent-total t e)
  | inr e ↦ inr (e, tangent-fails t e)
]
