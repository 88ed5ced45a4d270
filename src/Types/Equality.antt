-- ===== src/Types/Equality.antt =====
-- src/python/ksc/type.py: `Type.__eq__` decides equality.
use knossos_ksc.Base.{◌≡◌, refl, ap, ap₂, ◌↔◌, true, arith, ==_iff, &&-left, &&-right, ◌==◌}
use knossos_ksc.Base.Assoc.{Key}
use knossos_ksc.Types.Defs.{
  KsType, KsTypes, string, float, integer, bool, any_type, tensor, tuple, lam_type, lm_type, nil,
  cons, type_eq, types_eq,
}

mutual
  unfolding type_eq

  type_eq_sound : (s t : KsType) → type_eq s t ≡ true → s ≡ t
  type_eq_sound string string h = refl
  type_eq_sound float float h = refl
  type_eq_sound integer integer h = refl
  type_eq_sound bool bool h = refl
  type_eq_sound any_type any_type h = refl
  type_eq_sound (tensor m s) (tensor n t) h =
      ap₂ tensor ((==_iff m n).0 (&&-left _ _ h)) (type_eq_sound s t (&&-right (m == n) _ h))
  type_eq_sound (tuple ss) (tuple ts) h = ap tuple (types_eq_sound ss ts h)
  type_eq_sound (lam_type a r) (lam_type b s) h =
      ap₂ lam_type (type_eq_sound a b (&&-left _ _ h))
        (type_eq_sound r s (&&-right (type_eq a b) _ h))
  type_eq_sound (lm_type a r) (lm_type b s) h =
      ap₂ lm_type (type_eq_sound a b (&&-left _ _ h))
        (type_eq_sound r s (&&-right (type_eq a b) _ h))
  type_eq_sound _ _ h = cc

  types_eq_sound : (ss ts : KsTypes) → types_eq ss ts ≡ true → ss ≡ ts
  types_eq_sound nil nil h = refl
  types_eq_sound (cons s ss) (cons t ts) h =
      ap₂ cons (type_eq_sound s t (&&-left _ _ h))
        (types_eq_sound ss ts (&&-right (type_eq s t) _ h))
  types_eq_sound _ _ h = cc

mutual
  unfolding type_eq

  type_eq_self : (t : KsType) → type_eq t t ≡ true
  type_eq_self (tensor n t) = ground (arith, type_eq_self t)
  type_eq_self (tuple ts) = types_eq_self ts
  type_eq_self (lam_type a r) = ground (arith, type_eq_self a, type_eq_self r)
  type_eq_self (lm_type a r) = ground (arith, type_eq_self a, type_eq_self r)
  type_eq_self _ = refl

  types_eq_self : (ts : KsTypes) → types_eq ts ts ≡ true
  types_eq_self nil = refl
  types_eq_self (cons t ts) = ground (arith, type_eq_self t, types_eq_self ts)

pub type_eq_refl : (t : KsType) → type_eq t t ≡ true
type_eq_refl t = type_eq_self t

pub type_eq→eq : (s t : KsType) → type_eq s t ≡ true → s ≡ t
type_eq→eq s t h = type_eq_sound s t h

-- `==` on types holds exactly of equal types.
pub type_eq_iff : (s t : KsType) → (type_eq s t ≡ true) ↔ (s ≡ t)
type_eq_iff s t = (type_eq_sound s t, λ e. cc (e, type_eq_self t))

instance abbrev pub type_key : Key KsType
type_key = record { same = type_eq; same_iff = type_eq_iff }
