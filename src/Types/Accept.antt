-- ===== src/Types/Accept.antt =====
-- src/python/ksc/type.py: `Type.can_accept_value_of_type` and `Type.contains_any`.
use knossos_ksc.Base.{
  ◌≡◌, refl, ap, ap₂, ◌↔◌, true, false, ◌&&◌, arith, ==_iff, &&-left, &&-right, &&-both,
  ||-left_false, ||-right_false, ◌==◌, ◌∙◌,
}
use knossos_ksc.Types.Defs.{
  KsType, KsTypes, string, float, integer, bool, any_type, tensor, tuple, lam_type, lm_type, nil,
  cons, type_eq, types_eq, can_accept_value_of_type, can_accept_all, contains_any, any_contains_any,
}
use knossos_ksc.Types.Equality.{type_eq_iff}

mutual
  unfolding can_accept_value_of_type contains_any type_eq

  accept-eq : (s t : KsType) → contains_any s ≡ false → can_accept_value_of_type s t ≡ type_eq s t
  accept-eq any_type t h = cc
  accept-eq (tensor m s) (tensor n t) h = ap (λ b. (m == n) && b) (accept-eq s t h)
  accept-eq (tuple ss) (tuple ts) h = accept_all-eq ss ts h
  accept-eq (lam_type a r) (lam_type b s) h =
      ap₂ ◌&&◌ (accept-eq a b (||-left_false _ _ h))
        (accept-eq r s (||-right_false (contains_any a) _ h))
  accept-eq (lm_type a r) (lm_type b s) h =
      ap₂ ◌&&◌ (accept-eq a b (||-left_false _ _ h))
        (accept-eq r s (||-right_false (contains_any a) _ h))
  accept-eq string string h = refl
  accept-eq float float h = refl
  accept-eq integer integer h = refl
  accept-eq bool bool h = refl
  accept-eq _ _ h = refl

  accept_all-eq :
      (ss ts : KsTypes) → any_contains_any ss ≡ false → can_accept_all ss ts ≡ types_eq ss ts
  accept_all-eq nil nil h = refl
  accept_all-eq (cons s ss) (cons t ts) h =
      ap₂ ◌&&◌ (accept-eq s t (||-left_false _ _ h))
        (accept_all-eq ss ts (||-right_false (contains_any s) _ h))
  accept_all-eq _ _ h = refl

mutual
  unfolding can_accept_value_of_type

  accept_self : (t : KsType) → can_accept_value_of_type t t ≡ true
  accept_self (tensor n t) = ground (arith, accept_self t)
  accept_self (tuple ts) = accept_all_self ts
  accept_self (lam_type a r) = ground (arith, accept_self a, accept_self r)
  accept_self (lm_type a r) = ground (arith, accept_self a, accept_self r)
  accept_self _ = refl

  accept_all_self : (ts : KsTypes) → can_accept_all ts ts ≡ true
  accept_all_self nil = refl
  accept_all_self (cons t ts) = ground (arith, accept_self t, accept_all_self ts)

mutual
  unfolding can_accept_value_of_type

  accept_trans :
      (r s t : KsType)
      → can_accept_value_of_type r s ≡ true
      → can_accept_value_of_type s t ≡ true
      → can_accept_value_of_type r t ≡ true
  accept_trans any_type s t h k = refl
  accept_trans (tensor l r) (tensor m s) (tensor n t) h k =
      &&-both ((==_iff l n).1 ((==_iff l m).0 (&&-left _ _ h) ∙ (==_iff m n).0 (&&-left _ _ k)))
        (accept_trans r s t (&&-right (l == m) _ h) (&&-right (m == n) _ k))
  accept_trans (tuple rs) (tuple ss) (tuple ts) h k = accept_all_trans rs ss ts h k
  accept_trans (lam_type a r) (lam_type b s) (lam_type c t) h k =
      &&-both (accept_trans a b c (&&-left _ _ h) (&&-left _ _ k)) (
        accept_trans r s t (&&-right (can_accept_value_of_type a b) _ h)
          (&&-right (can_accept_value_of_type b c) _ k))
  accept_trans (lm_type a r) (lm_type b s) (lm_type c t) h k =
      &&-both (accept_trans a b c (&&-left _ _ h) (&&-left _ _ k)) (
        accept_trans r s t (&&-right (can_accept_value_of_type a b) _ h)
          (&&-right (can_accept_value_of_type b c) _ k))
  accept_trans string string t h k = k
  accept_trans float float t h k = k
  accept_trans integer integer t h k = k
  accept_trans bool bool t h k = k
  accept_trans _ _ _ h k = cc

  accept_all_trans :
      (rs ss ts : KsTypes)
      → can_accept_all rs ss ≡ true
      → can_accept_all ss ts ≡ true
      → can_accept_all rs ts ≡ true
  accept_all_trans nil nil ts h k = k
  accept_all_trans (cons r rs) (cons s ss) (cons t ts) h k =
      &&-both (accept_trans r s t (&&-left _ _ h) (&&-left _ _ k)) (
        accept_all_trans rs ss ts (&&-right (can_accept_value_of_type r s) _ h)
          (&&-right (can_accept_value_of_type s t) _ k))
  accept_all_trans _ _ _ h k = cc

-- A type with no Any in it accepts a type exactly when the two are equal.
pub can_accept_iff :
    (s t : KsType) → contains_any s ≡ false → (can_accept_value_of_type s t ≡ true) ↔ (s ≡ t)
can_accept_iff s t h = rw (accept-eq s t h) (type_eq_iff s t)

-- Every type accepts itself.
pub can_accept_refl : (t : KsType) → can_accept_value_of_type t t ≡ true
can_accept_refl t = accept_self t

-- What a type accepts, it accepts through another: acceptance is transitive.
pub can_accept_trans :
    (r s t : KsType)
    → can_accept_value_of_type r s ≡ true
    → can_accept_value_of_type s t ≡ true
    → can_accept_value_of_type r t ≡ true
can_accept_trans r s t h k = accept_trans r s t h k
