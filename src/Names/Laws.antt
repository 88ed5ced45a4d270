-- ===== src/Names/Laws.antt =====
-- src/python/ksc/expr.py, class StructuredName: the laws of `add_type`, and equality.
use knossos_ksc.Base.{
  ◌≡◌, refl, ap, ap₂, Bool, true, some, ◌++◌, arith, ◌↔◌, &&-left, &&-right, &&-both,
}
use knossos_ksc.Base.Text.{text_eq, text_eq→eq, text_eq_refl}
use knossos_ksc.Base.Result.{ok}
use knossos_ksc.Base.Assoc.{Key}
use knossos_ksc.Types.Defs.{KsType}
use knossos_ksc.Types.Equality.{type_eq→eq, type_eq_refl}
use knossos_ksc.Names.{
  StructuredName, plain, typed, derived, get_type, add_type, mangle_without_type, dollar, sname_eq,
  sname_same,
}

sname_same_sound : (a b : StructuredName) → sname_same a b ≡ true → a ≡ b
unfolding sname_same
sname_same_sound (plain s) (plain t) h = ap plain (text_eq→eq s t h)
sname_same_sound (typed s a) (typed t b) h =
    ap₂ typed (text_eq→eq s t (&&-left _ _ h)) (type_eq→eq a b (&&-right (text_eq s t) _ h))
sname_same_sound (derived d s) (derived e t) h =
    ap₂ derived (text_eq→eq d e (&&-left _ _ h)) (sname_same_sound s t (&&-right (text_eq d e) _ h))
sname_same_sound _ _ h = cc

pub sname_same_refl : (a : StructuredName) → sname_same a a ≡ true
unfolding sname_same
sname_same_refl (plain s) = text_eq_refl s
sname_same_refl (typed s a) = &&-both (text_eq_refl s) (type_eq_refl a)
sname_same_refl (derived d s) = &&-both (text_eq_refl d) (sname_same_refl s)

pub sname_same_iff : (a b : StructuredName) → (sname_same a b ≡ true) ↔ (a ≡ b)
sname_same_iff a b = (sname_same_sound a b, λ e. cc (e, sname_same_refl b))

instance abbrev pub sname_key : Key StructuredName
sname_key = record { same = sname_same; same_iff = sname_same_iff }

-- Where `==` gives an answer, it is whether the two names are the same.
pub sname_eq-ok : (a b : StructuredName) (r : Bool) → sname_eq a b ≡ ok r → sname_same a b ≡ r
unfolding sname_eq sname_same
sname_eq-ok (derived d s) (derived e t) r h = ground (arith, sname_eq-ok s t r)
sname_eq-ok (plain s) b r h = ground arith
sname_eq-ok (typed s a) b r h = ground arith
sname_eq-ok _ _ r h = ground arith

-- A name is equal to itself, with no exception.
pub sname_eq_refl : (a : StructuredName) → sname_eq a a ≡ ok true
unfolding sname_eq
sname_eq_refl (plain s) = ap ok (text_eq_refl s)
sname_eq_refl (typed s a) = ap ok (&&-both (text_eq_refl s) (type_eq_refl a))
sname_eq_refl (derived d s) = rw (text_eq_refl d) (sname_eq_refl s)

-- Adding a type returns the new name first and the old type second: it sets the type at the core
-- of the name and returns the one that was there; it
-- leaves the name without its type as it was; and a second addition overwrites the first.
pub add_type_lem :
    (s : StructuredName) (ty u : KsType)
    → (get_type (add_type s ty).0 ≡ some ty)
      × ((add_type s ty).1 ≡ get_type s)
      × (mangle_without_type (add_type s ty).0 ≡ mangle_without_type s)
      × ((add_type (add_type s ty).0 u).0 ≡ (add_type s u).0)
unfolding add_type get_type mangle_without_type
add_type_lem (plain s) ty u = (refl, refl, refl, refl)
add_type_lem (typed s old) ty u = (refl, refl, refl, refl)
add_type_lem (derived d s) ty u =
    let (set, was, same, over) = add_type_lem s ty u in
    (set, was, ap (λ t. d ++ dollar ++ t) same, ap (derived d) over)

-- A name has a type exactly when adding that type changes nothing.
pub add_type_self :
    (s : StructuredName) (ty : KsType) → (get_type s ≡ some ty) ↔ ((add_type s ty).0 ≡ s)
unfolding add_type get_type
add_type_self (plain s) ty = (λ h. cc, λ h. cc)
add_type_self (typed s old) ty = (λ h. cc, λ h. cc)
add_type_self (derived d s) ty =
    let (to, back) = add_type_self s ty in (λ h. ap (derived d) (to h), λ h. back (cc))
