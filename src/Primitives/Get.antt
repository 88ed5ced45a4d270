-- ===== src/Primitives/Get.antt =====
-- src/python/ksc/prim.py and untuple_lets.py: the names of the tuple accessors that make_tuple_get
-- writes are those that prim_lookup reads.
use knossos_ksc.Base.{
  ℕ, suc, ◌≡◌, refl, true, some, [], ◌∷◌, ◌++◌, ==_refl, length, get_elem?, all, &&-left, &&-right,
}
use knossos_ksc.Base.Text.{Text, text_eq}
use knossos_ksc.Base.Decimal.{is_digit, print, print-cons, all-print, value-print}
use knossos_ksc.Base.Result.{ok}
use knossos_ksc.Types.Defs.{KsType, KsTypes, tuple, to_list}
use knossos_ksc.Names.{plain, mangle_without_type}
use knossos_ksc.Untuple.{get_name}
use knossos_ksc.Primitives.{
  span_digits, strip_prefix, get_groups, group, child_before, get_prim, prim_lookup,
}

span_digits-end : (ds : Text) → all is_digit ds ≡ true → span_digits ds ≡ (ds, [])
unfolding span_digits
span_digits-end [] h = refl
span_digits-end (d ∷ ds) h =
    rw (span_digits-end ds (&&-right (is_digit d) _ h), &&-left (is_digit d) (all is_digit ds) h)
      refl

span_digits-dollar :
    (ds rest : Text)
    → all is_digit ds ≡ true
    → span_digits (ds ++ (b'$' ∷ rest)) ≡ (ds, b'$' ∷ rest)
unfolding span_digits
span_digits-dollar [] rest h = refl
span_digits-dollar (d ∷ ds) rest h =
    rw
      (
        span_digits-dollar ds rest (&&-right (is_digit d) _ h),
        &&-left (is_digit d) (all is_digit ds) h,
      )
      refl

group-print : (n : ℕ) → group (print n) ≡ some n
group-print n = let (d, ds, e) = print-cons n in rw (e, ← e, value-print n) refl

-- The two numbers of an accessor's name are read back.
pub get_groups-get_name : (i n : ℕ) → get_groups (get_name i n) ≡ some (i, n)
unfolding get_groups strip_prefix
get_groups-get_name i n =
    rw
      (
        span_digits-dollar (print i) (print n) (all-print i),
        span_digits-end (print n) (all-print n),
        group-print i,
        group-print n,
      )
      refl

-- The accessor of component `i + 1` of the `n` of a tuple has that component's type.
pub prim_lookup-get_name :
    (ts : KsTypes) (i : ℕ) (t : KsType)
    → get_elem? (to_list ts) i ≡ some t
    → prim_lookup (plain (get_name (suc i) (length (to_list ts)))) (tuple ts) ≡ ok (some t)
unfolding prim_lookup get_prim child_before mangle_without_type strip_prefix text_eq
prim_lookup-get_name ts i t h =
    rw (get_groups-get_name (suc i) (length (to_list ts)), ==_refl (length (to_list ts)), h) refl
