-- ===== src/Examples/Passes.antt =====
-- Tests and theorems at an input: tuple-lets (src/python/ksc/untuple_lets.py) and primitives
-- (src/python/ksc/prim.py), with a meaning in tuples of numbers.
use knossos_ksc.Base.{
  ℕ, zero, suc, ◌+◌, ◌-◌, arith, ◌≡◌, refl, true, false, List, [], ◌∷◌, Option, some, none,
  if◌then◌else◌, get_elem?, Bool-cases, inl, inr,
}
use knossos_ksc.Base.Text.{Text, text, text_eq, text_eq→eq, elem}
use knossos_ksc.Base.Result.{ok}
use knossos_ksc.Types.Defs.{integer, tuple, nil, cons}
use knossos_ksc.Names.{plain, mangle_without_type}
use knossos_ksc.Expr.{Var, Expr, many, var, call, let_in, no_args, arg, is_untupled, free_vars}
use knossos_ksc.Expr.Meaning.{Meaning, Env, eval}
use knossos_ksc.Untuple.{
  untuple_lets, untuple_one_let, untuple_value, gets, make_tuple_get, is_literal_tuple, get_name,
  lets,
}
use knossos_ksc.Untuple.Total.{all_lengths_match, lengths_match, untuple_lets_total}
use knossos_ksc.Untuple.Keeps.{all_read_apart, reads_apart_in, reads_apart, eval-untuple_lets}
use knossos_ksc.Untuple.Sound.{HasTuples, names_read, eval-untuple_one_let}
use knossos_ksc.Primitives.{get_groups, prim_lookup}
use knossos_ksc.Primitives.Get.{get_groups-get_name, prim_lookup-get_name}
use knossos_ksc.Examples.{x, y, add, vec}

mutual
  data Value : Type 0 where
    number : ℕ → Value
    tup : Values → Value

  data Values : Type 0 where
    empty : Values
    more : Value → Values → Values

abbrev values : List Value → Values
values [] = empty
values (v ∷ vs) = more v (values vs)

abbrev nth : ℕ → Values → Value
nth i empty = number 0
nth zero (more v vs) = v
nth (suc i) (more v vs) = nth i vs

abbrev part : ℕ → Value → Value
part i (number n) = number n
part i (tup vs) = nth (i - 1) vs

abbrev total : List Value → ℕ
total [] = 0
total (number n ∷ vs) = n + total vs
total (tup us ∷ vs) = total vs

abbrev apply_get : Option (ℕ × ℕ) → List Value → Value
apply_get (some (i, n)) (v ∷ []) = part i v
apply_get _ vs = number (total vs)

abbrev tuples : Meaning Value
tuples = record {
  const_of = λ c. number 1;
  call_of = λ f vs.
      if text_eq (mangle_without_type f) (text "tuple")
      then tup (values vs)
      else apply_get (get_groups (mangle_without_type f)) vs;
  lam_of = λ t f. f (number 5);
  part_of = λ i n v. part i v;
  if_of = λ c t f. t;
  assert_of = λ c b. b;
}

nth-values : (vs : List Value) (i : ℕ) (v : Value) → get_elem? vs i ≡ some v → nth i (values vs) ≡ v
nth-values [] i v h = cc
nth-values (u ∷ us) zero v h = cc h
nth-values (u ∷ us) (suc i) v h = nth-values us i v h

back : (i : ℕ) → (i + 1) - 1 ≡ i
back i = omega arith

tuples-HasTuples : HasTuples tuples
unfolding mangle_without_type text_eq
tuples-HasTuples = record {
  get_of = λ i n v. rw (get_groups-get_name i n) refl;
  tuple_of = λ f vs i v h found. rw (h, back i) (nth-values vs i v found);
}

-- (let ((x y) z) (add x y)).
abbrev z : Var
z = record { name = text "z"; type_ = none }

abbrev let_xy : Expr
let_xy = let_in (many x (y ∷ [])) (var z) (add (var x) (var y)) none

-- (let ((x y) (tuple z z)) (let ((x y) z) (add x y))).
abbrev nested_lets : Expr
nested_lets =
    let_in (many x (y ∷ [])) (call (plain (text "tuple")) (arg (var z) (arg (var z) no_args)) none)
      let_xy none

untuple_lets_total_example : (e : Expr) × (untuple_lets let_xy ≡ ok e) × (is_untupled e ≡ true)
unfolding all_lengths_match lengths_match is_literal_tuple
untuple_lets_total_example = untuple_lets_total let_xy refl

z_apart :
    (w : Text)
    → elem w (text "x" ∷ text "y" ∷ []) ≡ true
    → elem w (names_read (var z) (add (var x) (var y))) ≡ false
unfolding names_read text_eq
z_apart w h = elim (Bool-cases (text_eq w (text "z"))) [
  | inl e ↦ absurd (ends (rw (text_eq→eq w (text "z") e) at h))
  | inr e ↦ rw e refl
]
  where
    ends : false ≡ true → ⊥
    ends p = cc p

eval-untuple_one_let_example :
    (e : Expr) × (untuple_one_let (many x (y ∷ [])) (var z) (add (var x) (var y)) none ≡ ok e)
    × ((env : Env Value) → eval tuples e env ≡ eval tuples let_xy env)
unfolding lengths_match is_literal_tuple
eval-untuple_one_let_example =
    eval-untuple_one_let tuples tuples-HasTuples (many x (y ∷ [])) (var z) (add (var x) (var y))
      none refl z_apart

lengths : all_lengths_match nested_lets ≡ true
unfolding all_lengths_match lengths_match is_literal_tuple mangle_without_type text_eq
lengths = refl

read_apart : all_read_apart nested_lets ≡ true
unfolding all_read_apart reads_apart_in reads_apart names_read untuple_lets untuple_one_let
    untuple_value gets make_tuple_get is_literal_tuple mangle_without_type text_eq free_vars
read_apart = refl

eval-untuple_lets_example :
    (e : Expr) × (untuple_lets nested_lets ≡ ok e)
    × (is_untupled e ≡ true)
    × ((env : Env Value) → eval tuples e env ≡ eval tuples nested_lets env)
eval-untuple_lets_example = eval-untuple_lets tuples tuples-HasTuples nested_lets lengths read_apart

prim_lookup-get_name_example :
    prim_lookup (plain (get_name 2 2)) (tuple (cons integer (cons vec nil))) ≡ ok (some vec)
prim_lookup-get_name_example = prim_lookup-get_name (cons integer (cons vec nil)) 1 vec refl

-- The literal tuple (let ((x y) (tuple y x)) x), a swap, is not kept: the new binding of x is
-- read by that of y.
swap_captured :
    untuple_one_let
      (many x (y ∷ []))
      (call (plain (text "tuple")) (arg (var y) (arg (var x) no_args)) none)
      (var y)
      none
    ≡ ok (lets (x ∷ y ∷ []) (arg (var y) (arg (var x) no_args)) (var y))
unfolding untuple_one_let is_literal_tuple mangle_without_type text_eq
swap_captured = refl
