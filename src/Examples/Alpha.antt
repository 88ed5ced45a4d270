-- ===== src/Examples/Alpha.antt =====
-- Tests and theorems at an input: src/python/ksc/alpha_equiv.py.
use knossos_ksc.Base.Assoc.{lookup, insert}
use knossos_ksc.Base.{
  ◌≡◌, refl, ap, ap₂, sym, ◌&&◌, &&-left, &&-right, Option, some, List, ◌∷◌, true, false, Bool,
  none, ◌==◌, ==_refl, ==_iff,
}
use knossos_ksc.Base.Int.{ℤ, pos, negsuc}
use knossos_ksc.Types.Defs.{KsType}
use knossos_ksc.Base.Result.{ok, err, attribute_error}
use knossos_ksc.Base.Text.{Text, text, text_eq, text_eq_refl, text_eq→eq}
use knossos_ksc.Names.{plain, sname_eq}
use knossos_ksc.Expr.{
  Expr, Var, Constant, int_value, float_value, bool_value, string_value, const, var, lam, call,
  no_args, arg,
}
use knossos_ksc.Expr.Meaning.{eval}
use knossos_ksc.Alpha.{
  are_alpha_equivalent, are_equiv, no_vars, alpha_helper, add_var, vars_equal, filter_eq,
  get_filter_term,
}
use knossos_ksc.Alpha.Same.{Python, never, is_regular, sharing_irrelevant}
use knossos_ksc.Alpha.Sound.{eval-are_alpha_equivalent}
use knossos_ksc.Alpha.Order.{is_lam, are_alpha_equivalent-lam}
use knossos_ksc.Alpha.Hash.{Hashes, hash_with_alpha, no_shadow}
use knossos_ksc.Alpha.Hash.Agree.{HashLaws, hash_with_alpha_eq}
use knossos_ksc.Examples.{x, y}
use knossos_ksc.Examples.Exprs.{sums, bit}

-- `==` on constants, of one kind and one value.
unfoldable pub equal_constants : Constant → Constant → Bool
equal_constants (int_value (pos m)) (int_value (pos n)) = m == n
equal_constants (int_value (negsuc m)) (int_value (negsuc n)) = m == n
equal_constants (float_value m) (float_value n) = m == n
equal_constants (bool_value true) (bool_value true) = true
equal_constants (bool_value false) (bool_value false) = true
equal_constants (string_value s) (string_value t) = text_eq s t
equal_constants _ _ = false

pub equal_constants_refl : (c : Constant) → equal_constants c c ≡ true
unfolding equal_constants
equal_constants_refl (int_value (pos m)) = ==_refl m
equal_constants_refl (int_value (negsuc m)) = ==_refl m
equal_constants_refl (float_value m) = ==_refl m
equal_constants_refl (bool_value true) = refl
equal_constants_refl (bool_value false) = refl
equal_constants_refl (string_value s) = text_eq_refl s

pub equal_constants_sound : (c d : Constant) → equal_constants c d ≡ true → c ≡ d
unfolding equal_constants
equal_constants_sound (int_value (pos m)) (int_value (pos n)) h =
    ap (λ k. int_value (pos k)) ((==_iff m n).0 h)
equal_constants_sound (int_value (negsuc m)) (int_value (negsuc n)) h =
    ap (λ k. int_value (negsuc k)) ((==_iff m n).0 h)
equal_constants_sound (float_value m) (float_value n) h = ap float_value ((==_iff m n).0 h)
equal_constants_sound (bool_value true) (bool_value true) h = refl
equal_constants_sound (bool_value false) (bool_value false) h = refl
equal_constants_sound (string_value s) (string_value t) h = ap string_value (text_eq→eq s t h)
equal_constants_sound _ _ h = cc h

-- One object for each untyped variable, and for nothing else.
is_none : Option KsType → Bool
is_none none = true
is_none (some t) = false

unfoldable pub shared : Expr → Expr → Bool
unfolding is_none
shared (var a) (var b) = text_eq a.name b.name && (is_none a.type_ && is_none b.type_)
shared _ _ = false

pub shared_sound : (a b : Expr) → shared a b ≡ true → a ≡ b
unfolding shared is_none
shared_sound (var a) (var b) h =
    let types = &&-right (text_eq a.name b.name) _ h in
    ap₂ (λ n t. var (record { name = n; type_ = t })) (text_eq→eq a.name b.name (&&-left _ _ h))
      (both a.type_ b.type_ (&&-left _ _ types) (&&-right (is_none a.type_) _ types))
  where
    both : (t u : Option KsType) → is_none t ≡ true → is_none u ≡ true → t ≡ u
    both none none p q = refl
    both (some t) u p q = cc
    both none (some u) p q = cc
shared_sound _ _ h = cc h

abbrev pub python : Python
python = record { same = shared; equal = equal_constants; same_sound = shared_sound }

-- `==` that makes True equal to 1 and False to 0, as Python's.
unfoldable loose_equal : Constant → Constant → Bool
unfolding equal_constants
loose_equal (int_value (pos n)) (bool_value b) = n == bit b
loose_equal (bool_value b) (int_value (pos n)) = n == bit b
loose_equal c d = equal_constants c d

loose_equal-const_of : (c d : Constant) → loose_equal c d ≡ true → sums.const_of c ≡ sums.const_of d
unfolding loose_equal
loose_equal-const_of (int_value (pos n)) (bool_value b) h = (==_iff n (bit b)).0 h
loose_equal-const_of (bool_value b) (int_value (pos n)) h = sym ((==_iff n (bit b)).0 h)
loose_equal-const_of c d h = ap sums.const_of (equal_constants_sound c d h)

abbrev loose : Python
loose = record { same = shared; equal = loose_equal; same_sound = shared_sound }

abbrev hashes : Hashes
hashes = record { of_text = λ s. pos 1; of_value = λ c. pos 2; of_tuple = λ hs. pos 3 }

string_left :
    (s : Text) (d : Constant) → equal_constants (string_value s) d ≡ true → d ≡ string_value s
unfolding equal_constants
string_left s (string_value t) h = ap string_value (sym (text_eq→eq s t h))
string_left s (int_value (pos n)) h = cc
string_left s (int_value (negsuc n)) h = cc
string_left s (bool_value true) h = cc
string_left s (bool_value false) h = cc
string_left s (float_value n) h = cc

string_right :
    (c : Constant) (s : Text) → equal_constants c (string_value s) ≡ true → c ≡ string_value s
unfolding equal_constants
string_right (string_value t) s h = ap string_value (text_eq→eq t s h)
string_right (int_value (pos n)) s h = cc
string_right (int_value (negsuc n)) s h = cc
string_right (bool_value true) s h = cc
string_right (bool_value false) s h = cc
string_right (float_value n) s h = cc

laws : HashLaws equal_constants hashes
laws = record { value_eq = λ c d h. refl; string_left = string_left; string_right = string_right }

abbrev z : Var
z = record { name = text "z"; type_ = none }

-- (lam z (g z y)) and (lam x (g x y)).
abbrev in_x : Expr
in_x = lam x (call (plain (text "g")) (arg (var x) (arg (var y) no_args)) none) none

abbrev in_z : Expr
in_z = lam z (call (plain (text "g")) (arg (var z) (arg (var y) no_args)) none) none

equivalent : are_alpha_equivalent shared equal_constants in_z in_x ≡ ok true
unfolding are_equiv shared is_none are_alpha_equivalent alpha_helper filter_eq get_filter_term
    sname_eq text_eq vars_equal lookup add_var insert
equivalent = refl

-- (lam z (g z 1)) and (lam x (g x True)).
abbrev applied : Var → Constant → Expr
applied v c = lam v (call (plain (text "g")) (arg (var v) (arg (const c) no_args)) none) none

abbrev one_const : Constant
one_const = int_value (pos 1)

one_is_true :
    are_alpha_equivalent shared loose_equal (applied z one_const) (applied x (bool_value true))
    ≡ ok true
unfolding are_alpha_equivalent are_equiv shared is_none loose_equal alpha_helper filter_eq
    get_filter_term sname_eq text_eq vars_equal lookup add_var insert
one_is_true = refl

eval-are_alpha_equivalent_example :
    eval sums (applied z one_const) (λ n. 4) ≡ eval sums (applied x (bool_value true)) (λ n. 4)
eval-are_alpha_equivalent_example =
    eval-are_alpha_equivalent loose sums (applied z one_const) (applied x (bool_value true))
      (λ n. 4) loose_equal-const_of (λ t u f. refl) one_is_true

sharing_irrelevant_example :
    are_equiv shared equal_constants in_z in_x no_vars
    ≡ are_equiv never equal_constants in_z in_x no_vars
sharing_irrelevant_example = sharing_irrelevant python in_z in_x no_vars (unfold is_regular in refl)

are_alpha_equivalent-lam_example :
    (are_alpha_equivalent shared equal_constants (lam z (var z) none) (var y) ≡ err attribute_error)
    × (are_alpha_equivalent shared equal_constants (var y) (lam z (var z) none) ≡ ok false)
are_alpha_equivalent-lam_example =
    are_alpha_equivalent-lam python z (var z) (var y) none (unfold is_lam in refl)

hash_with_alpha_eq_example : hash_with_alpha hashes in_z ≡ hash_with_alpha hashes in_x
hash_with_alpha_eq_example =
    hash_with_alpha_eq python hashes in_z in_x laws (unfold is_regular in refl)
      (unfold no_shadow in refl) (unfold no_shadow in refl) equivalent

-- A pair is hashed to its second component.
abbrev second_hash : List ℤ → ℤ
second_hash (a ∷ b ∷ bs) = b
second_hash _ = pos 0

abbrev telling : Hashes
telling = record { of_text = λ s. pos 1; of_value = λ c. pos 2; of_tuple = second_hash }
