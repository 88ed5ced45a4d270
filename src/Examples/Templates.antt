-- ===== src/Examples/Templates.antt =====
-- Tests and theorems at an input: parsed rules (src/python/ksc/rewrites.py).
use knossos_ksc.Rewrites.Rules.{zero_const}
use knossos_ksc.Primitives.{prim_lookup}
use knossos_ksc.Alpha.{filter_eq, get_filter_term, are_alpha_equivalent, alpha_helper, vars_equal}
use knossos_ksc.Base.{ℕ, ◌≡◌, refl, ap, true, Bool, none, some, [], ◌∷◌, Memᴰ, arith}
use knossos_ksc.Base.{if◌then◌else◌, false}
use knossos_ksc.Base.Text.{text, text_eq}
use knossos_ksc.Base.Int.{pos}
use knossos_ksc.Base.Result.{ok}
use knossos_ksc.Base.Assoc.{lookup, insert}
use knossos_ksc.Types.Defs.{
  bool, integer, can_accept_value_of_type, contains_any, type_eq, make_tuple_if_many,
}
use knossos_ksc.Names.{plain, sname_eq, mangle_without_type}
use knossos_ksc.Expr.{
  Constant, Expr, Rule, int_value, one, const, var, call, let_in, no_args, arg, free_vars,
  is_untupled, type_of,
}
use knossos_ksc.Expr.Meaning.{Env, eval}
use knossos_ksc.Paths.{let_body, get_path, get, subexps_no_binds}
use knossos_ksc.Subst.{Substs}
use knossos_ksc.Subst.Step.{over}
use knossos_ksc.Propagate.{type_propagate, typed_call}
use knossos_ksc.Propagate.Keeps.{Kept, type_propagate-Kept}
use knossos_ksc.Rewrites.{initial_env, ExprWithPath}
use knossos_ksc.Rewrites.Sound.{Keeps}
use knossos_ksc.Rewrites.Template.{
  find_template_subst, accepts, combine_substs, subst_pattern, retype,
}
use knossos_ksc.Rewrites.Template.Match.{AreUntupled}
use knossos_ksc.Rewrites.Template.Fits.{is_plain, Covers}
use knossos_ksc.Rewrites.Template.Sound.{find_template_subst_sound}
use knossos_ksc.Rewrites.Template.Subst.{subst_pattern_sound}
use knossos_ksc.Rewrites.Template.Matcher.{
  arg_types, apply_here, match_of, parsed_matches, parsed_matches_sound,
}
use knossos_ksc.Examples.{x, y}
use knossos_ksc.Examples.Exprs.{sums}
use knossos_ksc.Examples.Alpha.{equal_constants, equal_constants_sound, python, shared}

const_eq : (c d : Constant) → equal_constants c d ≡ true → sums.const_of c ≡ sums.const_of d
const_eq c d h = ap sums.const_of (equal_constants_sound c d h)

abbrev sum : Expr → Expr → Expr
sum a b = call (plain (text "add")) (arg a (arg b no_args)) (some integer)

-- (rule "swap" ((x : Integer) (y : Integer)) (add x y) (add y x)).
abbrev swap : Rule
swap = record {
  name = text "swap";
  template_vars = x ∷ y ∷ [];
  template = sum (var x) (var y);
  replacement = sum (var y) (var x);
}

swap-valid : (env : Env ℕ) → eval sums swap.template env ≡ eval sums swap.replacement env
unfolding eval
swap-valid env = omega arith

-- (let (x 5) (add 3 x)), and its body.
abbrev three : Expr
three = const (int_value (pos 3))

abbrev place : Expr
place = sum three (var x)

abbrev root : Expr
root = let_in (one x) (const (int_value (pos 5))) place (some integer)

abbrev found : Substs
found = (text "x", three) ∷ (text "y", var x) ∷ []

matched :
    find_template_subst shared equal_constants swap.template place (arg_types swap.template_vars [])
    ≡ ok (some found)
unfolding find_template_subst filter_eq get_filter_term sname_eq text_eq subexps_no_binds lookup
    insert accepts type_of combine_substs can_accept_value_of_type
matched = refl

find_template_subst_sound_example :
    Covers found (free_vars swap.template)
    × AreUntupled found
    × ((env : Env ℕ) → eval sums place env ≡ eval sums swap.template (over sums found env))
find_template_subst_sound_example =
    find_template_subst_sound python sums const_eq (λ t u f. refl) swap.template place
      (arg_types swap.template_vars []) found (unfold is_plain in refl) (unfold is_untupled in refl)
      matched

abbrev ewp : ExprWithPath
ewp = record { root = root; path = let_body ∷ []; expr = place }

one_match :
    parsed_matches shared equal_constants swap (λ s. ok true) ewp (initial_env [])
    ≡ ok (match_of shared equal_constants swap ewp found ∷ [])
unfolding parsed_matches find_template_subst filter_eq get_filter_term sname_eq text_eq
    subexps_no_binds lookup insert accepts type_of combine_substs can_accept_value_of_type
one_match = refl

parsed_matches_sound_example :
    (s : Substs) × (find_template_subst shared equal_constants swap.template place
        (arg_types swap.template_vars [])
      ≡ ok (some s))
    × ((new : Expr)
        → apply_here shared equal_constants swap s zero_const place ≡ ok new
        → Keeps sums root (match_of shared equal_constants swap ewp found))
parsed_matches_sound_example =
    parsed_matches_sound python sums const_eq (λ t u f. refl) swap (λ s. ok true) root place
      (let_body ∷ []) (initial_env []) (match_of shared equal_constants swap ewp found ∷ [])
      (match_of shared equal_constants swap ewp found) (unfold is_plain in refl)
      (unfold is_plain in refl) swap-valid (unfold is_untupled in refl)
      (unfold get_path get in refl) one_match (Memᴰ.head refl)

filled : subst_pattern swap.replacement found ≡ ok (sum (var x) three)
unfolding subst_pattern lookup text_eq retype type_of contains_any
filled = refl

found-AreUntupled : AreUntupled found
unfolding lookup is_untupled
found-AreUntupled name e at = first (text_eq (text "x") name) at
  where
    second : (b : Bool) → (if b then some (var x) else none) ≡ some e → is_untupled e ≡ true
    second true h = let same : var x ≡ e = cc h in rw (← same) refl
    second false h = cc h

    first :
        (b : Bool)
        → (if b then some three else if text_eq (text "y") name then some (var x) else none)
          ≡ some e
        → is_untupled e ≡ true
    first true h = let same : three ≡ e = cc h in rw (← same) refl
    first false h = second (text_eq (text "y") name) h

subst_pattern_sound_example :
    (is_untupled (sum (var x) three) ≡ true)
    × ((env : Env ℕ)
        → eval sums (sum (var x) three) env ≡ eval sums swap.replacement (over sums found env))
subst_pattern_sound_example =
    subst_pattern_sound sums swap.replacement found (sum (var x) three) (unfold is_plain in refl)
      found-AreUntupled filled

-- The applicator turns (add 3 x) into (add x 3).
swapped : apply_here shared equal_constants swap found zero_const place ≡ ok (sum (var x) three)
unfolding apply_here subst_pattern lookup text_eq retype type_of contains_any are_alpha_equivalent
    alpha_helper filter_eq get_filter_term sname_eq equal_constants vars_equal type_eq shared
swapped = refl

abbrev untyped : Expr
untyped = call (plain (text "eq")) (arg three (arg three no_args)) none

abbrev compared : Expr
compared = call (plain (text "eq")) (arg three (arg three no_args)) (some bool)

typed_sum : type_propagate untyped (record { var_types = []; fun_types = [] }) true ≡ ok compared
unfolding type_propagate type_of typed_call make_tuple_if_many prim_lookup text_eq
    mangle_without_type type_eq
typed_sum = refl

type_propagate-Kept_example : Kept sums untyped compared
type_propagate-Kept_example =
    type_propagate-Kept sums untyped [] true compared (unfold is_untupled in refl) typed_sum
