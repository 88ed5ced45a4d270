-- ===== src/Examples/Exprs.antt =====
-- Tests and theorems at an input: fresh names and substitution (src/python/ksc/cav_subst.py).
use knossos_ksc.Base.Decimal.{print}
use knossos_ksc.Base.{ℕ, ◌+◌, ◌≡◌, refl, Bool, true, false, List, [], ◌∷◌, some, none}
use knossos_ksc.Base.Result.{ok}
use knossos_ksc.Base.Text.{text, text_eq, remove}
use knossos_ksc.Base.Assoc.{text_key, lookup, insert, keep}
use knossos_ksc.Types.Defs.{integer}
use knossos_ksc.Base.Int.{pos}
use knossos_ksc.Expr.{Constant, int_value, bool_value, Expr, Var, var, lam, free_vars, is_untupled}
use knossos_ksc.Expr.Meaning.{Meaning, Env, eval, eval-Agree}
use knossos_ksc.Fresh.{make_nonfree_var, make_nonfree_var_lem, taken}
use knossos_ksc.Subst.{Substs, replace_free_vars, rename, rename_if_needed, relevant}
use knossos_ksc.Subst.Step.{over}
use knossos_ksc.Subst.Rename.{eval-replace_free_vars}
use knossos_ksc.Examples.{x, add, let_y, lam_x}

abbrev pub bit : Bool → ℕ
bit true = 1
bit false = 0

-- The number that a constant stands for; 0 for those that are no natural number.
abbrev number : Constant → ℕ
number (int_value (pos n)) = n
number (bool_value b) = bit b
number _ = 0

-- A meaning in numbers: constants are their number, calls add up, a function is its value at 5.
abbrev pub sums : Meaning ℕ
sums = record {
  const_of = number;
  call_of = λ f vs. total vs;
  lam_of = λ t f. f 5;
  part_of = λ i n v. v + i;
  if_of = λ c t f. c + t + f;
  assert_of = λ c b. c + b;
}
  where
    total : List ℕ → ℕ
    total [] = 0
    total (v ∷ vs) = v + total vs

abbrev pub to_y : Substs
to_y = (text "y", add (var x) (var x)) ∷ []

abbrev x_0 : Var
x_0 = record { name = text "x_0"; type_ = some integer }

-- Substituting (add x x) for y under the binder of x renames the binder.
renamed : replace_free_vars lam_x to_y ≡ ok (lam x_0 (add (var x_0) (add (var x) (var x))) none)
unfolding replace_free_vars rename rename_if_needed relevant make_nonfree_var lookup insert keep
    free_vars remove text_eq print
renamed = refl

make_nonfree_var_lem_example :
    (taken (lam_x ∷ let_y ∷ []) (make_nonfree_var (text "y") (lam_x ∷ let_y ∷ []) none).name
      ≡ false)
    × ((make_nonfree_var (text "y") (lam_x ∷ let_y ∷ []) none).type_ ≡ none)
make_nonfree_var_lem_example = make_nonfree_var_lem (text "y") (lam_x ∷ let_y ∷ []) none

eval-Agree_example : eval sums let_y (λ n. 7) ≡ eval sums let_y (λ n. 7)
eval-Agree_example = eval-Agree sums let_y (λ n. 7) (λ n. 7) (λ z h. refl)

eval-replace_free_vars_example :
    (e' : Expr) × (replace_free_vars lam_x to_y ≡ ok e')
    × ((V : Type 0) (m : Meaning V) (env : Env V) → eval m e' env ≡ eval m lam_x (over m to_y env))
eval-replace_free_vars_example = eval-replace_free_vars lam_x to_y (unfold is_untupled in refl)
