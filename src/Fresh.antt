-- ===== src/Fresh.antt =====
-- src/python/ksc/cav_subst.py: `make_nonfree_var`, the choice of a name that no given expression
-- has free. The source counts up without bound; the model's fuel is the number of the free
-- variables and one more, which `make_nonfree_var_lem` shows to be enough.
use knossos_ksc.Base.{
  ℕ, zero, suc, ◌+◌, ◌≤◌, ◌<◌, ◌≡◌, refl, ap, ◌∙◌, sym, inl, inr, Bool, true, false, ◌||◌, List, [],
  ◌∷◌, ◌++◌, Option, none, some, arith, if◌then◌else◌, length, any, Bool-cases,
}
use knossos_ksc.Base.Text.{Text, text, text_eq, text_eq_ne, elem, elem-append, remove, elem-remove}
use knossos_ksc.Base.Decimal.{print, print-injective}
use knossos_ksc.Types.Defs.{KsType}
use knossos_ksc.Expr.{Expr, Var, free_vars}

-- Whether one of the expressions has the name free.
abbrev pub taken : List Expr → Text → Bool
taken exprs name = any (λ e. elem name (free_vars e)) exprs

abbrev candidate : Text → ℕ → Text
candidate prefix idx = prefix ++ (text "_" ++ print idx)

first_free : ℕ → ℕ → Text → List Expr → Option Text
first_free zero idx prefix exprs = none
first_free (suc fuel) idx prefix exprs =
    let next = first_free fuel (idx + 1) prefix exprs in
    if taken exprs (candidate prefix idx) then next else some (candidate prefix idx)

all_free : List Expr → List Text
all_free [] = []
all_free (e ∷ es) = free_vars e ++ all_free es

abbrev or_first : Option Text → Text → Text
or_first none t = t
or_first (some s) t = s

unfoldable pub make_nonfree_var : Text → List Expr → Option KsType → Var
unfolding first_free all_free
make_nonfree_var prefix exprs type = record {
  name = or_first (first_free (suc (length (all_free exprs))) 0 prefix exprs) (candidate prefix 0);
  type_ = type;
}

elem-all_free : (es : List Expr) (x : Text) → taken es x ≡ elem x (all_free es)
unfolding all_free
elem-all_free [] x = refl
elem-all_free (e ∷ es) x =
    ap (λ b. elem x (free_vars e) || b) (elem-all_free es x)
    ∙ sym (elem-append x (free_vars e) (all_free es))

append_cancel : (p s t : Text) → p ++ s ≡ p ++ t → s ≡ t
append_cancel [] s t h = h
append_cancel (c ∷ p) s t h = append_cancel p s t (cc)

candidate-injective : (prefix : Text) (i j : ℕ) → candidate prefix i ≡ candidate prefix j → i ≡ j
candidate-injective prefix i j h =
    let numeral : print i ≡ print j = cc (append_cancel prefix _ _ h) in print-injective i j numeral

length-remove-le : (x : Text) (xs : List Text) → length (remove x xs) ≤ length xs
unfolding remove
length-remove-le x [] = omega arith
length-remove-le x (y ∷ ys) = ground (arith, length-remove-le x ys)

length-remove-lt : (x : Text) (xs : List Text) → elem x xs ≡ true → length (remove x xs) < length xs
unfolding remove
length-remove-lt x [] h = cc
length-remove-lt x (y ∷ ys) h = elim (Bool-cases (text_eq x y)) [
  | inl e ↦ rw e (omega (arith, length-remove-le x ys))
  | inr e ↦ let ih = length-remove-lt x ys (rw e at h) in rw e (omega arith)
]

-- The names that may still be taken, from `idx` on, all stand in `left`.
abbrev Covers : Text → List Expr → ℕ → List Text → Type 0
Covers prefix exprs idx left =
    (j : ℕ)
    → idx ≤ j
    → taken exprs (candidate prefix j) ≡ true
    → elem (candidate prefix j) left ≡ true

Covers-step :
    (prefix : Text) (exprs : List Expr) (idx : ℕ) (left : List Text)
    → Covers prefix exprs idx left
    → Covers prefix exprs (idx + 1) (remove (candidate prefix idx) left)
Covers-step prefix exprs idx left h j later used =
    elem-remove (candidate prefix j) (candidate prefix idx) left
    ∙ rw
        (
          h j (omega arith) used,
          text_eq_ne (candidate prefix j) (candidate prefix idx)
              (λ e. absurd (omega (arith, candidate-injective prefix j idx e))),
        )
        refl

first_free_total :
    (fuel idx : ℕ) (prefix : Text) (exprs : List Expr) (left : List Text)
    → Covers prefix exprs idx left
    → length left < fuel
    → (t : Text) × (first_free fuel idx prefix exprs ≡ some t) × (taken exprs t ≡ false)
unfolding first_free
first_free_total zero idx prefix exprs left h room = absurd (omega arith)
first_free_total (suc fuel) idx prefix exprs left h room =
    elim (Bool-cases (taken exprs (candidate prefix idx))) [
      | inl used ↦
          let shorter = length-remove-lt (candidate prefix idx) left (h idx (omega arith) used) in
          rw used (
            first_free_total fuel (idx + 1) prefix exprs (remove (candidate prefix idx) left)
              (Covers-step prefix exprs idx left h) (omega arith))
      | inr free ↦ (candidate prefix idx, rw free, free)
    ]

-- The chosen variable is free in none of the expressions: the search ends, within the number of
-- their free variables and one more.
pub make_nonfree_var_lem :
    (prefix : Text) (exprs : List Expr) (type : Option KsType)
    → (taken exprs (make_nonfree_var prefix exprs type).name ≡ false)
      × ((make_nonfree_var prefix exprs type).type_ ≡ type)
unfolding make_nonfree_var
make_nonfree_var_lem prefix exprs type =
    let (t, found, free) =
      first_free_total (suc (length (all_free exprs))) 0 prefix exprs (all_free exprs)
        (λ j _ used. sym (elem-all_free exprs (candidate prefix j)) ∙ used) (omega arith) in
    (rw found free, refl)
