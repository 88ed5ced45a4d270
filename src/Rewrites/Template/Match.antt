-- ===== src/Rewrites/Template/Match.antt =====
-- src/python/ksc/rewrites.py, `find_template_subst`: an expression that matches a template without
-- binders means what the template means under the substitution.
use knossos_ksc.Base.{◌≡◌, refl, ap, ◌∙◌, true, Option, none, some, [], ◌∷◌, inl, inr, Bool-cases}
use knossos_ksc.Base.Text.{Text, text_eq, text_eq_comm, text_eq→eq}
use knossos_ksc.Base.Result.{ok, >>=-eq-ok}
use knossos_ksc.Base.Assoc.{text_key, lookup, insert, lookup-insert}
use knossos_ksc.Expr.{Expr, is_untupled}
use knossos_ksc.Alpha.{are_alpha_equivalent}
use knossos_ksc.Alpha.Same.{Python}
use knossos_ksc.Alpha.Sound.{and_then-true}
use knossos_ksc.Subst.{Substs}
use knossos_ksc.Rewrites.Template.{update_all, common_equivalent, combine_substs, same_value}

-- The keys of a dictionary are distinct.
abbrev pub Distinct : Substs → Type 0
Distinct [] = Unit {0}
Distinct ((x, e) ∷ s) = (lookup x s ≡ none) × Distinct s

abbrev pub or_else : Option Expr → Option Expr → Option Expr
or_else none o = o
or_else (some e) o = some e

-- An updated dictionary has the later values.
pub lookup-update_all :
    (y : Text) (s1 s2 : Substs)
    → Distinct s2
    → lookup y (update_all s1 s2) ≡ or_else (lookup y s2) (lookup y s1)
unfolding lookup
lookup-update_all y s1 [] d = refl
lookup-update_all y s1 ((x, e) ∷ s2) (fresh, d) = elim (Bool-cases (text_eq x y)) [
  | inl h ↦
      let gone : lookup y s2 ≡ none = rw (text_eq→eq x y h) at fresh in
      rw h (lookup-update_all y (insert x e s1) s2 d ∙ rw (gone, lookup-insert x y e s1, h) refl)
  | inr h ↦ rw h (lookup-update_all y (insert x e s1) s2 d ∙ rw (lookup-insert x y e s1, h) refl)
]

Distinct-insert : (x : Text) (e : Expr) (s : Substs) → Distinct s → Distinct (insert x e s)
unfolding lookup insert
Distinct-insert x e [] d = (refl, tt)
Distinct-insert x e ((k, v) ∷ s) (fresh, d) = elim (Bool-cases (text_eq k x)) [
  | inl h ↦ rw h (fresh, d)
  | inr h ↦ rw h (lookup-insert x k e s ∙ rw (text_eq_comm x k, h) fresh, Distinct-insert x e s d)
]

pub Distinct-update_all : (s1 s2 : Substs) → Distinct s1 → Distinct (update_all s1 s2)
Distinct-update_all s1 [] d = d
Distinct-update_all s1 ((x, e) ∷ s2) d =
    Distinct-update_all (insert x e s1) s2 (Distinct-insert x e s1 d)

-- The values of a substitution have lets of single variables.
abbrev pub AreUntupled : Substs → Type 0
AreUntupled s = (y : Text) (e : Expr) → lookup y s ≡ some e → is_untupled e ≡ true

module _ (py : Python) where
  pub common_equivalent-at :
      (s1 s2 : Substs) (y : Text) (e e' : Expr)
      → common_equivalent py.same py.equal s1 s2 ≡ ok true
      → lookup y s1 ≡ some e
      → lookup y s2 ≡ some e'
      → are_alpha_equivalent py.same py.equal e e' ≡ ok true
  unfolding common_equivalent lookup
  common_equivalent-at [] s2 y e e' h at at' = cc at
  common_equivalent-at ((x, f) ∷ s1) s2 y e e' h at at' =
      let (first, rest) = and_then-true (same_value py.same py.equal f (lookup x s2)) _ h in
      elim (Bool-cases (text_eq x y)) [
        | inl k ↦ let same : f ≡ e = cc (rw k at at) in rw (text_eq→eq x y k, at', same) at first
        | inr k ↦ common_equivalent-at s1 s2 y e e' rest (rw k at at) at'
      ]

  -- What a combination that succeeds is.
  pub combine_substs-ok :
      (s1 d : Substs) (found : Option Substs)
      → combine_substs py.same py.equal s1 found ≡ ok (some d)
      → (s2 : Substs) × (found ≡ some s2)
        × (update_all s1 s2 ≡ d)
        × (common_equivalent py.same py.equal s1 s2 ≡ ok true)
  unfolding combine_substs
  combine_substs-ok s1 d none h = cc h
  combine_substs-ok s1 d (some s2) h =
      let (same, run, rest) = >>=-eq-ok (common_equivalent py.same py.equal s1 s2) _ h in
      elim (Bool-cases same) [
        | inl t ↦ (s2, refl, cc (rw t at rest), run ∙ ap ok t)
        | inr f ↦ cc (rw f at rest)
      ]
