-- ===== src/Subst/Step.antt =====
-- src/python/ksc/cav_subst.py: renaming one binder keeps the meaning of what stands under it.
use knossos_ksc.Base.{
  ◌≡◌, refl, sym, ap, ◌∙◌, true, false, not, Option, none, some, List, [], ◌∷◌, ◌++◌, any-append,
  Bool-cases, inl, inr, ||-left_false, ||-right_false,
}
use knossos_ksc.Base.Text.{Text, text_eq, text_eq_refl, text_eq_comm, text_eq→eq, elem}
use knossos_ksc.Base.Assoc.{text_key, lookup, insert, keep, lookup-insert, lookup-keep}
use knossos_ksc.Expr.{Var, Expr, var, free_vars}
use knossos_ksc.Expr.Meaning.{Meaning, Env, update, eval, Agree, eval-Agree}
use knossos_ksc.Fresh.{make_nonfree_var, make_nonfree_var_lem, taken}
use knossos_ksc.Subst.{Substs, values, relevant, rename_if_needed}

-- The names of the one list that the binder does not bind are free in it.
abbrev pub FreeIn : Expr → Text → List Text → Type 0
FreeIn binder x ys =
    (y : Text) → elem y ys ≡ true → text_eq x y ≡ false → elem y (free_vars binder) ≡ true

distinct :
    (x y : Text) (xs : List Text) → elem y xs ≡ true → elem x xs ≡ false → text_eq x y ≡ false
distinct x y xs h k = elim (Bool-cases (text_eq x y)) [
  | inl e ↦ absurd (true_ne (rw (text_eq→eq x y e, h) at k))
  | inr e ↦ e
]
  where
    true_ne : true ≡ false → ⊥
    true_ne e = cc

not-elem-value :
    (s : Substs) (x y : Text) (r : Expr)
    → lookup y s ≡ some r
    → taken (values s) x ≡ false
    → elem x (free_vars r) ≡ false
unfolding lookup
not-elem-value [] x y r h k = cc
not-elem-value ((z, e) ∷ s) x y r h k = elim (Bool-cases (text_eq z y)) [
  | inl p ↦ let same : e ≡ r = cc (rw p at h) in rw (← same) (||-left_false _ _ k)
  | inr p ↦ not-elem-value s x y r (rw p at h) (||-right_false (elem x (free_vars e)) _ k)
]

taken-right :
    (loads : List Expr) (s : Substs) (t : Text)
    → taken (loads ++ values s) t ≡ false
    → taken (values s) t ≡ false
taken-right loads s t p =
    ||-right_false (taken loads t) _
      (sym (any-append (λ e. elem t (free_vars e)) loads (values s)) ∙ p)

module _ {V : Type 0} (m : Meaning V) where
  abbrev pub resolve : Option Expr → Env V → V → V
  resolve (some r) env v = eval m r env
  resolve none env v = v

  -- The environment in which the substituted names mean what their expressions mean in `env`.
  abbrev pub over : Substs → Env V → Env V
  over s env y = resolve (lookup y s) env (env y)

  eval-update :
      (e : Expr) (x : Text) (v : V) (env : Env V)
      → elem x (free_vars e) ≡ false
      → eval m e (update env x v) ≡ eval m e env
  eval-update e x v env h =
      eval-Agree m e (update env x v) env (λ y used. rw (distinct x y (free_vars e) used h))

  pub relevant-Agree :
      (e : Expr) (s : Substs) (env : Env V)
      → Agree (free_vars e) (over (relevant e s) env) (over s env)
  unfolding relevant
  relevant-Agree e s env y h =
      ap (λ o. resolve o env (env y)) (lookup-keep (λ x. elem x (free_vars e)) y s ∙ rw h refl)

  resolve-update :
      (o : Option Expr) (x y : Text) (v : V) (env : Env V)
      → text_eq x y ≡ false
      → ((r : Expr) → o ≡ some r → elem x (free_vars r) ≡ false)
      → resolve o (update env x v) (update env x v y) ≡ resolve o env (env y)
  resolve-update none x y v env ne unused = rw ne
  resolve-update (some r) x y v env ne unused = eval-update r x v env (unused r refl)

  insert-Agree :
      (x nv : Var) (binder : Expr) (s : Substs) (ys : List Text)
      → FreeIn binder x.name ys
      → elem nv.name (free_vars binder) ≡ false
      → taken (values s) nv.name ≡ false
      → (env : Env V) (v : V)
      → Agree ys
          (over (insert x.name (var nv) s) (update env nv.name v))
          (update (over s env) x.name v)
  unfolding eval
  insert-Agree x nv binder s ys free fresh unused env v y h = elim (Bool-cases (text_eq x.name y)) [
    | inl e ↦ rw (lookup-insert x.name y (var nv) s, e, text_eq_refl nv.name) refl
    | inr e ↦
        rw (lookup-insert x.name y (var nv) s, e)
          (resolve-update (lookup y s) nv.name y v env
            (distinct nv.name y (free_vars binder) (free y h e) fresh)
            (λ r p. not-elem-value s nv.name y r p unused))
  ]

  keep-Agree :
      (x : Var) (s : Substs) (ys : List Text)
      → taken (values s) x.name ≡ false
      → (env : Env V) (v : V)
      → Agree ys
          (over (keep (λ k. not (text_eq k x.name)) s) (update env x.name v))
          (update (over s env) x.name v)
  keep-Agree x s ys unused env v y h = elim (Bool-cases (text_eq x.name y)) [
    | inl e ↦ rw (lookup-keep (λ k. not (text_eq k x.name)) y s, text_eq_comm y x.name, e) refl
    | inr e ↦
        rw (lookup-keep (λ k. not (text_eq k x.name)) y s, text_eq_comm y x.name)
          (rw e (
            rw e at (
              resolve-update (lookup y s) x.name y v env e
                (λ r p. not-elem-value s x.name y r p unused))))
  ]

  -- Under the renamed binder, with the new substitution, each name means what it means under the
  -- old binder with the old substitution.
  pub rename_if_needed-Agree :
      (x : Var) (binder : Expr) (loads : List Expr) (s : Substs) (ys : List Text)
      → FreeIn binder x.name ys
      → (env : Env V) (v : V)
      → let new = rename_if_needed x binder loads s in
        Agree ys (over new.1 (update env new.0.name v)) (update (over s env) x.name v)
  unfolding rename_if_needed
  rename_if_needed-Agree x binder loads s ys free env v =
      elim (Bool-cases (taken (loads ++ values s) x.name)) [
        | inl used ↦
            let fresh = (make_nonfree_var_lem x.name (binder ∷ (loads ++ values s)) x.type_).0 in
            let nv = make_nonfree_var x.name (binder ∷ (loads ++ values s)) x.type_ in
            rw used (
              insert-Agree x nv binder s ys free (||-left_false _ _ fresh)
                (taken-right loads s nv.name
                  (||-right_false (elem nv.name (free_vars binder)) _ fresh))
                env v)
        | inr unused ↦ rw unused (keep-Agree x s ys (taken-right loads s x.name unused) env v)
      ]
