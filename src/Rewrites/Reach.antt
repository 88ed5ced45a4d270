-- ===== src/Rewrites/Reach.antt =====
-- src/python/ksc/rewrites.py, `_matches_with_env`: the places that the traversal visits, as steps
-- down the expression, and what the environment of a place says of the lets around it.
use knossos_ksc.Base.{
  ◌≡◌, refl, sym, ap, ◌∙◌, Bool, true, false, ◌||◌, not, Option, none, some, [], ◌∷◌, ◌++◌, any,
  Bool-cases, inl, inr, append_assoc, if◌then◌else◌, ||-left_false, ||-right_false,
}
use knossos_ksc.Base.Text.{Text, text_eq, text_eq→eq, text_eq_comm}
use knossos_ksc.Base.Result.{Result, ok, err, >>=-eq-ok}
use knossos_ksc.Base.Assoc.{Dict, text_key, lookup, lookup-insert, lookup-keep}
use knossos_ksc.Names.{StructuredName}
use knossos_ksc.Types.Defs.{KsType}
use knossos_ksc.Expr.{Var, Binder, one, binder_vars, Expr, lam, let_in, Def}
use knossos_ksc.Paths.{
  ExprPath, PathElement, let_rhs, let_body, lam_body, get, get_path, get_path-append,
}
use knossos_ksc.Rewrites.{Environment, bind_location, discard, initial_env}

abbrev pub is_binding : Expr → Bool
is_binding (lam x body t) = true
is_binding (let_in b rhs body t) = true
is_binding _ = false

-- A place: an expression, its path and its environment. `Reach s q v e p u` is the steps from the
-- place of e down to that of s.
pub data Reach (s : Expr) (q : ExprPath) (v : Environment)
    : Expr → ExprPath → Environment → Type 0 where
  stop : Reach s q v s q v
  rhs :
      {b : Binder} {r e : Expr} {t : Option KsType} {p : ExprPath} {u : Environment}
      → Reach s q v r (p ++ let_rhs ∷ []) u
      → Reach s q v (let_in b r e t) p u
  body :
      {x : Var} {r e : Expr} {t : Option KsType} {p : ExprPath} {u : Environment}
      → Reach s q v e (p ++ let_body ∷ []) (bind_location x.name p u)
      → Reach s q v (let_in (one x) r e t) p u
  under_lam :
      {x : Var} {e : Expr} {t : Option KsType} {p : ExprPath} {u : Environment}
      → Reach s q v e (p ++ lam_body ∷ []) (discard x.name u)
      → Reach s q v (lam x e t) p u
  child :
      {e : Expr} (a : PathElement) {c : Expr} {p : ExprPath} {u : Environment}
      → is_binding e ≡ false
      → get a e ≡ ok c
      → Reach s q v c (p ++ a ∷ []) u
      → Reach s q v e p u

-- Whether the step binds the name.
unfoldable pub binds_here : Text → PathElement → Expr → Bool
binds_here x let_body (let_in b r e t) = any (λ y. text_eq y.name x) (binder_vars b)
binds_here x lam_body (lam y e t) = text_eq y.name x
binds_here x _ _ = false

-- Whether some binder on the way down the path binds the name.
unfoldable pub shadowed : Text → ExprPath → Expr → Bool
unfolding binds_here
shadowed x [] e = false
shadowed x (a ∷ p) e = elim (get a e) [ err k ↦ false | ok c ↦ binds_here x a e || shadowed x p c ]

-- The path goes through the body of a let at the location, which binds the name, and no binder
-- further down the path does.
abbrev pub LetAt : Expr → Text → ExprPath → ExprPath → Type 0
LetAt root x location path =
    (rest : ExprPath) × (y : Var) × (r : Expr) × (e : Expr) × (t : Option KsType) × (path
      ≡ location ++ let_body ∷ rest)
    × (get_path location root ≡ ok (let_in (one y) r e t))
    × (y.name ≡ x)
    × (shadowed x rest e ≡ false)

-- The environment of the place at the path says where the variables of the lets around are bound.
abbrev pub IsSituated : Expr → Expr → ExprPath → Environment → Type 0
IsSituated root e path env =
    (get_path path root ≡ ok e)
    × ((x : Text) (location : ExprPath)
        → lookup x env.let_vars ≡ some location
        → LetAt root x location path)

shadowed-snoc :
    (x : Text) (p : ExprPath) (a : PathElement) (e c : Expr)
    → get_path p e ≡ ok c
    → shadowed x p e ≡ false
    → binds_here x a c ≡ false
    → shadowed x (p ++ a ∷ []) e ≡ false
unfolding shadowed get_path
shadowed-snoc x [] a e c g h k = let same : e ≡ c = cc g in last (get a e) (rw (← same) at k)
  where
    last :
        (r : Result Expr)
        → binds_here x a e ≡ false
        → (elim r [ err k ↦ false | ok c ↦ binds_here x a e || false ]) ≡ false
    last (err k) n = refl
    last (ok f) n = rw n refl
shadowed-snoc x (d ∷ p) a e c g h k =
    let (f, got, rest) = >>=-eq-ok (get d e) (get_path p) g in
    let (here, below) = parts f (rw (got, shadowed) at h) in
    rw (got, shadowed, here) (shadowed-snoc x p a f c rest below k)
  where
    parts :
        (f : Expr)
        → (binds_here x d e || shadowed x p f) ≡ false
        → (binds_here x d e ≡ false) × (shadowed x p f ≡ false)
    parts f n = (||-left_false _ _ n, ||-right_false (binds_here x d e) _ n)

get_path-snoc :
    (p : ExprPath) (a : PathElement) (root e c : Expr)
    → get_path p root ≡ ok e
    → get a e ≡ ok c
    → get_path (p ++ a ∷ []) root ≡ ok c
unfolding get_path
get_path-snoc p a root e c g h = get_path-append p (a ∷ []) root ∙ rw (g, h) refl

-- A let around a place is around the places below, unless the step binds the name again.
LetAt-snoc :
    (root e : Expr) (x : Text) (location p : ExprPath) (a : PathElement)
    → get_path p root ≡ ok e
    → binds_here x a e ≡ false
    → LetAt root x location p
    → LetAt root x location (p ++ a ∷ [])
unfolding get_path get
LetAt-snoc root e x location p a g free (rest, y, r, f, t, split, at, name, clear) =
    let within : get_path rest f ≡ ok e =
      sym (get_path-append location (let_body ∷ rest) root ∙ rw at refl) ∙ rw split at g in
    (
      rest ++ a ∷ [],
      y,
      r,
      f,
      t,
      ap (λ l. l ++ a ∷ []) split ∙ append_assoc location (let_body ∷ rest) (a ∷ []),
      at,
      name,
      shadowed-snoc x rest a f e within clear free,
    )

-- A step that binds nothing keeps the environment.
IsSituated-step :
    (root e c : Expr) (p : ExprPath) (a : PathElement) (u : Environment)
    → get a e ≡ ok c
    → ((x : Text) → binds_here x a e ≡ false)
    → IsSituated root e p u
    → IsSituated root c (p ++ a ∷ []) u
IsSituated-step root e c p a u got free (g, lets) = (
  get_path-snoc p a root e c g got,
  λ x location found. LetAt-snoc root e x location p a g (free x) (lets x location found),
)

binds_here-child :
    (a : PathElement) (e : Expr) (x : Text) → is_binding e ≡ false → binds_here x a e ≡ false
unfolding binds_here
binds_here-child let_body (let_in b r d t) x h = cc h
binds_here-child lam_body (lam y d t) x h = cc h
binds_here-child _ _ x h = refl

kept :
    (x : Var) (y : Text) (u : Environment)
    → lookup y (discard x.name u).let_vars
      ≡ (if text_eq x.name y then none else lookup y u.let_vars)
kept x y u =
    lookup-keep (λ k. not (text_eq k x.name)) y u.let_vars
    ∙ rw (text_eq_comm y x.name) (swapped (text_eq x.name y))
  where
    swapped :
        (b : Bool)
        → (if not b then lookup y u.let_vars else none) ≡ (if b then none else lookup y u.let_vars)
    swapped true = refl
    swapped false = refl

module _ (root : Expr) where
  IsSituated-body :
      (x : Var) (r e : Expr) (t : Option KsType) (p : ExprPath) (u : Environment)
      → IsSituated root (let_in (one x) r e t) p u
      → IsSituated root e (p ++ let_body ∷ []) (bind_location x.name p u)
  unfolding get binds_here shadowed
  IsSituated-body x r e t p u (g, lets) = (
    get_path-snoc p let_body root (let_in (one x) r e t) e g refl,
    λ y location found. elim (Bool-cases (text_eq x.name y)) [
      | inl same ↦
          let at : p ≡ location = cc (rw (lookup-insert x.name y p u.let_vars, same) at found) in
          ([], x, r, e, t, rw at refl, rw at at g, text_eq→eq x.name y same, refl)
      | inr other ↦
          LetAt-snoc root (let_in (one x) r e t) y location p let_body g (rw other refl)
            (lets y location (rw (lookup-insert x.name y p u.let_vars, other) at found))
    ],
  )

  IsSituated-lam :
      (x : Var) (e : Expr) (t : Option KsType) (p : ExprPath) (u : Environment)
      → IsSituated root (lam x e t) p u
      → IsSituated root e (p ++ lam_body ∷ []) (discard x.name u)
  unfolding get binds_here shadowed
  IsSituated-lam x e t p u (g, lets) = (
    get_path-snoc p lam_body root (lam x e t) e g refl,
    λ y location found. elim (Bool-cases (text_eq x.name y)) [
      | inl same ↦ cc (rw (kept x y u, same) at found)
      | inr other ↦
          LetAt-snoc root (lam x e t) y location p lam_body g other
            (lets y location (rw (kept x y u, other) at found))
    ],
  )

  -- Whatever place the traversal reaches from a place is in its root at its path, and its
  -- environment is true of it.
  Reach-IsSituated :
      {s : Expr} {q : ExprPath} {v : Environment} {e : Expr} {p : ExprPath} {u : Environment}
      → IsSituated root e p u
      → Reach s q v e p u
      → IsSituated root s q v
  unfolding get binds_here
  Reach-IsSituated i stop = i
  Reach-IsSituated {p = p} {u = u} i (rhs {b} {r} {e} {t} steps) =
      Reach-IsSituated (IsSituated-step root (let_in b r e t) r p let_rhs u refl (λ x. refl) i)
        steps
  Reach-IsSituated {p = p} {u = u} i (body {x} {r} {e} {t} steps) =
      Reach-IsSituated (IsSituated-body x r e t p u i) steps
  Reach-IsSituated {p = p} {u = u} i (under_lam {x} {e} {t} steps) =
      Reach-IsSituated (IsSituated-lam x e t p u i) steps
  Reach-IsSituated {p = p} {u = u} i (child {e} a {c} plain got steps) =
      Reach-IsSituated (IsSituated-step root e c p a u got (λ x. binds_here-child a e x plain) i)
        steps

-- Every place that the traversal reaches is the sub-expression of the root at its path; and each
-- name that its environment holds is bound by the let at the location, whose body the path goes
-- through, with no binder of the name further down.
pub Reach-root :
    (root s : Expr) (q : ExprPath) (v : Environment) (defs : Dict StructuredName Def)
    → Reach s q v root [] (initial_env defs)
    → IsSituated root s q v
unfolding get_path lookup
Reach-root root s q v defs steps = Reach-IsSituated root (refl, λ x location found. cc) steps
