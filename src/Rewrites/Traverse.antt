-- ===== src/Rewrites/Traverse.antt =====
-- src/python/ksc/rewrites.py, `find_all_matches`: it yields what the matcher yields at the places
-- of the expression.
use knossos_ksc.Base.{
  ℕ, zero, suc, ◌+◌, ◌≡◌, refl, sym, subst, ◌∙◌, true, false, List, [], ◌∷◌, ◌++◌, arith, Memᴰ, ◌⊎◌,
  inl, inr, get_elem?, some,
}
use mathlib.Core.List.Memᴰ
use knossos_ksc.Base.Result.{Result, ok}
use knossos_ksc.Names.{StructuredName}
use knossos_ksc.Base.{Option}
use knossos_ksc.Types.Defs.{KsType}
use knossos_ksc.Expr.{
  Var, one, Expr, Exprs, call, lam, let_in, if_else, assert, arg, args_list, is_untupled,
}
use knossos_ksc.Paths.{
  ExprPath, PathElement, let_rhs, let_body, lam_body, if_cond, if_t_body, if_f_body, assert_cond,
  assert_body, call_arg, get, nth_arg-ok,
}
use knossos_ksc.Rewrites.{Environment, Match, Matcher, and_also, here, bind_location, discard}
use knossos_ksc.Rewrites.Reach.{Reach, stop, rhs, body, under_lam, child, is_binding}

-- The matcher succeeds at every place whose lets bind single variables.
abbrev pub Runs : Matcher → Expr → Type 0
Runs m root =
    (e : Expr) (p : ExprPath) (v : Environment)
    → is_untupled e ≡ true
    → (ms : List Match) × (here m root p e v ≡ ok ms)

module _ (m : Matcher) (root : Expr) where
  -- The match is found at a place that the traversal reaches from this one.
  abbrev pub Found : Match → Expr → ExprPath → Environment → Type 0
  Found x e p u =
      (s : Expr) × (q : ExprPath) × (v : Environment) × (ms : List Match) × Reach s q v e p u
      × (here m root q s v ≡ ok ms)
      × Memᴰ x ms

  -- The generator succeeds, and yields exactly the matches with the property.
  abbrev pub Collected : Result (List Match) → (Match → Type 0) → Type 0
  Collected r P =
      (ms : List Match) × (r ≡ ok ms)
      × ((x : Match) → Memᴰ x ms → P x)
      × ((x : Match) → P x → Memᴰ x ms)

  abbrev pub Here : Expr → ExprPath → Environment → Match → Type 0
  Here e p u x = (ms : List Match) × (here m root p e u ≡ ok ms) × Memᴰ x ms

  pub Collected-here :
      Runs m root
      → (e : Expr) (p : ExprPath) (u : Environment) → is_untupled e ≡ true
      → Collected (here m root p e u) (Here e p u)
  Collected-here runs e p u h =
      let (ms, run) = runs e p u h in
      (
        ms,
        run,
        (λ x at. (ms, run, at)),
        λ x (ns, again, at). subst (Memᴰ x) (same (sym again ∙ run)) at,
      )
    where
      same : {ms ns : List Match} → ok ms ≡ ok ns → ms ≡ ns
      same h = cc h

  -- One generator and then another.
  pub Collected-also :
      {r s : Result (List Match)} {P Q R : Match → Type 0}
      → Collected r P
      → Collected s Q
      → ((x : Match) → P x ⊎ Q x → R x)
      → ((x : Match) → R x → P x ⊎ Q x)
      → Collected (and_also r s) R
  Collected-also (ms, run, sound, full) (ns, run', sound', full') join split = (
    ms ++ ns,
    rw (run, run') refl,
    λ x at. elim (Memᴰ.append_cases ms at) [
      | inl a ↦ join x (inl (sound x a))
      | inr a ↦ join x (inr (sound' x a))
    ],
    λ x h. elim (split x h) [
      | inl p ↦ Memᴰ.append_left ns (full x p)
      | inr q ↦ Memᴰ.append_right ms (full' x q)
    ],
  )

  pub deeper :
      {x : Match} {e f : Expr} {p r : ExprPath} {u w : Environment}
      → ((s : Expr) (q : ExprPath) (v : Environment) → Reach s q v e p u → Reach s q v f r w)
      → Found x e p u
      → Found x f r w
  deeper step (s, q, v, ms, steps, run, at) = (s, q, v, ms, step s q v steps, run, at)

  pub stopped :
      {x : Match} {e : Expr} {p : ExprPath} {u : Environment} → Here e p u x → Found x e p u
  stopped {x} {e} {p} {u} (ms, run, at) = (e, p, u, ms, stop, run, at)

  -- Where a match in a let is found.
  pub split_let :
      {x : Match} {y : Var} {r e : Expr} {t : Option KsType} {p : ExprPath} {u : Environment}
      → Found x (let_in (one y) r e t) p u
      → Here (let_in (one y) r e t) p u x
        ⊎ (Found x r (p ++ let_rhs ∷ []) u
            ⊎ Found x e (p ++ let_body ∷ []) (bind_location y.name p u))
  split_let (s, q, v, ms, stop, run, at) = inl (ms, run, at)
  split_let (s, q, v, ms, rhs steps, run, at) = inr (inl (s, q, v, ms, steps, run, at))
  split_let (s, q, v, ms, body steps, run, at) = inr (inr (s, q, v, ms, steps, run, at))
  split_let (s, q, v, ms, child a plain got steps, run, at) = cc plain

  pub split_lam :
      {x : Match} {y : Var} {e : Expr} {t : Option KsType} {p : ExprPath} {u : Environment}
      → Found x (lam y e t) p u
      → Here (lam y e t) p u x ⊎ Found x e (p ++ lam_body ∷ []) (discard y.name u)
  split_lam (s, q, v, ms, stop, run, at) = inl (ms, run, at)
  split_lam (s, q, v, ms, under_lam steps, run, at) = inr (s, q, v, ms, steps, run, at)
  split_lam (s, q, v, ms, child a plain got steps, run, at) = cc plain

  -- A match in a node that binds nothing is found here or in a child.
  split_child :
      {x : Match} (e : Expr) {p : ExprPath} {u : Environment}
      → is_binding e ≡ false
      → Found x e p u
      → Here e p u x
        ⊎ ((a : PathElement) × (c : Expr) × (get a e ≡ ok c) × Found x c (p ++ a ∷ []) u)
  split_child e plain (s, q, v, ms, stop, run, at) = inl (ms, run, at)
  split_child e plain (s, q, v, ms, rhs steps, run, at) = cc plain
  split_child e plain (s, q, v, ms, body steps, run, at) = cc plain
  split_child e plain (s, q, v, ms, under_lam steps, run, at) = cc plain
  split_child e plain (s, q, v, ms, child a {c} p' got steps, run, at) =
      inr (a, c, got, (s, q, v, ms, steps, run, at))

  pub into :
      {x : Match} {e : Expr} (a : PathElement) {c : Expr} {p : ExprPath} {u : Environment}
      → is_binding e ≡ false
      → get a e ≡ ok c
      → Found x c (p ++ a ∷ []) u
      → Found x e p u
  into a plain got = deeper (λ s q v steps. child a plain got steps)

  pub same_child :
      {x : Match} {c f : Expr} {q : ExprPath} {u : Environment}
      → c ≡ f
      → Found x f q u
      → Found x c q u
  same_child {x} {q = q} {u = u} e g = subst (λ c. Found x c q u) (sym e) g

  abbrev pub InArgs : Match → Exprs → ExprPath → ℕ → Environment → Type 0
  InArgs x es p k u =
      (n : ℕ) × (c : Expr) × (get_elem? (args_list es) n ≡ some c)
      × Found x c (p ++ call_arg (k + n) ∷ []) u

  pub join_args :
      (x : Match) (e : Expr) (es : Exprs) (p : ExprPath) (k : ℕ) (u : Environment)
      → Found x e (p ++ call_arg k ∷ []) u ⊎ InArgs x es p (suc k) u
      → InArgs x (arg e es) p k u
  join_args x e es p k u (inl f) =
      let first : k ≡ k + 0 = omega arith in
      (0, e, refl, subst (λ i. Found x e (p ++ call_arg i ∷ []) u) first f)
  join_args x e es p k u (inr (n, c, at, f)) =
      let shift : suc k + n ≡ k + suc n = omega arith in
      (suc n, c, at, subst (λ i. Found x c (p ++ call_arg i ∷ []) u) shift f)

  pub split_args :
      (x : Match) (e : Expr) (es : Exprs) (p : ExprPath) (k : ℕ) (u : Environment)
      → InArgs x (arg e es) p k u
      → Found x e (p ++ call_arg k ∷ []) u ⊎ InArgs x es p (suc k) u
  split_args x e es p k u (zero, c, at, f) =
      let first : k + 0 ≡ k = omega arith in
      let same : c ≡ e = cc at in
      inl (subst (λ i. Found x e (p ++ call_arg i ∷ []) u) first (same_child (sym same) f))
  split_args x e es p k u (suc n, c, at, f) =
      let shift : k + suc n ≡ suc k + n = omega arith in
      inr (n, c, at, subst (λ i. Found x c (p ++ call_arg i ∷ []) u) shift f)

  pub join_call :
      (x : Match) (f : StructuredName) (es : Exprs) (t : Option KsType) (p : ExprPath)
      (u : Environment)
      → Here (call f es t) p u x ⊎ InArgs x es p 0 u
      → Found x (call f es t) p u
  unfolding get
  join_call x f es t p u (inl h) = stopped h
  join_call x f es t p u (inr (n, c, at, g)) =
      into (call_arg n) refl (rw at refl)
        (subst (λ i. Found x c (p ++ call_arg i ∷ []) u) (omega arith) g)

  pub split_call :
      (x : Match) (f : StructuredName) (es : Exprs) (t : Option KsType) (p : ExprPath)
      (u : Environment)
      → Found x (call f es t) p u
      → Here (call f es t) p u x ⊎ InArgs x es p 0 u
  unfolding get
  split_call x f es t p u found = elim (split_child (call f es t) refl found) [
    | inl h ↦ inl h
    | inr (call_arg n, c, got, g) ↦
        inr (
          n,
          c,
          nth_arg-ok _ c got,
          subst (λ i. Found x c (p ++ call_arg i ∷ []) u) (omega arith) g,
        )
    | inr (_, c, got, g) ↦ cc got
  ]

  pub split_if :
      (x : Match) (c d e : Expr) (t : Option KsType) (p : ExprPath) (u : Environment)
      → Found x (if_else c d e t) p u
      → Here (if_else c d e t) p u x
        ⊎ (Found x c (p ++ if_cond ∷ []) u
            ⊎ (Found x d (p ++ if_t_body ∷ []) u ⊎ Found x e (p ++ if_f_body ∷ []) u))
  unfolding get
  split_if x c d e t p u found = elim (split_child (if_else c d e t) refl found) [
    | inl h ↦ inl h
    | inr (if_cond, f, got, g) ↦ inr (inl (same_child (cc got) g))
    | inr (if_t_body, f, got, g) ↦ inr (inr (inl (same_child (cc got) g)))
    | inr (if_f_body, f, got, g) ↦ inr (inr (inr (same_child (cc got) g)))
    | inr (_, f, got, g) ↦ cc got
  ]

  pub split_assert :
      (x : Match) (c d : Expr) (t : Option KsType) (p : ExprPath) (u : Environment)
      → Found x (assert c d t) p u
      → Here (assert c d t) p u x
        ⊎ (Found x c (p ++ assert_cond ∷ []) u ⊎ Found x d (p ++ assert_body ∷ []) u)
  unfolding get
  split_assert x c d t p u found = elim (split_child (assert c d t) refl found) [
    | inl h ↦ inl h
    | inr (assert_cond, f, got, g) ↦ inr (inl (same_child (cc got) g))
    | inr (assert_body, f, got, g) ↦ inr (inr (same_child (cc got) g))
    | inr (_, f, got, g) ↦ cc got
  ]

  -- A leaf has no children.
  pub split_leaf :
      (x : Match) (e : Expr) (p : ExprPath) (u : Environment)
      → is_binding e ≡ false
      → ((a : PathElement) (c : Expr) → get a e ≡ ok c → ⊥)
      → Found x e p u
      → Here e p u x ⊎ ⊥
  split_leaf x e p u plain none found = elim (split_child e plain found) [
    | inl h ↦ inl h
    | inr (a, c, got, g) ↦ absurd (none a c got)
  ]

  pub join_let :
      (x : Match) (y : Var) (r e : Expr) (t : Option KsType) (p : ExprPath) (u : Environment)
      → Here (let_in (one y) r e t) p u x
        ⊎ (Found x r (p ++ let_rhs ∷ []) u
            ⊎ Found x e (p ++ let_body ∷ []) (bind_location y.name p u))
      → Found x (let_in (one y) r e t) p u
  join_let x y r e t p u (inl h) = stopped h
  join_let x y r e t p u (inr (inl f)) = deeper (λ s q v steps. rhs steps) f
  join_let x y r e t p u (inr (inr f)) = deeper (λ s q v steps. body steps) f

  pub join_lam :
      (x : Match) (y : Var) (e : Expr) (t : Option KsType) (p : ExprPath) (u : Environment)
      → Here (lam y e t) p u x ⊎ Found x e (p ++ lam_body ∷ []) (discard y.name u)
      → Found x (lam y e t) p u
  join_lam x y e t p u (inl h) = stopped h
  join_lam x y e t p u (inr f) = deeper (λ s q v steps. under_lam steps) f

  pub join_if :
      (x : Match) (c d e : Expr) (t : Option KsType) (p : ExprPath) (u : Environment)
      → Here (if_else c d e t) p u x
        ⊎ (Found x c (p ++ if_cond ∷ []) u
            ⊎ (Found x d (p ++ if_t_body ∷ []) u ⊎ Found x e (p ++ if_f_body ∷ []) u))
      → Found x (if_else c d e t) p u
  unfolding get
  join_if x c d e t p u (inl h) = stopped h
  join_if x c d e t p u (inr (inl f)) = into if_cond refl refl f
  join_if x c d e t p u (inr (inr (inl f))) = into if_t_body refl refl f
  join_if x c d e t p u (inr (inr (inr f))) = into if_f_body refl refl f

  pub join_assert :
      (x : Match) (c d : Expr) (t : Option KsType) (p : ExprPath) (u : Environment)
      → Here (assert c d t) p u x
        ⊎ (Found x c (p ++ assert_cond ∷ []) u ⊎ Found x d (p ++ assert_body ∷ []) u)
      → Found x (assert c d t) p u
  unfolding get
  join_assert x c d t p u (inl h) = stopped h
  join_assert x c d t p u (inr (inl f)) = into assert_cond refl refl f
  join_assert x c d t p u (inr (inr f)) = into assert_body refl refl f
