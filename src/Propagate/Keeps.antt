-- ===== src/Propagate/Keeps.antt =====
-- src/python/ksc/type_propagate.py: with no functions in the symbol table, giving types to an
-- expression keeps its meaning.
use knossos_ksc.Base.{
  ◌≡◌, refl, ap, ap₂, ◌∙◌, fun_ext, subst, Bool, true, false, Option, none, some, List, [], ◌∷◌,
  inl, inr, ◌⊎◌, &&-left, &&-right, &&-both,
}
use knossos_ksc.Base.Text.{Text}
use knossos_ksc.Base.Result.{
  Result, ok, err, attribute_error, ks_type_error, assertion_error, ◌>>=◌, require, >>=-eq-ok,
}
use knossos_ksc.Base.Assoc.{Dict, text_key, lookup}
use knossos_ksc.Types.Defs.{KsType, known, make_tuple_if_many, tangent_type}
use knossos_ksc.Names.{StructuredName, mangled}
use knossos_ksc.Names.Laws.{sname_key}
use knossos_ksc.Expr.{
  Var, one, many, Expr, Exprs, const, var, call, lam, let_in, if_else, assert, no_args, arg,
  type_of, is_untupled, are_untupled,
}
use knossos_ksc.Expr.Meaning.{Meaning, Env, update, bind, eval, eval_args}
use knossos_ksc.Primitives.{prim_lookup}
use knossos_ksc.Propagate.{
  Symtab, type_propagate, type_propagate_args, unless_typed, typed_call, call_in_symtab, prim_or,
  not_found, types_of, add_type_to_sname, bind_let, bind_var, is_bool, same_type,
}

-- The node is left as it is, or the work is done.
unless_typed-ok :
    (keep : Bool) (e : Expr) (work : Result Expr) (e' : Expr)
    → unless_typed keep e work ≡ ok e'
    → (e ≡ e') ⊎ (work ≡ ok e')
unless_typed-ok false e work e' h = inr h
unless_typed-ok true e work e' h = by_type (type_of e) h
  where
    by_type :
        (o : Option KsType)
        → (elim o [ none ↦ work | some t ↦ ok e ]) ≡ ok e'
        → (e ≡ e') ⊎ (work ≡ ok e')
    by_type none g = inr g
    by_type (some t) g = inl (cc g)

not_found-err :
    (f : StructuredName) (ts : List (Option KsType)) (t : Option KsType) (e : Expr) {A : Type 0}
    → not_found f ts t ≡ ok e
    → A
unfolding not_found
not_found-err f [] t e h = let (s, run, rest) = >>=-eq-ok (mangled f) _ h in cc rest
not_found-err f (t ∷ ts) none e h = let (s, run, rest) = >>=-eq-ok (mangled f) _ h in cc rest
not_found-err f (t ∷ ts) (some a) e h =
    let (s, run, rest) = >>=-eq-ok (mangled f) _ h in
    let (d, run', rest') = >>=-eq-ok (tangent_type a) _ rest in cc rest'

-- With no functions in the table only a primitive has a type, and it keeps its name.
typed_call-ok :
    (f : StructuredName) (es : Exprs) (vars : Dict Text (Option KsType)) (e : Expr)
    → typed_call f es (record { var_types = vars; fun_types = [] }) ≡ ok e
    → (t : Option KsType) × (call f es t ≡ e)
unfolding typed_call call_in_symtab lookup
typed_call-ok f es vars e h =
    let (argtype, made, rest) = >>=-eq-ok (make_tuple_if_many (types_of es)) _ h in
    of_type argtype rest
  where
    table : Symtab
    table = record { var_types = vars; fun_types = [] }

    of_type :
        (o : Option KsType)
        → (elim o [
          | none ↦ err attribute_error
          | some a ↦ prim_lookup f a >>= λ p. prim_or p f es (call_in_symtab f es (some a) table)
        ])
          ≡ ok e
        → (t : Option KsType) × (call f es t ≡ e)
    of_type none g = cc g
    of_type (some a) g = let (p, looked, rest) = >>=-eq-ok (prim_lookup f a) _ g in primitive p rest
      where
        primitive :
            (p : Option KsType)
            → prim_or p f es (call_in_symtab f es (some a) table) ≡ ok e
            → (t : Option KsType) × (call f es t ≡ e)
        primitive (some t) k = (some t, cc k)
        primitive none k =
            let (g', named, rest) = >>=-eq-ok (add_type_to_sname f (some a)) _ k in
            not_found-err g' (types_of es) (some a) e rest

module _ {V : Type 0} (m : Meaning V) where
  -- Lets of single variables, and the same meaning.
  abbrev pub Kept : Expr → Expr → Type 0
  Kept e e' = (is_untupled e' ≡ true) × ((env : Env V) → eval m e' env ≡ eval m e env)

  abbrev KeptArgs : Exprs → Exprs → Type 0
  KeptArgs es es' =
      (are_untupled es' ≡ true) × ((env : Env V) → eval_args m es' env ≡ eval_args m es env)

  Kept-same : (e e' : Expr) → is_untupled e ≡ true → e ≡ e' → Kept e e'
  Kept-same e e' u h = subst (Kept e) h (u, λ env. refl)

  -- The type that a symbol table gives is that of the new variable.
  var_typed :
      (x : Var) (o : Option (Option KsType)) (e' : Expr)
      → (elim o [ none ↦ err ks_type_error | some t ↦ ok (var (record x { type_ = t })) ]) ≡ ok e'
      → Kept (var x) e'
  unfolding eval is_untupled
  var_typed x none e' h = cc h
  var_typed x (some t) e' h = subst (Kept (var x)) (ok_inj h) (refl, λ env. refl)
    where
      ok_inj : {a b : Expr} → ok a ≡ ok b → a ≡ b
      ok_inj g = cc g

  same_ok : {a b : Expr} → ok a ≡ ok b → a ≡ b
  same_ok g = cc g

  mutual
    unfolding type_propagate type_propagate_args bind_let is_untupled eval bind bind_var

    kept :
        (e : Expr) (vars : Dict Text (Option KsType)) (keep : Bool) (e' : Expr)
        → is_untupled e ≡ true
        → type_propagate e (record { var_types = vars; fun_types = [] }) keep ≡ ok e'
        → Kept e e'
    kept (const c) vars keep e' u h = Kept-same (const c) e' u (same_ok h)
    kept (var x) vars keep e' u h = elim (unless_typed-ok keep (var x) _ e' h) [
      | inl g ↦ Kept-same (var x) e' u g
      | inr g ↦ var_typed x (lookup x.name vars) e' g
    ]
    kept (call f es t) vars keep e' u h = elim (unless_typed-ok keep (call f es t) _ e' h) [
      | inl g ↦ Kept-same (call f es t) e' u g
      | inr g ↦
          let (es', run, rest) = >>=-eq-ok (type_propagate_args es _ keep) _ g in
          let (u', same) = kept_args es vars keep es' u run in
          let (t', made) = typed_call-ok f es' vars e' rest in
          subst (Kept (call f es t)) made (u', λ env. ap (m.call_of f) (same env))
    ]
    kept (lam x b t) vars keep e' u h = elim (unless_typed-ok keep (lam x b t) _ e' h) [
      | inl g ↦ Kept-same (lam x b t) e' u g
      | inr g ↦
          let (b', run, rest) = >>=-eq-ok (type_propagate b _ keep) _ g in
          let (s, known_x, rest') = >>=-eq-ok (known x.type_) _ rest in
          let (r, known_b, rest'') = >>=-eq-ok (known (type_of b')) _ rest' in
          let (u', same) = kept b _ keep b' u run in
          subst (Kept (lam x b t)) (same_ok rest'')
            (u', λ env. ap (m.lam_of x.type_) (fun_ext (λ v. same (update env x.name v))))
    ]
    kept (let_in (one x) r b t) vars keep e' u h =
        elim (unless_typed-ok keep (let_in (one x) r b t) _ e' h) [
          | inl g ↦ Kept-same (let_in (one x) r b t) e' u g
          | inr g ↦
              let (r', run, rest) = >>=-eq-ok (type_propagate r _ keep) _ g in
              let (b', run', rest') = >>=-eq-ok (type_propagate b _ keep) _ rest in
              let (ur, same_r) = kept r vars keep r' (&&-left _ _ u) run in
              let (ub, same_b) = kept b _ keep b' (&&-right (is_untupled r) _ u) run' in
              subst (Kept (let_in (one x) r b t)) (same_ok rest') (
                &&-both ur ub,
                λ env.
                    same_b (update env x.name (eval m r' env))
                    ∙ ap (λ v. eval m b (update env x.name v)) (same_r env),
              )
        ]
    kept (let_in (many x xs) r b t) vars keep e' u h = cc u
    kept (if_else c d f t) vars keep e' u h = elim (unless_typed-ok keep (if_else c d f t) _ e' h) [
      | inl g ↦ Kept-same (if_else c d f t) e' u g
      | inr g ↦
          let (c', run, rest) = >>=-eq-ok (type_propagate c _ keep) _ g in
          let (_, is_b, rest') = >>=-eq-ok (is_bool (type_of c')) _ rest in
          let (d', run', rest'') = >>=-eq-ok (type_propagate d _ keep) _ rest' in
          let (f', run'', rest3) = >>=-eq-ok (type_propagate f _ keep) _ rest'' in
          let (_, agree, made) =
            >>=-eq-ok (require (same_type (type_of d') (type_of f')) assertion_error) _ rest3 in
          let u' = &&-right (is_untupled c) _ u in
          let (uc, same_c) = kept c vars keep c' (&&-left _ _ u) run in
          let (ud, same_d) = kept d vars keep d' (&&-left _ _ u') run' in
          let (uf, same_f) = kept f vars keep f' (&&-right (is_untupled d) _ u') run'' in
          subst (Kept (if_else c d f t)) (same_ok made)
            (&&-both uc (&&-both ud uf), λ env. cc (same_c env, same_d env, same_f env))
    ]
    kept (assert c b t) vars keep e' u h = elim (unless_typed-ok keep (assert c b t) _ e' h) [
      | inl g ↦ Kept-same (assert c b t) e' u g
      | inr g ↦
          let (c', run, rest) = >>=-eq-ok (type_propagate c _ keep) _ g in
          let (_, is_b, rest') = >>=-eq-ok (is_bool (type_of c')) _ rest in
          let (b', run', made) = >>=-eq-ok (type_propagate b _ keep) _ rest' in
          let (uc, same_c) = kept c vars keep c' (&&-left _ _ u) run in
          let (ub, same_b) = kept b vars keep b' (&&-right (is_untupled c) _ u) run' in
          subst (Kept (assert c b t)) (same_ok made)
            (&&-both uc ub, λ env. ap₂ m.assert_of (same_c env) (same_b env))
    ]

    kept_args :
        (es : Exprs) (vars : Dict Text (Option KsType)) (keep : Bool) (es' : Exprs)
        → are_untupled es ≡ true
        → type_propagate_args es (record { var_types = vars; fun_types = [] }) keep ≡ ok es'
        → KeptArgs es es'
    kept_args no_args vars keep es' u h =
        let same : no_args ≡ es' = cc h in subst (KeptArgs no_args) same (refl, λ env. refl)
    kept_args (arg e es) vars keep es' u h =
        let (e1, run, rest) = >>=-eq-ok (type_propagate e _ keep) _ h in
        let (es1, run', made) = >>=-eq-ok (type_propagate_args es _ keep) _ rest in
        let (ue, same_e) = kept e vars keep e1 (&&-left _ _ u) run in
        let (us, same_s) = kept_args es vars keep es1 (&&-right (is_untupled e) _ u) run' in
        let same : arg e1 es1 ≡ es' = cc made in
        subst (KeptArgs (arg e es)) same (&&-both ue us, λ env. ap₂ ◌∷◌ (same_e env) (same_s env))

  -- Types from a table with no functions: an expression whose lets bind single variables keeps its
  -- meaning, and its lets bind single variables.
  pub type_propagate-Kept :
      (e : Expr) (vars : Dict Text (Option KsType)) (keep : Bool) (e' : Expr)
      → is_untupled e ≡ true
      → type_propagate e (record { var_types = vars; fun_types = [] }) keep ≡ ok e'
      → Kept e e'
  type_propagate-Kept e vars keep e' u h = kept e vars keep e' u h
