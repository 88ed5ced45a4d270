-- ===== src/Pystr/Clean.antt =====
-- src/python/ksc/expr.py: the character `$`, which is no part of a Python name, in the texts that
-- pystr makes of expressions.
use knossos_ksc.Base.{
  ℕ, zero, suc, ◌+◌, ◌≡◌, refl, sym, ap, ap₂, ◌∙◌, Bool, false, ◌||◌, List, [], ◌∷◌, ◌++◌, ◌==◌,
  Bool-cases, inl, inr, any, any-append, arith,
}
use knossos_ksc.Base.Text.{Text, text}
use knossos_ksc.Base.Result.{Result, ok, err, map_ok, >>=-eq-ok}
use knossos_ksc.Names.{StructuredName, mangled}
use knossos_ksc.Expr.{
  Constant, Var, Binder, one, many, Expr, Exprs, const, var, call, lam, let_in, if_else, assert,
  no_args, arg,
}
use knossos_ksc.Pystr.{pyname, nl, join, pystr_name, pynames, pystr_vars, pystr, pystr_each}

abbrev is_dollar : ℕ → Bool
is_dollar c = c == b'$'

abbrev pub has_dollar : Text → Bool
has_dollar s = any is_dollar s

-- The text of some constant of the expression has a `$`.
module _ (repr : Constant → Text) where
  unfoldable mutual
    pub dollar_in_constants : Expr → Bool
    dollar_in_constants (const c) = has_dollar (repr c)
    dollar_in_constants (var x) = false
    dollar_in_constants (call f args t) = dollar_in_args args
    dollar_in_constants (lam x body t) = dollar_in_constants body
    dollar_in_constants (let_in b rhs body t) = dollar_in_constants rhs || dollar_in_constants body
    dollar_in_constants (if_else c t f ty) =
        dollar_in_constants c || (dollar_in_constants t || dollar_in_constants f)
    dollar_in_constants (assert c b ty) = dollar_in_constants c || dollar_in_constants b

    pub dollar_in_args : Exprs → Bool
    dollar_in_args no_args = false
    dollar_in_args (arg e es) = dollar_in_constants e || dollar_in_args es

-- A text that has none makes no difference before another.
skip : (s t : Text) → has_dollar s ≡ false → has_dollar (s ++ t) ≡ has_dollar t
skip s t h = any-append is_dollar s t ∙ rw h refl

-- Nor after one.
drop_end : (s t : Text) → has_dollar t ≡ false → has_dollar (s ++ t) ≡ has_dollar s
drop_end s t h = any-append is_dollar s t ∙ rw h (or_false (has_dollar s))
  where
    or_false : (b : Bool) → (b || false) ≡ b
    or_false b = ground arith

after :
    (s t : Text) {b c : Bool} → has_dollar s ≡ b → has_dollar t ≡ c → has_dollar (s ++ t) ≡ (b || c)
after s t h k = any-append is_dollar s t ∙ ap₂ ◌||◌ h k

pyname_lem : (s : Text) → has_dollar (pyname s) ≡ false
unfolding pyname
pyname_lem [] = refl
pyname_lem (c ∷ s) = elim (Bool-cases (c == b'$')) [
  | inl e ↦ rw e (pyname_lem s)
  | inr e ↦ rw (e, e) (pyname_lem s)
]

nl_lem : (n : ℕ) → has_dollar (nl n) ≡ false
nl_lem zero = refl
nl_lem (suc n) = nl_lem n

join_lem :
    (sep : Text) (ss : List Text)
    → has_dollar sep ≡ false
    → has_dollar (join sep ss) ≡ any has_dollar ss
join_lem sep [] h = refl
join_lem sep (s ∷ []) h = or_false (has_dollar s)
  where
    or_false : (b : Bool) → b ≡ (b || false)
    or_false b = ground arith
join_lem sep (s ∷ t ∷ ts) h =
    after s (sep ++ join sep (t ∷ ts)) refl (skip sep _ h ∙ join_lem sep (t ∷ ts) h)

pynames_lem : (xs : List Var) → any has_dollar (pynames xs) ≡ false
pynames_lem [] = refl
pynames_lem (x ∷ xs) = rw (pyname_lem x.name) (pynames_lem xs)

pystr_vars_lem : (b : Binder) → has_dollar (pystr_vars b) ≡ false
pystr_vars_lem (one x) = pyname_lem x.name
pystr_vars_lem (many x xs) = join_lem (text ",") (pynames (x ∷ xs)) refl ∙ pynames_lem (x ∷ xs)

same_text : (s t : Text) → ok s ≡ ok t → has_dollar t ≡ has_dollar s
same_text s t e = let same : s ≡ t = cc e in ap has_dollar (sym same)

pystr_name_lem : (f : StructuredName) (s : Text) → pystr_name f ≡ ok s → has_dollar s ≡ false
unfolding pystr_name
pystr_name_lem f s h = named (mangled f) h
  where
    named : (m : Result Text) → map_ok pyname m ≡ ok s → has_dollar s ≡ false
    named (ok t) k = same_text (pyname t) s k ∙ pyname_lem t
    named (err e) k = cc k

swap_or : (a b c : Bool) → (b || (a || c)) ≡ (a || (b || c))
swap_or a b c = ground arith

module _ (repr : Constant → Text) where
  mutual
    unfolding pystr dollar_in_constants

    dollars :
        (e : Expr) (n : ℕ) (s : Text)
        → pystr repr e n ≡ ok s
        → has_dollar s ≡ dollar_in_constants repr e
    dollars (const c) n s h = same_text (repr c) s h
    dollars (var x) n s h = same_text (pyname x.name) s h ∙ pyname_lem x.name
    dollars (call f args t) n s h =
        let (name, named, rest) = >>=-eq-ok (pystr_name f) _ h in
        let (ss, run, made) = >>=-eq-ok (pystr_each repr args (n + 1)) _ rest in
        same_text _ s made
        ∙ (skip name _ (pystr_name_lem f name named)
            ∙ (drop_end (join (text ", ") ss) (text ")") refl
                ∙ (join_lem (text ", ") ss refl ∙ dollars_each args (n + 1) ss run)))
    dollars (lam x body t) n s h =
        let (b, run, made) = >>=-eq-ok (pystr repr body (n + 2)) _ h in
        same_text _ s made
        ∙ (skip (pyname x.name) _ (pyname_lem x.name)
            ∙ (skip (nl (n + 2)) _ (nl_lem (n + 2))
                ∙ (drop_end b (text ")") refl ∙ dollars body (n + 2) b run)))
    dollars (let_in vars rhs body t) n s h =
        let (r, run, rest) = >>=-eq-ok (pystr repr rhs (n + 1)) _ h in
        let (b, run', made) = >>=-eq-ok (pystr repr body n) _ rest in
        same_text _ s made
        ∙ (skip (pystr_vars vars) _ (pystr_vars_lem vars)
            ∙ after r (nl n ++ b) (dollars rhs (n + 1) r run)
                (skip (nl n) b (nl_lem n) ∙ dollars body n b run'))
    dollars (if_else c t f ty) n s h =
        let (t', rt, rest) = >>=-eq-ok (pystr repr t (n + 2)) _ h in
        let (c', rc, rest') = >>=-eq-ok (pystr repr c (n + 1)) _ rest in
        let (f', rf, made) = >>=-eq-ok (pystr repr f (n + 1)) _ rest' in
        same_text _ s made
        ∙ (after t' _ (dollars t (n + 2) t' rt) (
              after c' _ (dollars c (n + 1) c' rc) (
                skip (nl (n + 1)) _ (nl_lem (n + 1))
                ∙ (drop_end f' (text ")\n") refl ∙ dollars f (n + 1) f' rf)))
            ∙ swap_or (dollar_in_constants repr c) (dollar_in_constants repr t)
                (dollar_in_constants repr f))
    dollars (assert c b ty) n s h =
        let (c', rc, rest) = >>=-eq-ok (pystr repr c (n + 1)) _ h in
        let (b', rb, made) = >>=-eq-ok (pystr repr b (n + 1)) _ rest in
        same_text _ s made
        ∙ after c' _ (dollars c (n + 1) c' rc)
            (skip (nl (n + 1)) b' (nl_lem (n + 1)) ∙ dollars b (n + 1) b' rb)

    dollars_each :
        (es : Exprs) (n : ℕ) (ss : List Text)
        → pystr_each repr es n ≡ ok ss
        → any has_dollar ss ≡ dollar_in_args repr es
    dollars_each no_args n ss h = let same : [] ≡ ss = cc h in ap (any has_dollar) (sym same)
    dollars_each (arg e es) n ss h =
        let (s, run, rest) = >>=-eq-ok (pystr repr e n) _ h in
        let (ts, run', made) = >>=-eq-ok (pystr_each repr es n) _ rest in
        let same : s ∷ ts ≡ ss = cc made in
        ap (any has_dollar) (sym same) ∙ ap₂ ◌||◌ (dollars e n s run) (dollars_each es n ts run')

  -- Whatever the texts of constants: where pystr returns a text for an expression, the text has a
  -- `$` exactly when the text of one of the constants of the expression has one.
  pub has_dollar-pystr :
      (e : Expr) (n : ℕ) (s : Text)
      → pystr repr e n ≡ ok s
      → has_dollar s ≡ dollar_in_constants repr e
  has_dollar-pystr e n s h = dollars e n s h
