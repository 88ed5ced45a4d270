-- ===== src/Untuple/Keeps.antt =====
-- src/python/ksc/untuple_lets.py: the meaning of what untuple_lets makes of an expression.
use knossos_ksc.Base.{
  ◌≡◌, ap, ap₂, ◌∙◌, sym, fun_ext, Bool, true, false, ◌&&◌, not, ◌∷◌, none, all, &&-left, &&-right,
  arith,
}
use knossos_ksc.Base.Text.{Text, elem, all_at}
use knossos_ksc.Base.Result.{Result, ok, >>=-eq-ok}
use knossos_ksc.Expr.{
  Binder, one, many, Expr, Exprs, const, var, call, lam, let_in, if_else, assert, no_args, arg,
  names, is_untupled,
}
use knossos_ksc.Expr.Meaning.{Meaning, Env, update, bind, eval, eval_args}
use knossos_ksc.Untuple.{untuple_one_let, untuple_lets, untuple_args}
use knossos_ksc.Untuple.Total.{
  lengths_match, all_lengths_match, each_lengths_match, untuple-total, untuple_lets_total,
}
use knossos_ksc.Untuple.Sound.{HasTuples, names_read, eval-untuple_one_let}

-- The new lets of a tuple-let over an untupled value and body read none of the let's variables.
unfoldable pub reads_apart : Binder → Expr → Expr → Bool
reads_apart (one x) rhs body = true
reads_apart (many x xs) rhs body = all (λ y. not (elem y (names_read rhs body))) (names (x ∷ xs))

unfoldable pub reads_apart_in : Binder → Result Expr → Result Expr → Bool
reads_apart_in b (ok r) (ok e) = reads_apart b r e
reads_apart_in b _ _ = false

-- So it is at each let of the expression, with its value and its body untupled.
unfoldable mutual
  pub all_read_apart : Expr → Bool
  all_read_apart (const c) = true
  all_read_apart (var x) = true
  all_read_apart (call f args t) = each_read_apart args
  all_read_apart (lam x body t) = all_read_apart body
  all_read_apart (let_in b rhs body t) =
      reads_apart_in b (untuple_lets rhs) (untuple_lets body)
      && (all_read_apart rhs && all_read_apart body)
  all_read_apart (if_else c t f ty) = all_read_apart c && (all_read_apart t && all_read_apart f)
  all_read_apart (assert c b ty) = all_read_apart c && all_read_apart b

  pub each_read_apart : Exprs → Bool
  each_read_apart no_args = true
  each_read_apart (arg e es) = all_read_apart e && each_read_apart es

reads_apart-ok :
    (b : Binder) (rhs body : Result Expr) (r e : Expr)
    → reads_apart_in b rhs body ≡ true
    → rhs ≡ ok r
    → body ≡ ok e
    → reads_apart b r e ≡ true
unfolding reads_apart_in
reads_apart-ok b rhs body r e h go go' = rw (go, go') at h

not-true : (b : Bool) → not b ≡ true → b ≡ false
not-true b h = ground arith

-- A value still fits a let when it is untupled.
kept_length :
    (b : Binder) (e e' : Expr)
    → all_lengths_match e ≡ true
    → untuple_lets e ≡ ok e'
    → lengths_match b e ≡ true
    → lengths_match b e' ≡ true
kept_length b e e' h run len =
    let (l, run', _, same) = untuple-total e h in
    let here : l ≡ e' = cc (run, run') in ap (lengths_match b) (sym here) ∙ same b len

module _ {V : Type 0} (m : Meaning V) (tuples : HasTuples m) where
  -- One let, whose value and body are untupled.
  eval-one_let :
      (b : Binder) (r e l : Expr)
      → lengths_match b r ≡ true
      → reads_apart b r e ≡ true
      → untuple_one_let b r e none ≡ ok l
      → (env : Env V) → eval m l env ≡ eval m e (bind m b (eval m r env) env)
  unfolding untuple_one_let reads_apart eval
  eval-one_let (one x) r e l len apart run env =
      let same : let_in (one x) r e none ≡ l = cc run in ap (λ k. eval m k env) (sym same)
  eval-one_let (many x xs) r e l len apart run env =
      let (l', run', means) = eval-untuple_one_let m tuples (many x xs) r e none len (λ y at.
        not-true _
          (all_at (λ (z : Text). not (elem z (names_read r e))) (names (x ∷ xs)) y apart at)) in
      let same : l' ≡ l = cc (run, run') in ap (λ k. eval m k env) (sym same) ∙ means env

  mutual
    unfolding untuple_lets all_lengths_match all_read_apart eval

    kept :
        (e e' : Expr)
        → all_lengths_match e ≡ true
        → all_read_apart e ≡ true
        → untuple_lets e ≡ ok e'
        → (env : Env V) → eval m e' env ≡ eval m e env
    kept (const c) e' h a run env =
        let same : const c ≡ e' = cc run in ap (λ k. eval m k env) (sym same)
    kept (var x) e' h a run env =
        let same : var x ≡ e' = cc run in ap (λ k. eval m k env) (sym same)
    kept (call f args t) e' h a run env =
        let (es, go, made) = >>=-eq-ok (untuple_args args) _ run in
        let same : call f es t ≡ e' = cc made in
        ap (λ k. eval m k env) (sym same) ∙ ap (m.call_of f) (kept_args args es h a go env)
    kept (lam x body t) e' h a run env =
        let (b, go, made) = >>=-eq-ok (untuple_lets body) _ run in
        let same : lam x b t ≡ e' = cc made in
        ap (λ k. eval m k env) (sym same)
        ∙ ap (m.lam_of x.type_) (fun_ext (λ v. kept body b h a go (update env x.name v)))
    kept (let_in b rhs body t) e' h a run env =
        let lens = &&-right (lengths_match b rhs) _ h in
        let reads = &&-right (reads_apart_in b (untuple_lets rhs) (untuple_lets body)) _ a in
        let (r, go, rest) = >>=-eq-ok (untuple_lets rhs) _ run in
        let (e, go', made) = >>=-eq-ok (untuple_lets body) _ rest in
        eval-one_let b r e e' (kept_length b rhs r (&&-left _ _ lens) go (&&-left _ _ h))
          (reads_apart-ok b (untuple_lets rhs) (untuple_lets body) r e (&&-left _ _ a) go go') made
          env
        ∙ (kept body e (&&-right (all_lengths_match rhs) _ lens)
              (&&-right (all_read_apart rhs) _ reads) go' (bind m b (eval m r env) env)
            ∙ ap (λ v. eval m body (bind m b v env))
                (kept rhs r (&&-left _ _ lens) (&&-left _ _ reads) go env))
    kept (if_else c t f ty) e' h a run env =
        let lens = &&-right (all_lengths_match c) _ h in
        let reads = &&-right (all_read_apart c) _ a in
        let (c', rc, rest) = >>=-eq-ok (untuple_lets c) _ run in
        let (t', rt, rest') = >>=-eq-ok (untuple_lets t) _ rest in
        let (f', rf, made) = >>=-eq-ok (untuple_lets f) _ rest' in
        let same : if_else c' t' f' ty ≡ e' = cc made in
        ap (λ k. eval m k env) (sym same)
        ∙ (ap₂ (λ p q. m.if_of p q (eval m f' env))
              (kept c c' (&&-left _ _ h) (&&-left _ _ a) rc env)
              (kept t t' (&&-left _ _ lens) (&&-left _ _ reads) rt env)
            ∙ ap (m.if_of (eval m c env) (eval m t env)) (
                kept f f' (&&-right (all_lengths_match t) _ lens)
                  (&&-right (all_read_apart t) _ reads) rf env))
    kept (assert c b ty) e' h a run env =
        let (c', rc, rest) = >>=-eq-ok (untuple_lets c) _ run in
        let (b', rb, made) = >>=-eq-ok (untuple_lets b) _ rest in
        let same : assert c' b' ty ≡ e' = cc made in
        ap (λ k. eval m k env) (sym same)
        ∙ ap₂ m.assert_of (kept c c' (&&-left _ _ h) (&&-left _ _ a) rc env) (
            kept b b' (&&-right (all_lengths_match c) _ h) (&&-right (all_read_apart c) _ a) rb env)

    kept_args :
        (es es' : Exprs)
        → each_lengths_match es ≡ true
        → each_read_apart es ≡ true
        → untuple_args es ≡ ok es'
        → (env : Env V) → eval_args m es' env ≡ eval_args m es env
    kept_args no_args es' h a run env =
        let same : no_args ≡ es' = cc run in ap (λ k. eval_args m k env) (sym same)
    kept_args (arg e es) es'' h a run env =
        let (e', go, rest) = >>=-eq-ok (untuple_lets e) _ run in
        let (es', go', made) = >>=-eq-ok (untuple_args es) _ rest in
        let same : arg e' es' ≡ es'' = cc made in
        ap (λ k. eval_args m k env) (sym same)
        ∙ ap₂ ◌∷◌ (kept e e' (&&-left _ _ h) (&&-left _ _ a) go env) (
            kept_args es es' (&&-right (all_lengths_match e) _ h) (&&-right (all_read_apart e) _ a)
              go' env)

  -- In a meaning where `tuple` and `get$i$n` build and take apart tuples: an expression is untupled
  -- with no error where each let over a literal tuple has as many variables as values, and the new
  -- lets of each tuple-let, its value and body being untupled, read none of its variables; every
  -- let of the result binds a single variable, and the result means what the expression means.
  pub eval-untuple_lets :
      (e : Expr)
      → all_lengths_match e ≡ true
      → all_read_apart e ≡ true
      → (e' : Expr) × (untuple_lets e ≡ ok e')
        × (is_untupled e' ≡ true)
        × ((env : Env V) → eval m e' env ≡ eval m e env)
  eval-untuple_lets e h a =
      let (e', run, single) = untuple_lets_total e h in (e', run, single, kept e e' h a run)
