-- ===== src/Rewrites/Splice.antt =====
-- src/python/ksc/cav_subst.py as src/python/ksc/rewrites.py calls it: an applicator at one path,
-- and a payload with no free variables.
use knossos_ksc.Base.{
  ℕ, zero, suc, ◌+◌, ◌≡◌, refl, ap, ◌∙◌, true, false, some, [], ◌∷◌, ◌++◌, arith, ==_refl,
  get_elem?, append_assoc, &&-left, &&-right, append-nil,
}
use knossos_ksc.Base.Result.{Result, ok, >>=-eq-ok}
use knossos_ksc.Base.Assoc.{text_key, keep}
use knossos_ksc.Expr.{
  Var, one, many, Expr, Exprs, const, var, call, lam, let_in, if_else, assert, no_args, arg,
  args_list, free_vars, is_untupled, are_untupled,
}
use knossos_ksc.Expr.Meaning.{Meaning, Env, eval}
use knossos_ksc.Paths.{
  ExprPath, PathElement, let_rhs, let_body, if_cond, if_t_body, if_f_body, assert_cond, assert_body,
  lam_body, call_arg, element_eq, starts_with, path_eq, get, get_path, nth_arg-ok,
}
use knossos_ksc.Subst.{
  Request, relevant, inside, rename_if_needed, rename_binder, rename, visit, visit_args,
  replace_subtree, dispatch,
}
use knossos_ksc.Rewrites.PutPath.{put_path, put_arg, not_ok, eval-put_path, is_untupled-put_path}

element_eq_refl : (p : PathElement) → element_eq p p ≡ true
unfolding element_eq
element_eq_refl (call_arg n) = ==_refl n
element_eq_refl let_rhs = refl
element_eq_refl let_body = refl
element_eq_refl if_cond = refl
element_eq_refl if_t_body = refl
element_eq_refl if_f_body = refl
element_eq_refl assert_cond = refl
element_eq_refl assert_body = refl
element_eq_refl lam_body = refl

pub starts_with-append : (p q : ExprPath) → starts_with p (p ++ q) ≡ true
unfolding starts_with
starts_with-append [] q = refl
starts_with-append (a ∷ p) q = rw (element_eq_refl a) (starts_with-append p q)

pub starts_with-fork :
    (p : ExprPath) (a b : PathElement) (q : ExprPath)
    → starts_with (p ++ a ∷ []) (p ++ b ∷ q) ≡ element_eq a b
unfolding starts_with
starts_with-fork [] a b q = ground arith
starts_with-fork (c ∷ p) a b q = rw (element_eq_refl c) (starts_with-fork p a b q)

pub path_eq_refl : (p : ExprPath) → path_eq p p ≡ true
unfolding path_eq
path_eq_refl [] = refl
path_eq_refl (a ∷ p) = rw (element_eq_refl a) (path_eq_refl p)

pub path_eq-longer :
    (p : ExprPath) (a : PathElement) (q : ExprPath) → path_eq p (p ++ a ∷ q) ≡ false
unfolding path_eq
path_eq-longer [] a q = refl
path_eq-longer (c ∷ p) a q = rw (element_eq_refl c) (path_eq-longer p a q)

-- A request on a payload with no free variables.
abbrev pub at : ExprPath → Expr → (Expr → Expr → Result Expr) → Request
at target payload f = record { target = target; payload = payload; applicator = some f }

module _ (payload : Expr) (f : Expr → Expr → Result Expr) (closed : free_vars payload ≡ []) where
  kept_binder : (x : Var) (e : Expr) → rename_if_needed x e (payload ∷ []) [] ≡ (x, [])
  unfolding rename_if_needed keep
  kept_binder x e = rw closed refl

  kept_let : (x : Var) (e : Expr) → rename_binder (one x) e (payload ∷ []) [] ≡ ok (one x, [])
  unfolding rename_binder
  kept_let x e = ap (λ (y, s). ok (one y, s)) (kept_binder x e)

  -- A node off the path has no request and stays.
  off_path :
      (e : Expr) (p : ExprPath) (a b : PathElement) (q : ExprPath)
      → element_eq a b ≡ false
      → visit e (p ++ a ∷ []) (at (p ++ b ∷ q) payload f ∷ []) [] ≡ ok e
  unfolding visit inside dispatch relevant keep
  off_path (const c) p a b q h = rw (starts_with-fork p a b q, h) refl
  off_path (var c) p a b q h = rw (starts_with-fork p a b q, h) refl
  off_path (call g es t) p a b q h = rw (starts_with-fork p a b q, h) refl
  off_path (lam x e t) p a b q h = rw (starts_with-fork p a b q, h) refl
  off_path (let_in x r e t) p a b q h = rw (starts_with-fork p a b q, h) refl
  off_path (if_else x r e t) p a b q h = rw (starts_with-fork p a b q, h) refl
  off_path (assert x r t) p a b q h = rw (starts_with-fork p a b q, h) refl

  -- The arguments after the one with the request stay.
  off_path_args :
      (es : Exprs) (p : ExprPath) (k n : ℕ) (q : ExprPath) (i : ℕ)
      → n + suc i ≡ k
      → visit_args es p k (at (p ++ call_arg n ∷ q) payload f ∷ []) [] ≡ ok es
  unfolding visit_args element_eq
  off_path_args no_args p k n q i l = refl
  off_path_args (arg e es) p k n q i l =
      rw
        (
          off_path e p (call_arg k) (call_arg n) q (ground arith),
          off_path_args es p (suc k) n q (suc i) (omega arith),
        )
        refl

  -- The node with the request.
  visit-here : (e : Expr) (p : ExprPath) → visit e p (at (p ++ []) payload f ∷ []) [] ≡ f payload e
  unfolding visit inside dispatch relevant keep rename
  visit-here (const c) p = rw (starts_with-append p [], append-nil p, path_eq_refl p) refl
  visit-here (var c) p = rw (starts_with-append p [], append-nil p, path_eq_refl p) refl
  visit-here (call g es t) p = rw (starts_with-append p [], append-nil p, path_eq_refl p) refl
  visit-here (lam x e t) p = rw (starts_with-append p [], append-nil p, path_eq_refl p) refl
  visit-here (let_in x r e t) p = rw (starts_with-append p [], append-nil p, path_eq_refl p) refl
  visit-here (if_else x r e t) p = rw (starts_with-append p [], append-nil p, path_eq_refl p) refl
  visit-here (assert x r t) p = rw (starts_with-append p [], append-nil p, path_eq_refl p) refl

  down :
      (e : Expr) (p : ExprPath) (a : PathElement) (q : ExprPath) (r : Result Expr)
      → visit e (p ++ a ∷ []) (at ((p ++ a ∷ []) ++ q) payload f ∷ []) [] ≡ r
      → visit e (p ++ a ∷ []) (at (p ++ a ∷ q) payload f ∷ []) [] ≡ r
  down e p a q r h = rw (append_assoc p (a ∷ []) q) at h

  mutual
    unfolding visit visit_args inside dispatch relevant keep get_path get put_path put_arg
        is_untupled element_eq

    -- The visit of the node at the path, or of one on the way to it.
    visit-at_mutual :
        (q : ExprPath) (e : Expr) (p : ExprPath) (sub new : Expr)
        → is_untupled e ≡ true
        → get_path q e ≡ ok sub
        → f payload sub ≡ ok new
        → visit e p (at (p ++ q) payload f ∷ []) [] ≡ ok (put_path q new e)
    visit-at_mutual [] e p sub new u g h =
        let same : e ≡ sub = cc g in visit-here e p ∙ rw (← same) at h
    visit-at_mutual (let_rhs ∷ q) (let_in (one x) r b t) p sub new u g h =
        rw
          (
            starts_with-append p (let_rhs ∷ q),
            path_eq-longer p let_rhs q,
            kept_let x (let_in (one x) r b t),
            off_path b p let_body let_rhs q refl,
            down r p let_rhs q _
                (visit-at_mutual q r (p ++ let_rhs ∷ []) sub new (&&-left _ _ u) g h),
          )
          refl
    visit-at_mutual (let_body ∷ q) (let_in (one x) r b t) p sub new u g h =
        rw
          (
            starts_with-append p (let_body ∷ q),
            path_eq-longer p let_body q,
            kept_let x (let_in (one x) r b t),
            off_path r p let_rhs let_body q refl,
            down b p let_body q _ (
                visit-at_mutual q b (p ++ let_body ∷ []) sub new (&&-right (is_untupled r) _ u) g
                  h),
          )
          refl
    visit-at_mutual (lam_body ∷ q) (lam x b t) p sub new u g h =
        rw
          (
            starts_with-append p (lam_body ∷ q),
            path_eq-longer p lam_body q,
            kept_binder x (lam x b t),
            down b p lam_body q _ (visit-at_mutual q b (p ++ lam_body ∷ []) sub new (u) g h),
          )
          refl
    visit-at_mutual (if_cond ∷ q) (if_else c d e t) p sub new u g h =
        rw
          (
            starts_with-append p (if_cond ∷ q),
            path_eq-longer p if_cond q,
            off_path d p if_t_body if_cond q refl,
            off_path e p if_f_body if_cond q refl,
            down c p if_cond q _
                (visit-at_mutual q c (p ++ if_cond ∷ []) sub new (&&-left _ _ u) g h),
          )
          refl
    visit-at_mutual (if_t_body ∷ q) (if_else c d e t) p sub new u g h =
        rw
          (
            starts_with-append p (if_t_body ∷ q),
            path_eq-longer p if_t_body q,
            off_path c p if_cond if_t_body q refl,
            off_path e p if_f_body if_t_body q refl,
            down d p if_t_body q _ (
                visit-at_mutual q d (p ++ if_t_body ∷ []) sub new
                  (&&-left _ _ (&&-right (is_untupled c) _ u)) g h),
          )
          refl
    visit-at_mutual (if_f_body ∷ q) (if_else c d e t) p sub new u g h =
        rw
          (
            starts_with-append p (if_f_body ∷ q),
            path_eq-longer p if_f_body q,
            off_path c p if_cond if_f_body q refl,
            off_path d p if_t_body if_f_body q refl,
            down e p if_f_body q _ (
                visit-at_mutual q e (p ++ if_f_body ∷ []) sub new
                  (&&-right (is_untupled d) _ (&&-right (is_untupled c) _ u)) g h),
          )
          refl
    visit-at_mutual (assert_cond ∷ q) (assert c b t) p sub new u g h =
        rw
          (
            starts_with-append p (assert_cond ∷ q),
            path_eq-longer p assert_cond q,
            off_path b p assert_body assert_cond q refl,
            down c p assert_cond q _
                (visit-at_mutual q c (p ++ assert_cond ∷ []) sub new (&&-left _ _ u) g h),
          )
          refl
    visit-at_mutual (assert_body ∷ q) (assert c b t) p sub new u g h =
        rw
          (
            starts_with-append p (assert_body ∷ q),
            path_eq-longer p assert_body q,
            off_path c p assert_cond assert_body q refl,
            down b p assert_body q _ (
                visit-at_mutual q b (p ++ assert_body ∷ []) sub new (&&-right (is_untupled c) _ u) g
                  h),
          )
          refl
    visit-at_mutual (call_arg n ∷ q) (call m es t) p sub new u g h =
        let (c, got, rest) = >>=-eq-ok (get (call_arg n) (call m es t)) (get_path q) g in
        let none_before : 0 + n ≡ n = omega arith in
        let visited = visit_args-at es p 0 n q c sub new u (nth_arg-ok _ c got) rest h in
        rw
          (
            starts_with-append p (call_arg n ∷ q),
            path_eq-longer p (call_arg n) q,
            rw none_before at visited,
          )
          refl
    visit-at_mutual (let_rhs ∷ q) (let_in (many x xs) r b t) p sub new u g h = cc u
    visit-at_mutual (let_body ∷ q) (let_in (many x xs) r b t) p sub new u g h = cc u
    visit-at_mutual _ _ p sub new u g h = not_ok g

    visit_args-at :
        (es : Exprs) (p : ExprPath) (k n : ℕ) (q : ExprPath) (c sub new : Expr)
        → are_untupled es ≡ true
        → get_elem? (args_list es) n ≡ some c
        → get_path q c ≡ ok sub
        → f payload sub ≡ ok new
        → visit_args es p k (at (p ++ call_arg (k + n) ∷ q) payload f ∷ []) []
          ≡ ok (put_arg n q new es)
    visit_args-at no_args p k n q c sub new u got g h = cc
    visit_args-at (arg e es) p k zero q c sub new u got g h =
        let same : e ≡ c = cc got in
        let here = down e p (call_arg k) q _ (
          visit-at_mutual q e (p ++ call_arg k ∷ []) sub new (&&-left _ _ u) (rw (← same) at g)
            h) in
        let at_k : k + 0 ≡ k = omega arith in
        rw (at_k, here, off_path_args es p (suc k) k q 0 (omega arith)) refl
    visit_args-at (arg e es) p k (suc n) q c sub new u got g h =
        let shift : k + suc n ≡ suc k + n = omega arith in
        rw
          (
            off_path e p (call_arg k) (call_arg (k + suc n)) q (ground arith),
            shift,
            visit_args-at es p (suc k) n q c sub new (&&-right (is_untupled e) _ u) got g h,
          )
          refl

  -- In an expression whose lets bind single variables, a payload with no free variables, and an applicator that succeeds on the sub-expression at the
  -- path: `replace_subtree` puts its result there, and nothing else changes.
  pub replace_subtree_lem :
      (e : Expr) (path : ExprPath) (sub new : Expr)
      → is_untupled e ≡ true
      → get_path path e ≡ ok sub
      → f payload sub ≡ ok new
      → replace_subtree e (at path payload f) ≡ ok (put_path path new e)
  unfolding replace_subtree
  replace_subtree_lem e path sub new u g h = visit-at_mutual path e [] sub new u g h

-- An applicator that keeps the meaning of the sub-expression at the path keeps the meaning of the
-- expression, and its lets bind single variables where those of the new sub-expression do.
pub eval-replace_subtree :
    {V : Type 0} (m : Meaning V) (payload : Expr) (f : Expr → Expr → Result Expr) (e : Expr)
    (path : ExprPath) (sub new : Expr)
    → free_vars payload ≡ []
    → is_untupled e ≡ true
    → get_path path e ≡ ok sub
    → f payload sub ≡ ok new
    → is_untupled new ≡ true
    → ((env : Env V) → eval m new env ≡ eval m sub env)
    → (e' : Expr) × (replace_subtree e (at path payload f) ≡ ok e')
      × (is_untupled e' ≡ true)
      × ((env : Env V) → eval m e' env ≡ eval m e env)
eval-replace_subtree m payload f e path sub new closed u g h n same = (
  put_path path new e,
  replace_subtree_lem payload f closed e path sub new u g h,
  is_untupled-put_path path new e n u,
  λ env. eval-put_path m sub new same path e env g,
)
