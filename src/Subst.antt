-- ===== src/Subst.antt =====
-- src/python/ksc/cav_subst.py: capture-avoiding substitution for free variables and for
-- sub-expressions at given paths. `visit` with no requests is `rename`, which the theorems treat
-- on its own. The path of the visited node is passed down as the source does; where the source
-- hands back the ExprWithPath of a variable, which reads as the variable, the model has the
-- variable.
pub mod Step
pub mod Rename
pub mod Visit
use knossos_ksc.Base.{
  ℕ, zero, suc, ◌+◌, ◌≡◌, Bool, true, false, ◌&&◌, not, Option, none, some, List, [], ◌∷◌, ◌++◌,
  if◌then◌else◌, any,
}
use knossos_ksc.Base.Text.{Text, text_eq, elem}
use knossos_ksc.Base.Result.{Result, ok, err, value_error, assertion_error, ◌>>=◌, map_ok}
use knossos_ksc.Base.Assoc.{Dict, text_key, lookup, insert, keep}
use knossos_ksc.Expr.{
  Constant, Var, Binder, one, many, Expr, Exprs, const, var, call, lam, let_in, if_else, assert,
  no_args, arg, free_vars,
}
use knossos_ksc.Fresh.{make_nonfree_var, taken}
use knossos_ksc.Paths.{
  PathElement, ExprPath, let_rhs, let_body, if_cond, if_t_body, if_f_body, assert_cond, assert_body,
  lam_body, call_arg, starts_with, path_eq,
}

abbrev pub Substs : Type 0
Substs = Dict Text Expr

-- `ReplaceLocationRequest`. An applicator may raise.
pub record Request : Type 0 where
  pub target : ExprPath
  pub payload : Expr
  pub applicator : Option (Expr → Expr → Result Expr)

abbrev pub values : Substs → List Expr
values [] = []
values ((x, e) ∷ s) = e ∷ values s

abbrev pub payloads : List Request → List Expr
payloads [] = []
payloads (r ∷ rs) = r.payload ∷ payloads rs

-- The substitutions for the free variables of the expression.
unfoldable pub relevant : Expr → Substs → Substs
relevant e substs = keep (λ x. elem x (free_vars e)) substs

-- The requests at or below the path.
unfoldable pub inside : ExprPath → List Request → List Request
inside path [] = []
inside path (r ∷ rs) =
    let rest = inside path rs in if starts_with path r.target then r ∷ rest else rest

-- `_rename_if_needed`, given the payloads of the requests.
unfoldable pub rename_if_needed : Var → Expr → List Expr → Substs → Var × Substs
rename_if_needed x binder loads substs =
    let conflicting = loads ++ values substs in
    let new = make_nonfree_var x.name (binder ∷ conflicting) x.type_ in
    if taken conflicting x.name
    then (new, insert x.name (var new) substs)
    else (x, keep (λ k. not (text_eq k x.name)) substs)

unfoldable pub rename_vars : List Var → Expr → List Expr → Substs → List Var × Substs
rename_vars [] binder loads substs = ([], substs)
rename_vars (x ∷ xs) binder loads substs =
    let (x', substs') = rename_if_needed x binder loads substs in
    let (xs', substs'') = rename_vars xs binder loads substs' in (x' ∷ xs', substs'')

-- The loop over the variables of a let. A list of one variable fails the assertion that a single
-- new variable stands for a single old one.
unfoldable pub rename_binder : Binder → Expr → List Expr → Substs → Result (Binder × Substs)
unfolding rename_vars
rename_binder (one x) binder loads substs =
    let (x', substs') = rename_if_needed x binder loads substs in ok (one x', substs')
rename_binder (many x []) binder loads substs = err assertion_error
rename_binder (many x (y ∷ ys)) binder loads substs =
    let (x', substs') = rename_if_needed x binder loads substs in
    let (ys', substs'') = rename_vars (y ∷ ys) binder loads substs' in ok (many x' ys', substs'')

-- With nothing to substitute the expression itself is returned.
abbrev pub unless_empty : Substs → Expr → Result Expr → Result Expr
unless_empty [] e deeper = ok e
unless_empty (s ∷ ss) e deeper = deeper

abbrev pub or_var : Option Expr → Var → Expr
or_var (some e) x = e
or_var none x = var x

-- `visit` with no requests.
unfoldable mutual
  pub rename : Expr → Substs → Result Expr
  rename (const c) substs = ok (const c)
  rename (var x) substs =
      let s = relevant (var x) substs in unless_empty s (var x) (ok (or_var (lookup x.name s) x))
  rename (call f args t) substs =
      let s = relevant (call f args t) substs in
      unless_empty s (call f args t) (map_ok (λ as'. call f as' t) (rename_args args s))
  rename (lam x body t) substs =
      let s = relevant (lam x body t) substs in
      let (x', s') = rename_if_needed x (lam x body t) [] s in
      unless_empty s (lam x body t) (map_ok (λ b. lam x' b t) (rename body s'))
  rename (let_in b rhs body t) substs =
      let s = relevant (let_in b rhs body t) substs in
      unless_empty s (let_in b rhs body t) (
        rename_binder b (let_in b rhs body t) [] s >>= λ (b', s').
        rename rhs s >>= λ r. map_ok (λ e. let_in b' r e t) (rename body s'))
  rename (if_else c t f ty) substs =
      let s = relevant (if_else c t f ty) substs in
      unless_empty s (if_else c t f ty)
        (rename c s >>= λ c'. rename t s >>= λ t'. map_ok (λ f'. if_else c' t' f' ty) (rename f s))
  rename (assert c b ty) substs =
      let s = relevant (assert c b ty) substs in
      unless_empty s (assert c b ty)
        (rename c s >>= λ c'. map_ok (λ b'. assert c' b' ty) (rename b s))

  pub rename_args : Exprs → Substs → Result Exprs
  rename_args no_args substs = ok no_args
  rename_args (arg e es) substs =
      rename e substs >>= λ e'. map_ok (λ es'. arg e' es') (rename_args es substs)

-- `replace_free_vars`.
unfoldable pub replace_free_vars : Expr → Substs → Result Expr
replace_free_vars e subst = rename e subst

-- The one request at a node delivers its payload, or hands it to the applicator with the renamed
-- node; another request in the same place is an error.
abbrev pub apply_request : Request → List Request → Result Expr → Result Expr
apply_request r [] renamed = elim r.applicator [
  | none ↦ ok r.payload
  | some f ↦ renamed >>= λ e. f r.payload e
]
apply_request r (q ∷ qs) renamed = err value_error

-- What to do at a node, given the requests inside it, the substitutions for its free variables,
-- its renamed form and its form with the children visited.
unfoldable pub dispatch :
    Expr → ExprPath → List Request → Substs → Result Expr → Result Expr → Result Expr
dispatch e path [] substs renamed deeper = unless_empty substs e deeper
dispatch e path (r ∷ rs) substs renamed deeper =
    if any (λ q. path_eq path q.target) (r ∷ rs) then apply_request r rs renamed else deeper

-- `visit`.
unfoldable mutual
  pub visit : Expr → ExprPath → List Request → Substs → Result Expr
  visit (const c) path reqs substs =
      let s = relevant (const c) substs in
      dispatch (const c) path (inside path reqs) s (rename (const c) s) (ok (const c))
  visit (var x) path reqs substs =
      let s = relevant (var x) substs in
      dispatch (var x) path (inside path reqs) s (rename (var x) s)
        (ok (or_var (lookup x.name s) x))
  visit (call f args t) path reqs substs =
      let s = relevant (call f args t) substs in
      let rs = inside path reqs in
      dispatch (call f args t) path rs s (rename (call f args t) s)
        (map_ok (λ as'. call f as' t) (visit_args args path 0 rs s))
  visit (lam x body t) path reqs substs =
      let s = relevant (lam x body t) substs in
      let rs = inside path reqs in
      let (x', s') = rename_if_needed x (lam x body t) (payloads rs) s in
      dispatch (lam x body t) path rs s (rename (lam x body t) s)
        (map_ok (λ b. lam x' b t) (visit body (path ++ lam_body ∷ []) rs s'))
  visit (let_in b rhs body t) path reqs substs =
      let s = relevant (let_in b rhs body t) substs in
      let rs = inside path reqs in
      dispatch (let_in b rhs body t) path rs s (rename (let_in b rhs body t) s) (
        rename_binder b (let_in b rhs body t) (payloads rs) s >>= λ (b', s').
        visit rhs (path ++ let_rhs ∷ []) rs s >>= λ r.
        map_ok (λ e. let_in b' r e t) (visit body (path ++ let_body ∷ []) rs s'))
  visit (if_else c t f ty) path reqs substs =
      let s = relevant (if_else c t f ty) substs in
      let rs = inside path reqs in
      dispatch (if_else c t f ty) path rs s (rename (if_else c t f ty) s) (
        visit c (path ++ if_cond ∷ []) rs s >>= λ c'.
        visit t (path ++ if_t_body ∷ []) rs s >>= λ t'.
        map_ok (λ f'. if_else c' t' f' ty) (visit f (path ++ if_f_body ∷ []) rs s))
  visit (assert c b ty) path reqs substs =
      let s = relevant (assert c b ty) substs in
      let rs = inside path reqs in
      dispatch (assert c b ty) path rs s (rename (assert c b ty) s) (
        visit c (path ++ assert_cond ∷ []) rs s >>= λ c'.
        map_ok (λ b'. assert c' b' ty) (visit b (path ++ assert_body ∷ []) rs s))

  pub visit_args : Exprs → ExprPath → ℕ → List Request → Substs → Result Exprs
  visit_args no_args path n reqs substs = ok no_args
  visit_args (arg e es) path n reqs substs = visit e (path ++ call_arg n ∷ []) reqs substs >>= λ e'.
      map_ok (λ es'. arg e' es') (visit_args es path (suc n) reqs substs)

-- `replace_subtrees`, and `replace_subtree`.
unfoldable pub replace_subtrees : Expr → List Request → Result Expr
replace_subtrees e reqs = visit e [] reqs []

unfoldable pub replace_subtree : Expr → Request → Result Expr
unfolding replace_subtrees
replace_subtree e req = replace_subtrees e (req ∷ [])
