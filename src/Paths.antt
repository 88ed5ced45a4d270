-- ===== src/Paths.antt =====
-- src/python/ksc/path.py: paths to sub-expressions, and their serialized form.
pub mod Serial
use knossos_ksc.Base.{
  ℕ, zero, suc, ◌+◌, ◌≡◌, refl, ap, sym, subst, fun_ext, ◌∙◌, ◌↔◌, ◌⊎◌, inl, inr, Bool, true, false,
  ◌&&◌, Option, none, some, List, [], ◌∷◌, ◌++◌, map, arith, ◌==◌, ==_iff, length, get_elem?,
}
use knossos_ksc.Base.Result.{Result, ok, err, assertion_error, index_error, ◌>>=◌}
use knossos_ksc.Types.Defs.{KsType}
use knossos_ksc.Names.{StructuredName}
use knossos_ksc.Expr.{
  Expr, Exprs, const, var, call, lam, let_in, if_else, assert, no_args, arg, args_list,
}

-- The eight field elements and `call_args[n]`.
pub data PathElement : Type 0 where
  let_rhs let_body if_cond if_t_body if_f_body assert_cond assert_body lam_body : PathElement
  call_arg : ℕ → PathElement

abbrev pub ExprPath : Type 0
ExprPath = List PathElement

abbrev pub nth_arg : Option Expr → Result Expr
nth_arg (some e) = ok e
nth_arg none = err index_error

-- `_FieldElement.get` and `_CallArg.get`: an assertion on the class, then the field.
unfoldable pub get : PathElement → Expr → Result Expr
get let_rhs (let_in vars rhs body t) = ok rhs
get let_body (let_in vars rhs body t) = ok body
get if_cond (if_else c t f ty) = ok c
get if_t_body (if_else c t f ty) = ok t
get if_f_body (if_else c t f ty) = ok f
get assert_cond (assert c b ty) = ok c
get assert_body (assert c b ty) = ok b
get lam_body (lam v b ty) = ok b
get (call_arg n) (call f args ty) = nth_arg (get_elem? (args_list args) n)
get _ _ = err assertion_error

-- `ExprWithPath.from_expr`: the sub-expression at a path.
unfoldable pub get_path : ExprPath → Expr → Result Expr
get_path [] e = ok e
get_path (pe ∷ path) e = get pe e >>= get_path path

abbrev arg_elements : ℕ → Exprs → List (PathElement × Expr)
arg_elements n no_args = []
arg_elements n (arg e es) = (call_arg n, e) ∷ arg_elements (suc n) es

-- `all_subexprs_with_paths`: each child with its element.
unfoldable pub all_subexprs : Expr → List (PathElement × Expr)
all_subexprs (call f args t) = arg_elements 0 args
all_subexprs (let_in vars rhs body t) = (let_rhs, rhs) ∷ (let_body, body) ∷ []
all_subexprs (if_else c t f ty) = (if_cond, c) ∷ (if_t_body, t) ∷ (if_f_body, f) ∷ []
all_subexprs (assert c b ty) = (assert_cond, c) ∷ (assert_body, b) ∷ []
all_subexprs (lam v b ty) = (lam_body, b) ∷ []
all_subexprs _ = []

abbrev snds : List (PathElement × Expr) → List Expr
snds [] = []
snds ((pe, e) ∷ l) = e ∷ snds l

unfoldable pub subexps_no_binds : Expr → List Expr
unfolding all_subexprs
subexps_no_binds e = snds (all_subexprs e)

snds-arg_elements : (k : ℕ) (es : Exprs) → snds (arg_elements k es) ≡ args_list es
snds-arg_elements k no_args = refl
snds-arg_elements k (arg e es) = ap (λ l. e ∷ l) (snds-arg_elements (suc k) es)

pub subexps_no_binds-call :
    (f : StructuredName) (es : Exprs) (t : Option KsType)
    → subexps_no_binds (call f es t) ≡ args_list es
unfolding subexps_no_binds
subexps_no_binds-call f es t = snds-arg_elements 0 es

unfoldable pub element_eq : PathElement → PathElement → Bool
element_eq let_rhs let_rhs = true
element_eq let_body let_body = true
element_eq if_cond if_cond = true
element_eq if_t_body if_t_body = true
element_eq if_f_body if_f_body = true
element_eq assert_cond assert_cond = true
element_eq assert_body assert_body = true
element_eq lam_body lam_body = true
element_eq (call_arg m) (call_arg n) = m == n
element_eq _ _ = false

-- `target[: len(path)] == path`.
unfoldable pub starts_with : ExprPath → ExprPath → Bool
unfolding element_eq
starts_with [] target = true
starts_with (p ∷ path) [] = false
starts_with (p ∷ path) (q ∷ target) = element_eq p q && starts_with path target

-- `target == path`.
unfoldable pub path_eq : ExprPath → ExprPath → Bool
unfolding element_eq
path_eq [] [] = true
path_eq (p ∷ path) (q ∷ target) = element_eq p q && path_eq path target
path_eq _ _ = false

-- The pair of an element and a child stands in the list.
abbrev pub Listed : PathElement → Expr → List (PathElement × Expr) → Type 0
Listed pe c [] = ⊥
Listed pe c ((qe, d) ∷ l) = ((pe ≡ qe) × (c ≡ d)) ⊎ Listed pe c l

arg_elements_sound :
    (k : ℕ) (es : Exprs) (pe : PathElement) (c : Expr)
    → Listed pe c (arg_elements k es)
    → (n : ℕ) × (pe ≡ call_arg (k + n)) × (get_elem? (args_list es) n ≡ some c)
arg_elements_sound k no_args pe c h = absurd h
arg_elements_sound k (arg e es) pe c (inl (p, q)) =
    (0, p ∙ ap call_arg (omega arith), ap some (sym q))
arg_elements_sound k (arg e es) pe c (inr h) =
    let (n, p, q) = arg_elements_sound (suc k) es pe c h in
    (suc n, p ∙ ap call_arg (omega arith), q)

arg_elements_complete :
    (k : ℕ) (es : Exprs) (n : ℕ) (c : Expr)
    → get_elem? (args_list es) n ≡ some c
    → Listed (call_arg (k + n)) c (arg_elements k es)
arg_elements_complete k no_args n c h = cc
arg_elements_complete k (arg e es) zero c h = inl (ap call_arg (omega arith), cc)
arg_elements_complete k (arg e es) (suc n) c h = inr (
    subst (λ i. Listed (call_arg i) c (arg_elements (suc k) es)) (omega arith)
      (arg_elements_complete (suc k) es n c h))

pub nth_arg-ok : (o : Option Expr) (c : Expr) → nth_arg o ≡ ok c → o ≡ some c
nth_arg-ok none c h = cc
nth_arg-ok (some e) c h = cc

get→Listed :
    (pe : PathElement) (e : Expr) (c : Expr) → get pe e ≡ ok c → Listed pe c (all_subexprs e)
unfolding get all_subexprs
get→Listed (call_arg n) (call f es t) c h =
    subst (λ i. Listed (call_arg i) c (arg_elements 0 es)) (omega arith)
      (arg_elements_complete 0 es n c (nth_arg-ok _ c h))
get→Listed let_rhs (let_in vars rhs body t) c h = inl (refl, cc)
get→Listed let_body (let_in vars rhs body t) c h = inr (inl (refl, cc))
get→Listed if_cond (if_else x y z t) c h = inl (refl, cc)
get→Listed if_t_body (if_else x y z t) c h = inr (inl (refl, cc))
get→Listed if_f_body (if_else x y z t) c h = inr (inr (inl (refl, cc)))
get→Listed assert_cond (assert x y t) c h = inl (refl, cc)
get→Listed assert_body (assert x y t) c h = inr (inl (refl, cc))
get→Listed lam_body (lam v b t) c h = inl (refl, cc)
get→Listed _ _ c h = cc

Listed→get :
    (e : Expr) (pe : PathElement) (c : Expr) → Listed pe c (all_subexprs e) → get pe e ≡ ok c
unfolding get all_subexprs
Listed→get (call f es t) pe c h =
    let (n, p, q) = arg_elements_sound 0 es pe c h in
    let at : pe ≡ call_arg n = p ∙ ap call_arg (omega arith) in rw (at, q) refl
Listed→get (let_in vars rhs body t) pe c (inl (p, q)) = rw (p, q)
Listed→get (let_in vars rhs body t) pe c (inr (inl (p, q))) = rw (p, q)
Listed→get (if_else x y z t) pe c (inl (p, q)) = rw (p, q)
Listed→get (if_else x y z t) pe c (inr (inl (p, q))) = rw (p, q)
Listed→get (if_else x y z t) pe c (inr (inr (inl (p, q)))) = rw (p, q)
Listed→get (assert x y t) pe c (inl (p, q)) = rw (p, q)
Listed→get (assert x y t) pe c (inr (inl (p, q))) = rw (p, q)
Listed→get (lam v b t) pe c (inl (p, q)) = rw (p, q)
Listed→get (lam v b t) pe c (inr h) = absurd h
Listed→get (let_in vars rhs body t) pe c (inr (inr h)) = absurd h
Listed→get (if_else x y z t) pe c (inr (inr (inr h))) = absurd h
Listed→get (assert x y t) pe c (inr (inr h)) = absurd h
Listed→get (const k) pe c h = absurd h
Listed→get (var v) pe c h = absurd h

-- The listed children are exactly what the elements get: an element and a child are listed
-- together when, and only when, `get` takes that element to that child.
pub get_iff :
    (e : Expr) (pe : PathElement) (c : Expr) → (get pe e ≡ ok c) ↔ Listed pe c (all_subexprs e)
get_iff e pe c = (get→Listed pe e c, Listed→get e pe c)

bind_assoc :
    (m : Result Expr) (f g : Expr → Result Expr) → (m >>= λ a. f a >>= g) ≡ ((m >>= f) >>= g)
bind_assoc (ok a) f g = refl
bind_assoc (err e) f g = refl

-- The sub-expression at a path that goes on is the sub-expression of the sub-expression.
pub get_path-append :
    (p q : ExprPath) (e : Expr) → get_path (p ++ q) e ≡ (get_path p e >>= get_path q)
unfolding get_path
get_path-append [] q e = refl
get_path-append (pe ∷ p) q e =
    ap (λ f. get pe e >>= f) (fun_ext (λ c. get_path-append p q c))
    ∙ bind_assoc (get pe e) (get_path p) (get_path q)
