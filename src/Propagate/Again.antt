-- ===== src/Propagate/Again.antt =====
-- src/python/ksc/type_propagate.py: an expression that has its types keeps them.
use knossos_ksc.Base.{
  ℕ, suc, ◌+◌, ◌≡◌, refl, ◌∙◌, sym, ap, subst, false, Option, none, some, List, [], ◌∷◌, ◌==◌,
  length, Option-cases, inl, inr,
}
use knossos_ksc.Base.Result.{Result, ok, assertion_error, require, >>=-eq-ok}
use knossos_ksc.Base.Assoc.{lookup, text_key}
use knossos_ksc.Types.Defs.{KsType, lam_type, tuple_len, tuple_elem, known}
use knossos_ksc.Names.Laws.{sname_key}
use knossos_ksc.Expr.{
  Var, Binder, one, many, Expr, Exprs, const, var, call, lam, let_in, if_else, assert, no_args, arg,
  type_of,
}
use knossos_ksc.Propagate.{
  Symtab, bind_let, bind_components, bind_var, type_propagate, type_propagate_args, same_type,
  is_bool,
}
use knossos_ksc.Propagate.Calls.{ok-injective, typed_call_again}

-- A run that gives back its own first component, at an equal pair.
moved :
    {A B : Type 0} (p q : A × B)
    → p ≡ q
    → (run : A → Result (A × B)) → run p.0 ≡ ok p
    → run q.0 ≡ ok q
moved p q same run h = subst (λ r. run r.0 ≡ ok r) same h

length-bind_components :
    (xs ys : List Var) (i : ℕ) (t : Option KsType) (st st' : Symtab)
    → bind_components xs i t st ≡ ok (ys, st')
    → length ys ≡ length xs
unfolding bind_components
length-bind_components [] ys i t st st' h = sym (ap (λ p. length p.0) (ok-injective h))
length-bind_components (x ∷ xs) ys i none st st' h =
    let ((zs, s), run, made) =
      >>=-eq-ok (bind_components xs (i + 1) none (bind_var x none st)) _ h in
    sym (ap (λ p. length p.0) (ok-injective made))
    ∙ ap suc (length-bind_components xs zs (i + 1) none _ s run)
length-bind_components (x ∷ xs) ys i (some t) st st' h =
    let (c, part, rest) = >>=-eq-ok (tuple_elem t i) _ h in
    let ((zs, s), run, made) =
      >>=-eq-ok (bind_components xs (i + 1) (some t) (bind_var x (some c) st)) _ rest in
    sym (ap (λ p. length p.0) (ok-injective made))
    ∙ ap suc (length-bind_components xs zs (i + 1) (some t) _ s run)

bind_components_again :
    (xs ys : List Var) (i : ℕ) (t : Option KsType) (st st' : Symtab)
    → bind_components xs i t st ≡ ok (ys, st')
    → bind_components ys i t st ≡ ok (ys, st')
unfolding bind_components bind_var
bind_components_again [] ys i t st st' h =
    moved ([], st) (ys, st') (ok-injective h) (λ zs. bind_components zs i t st) refl
bind_components_again (x ∷ xs) ys i none st st' h =
    let ((zs, s), run, made) =
      >>=-eq-ok (bind_components xs (i + 1) none (bind_var x none st)) _ h in
    let again = bind_components_again xs zs (i + 1) none (bind_var x none st) s run in
    moved (record x { type_ = none } ∷ zs, s) (ys, st') (ok-injective made)
      (λ us. bind_components us i none st) (rw again refl)
bind_components_again (x ∷ xs) ys i (some t) st st' h =
    let (c, part, rest) = >>=-eq-ok (tuple_elem t i) _ h in
    let ((zs, s), run, made) =
      >>=-eq-ok (bind_components xs (i + 1) (some t) (bind_var x (some c) st)) _ rest in
    let again = bind_components_again xs zs (i + 1) (some t) (bind_var x (some c) st) s run in
    moved (record x { type_ = some c } ∷ zs, s) (ys, st') (ok-injective made)
      (λ us. bind_components us i (some t) st) (rw (part, again) refl)

bind_let_run :
    (x : Var) (ys : List Var) (n k : ℕ) (t c : KsType) (st s : Symtab) {u : Unit {0}}
    → length ys ≡ n
    → tuple_len t ≡ ok k
    → require (suc n == k) assertion_error ≡ ok u
    → tuple_elem t 0 ≡ ok c
    → bind_components ys 1 (some t) (bind_var x (some c) st) ≡ ok (ys, s)
    → bind_let (many x ys) (some t) st ≡ ok (many (record x { type_ = some c }) ys, s)
unfolding bind_let
bind_let_run x ys n k t c st s same size fits part run = rw (size, same, fits, part, run) refl

bind_let_again :
    (b b' : Binder) (t : Option KsType) (st st' : Symtab)
    → bind_let b t st ≡ ok (b', st')
    → bind_let b' t st ≡ ok (b', st')
unfolding bind_let bind_var
bind_let_again (one x) b' t st st' h =
    moved (one (record x { type_ = t }), _) (b', st') (ok-injective h) (λ b. bind_let b t st) refl
bind_let_again (many x xs) b' none st st' h =
    let ((ys, s), run, made) = >>=-eq-ok (bind_components xs 1 none (bind_var x none st)) _ h in
    let again = bind_components_again xs ys 1 none (bind_var x none st) s run in
    moved (many (record x { type_ = none }) ys, s) (b', st') (ok-injective made)
      (λ b. bind_let b none st) (rw again refl)
bind_let_again (many x xs) b' (some t) st st' h =
    let (k, size, sized) = >>=-eq-ok (tuple_len t) _ h in
    let (_, fits, rest) = >>=-eq-ok (require (length (x ∷ xs) == k) assertion_error) _ sized in
    let (c, part, more) = >>=-eq-ok (tuple_elem t 0) _ rest in
    let ((ys, s), run, made) =
      >>=-eq-ok (bind_components xs 1 (some t) (bind_var x (some c) st)) _ more in
    let again = bind_components_again xs ys 1 (some t) (bind_var x (some c) st) s run in
    moved (many (record x { type_ = some c }) ys, s) (b', st') (ok-injective made)
      (λ b. bind_let b (some t) st)
      (bind_let_run (record x { type_ = some c }) ys (length xs) k t c st s
        (length-bind_components xs ys 1 (some t) (bind_var x (some c) st) s run) size fits part
        again)

returned :
    (r e : Expr)
    → r ≡ e
    → (st : Symtab) → type_propagate r st false ≡ ok r
    → type_propagate e st false ≡ ok e
returned r e same st h = subst (λ x. type_propagate x st false ≡ ok x) same h

returned_args :
    (r es : Exprs)
    → r ≡ es
    → (st : Symtab) → type_propagate_args r st false ≡ ok r
    → type_propagate_args es st false ≡ ok es
returned_args r es same st h = subst (λ x. type_propagate_args x st false ≡ ok x) same h

-- Nodes whose parts have their types.
module _ (st : Symtab) where
  let_run :
      (b : Binder) (r e : Expr) (s : Symtab)
      → type_propagate r st false ≡ ok r
      → bind_let b (type_of r) st ≡ ok (b, s)
      → type_propagate e s false ≡ ok e
      → type_propagate (let_in b r e (type_of e)) st false ≡ ok (let_in b r e (type_of e))
  unfolding type_propagate
  let_run b r e s rhs bound body = rw (rhs, bound, body) refl

  if_run :
      (c t f : Expr) {u v : Unit {0}}
      → type_propagate c st false ≡ ok c
      → is_bool (type_of c) ≡ ok u
      → type_propagate t st false ≡ ok t
      → type_propagate f st false ≡ ok f
      → require (same_type (type_of t) (type_of f)) assertion_error ≡ ok v
      → type_propagate (if_else c t f (type_of t)) st false ≡ ok (if_else c t f (type_of t))
  unfolding type_propagate
  if_run c t f hc bool ht hf same = rw (hc, bool, ht, hf, same) refl

  assert_run :
      (c b : Expr) {u : Unit {0}}
      → type_propagate c st false ≡ ok c
      → is_bool (type_of c) ≡ ok u
      → type_propagate b st false ≡ ok b
      → type_propagate (assert c b (type_of b)) st false ≡ ok (assert c b (type_of b))
  unfolding type_propagate
  assert_run c b hc bool hb = rw (hc, bool, hb) refl

  args_run :
      (e : Expr) (es : Exprs)
      → type_propagate e st false ≡ ok e
      → type_propagate_args es st false ≡ ok es
      → type_propagate_args (arg e es) st false ≡ ok (arg e es)
  unfolding type_propagate
  args_run e es he hes = rw (he, hes) refl

mutual
  unfolding type_propagate

  again :
      (e e' : Expr) (st : Symtab)
      → type_propagate e st false ≡ ok e'
      → type_propagate e' st false ≡ ok e'
  again (const c) e' st h = returned (const c) e' (ok-injective h) st refl
  again (var x) e' st h = elim (Option-cases (lookup x.name st.var_types)) [
    | inl missing ↦ absurd (cc (rw missing at h))
    | inr (t, found) ↦
        returned (var (record x { type_ = t })) e' (ok-injective (rw found at h)) st (rw found refl)
  ]
  again (call f args t) e' st h =
      let (es, run, made) = >>=-eq-ok (type_propagate_args args st false) _ h in
      let (f', u, is_e, once) = typed_call_again f es st e' made in
      returned (call f' es u) e' (sym is_e) st (rw (again_args args es st run) (once ∙ ap ok is_e))
  again (lam x body t) e' st h =
      let (b, run, rest) = >>=-eq-ok (type_propagate body (bind_var x x.type_ st) false) _ h in
      let (s, dom, rest') = >>=-eq-ok (known x.type_) _ rest in
      let (r, cod, made) = >>=-eq-ok (known (type_of b)) _ rest' in
      returned (lam x b (some (lam_type s r))) e' (ok-injective made) st
        (rw (again body b (bind_var x x.type_ st) run, dom, cod) refl)
  again (let_in b rhs body t) e' st h =
      let (r, run, rest) = >>=-eq-ok (type_propagate rhs st false) _ h in
      let ((b', s), bound, rest') = >>=-eq-ok (bind_let b (type_of r) st) _ rest in
      let (d, run', made) = >>=-eq-ok (type_propagate body s false) _ rest' in
      returned (let_in b' r d (type_of d)) e' (ok-injective made) st (
        let_run st b' r d s (again rhs r st run) (bind_let_again b b' (type_of r) st s bound)
          (again body d s run'))
  again (if_else c t f ty) e' st h =
      let (c', rc, rest) = >>=-eq-ok (type_propagate c st false) _ h in
      let (_, cond, rest') = >>=-eq-ok (is_bool (type_of c')) _ rest in
      let (t', rt, more) = >>=-eq-ok (type_propagate t st false) _ rest' in
      let (f', rf, more') = >>=-eq-ok (type_propagate f st false) _ more in
      let (_, same, made) =
        >>=-eq-ok (require (same_type (type_of t') (type_of f')) assertion_error) _ more' in
      returned (if_else c' t' f' (type_of t')) e' (ok-injective made) st
        (if_run st c' t' f' (again c c' st rc) cond (again t t' st rt) (again f f' st rf) same)
  again (assert c b ty) e' st h =
      let (c', rc, rest) = >>=-eq-ok (type_propagate c st false) _ h in
      let (_, cond, rest') = >>=-eq-ok (is_bool (type_of c')) _ rest in
      let (b', rb, made) = >>=-eq-ok (type_propagate b st false) _ rest' in
      returned (assert c' b' (type_of b')) e' (ok-injective made) st
        (assert_run st c' b' (again c c' st rc) cond (again b b' st rb))

  again_args :
      (es es' : Exprs) (st : Symtab)
      → type_propagate_args es st false ≡ ok es'
      → type_propagate_args es' st false ≡ ok es'
  again_args no_args es' st h = returned_args no_args es' (ok-injective h) st refl
  again_args (arg e es) es' st h =
      let (d, run, rest) = >>=-eq-ok (type_propagate e st false) _ h in
      let (ds, run', made) = >>=-eq-ok (type_propagate_args es st false) _ rest in
      returned_args (arg d ds) es' (ok-injective made) st
        (args_run st d ds (again e d st run) (again_args es ds st run'))

-- Type propagation that does not respect existing types is idempotent: an expression to which it has given types is given the same
-- types again, with the same symbol table.
pub type_propagate_idem :
    (e e' : Expr) (st : Symtab)
    → type_propagate e st false ≡ ok e'
    → type_propagate e' st false ≡ ok e'
type_propagate_idem e e' st h = again e e' st h
