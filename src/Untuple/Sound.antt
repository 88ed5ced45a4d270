-- ===== src/Untuple/Sound.antt =====
-- src/python/ksc/untuple_lets.py: what untuple_one_let makes of a let means what the let means.
use knossos_ksc.Base.{
  ℕ, suc, ◌+◌, ◌≤◌, ◌≡◌, refl, ◌∙◌, ap, sym, Bool, true, false, ◌||◌, List, [], ◌∷◌, none, some,
  Option, if◌then◌else◌, ◌==◌, ==_iff, length, get_elem?, arith, Bool-cases, inl, inr,
  ||-left_false, ||-right_false,
}
use knossos_ksc.Base.Text.{Text, text, text_eq, text_eq_refl, text_eq_comm, elem}
use knossos_ksc.Base.Result.{ok, map_ok}
use knossos_ksc.Types.Defs.{KsType}
use knossos_ksc.Names.{StructuredName, plain, mangle_without_type}
use knossos_ksc.Expr.{
  Var, Binder, one, many, Expr, Exprs, const, var, call, lam, let_in, if_else, assert, no_args, arg,
  args_list, free_vars, free_vars_args, names, binder_vars,
}
use knossos_ksc.Expr.Meaning.{
  Meaning, Env, update, bind, bind_parts, eval, eval_args, eval-Agree, Agree, Agree-left,
  Agree-right, Agree-bind_parts,
}
use knossos_ksc.Fresh.{make_nonfree_var_lem}
use knossos_ksc.Untuple.{
  is_literal_tuple, make_tuple_get, lets, gets, untuple_value, untuple_one_let, call_args, temp_var,
  get_call, get_name,
}
use knossos_ksc.Untuple.Total.{in_range, lengths_match}
use knossos_ksc.Untuple.Scope.{in_rest, Agree-unused, not_bound, Agree-within}

-- Tuples in a meaning: `get$i$n` is component `i` of `n`, which `tuple` puts there.
pub record HasTuples {V : Type 0} (m : Meaning V) : Type 0 where
  pub get_of : (i n : ℕ) (v : V) → m.call_of (plain (get_name i n)) (v ∷ []) ≡ m.part_of i n v
  pub tuple_of :
      (f : StructuredName) (vs : List V) (i : ℕ) (v : V)
      → text_eq (mangle_without_type f) (text "tuple") ≡ true
      → get_elem? vs i ≡ some v
      → m.part_of (i + 1) (length vs) (m.call_of f vs) ≡ v

-- The names that the new lets read: those of a literal tuple or of a variable, or else the
-- variable that holds the value.
unfoldable pub names_read : Expr → Expr → List Text
names_read (var y) body = y.name ∷ []
names_read rhs body = if is_literal_tuple rhs then free_vars rhs else (temp_var rhs body).name ∷ []

-- No variable of the let is among the names.
abbrev pub Apart : Binder → List Text → Type 0
Apart b xs = (y : Text) → elem y (names (binder_vars b)) ≡ true → elem y xs ≡ false

names_read-literal :
    (rhs body : Expr) → is_literal_tuple rhs ≡ true → names_read rhs body ≡ free_vars rhs
unfolding names_read is_literal_tuple
names_read-literal (call f args t) body h = rw h refl
names_read-literal (const c) body h = cc
names_read-literal (var y) body h = cc
names_read-literal (lam y b t) body h = cc
names_read-literal (let_in b r e t) body h = cc
names_read-literal (if_else c t f ty) body h = cc
names_read-literal (assert c b ty) body h = cc

or_true : (b : Bool) → (b || true) ≡ true
or_true b = ground arith

module _ {V : Type 0} (m : Meaning V) (tuples : HasTuples m) where
  -- The chain of accessors binds the components of the value of `y`.
  eval-gets :
      (posn size : ℕ) (xs : List Var) (y : Var) (body : Expr)
      → elem y.name (names xs) ≡ false
      → 1 ≤ posn
      → posn + length xs ≤ suc size
      → (e : Expr) × (gets posn size xs y body ≡ ok e)
        × ((env : Env V) → eval m e env ≡ eval m body (bind_parts m (env y.name) size posn xs env))
  unfolding gets make_tuple_get bind_parts eval bind
  eval-gets posn size [] y body apart low high = (body, refl, λ env. refl)
  eval-gets posn size (x ∷ xs) y body apart low high =
      let (e, run, same) =
        eval-gets (posn + 1) size xs y body (||-right_false (text_eq y.name x.name) _ apart)
          (omega arith) (omega arith) in
      let other : text_eq x.name y.name ≡ false =
        text_eq_comm x.name y.name ∙ ||-left_false _ _ apart in
      (
        let_in (one x) (get_call posn size (var y)) e none,
        rw (in_range posn size low (omega arith), run) refl,
        λ env.
            same (update env x.name (m.call_of (plain (get_name posn size)) (env y.name ∷ [])))
            ∙ rw (other, tuples.get_of posn size (env y.name)) refl,
      )

  -- The chain of lets binds the arguments, where these are the parts of `w`.
  eval-lets :
      (w : V) (i n : ℕ) (xs : List Var) (es : Exprs) (body : Expr) (env₀ env : Env V)
      → Agree (free_vars_args es) env₀ env
      → ((y : Text) → elem y (names xs) ≡ true → elem y (free_vars_args es) ≡ false)
      → length (args_list es) ≡ length xs
      → ((j k : ℕ) (v : V)
          → k ≡ i + j
          → get_elem? (eval_args m es env₀) j ≡ some v
          → m.part_of k n w ≡ v)
      → eval m (lets xs es body) env ≡ eval m body (bind_parts m w n i xs env)
  unfolding lets bind_parts eval free_vars bind
  eval-lets w i n [] no_args body env₀ env agree apart len parts = refl
  eval-lets w i n [] (arg e es) body env₀ env agree apart len parts = absurd (omega (arith, len))
  eval-lets w i n (x ∷ xs) no_args body env₀ env agree apart len parts = absurd (omega (arith, len))
  eval-lets w i n (x ∷ xs) (arg e es) body env₀ env agree apart len parts =
      let first : eval m e env ≡ m.part_of i n w =
        sym (eval-Agree m e env₀ env (Agree-left (free_vars e) _ agree))
        ∙ sym (parts 0 i (eval m e env₀) (omega arith) refl) in
      let unread : elem x.name (free_vars_args es) ≡ false =
        in_rest x.name (free_vars e) _ (apart x.name (rw (text_eq_refl x.name) refl)) in
      rw first (
        eval-lets w (i + 1) n xs es body env₀ (update env x.name (m.part_of i n w))
          (Agree-unused x.name (m.part_of i n w) (free_vars_args es) env₀ env unread
            (Agree-right (free_vars e) _ agree))
          (λ y h. in_rest y (free_vars e) _ (apart y (rw h (or_true (text_eq y x.name)))))
          (omega (arith, len)) (λ j k v at found. parts (suc j) k v (omega (arith, at)) found))

  length-eval_args :
      (es : Exprs) (env : Env V) → length (eval_args m es env) ≡ length (args_list es)
  unfolding eval
  length-eval_args no_args env = refl
  length-eval_args (arg e es) env = ap suc (length-eval_args es env)

  -- The parts of a literal tuple.
  literal_let_sound :
      (x : Var) (xs : List Var) (rhs body : Expr) (env : Env V)
      → is_literal_tuple rhs ≡ true
      → (length (args_list (call_args rhs)) == length (x ∷ xs)) ≡ true
      → Apart (many x xs) (free_vars rhs)
      → eval m (lets (x ∷ xs) (call_args rhs) body) env
        ≡ eval m body (bind m (many x xs) (eval m rhs env) env)
  unfolding is_literal_tuple eval bind free_vars
  literal_let_sound x xs (call f args t) body env literal len apart =
      let n_args : length (args_list args) ≡ length (x ∷ xs) = (==_iff _ _).0 len in
      eval-lets (m.call_of f (eval_args m args env)) 1 (length (x ∷ xs)) (x ∷ xs) args body env env
        (λ y used. refl) apart n_args
        (λ j k v at found.
          let size : length (eval_args m args env) ≡ length (x ∷ xs) =
            length-eval_args args env ∙ n_args in
          let place : k ≡ j + 1 = omega (arith, at) in
          rw (place, ← size) (tuples.tuple_of f (eval_args m args env) j v literal found))
  literal_let_sound x xs (const c) body env literal len apart = cc
  literal_let_sound x xs (var y) body env literal len apart = cc
  literal_let_sound x xs (lam y b t) body env literal len apart = cc
  literal_let_sound x xs (let_in b r e t) body env literal len apart = cc
  literal_let_sound x xs (if_else c t f ty) body env literal len apart = cc
  literal_let_sound x xs (assert c b ty) body env literal len apart = cc

  -- A name that the body does not use may be bound before the parts.
  eval-bind_unused :
      (z : Text) (v w : V) (n : ℕ) (xs : List Var) (body : Expr) (env : Env V)
      → elem z (free_vars body) ≡ false
      → w ≡ v
      → eval m body (bind_parts m w n 1 xs (update env z v))
        ≡ eval m body (bind_parts m v n 1 xs env)
  eval-bind_unused z v w n xs body env fresh same =
      ap (λ u. eval m body (bind_parts m u n 1 xs (update env z v))) same
      ∙ sym (
          eval-Agree m body (bind_parts m v n 1 xs env) (bind_parts m v n 1 xs (update env z v)) (
            Agree-bind_parts m v n 1 xs (free_vars body) (
              Agree-within (names xs) (free_vars body)
                (Agree-unused z v (free_vars body) env env fresh (λ y h. refl)))))

  -- A value that is computed once, into a new name.
  temp_let_sound :
      (x : Var) (xs : List Var) (rhs body : Expr)
      → Apart (many x xs) ((temp_var rhs body).name ∷ [])
      → (e : Expr) × (map_ok
            (λ b. let_in (one (temp_var rhs body)) rhs b none)
            (gets 1 (length (x ∷ xs)) (x ∷ xs) (temp_var rhs body) body)
          ≡ ok e)
        × ((env : Env V) → eval m e env ≡ eval m body (bind m (many x xs) (eval m rhs env) env))
  unfolding eval bind
  temp_let_sound x xs rhs body apart =
      let temp = temp_var rhs body in
      let fresh : elem temp.name (free_vars body) ≡ false = ||-left_false _ _ (
        ||-right_false (elem temp.name (free_vars rhs)) _
          (make_nonfree_var_lem (text "temp") (rhs ∷ body ∷ []) none).0) in
      let (e, run, same) =
        eval-gets 1 (length (x ∷ xs)) (x ∷ xs) temp body
          (not_bound temp.name (names (x ∷ xs)) apart) (omega arith) (omega arith) in
      (
        let_in (one temp) rhs e none,
        rw run refl,
        λ env.
            same (update env temp.name (eval m rhs env))
            ∙ eval-bind_unused temp.name (eval m rhs env) _ (length (x ∷ xs)) (x ∷ xs) body env
                fresh (rw (text_eq_refl temp.name) refl),
      )

  eval-untuple_value :
      (x : Var) (xs : List Var) (rhs body : Expr)
      → is_literal_tuple rhs ≡ false
      → Apart (many x xs) (names_read rhs body)
      → (e : Expr) × (untuple_value (x ∷ xs) rhs body ≡ ok e)
        × ((env : Env V) → eval m e env ≡ eval m body (bind m (many x xs) (eval m rhs env) env))
  unfolding untuple_value names_read eval bind
  eval-untuple_value x xs (var y) body h apart =
      eval-gets 1 (length (x ∷ xs)) (x ∷ xs) y body (not_bound y.name (names (x ∷ xs)) apart)
        (omega arith) (omega arith)
  eval-untuple_value x xs (const c) body h apart =
      temp_let_sound x xs (const c) body (λ y k. rw h at apart y k)
  eval-untuple_value x xs (call f args t) body h apart =
      temp_let_sound x xs (call f args t) body (λ y k. rw h at apart y k)
  eval-untuple_value x xs (lam y b t) body h apart =
      temp_let_sound x xs (lam y b t) body (λ y k. rw h at apart y k)
  eval-untuple_value x xs (let_in b r e t) body h apart =
      temp_let_sound x xs (let_in b r e t) body (λ y k. rw h at apart y k)
  eval-untuple_value x xs (if_else c t f ty) body h apart =
      temp_let_sound x xs (if_else c t f ty) body (λ y k. rw h at apart y k)
  eval-untuple_value x xs (assert c b ty) body h apart =
      temp_let_sound x xs (assert c b ty) body (λ y k. rw h at apart y k)

  -- In a meaning where `tuple` and `get$i$n` build and take apart tuples, a let whose variables are
  -- apart from the names that the new lets read, and as many as the values of a literal tuple, is
  -- untupled with no error, and the result means what the let means.
  pub eval-untuple_one_let :
      (b : Binder) (rhs body : Expr) (t : Option KsType)
      → lengths_match b rhs ≡ true
      → Apart b (names_read rhs body)
      → (e : Expr) × (untuple_one_let b rhs body t ≡ ok e)
        × ((env : Env V) → eval m e env ≡ eval m (let_in b rhs body t) env)
  unfolding untuple_one_let lengths_match eval bind
  eval-untuple_one_let (one x) rhs body t len apart = (let_in (one x) rhs body t, refl, λ env. refl)
  eval-untuple_one_let (many x xs) rhs body t len apart = elim (Bool-cases (is_literal_tuple rhs)) [
    | inl literal ↦
        let same : (length (args_list (call_args rhs)) == length (x ∷ xs)) ≡ true =
          rw literal at len in
        (
          lets (x ∷ xs) (call_args rhs) body,
          rw (literal, same) refl,
          λ env.
              literal_let_sound x xs rhs body env literal same
                (λ y k. rw (names_read-literal rhs body literal) at apart y k),
        )
    | inr other ↦ rw other (eval-untuple_value x xs rhs body other apart)
  ]
