-- ===== src/Untuple/Total.antt =====
-- src/python/ksc/untuple_lets.py: when untuple_lets succeeds, and the form of its result.
use knossos_ksc.Base.{
  ℕ, suc, ◌+◌, ◌≤◌, ◌≡◌, refl, ap, Bool, true, false, ◌&&◌, ◌||◌, not, List, [], ◌∷◌, none, Option,
  leb, ◌==◌, length, arith, &&-left, &&-right, &&-both, Bool-cases, inl, inr,
}
use knossos_ksc.Base.Result.{Result, ok, map_ok}
use knossos_ksc.Types.Defs.{KsType}
use knossos_ksc.Names.{StructuredName}
use knossos_ksc.Expr.{
  Var, Binder, one, many, Expr, Exprs, const, var, call, lam, let_in, if_else, assert, no_args, arg,
  args_list, is_untupled, are_untupled,
}
use knossos_ksc.Untuple.{
  is_literal_tuple, make_tuple_get, lets, gets, untuple_value, untuple_one_let, untuple_lets,
  untuple_args, call_args, get_call,
}

-- A let of several variables over a literal tuple has as many variables as values.
unfoldable pub lengths_match : Binder → Expr → Bool
lengths_match (one x) rhs = true
lengths_match (many x xs) rhs =
    not (is_literal_tuple rhs) || (length (args_list (call_args rhs)) == length (x ∷ xs))

-- So do all the lets of the expression.
unfoldable mutual
  pub all_lengths_match : Expr → Bool
  all_lengths_match (const c) = true
  all_lengths_match (var x) = true
  all_lengths_match (call f args t) = each_lengths_match args
  all_lengths_match (lam x body t) = all_lengths_match body
  all_lengths_match (let_in b rhs body t) =
      lengths_match b rhs && (all_lengths_match rhs && all_lengths_match body)
  all_lengths_match (if_else c t f ty) =
      all_lengths_match c && (all_lengths_match t && all_lengths_match f)
  all_lengths_match (assert c b ty) = all_lengths_match c && all_lengths_match b

  pub each_lengths_match : Exprs → Bool
  each_lengths_match no_args = true
  each_lengths_match (arg e es) = all_lengths_match e && each_lengths_match es

lets-are_untupled :
    (xs : List Var) (es : Exprs) (body : Expr)
    → are_untupled es ≡ true
    → is_untupled body ≡ true
    → is_untupled (lets xs es body) ≡ true
unfolding lets is_untupled
lets-are_untupled [] no_args body h k = k
lets-are_untupled [] (arg e es) body h k = k
lets-are_untupled (x ∷ xs) no_args body h k = k
lets-are_untupled (x ∷ xs) (arg e es) body h k =
    &&-both (&&-left _ _ h) (lets-are_untupled xs es body (&&-right (is_untupled e) _ h) k)

pub in_range : (posn size : ℕ) → 1 ≤ posn → posn ≤ size → (leb 1 posn && leb posn size) ≡ true
in_range posn size low high = ground arith

-- In range, the chain of accessors is built.
gets-are_untupled :
    (posn size : ℕ) (x : Var) (xs : List Var) (y : Var) (body : Expr)
    → is_untupled body ≡ true
    → 1 ≤ posn
    → posn + length xs ≤ size
    → (e : Expr) × (gets posn size (x ∷ xs) y body ≡ ok e)
      × (is_untupled e ≡ true)
      × (is_literal_tuple e ≡ false)
unfolding gets is_untupled make_tuple_get is_literal_tuple
gets-are_untupled posn size x [] y body h low high = (
  let_in (one x) (get_call posn size (var y)) body none,
  rw (in_range posn size low (omega arith)) refl,
  h,
  refl,
)
gets-are_untupled posn size x (z ∷ xs) y body h low high =
    let (e, run, good, _) =
      gets-are_untupled (posn + 1) size z xs y body h (omega arith) (omega arith) in
    (
      let_in (one x) (get_call posn size (var y)) e none,
      rw (in_range posn size low (omega arith), run) refl,
      good,
      refl,
    )

through :
    (x : Var) (rhs : Expr) (r : Result Expr)
    → is_untupled rhs ≡ true
    → (e : Expr) × (r ≡ ok e) × (is_untupled e ≡ true) × (is_literal_tuple e ≡ false)
    → (e : Expr) × (map_ok (λ b. let_in (one x) rhs b none) r ≡ ok e)
      × (is_untupled e ≡ true)
      × (is_literal_tuple e ≡ false)
unfolding is_untupled is_literal_tuple
through x rhs r h (e, run, good, _) = (let_in (one x) rhs e none, rw run refl, &&-both h good, refl)

untuple_value-is_untupled :
    (x : Var) (xs : List Var) (rhs body : Expr)
    → is_untupled rhs ≡ true
    → is_untupled body ≡ true
    → (e : Expr) × (untuple_value (x ∷ xs) rhs body ≡ ok e)
      × (is_untupled e ≡ true)
      × (is_literal_tuple e ≡ false)
unfolding untuple_value is_untupled is_literal_tuple
untuple_value-is_untupled x xs (var y) body h k =
    gets-are_untupled 1 (length (x ∷ xs)) x xs y body k (omega arith) (omega arith)
untuple_value-is_untupled x xs (const c) body h k =
    through _ _ _ h
      (gets-are_untupled 1 (length (x ∷ xs)) x xs _ body k (omega arith) (omega arith))
untuple_value-is_untupled x xs (call f args t) body h k =
    through _ _ _ h
      (gets-are_untupled 1 (length (x ∷ xs)) x xs _ body k (omega arith) (omega arith))
untuple_value-is_untupled x xs (lam z b t) body h k =
    through _ _ _ h
      (gets-are_untupled 1 (length (x ∷ xs)) x xs _ body k (omega arith) (omega arith))
untuple_value-is_untupled x xs (let_in (one z) r b t) body h k =
    through _ _ _ h
      (gets-are_untupled 1 (length (x ∷ xs)) x xs _ body k (omega arith) (omega arith))
untuple_value-is_untupled x xs (let_in (many z zs) r b t) body h k =
    through _ _ _ h
      (gets-are_untupled 1 (length (x ∷ xs)) x xs _ body k (omega arith) (omega arith))
untuple_value-is_untupled x xs (if_else c t f ty) body h k =
    through _ _ _ h
      (gets-are_untupled 1 (length (x ∷ xs)) x xs _ body k (omega arith) (omega arith))
untuple_value-is_untupled x xs (assert c b ty) body h k =
    through _ _ _ h
      (gets-are_untupled 1 (length (x ∷ xs)) x xs _ body k (omega arith) (omega arith))

call_args-are_untupled : (e : Expr) → is_untupled e ≡ true → are_untupled (call_args e) ≡ true
unfolding is_untupled
call_args-are_untupled (call f args t) h = h
call_args-are_untupled (const c) h = refl
call_args-are_untupled (var x) h = refl
call_args-are_untupled (lam x b t) h = refl
call_args-are_untupled (let_in b r e t) h = refl
call_args-are_untupled (if_else c t f ty) h = refl
call_args-are_untupled (assert c b ty) h = refl

lets-is_let :
    (x : Var) (xs : List Var) (es : Exprs) (body : Expr)
    → (length (args_list es) == length (x ∷ xs)) ≡ true
    → is_literal_tuple (lets (x ∷ xs) es body) ≡ false
unfolding lets is_literal_tuple
lets-is_let x xs no_args body h = absurd (ground arith)
lets-is_let x xs (arg e es) body h = refl

untuple_one_let-is_untupled :
    (b : Binder) (rhs body : Expr)
    → lengths_match b rhs ≡ true
    → is_untupled rhs ≡ true
    → is_untupled body ≡ true
    → (e : Expr) × (untuple_one_let b rhs body none ≡ ok e)
      × (is_untupled e ≡ true)
      × (is_literal_tuple e ≡ false)
unfolding untuple_one_let lengths_match is_literal_tuple is_untupled
untuple_one_let-is_untupled (one x) rhs body m h k = (_, refl, &&-both h k, refl)
untuple_one_let-is_untupled (many x xs) rhs body m h k = elim (Bool-cases (is_literal_tuple rhs)) [
  | inl literal ↦
      let same : (length (args_list (call_args rhs)) == length (x ∷ xs)) ≡ true = rw literal at m in
      (
        lets (x ∷ xs) (call_args rhs) body,
        rw (literal, same) refl,
        lets-are_untupled (x ∷ xs) (call_args rhs) body (call_args-are_untupled rhs h) k,
        lets-is_let x xs (call_args rhs) body same,
      )
  | inr other ↦ rw other (untuple_value-is_untupled x xs rhs body h k)
]

no_literal : (e : Expr) → is_literal_tuple e ≡ false → (b : Binder) → lengths_match b e ≡ true
unfolding lengths_match
no_literal e h (one x) = refl
no_literal e h (many x xs) = rw h refl

abbrev pub SameLength : Exprs → Exprs → Type 0
SameLength es es' = length (args_list es) ≡ length (args_list es')

lengths_match_call :
    (f : StructuredName) (es es' : Exprs) (t : Option KsType) (b : Binder)
    → SameLength es es'
    → lengths_match b (call f es t) ≡ true
    → lengths_match b (call f es' t) ≡ true
unfolding lengths_match is_literal_tuple
lengths_match_call f es es' t (one x) same h = refl
lengths_match_call f es es' t (many x xs) same h = rw (← same) h

mutual
  unfolding untuple_lets is_untupled all_lengths_match is_literal_tuple

  pub untuple-total :
      (e : Expr)
      → all_lengths_match e ≡ true
      → (e' : Expr) × (untuple_lets e ≡ ok e')
        × (is_untupled e' ≡ true)
        × ((b : Binder) → lengths_match b e ≡ true → lengths_match b e' ≡ true)
  untuple-total (const c) h = (const c, refl, refl, λ b m. m)
  untuple-total (var x) h = (var x, refl, refl, λ b m. m)
  untuple-total (call f args t) h =
      let (es, run, good, len) = untuple_args-total args h in
      (call f es t, rw run refl, good, λ b m. lengths_match_call f args es t b len m)
  untuple-total (lam x body t) h =
      let (b, run, good, _) = untuple-total body h in
      (lam x b t, rw run refl, good, λ b' m. no_literal (lam x b t) refl b')
  untuple-total (let_in b rhs body t) h =
      let (r, run, good, same) =
        untuple-total rhs (&&-left _ _ (&&-right (lengths_match b rhs) _ h)) in
      let (e, run', good', _) =
        untuple-total body
          (&&-right (all_lengths_match rhs) _ (&&-right (lengths_match b rhs) _ h)) in
      let (l, run'', good'', lit) =
        untuple_one_let-is_untupled b r e (same b (&&-left _ _ h)) good good' in
      (l, rw (run, run') run'', good'', λ b' m. no_literal l lit b')
  untuple-total (if_else c t f ty) h =
      let (c', rc, gc, _) = untuple-total c (&&-left _ _ h) in
      let (t', rt, gt, _) = untuple-total t (&&-left _ _ (&&-right (all_lengths_match c) _ h)) in
      let (f', rf, gf, _) =
        untuple-total f (&&-right (all_lengths_match t) _ (&&-right (all_lengths_match c) _ h)) in
      (
        if_else c' t' f' ty,
        rw (rc, rt, rf) refl,
        &&-both gc (&&-both gt gf),
        λ b m. no_literal (if_else c' t' f' ty) refl b,
      )
  untuple-total (assert c b ty) h =
      let (c', rc, gc, _) = untuple-total c (&&-left _ _ h) in
      let (b', rb, gb, _) = untuple-total b (&&-right (all_lengths_match c) _ h) in
      (assert c' b' ty, rw (rc, rb) refl, &&-both gc gb, λ x m. no_literal (assert c' b' ty) refl x)

  pub untuple_args-total :
      (es : Exprs)
      → each_lengths_match es ≡ true
      → (es' : Exprs) × (untuple_args es ≡ ok es') × (are_untupled es' ≡ true) × SameLength es es'
  untuple_args-total no_args h = (no_args, refl, refl, refl)
  untuple_args-total (arg e es) h =
      let (e', run, good, _) = untuple-total e (&&-left _ _ h) in
      let (es', run', good', len) = untuple_args-total es (&&-right (all_lengths_match e) _ h) in
      (arg e' es', rw (run, run') refl, &&-both good good', ap suc len)

-- An expression whose lets over literal tuples have as many variables as values is untupled with
-- no error, and every let of the result binds a single variable.
pub untuple_lets_total :
    (e : Expr)
    → all_lengths_match e ≡ true
    → (e' : Expr) × (untuple_lets e ≡ ok e') × (is_untupled e' ≡ true)
untuple_lets_total e h = let (e', run, good, _) = untuple-total e h in (e', run, good)
