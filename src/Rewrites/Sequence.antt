-- ===== src/Rewrites/Sequence.antt =====
-- src/python/ksc/rewrites.py, `rewrite_seq_to_exprs`: rewrites by name and path, one after another.
-- The registry of the rules is a dictionary that is passed on.
use knossos_ksc.Base.{
  ◌≡◌, refl, subst, ◌∙◌, true, Bool, none, some, List, [], ◌∷◌, if◌then◌else◌, Memᴰ, inl, inr,
  Option-cases, Bool-cases, false, ◌⊎◌,
}
use mathlib.Core.List.Memᴰ
use knossos_ksc.Base.Text.{Text, text_eq}
use knossos_ksc.Base.Result.{
  Result, ok, err, key_error, value_error, assertion_error, ◌>>=◌, ◌>>◌, require, map_ok, >>=-eq-ok,
}
use knossos_ksc.Base.Assoc.{Dict, text_key, lookup}
use knossos_ksc.Names.{StructuredName}
use knossos_ksc.Expr.{Constant, Expr, Def, is_untupled}
use knossos_ksc.Expr.Meaning.{Meaning, Env, eval}
use knossos_ksc.Paths.{ExprPath, path_eq}
use knossos_ksc.Paths.Serial.{deserialize_path}
use knossos_ksc.Rewrites.{Match, RuleMatcher, rule_matches_here, find_all_matches}
use knossos_ksc.Rewrites.Traverse.{Runs}
use knossos_ksc.Rewrites.Sound.{Keeps, KeepsAll, find_all_matches_sound}

-- `_rule_dict`.
abbrev pub Registry : Type 0
Registry = Dict Text RuleMatcher

unfoldable pub rule : Text → Registry → Result RuleMatcher
rule name rules = elim (lookup name rules) [ none ↦ err key_error | some r ↦ ok r ]

abbrev pub matches_at : ExprPath → List Match → List Match
matches_at path [] = []
matches_at path (m ∷ ms) =
    let rest = matches_at path ms in if path_eq m.ewp.path path then m ∷ rest else rest

-- The one match at the path is applied. Where there is none, a ValueError tells whether the path
-- is one of the expression; more than one fails `single_elem`.
unfoldable pub apply_single : Text → List Match → Result Expr
apply_single name [] = err value_error
apply_single name (m ∷ []) = require (text_eq m.rule name) assertion_error >> m.apply_rewrite
apply_single name (m ∷ n ∷ ms) = err assertion_error

module _ (py_eq : Constant → Constant → Bool) (rules : Registry)
    (defs : Dict StructuredName Def) where
  -- A round of the loop of `follow_sequence`, on a path that has been read.
  unfoldable pub apply_rule : Text → ExprPath → Expr → Result Expr
  unfolding rule apply_single
  apply_rule name path e = rule name rules >>= λ r.
      find_all_matches (rule_matches_here py_eq r) e defs >>= λ ms.
      apply_single name (matches_at path ms)

  unfoldable pub rewrite_seq_to_exprs : Expr → List (Text × List Text) → Result (List Expr)
  unfolding apply_rule
  rewrite_seq_to_exprs e [] = ok []
  rewrite_seq_to_exprs e ((name, s_path) ∷ rest) = deserialize_path s_path >>= λ path.
      apply_rule name path e >>= λ e'. map_ok (λ es. e' ∷ es) (rewrite_seq_to_exprs e' rest)

matches_at-Mem :
    (path : ExprPath) (ms : List Match) (m : Match) → Memᴰ m (matches_at path ms) → Memᴰ m ms
matches_at-Mem path [] m at = at
matches_at-Mem path (n ∷ ms) m at = elim (Bool-cases (path_eq n.ewp.path path)) [
  | inl e ↦ elim (Memᴰ.cases_cons (rw e at at)) [
    | inl same ↦ Memᴰ.head same
    | inr later ↦ Memᴰ.tail (matches_at-Mem path ms m later)
  ]
  | inr e ↦ Memᴰ.tail (matches_at-Mem path ms m (rw e at at))
]

module _ (py_eq : Constant → Constant → Bool) (rules : Registry) (defs : Dict StructuredName Def)
    {V : Type 0} (meaning : Meaning V) where
  -- The rules of the registry succeed at every place, and keep the meaning.
  abbrev pub IsTrusted : Type 0
  IsTrusted =
      (name : Text) (r : RuleMatcher)
      → lookup name rules ≡ some r
      → ((root : Expr) → Runs (rule_matches_here py_eq r) root) × KeepsAll meaning r

  abbrev pub Same : Expr → Expr → Type 0
  Same e e' = (is_untupled e' ≡ true) × ((env : Env V) → eval meaning e' env ≡ eval meaning e env)

  abbrev pub Fails : Text → ExprPath → Expr → Result Expr → Type 0
  Fails name path e r =
      (q : RuleMatcher) × (ms : List Match) × (lookup name rules ≡ some q)
      × (find_all_matches (rule_matches_here py_eq q) e defs ≡ ok ms)
      × (((matches_at path ms ≡ []) × (r ≡ err value_error))
          ⊎ (((m : Match) × (matches_at path ms ≡ m ∷ [])
                × (text_eq m.rule name ≡ false)
                × (r ≡ err assertion_error))
              ⊎ ((m n : Match) × (l : List Match) × (matches_at path ms ≡ m ∷ n ∷ l)
                  × (r ≡ err assertion_error))))

  -- The round succeeds with the meaning kept; or it raises: no rule has the name, no match stands at
  -- the path, the one that does has another name, or several do.
  abbrev pub Outcome : Text → ExprPath → Expr → Result Expr → Type 0
  Outcome name path e r =
      ((e' : Expr) × (r ≡ ok e') × Same e e')
      ⊎ (((lookup name rules ≡ none) × (r ≡ err key_error)) ⊎ Fails name path e r)

  single :
      (name : Text) (e : Expr) (l : List Match)
      → ((m : Match) → Memᴰ m l → Keeps meaning e m)
      → ((e' : Expr) × (apply_single name l ≡ ok e') × Same e e')
        ⊎ (((l ≡ []) × (apply_single name l ≡ err value_error))
            ⊎ (((m : Match) × (l ≡ m ∷ [])
                  × (text_eq m.rule name ≡ false)
                  × (apply_single name l ≡ err assertion_error))
                ⊎ ((m n : Match) × (k : List Match) × (l ≡ m ∷ n ∷ k)
                    × (apply_single name l ≡ err assertion_error))))
  unfolding apply_single
  single name e [] keeps = inr (inl (refl, refl))
  single name e (m ∷ []) keeps = elim (Bool-cases (text_eq m.rule name)) [
    | inl named ↦
        let (e', run, u, same) = keeps m (Memᴰ.head refl) in inl (e', rw named run, (u, same))
    | inr other ↦ inr (inr (inl (m, refl, other, rw other refl)))
  ]
  single name e (m ∷ n ∷ k) keeps = inr (inr (inr (m, n, k, refl, refl)))

  -- A round of rewriting with trusted rules, on an expression whose lets bind single variables: the
  -- result means the same and its lets bind single variables, and the only errors are KeyError for
  -- a name that is not registered, ValueError where no match of the rule stands at the path, and
  -- AssertionError where several do or the one has another name.
  pub apply_rule_lem :
      (name : Text) (path : ExprPath) (e : Expr)
      → IsTrusted
      → is_untupled e ≡ true
      → Outcome name path e (apply_rule py_eq rules defs name path e)
  unfolding apply_rule rule
  apply_rule_lem name path e trusted u = elim (Option-cases (lookup name rules)) [
    | inl missing ↦ inr (inl (missing, rw (missing, rule) refl))
    | inr (r, at) ↦
        let (runs, keeps) = trusted name r at in
        let (ms, run, all_keep) = find_all_matches_sound py_eq meaning r e defs (runs e) keeps u in
        elim (single name e (matches_at path ms)
          (λ m there. all_keep m (matches_at-Mem path ms m there))) [
            | inl (e', go, same) ↦ inl (e', rw (at, rule, run) go, same)
            | inr (inl (none_there, go)) ↦
                inr (inr (r, ms, at, run, inl (none_there, rw (at, rule, run) go)))
            | inr (inr (inl (m, one_there, other, go))) ↦
                inr (inr (r, ms, at, run, inr (inl (m, one_there, other, rw (at, rule, run) go))))
            | inr (inr (inr (m, n, l, more_there, go))) ↦
                inr (inr (r, ms, at, run, inr (inr (m, n, l, more_there, rw (at, rule, run) go))))
          ]
  ]

  abbrev pub AllSame : Expr → List Expr → Type 0
  AllSame e [] = Unit {0}
  AllSame e (e' ∷ es) = Same e e' × AllSame e es

  AllSame-trans : (e e' : Expr) (es : List Expr) → Same e e' → AllSame e' es → AllSame e es
  AllSame-trans e e' [] s a = tt
  AllSame-trans e e' (f ∷ es) s ((u, same), a) =
      ((u, λ env. same env ∙ s.1 env), AllSame-trans e e' es s a)

  -- What a round returns means the same.
  result-Same :
      (name : Text) (path : ExprPath) (e e' : Expr) (r : Result Expr)
      → Outcome name path e r
      → r ≡ ok e'
      → Same e e'
  result-Same name path e e' r (inl (f, run, same)) h =
      let here : f ≡ e' = cc (run, h) in subst (Same e) here same
  result-Same name path e e' r (inr (inl (missing, run))) h = cc (run, h)
  result-Same name path e e' r (inr (inr (q, ms, at, found, inl (n, run)))) h = cc (run, h)
  result-Same name path e e' r (inr (inr (q, ms, at, found, inr (inl (m, n, o, run))))) h =
      cc (run, h)
  result-Same name path e e' r (inr (inr (q, ms, at, found, inr (inr (m, n, l, o, run))))) h =
      cc (run, h)

  -- Where the lets of the first expression bind single variables, and the rules are trusted, every
  -- expression that a sequence of rewrites returns means what the first one means, and its lets bind
  -- single variables.
  pub rewrite_seq_to_exprs_sound :
      (seq : List (Text × List Text)) (e : Expr) (es : List Expr)
      → IsTrusted
      → is_untupled e ≡ true
      → rewrite_seq_to_exprs py_eq rules defs e seq ≡ ok es
      → AllSame e es
  unfolding rewrite_seq_to_exprs
  rewrite_seq_to_exprs_sound [] e es trusted u h =
      let none : [] ≡ es = cc h in subst (AllSame e) none tt
  rewrite_seq_to_exprs_sound ((name, s_path) ∷ seq) e es trusted u h =
      let (path, read, h') = >>=-eq-ok (deserialize_path s_path) _ h in
      let (e', run, h'') = >>=-eq-ok (apply_rule py_eq rules defs name path e) _ h' in
      let same = result-Same name path e e' _ (apply_rule_lem name path e trusted u) run in
      let (es', rest, all) = map_ok-eq-ok _ (rewrite_seq_to_exprs py_eq rules defs e' seq) h'' in
      let kept = rewrite_seq_to_exprs_sound seq e' es' trusted same.0 rest in
      subst (AllSame e) all (same, AllSame-trans e e' es' same kept)
    where
      map_ok-eq-ok :
          (f : List Expr → List Expr) (r : Result (List Expr)) {l : List Expr}
          → map_ok f r ≡ ok l
          → (k : List Expr) × (r ≡ ok k) × (f k ≡ l)
      map_ok-eq-ok f (err k) g = cc g
      map_ok-eq-ok f (ok k) g = (k, refl, cc g)
