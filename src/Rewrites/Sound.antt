-- ===== src/Rewrites/Sound.antt =====
-- src/python/ksc/rewrites.py: what a rule owes to the expressions that it rewrites, and that a
-- search for its matches keeps it.
use knossos_ksc.Base.{◌≡◌, refl, sym, ◌∙◌, subst, true, List, [], Memᴰ, inl, inr, Bool, Bool-cases}
use mathlib.Core.List.Memᴰ
use knossos_ksc.Base.Result.{ok}
use knossos_ksc.Base.Assoc.{Dict}
use knossos_ksc.Names.{StructuredName}
use knossos_ksc.Expr.{Constant, Expr, Def, is_untupled}
use knossos_ksc.Expr.Meaning.{Meaning, Env, eval}
use knossos_ksc.Paths.{ExprPath}
use knossos_ksc.Rewrites.{
  ExprWithPath, Environment, Match, RuleMatcher, is_possible, rule_matches_here, find_all_matches,
  initial_env,
}
use knossos_ksc.Rewrites.Reach.{IsSituated, Reach-root}
use knossos_ksc.Rewrites.Traverse.{Runs, Found}
use knossos_ksc.Rewrites.Matches.{find_all_matches_lem}

-- The rewrite succeeds, and its result means what the root means.
abbrev pub Keeps : {V : Type 0} → Meaning V → Expr → Match → Type 0
Keeps {V} meaning root m =
    (e' : Expr) × (m.apply_rewrite ≡ ok e')
    × (is_untupled e' ≡ true)
    × ((env : Env V) → eval meaning e' env ≡ eval meaning root env)

-- Each match of the rule at a place of an expression keeps the meaning of the expression.
abbrev pub KeepsAll : {V : Type 0} → Meaning V → RuleMatcher → Type 0
KeepsAll meaning r =
    (root e : Expr) (path : ExprPath) (env : Environment) (ms : List Match) (m : Match)
    → is_untupled root ≡ true
    → IsSituated root e path env
    → r.matches_for_possible_expr (record { root = root; path = path; expr = e }) env ≡ ok ms
    → Memᴰ m ms
    → Keeps meaning root m

module _ (py_eq : Constant → Constant → Bool) where
  pub possible-run :
      (r : RuleMatcher) (ewp : ExprWithPath) (env : Environment)
      → is_possible py_eq r ewp.expr ≡ true
      → rule_matches_here py_eq r ewp env ≡ r.matches_for_possible_expr ewp env
  unfolding rule_matches_here
  possible-run r ewp env p = rw p refl

  pub possible-yields :
      (r : RuleMatcher) (ewp : ExprWithPath) (env : Environment) (ns : List Match) (m : Match)
      → rule_matches_here py_eq r ewp env ≡ ok ns
      → Memᴰ m ns
      → is_possible py_eq r ewp.expr ≡ true
  unfolding rule_matches_here
  possible-yields r ewp env ns m run at = elim (Bool-cases (is_possible py_eq r ewp.expr)) [
    | inl p ↦ p
    | inr n ↦
        let none : [] ≡ ns = cc (rw n at run) in
        absurd (Memᴰ.not-nil (subst (Memᴰ m) (sym none) at))
  ]

  -- A rule that succeeds at every place, and keeps the meaning at every place: the search for its
  -- matches succeeds, and each match that it finds keeps the meaning of the whole expression.
  pub find_all_matches_sound :
      {V : Type 0} (meaning : Meaning V) (r : RuleMatcher) (root : Expr)
      (defs : Dict StructuredName Def)
      → Runs (rule_matches_here py_eq r) root
      → KeepsAll meaning r
      → is_untupled root ≡ true
      → (ms : List Match) × (find_all_matches (rule_matches_here py_eq r) root defs ≡ ok ms)
        × ((m : Match) → Memᴰ m ms → Keeps meaning root m)
  find_all_matches_sound meaning r root defs runs keeps u =
      let (ms, run, iff) = find_all_matches_lem (rule_matches_here py_eq r) root defs runs u in
      (ms, run, λ m at. at_place m ((iff m).0 at))
    where
      at_place :
          (m : Match)
          → Found (rule_matches_here py_eq r) root m root [] (initial_env defs)
          → Keeps meaning root m
      at_place m (s, q, v, ns, steps, go, at) =
          let ewp : ExprWithPath = record { root = root; path = q; expr = s } in
          let p = possible-yields r ewp v ns m go at in
          keeps root s q v ns m u (Reach-root root s q v defs steps)
            (sym (possible-run r ewp v p) ∙ go) at
