-- ===== src/Rewrites/Sets.antt =====
-- src/python/ksc/rewrites.py, class RuleSet: one table for many rules runs the rules that would run
-- on their own.
use knossos_ksc.Base.{
  ◌≡◌, refl, sym, subst, ◌∙◌, Bool, true, false, ◌&&◌, ◌||◌, List, [], ◌∷◌, ◌++◌, Memᴰ, ◌⊎◌, inl,
  inr, ◌↔◌, any, Bool-cases, if◌then◌else◌, &&-left, &&-right,
}
use mathlib.Core.List.Memᴰ
use knossos_ksc.Base.Result.{ok}
use knossos_ksc.Expr.{Constant, Expr}
use knossos_ksc.Alpha.{get_filter_term}
use knossos_ksc.Rewrites.{
  ExprWithPath, Environment, Match, RuleMatcher, term_same, is_possible, rule_matches_here, RuleSet,
  rules_for_term, add_rule, add_rules, rule_set, possible_rules, run_rules, set_matches_here,
  is_call,
}
use knossos_ksc.Rewrites.Sound.{possible-run, possible-yields}
use knossos_ksc.Rewrites.Table.{Equality, hits_iff, rules_for_term-add_all}

module _ (py_eq : Constant → Constant → Bool) (equality : Equality py_eq) where
  -- A rule is run when its term is looked up, or on a call, when it may match any call.
  abbrev ByTerm : RuleMatcher → RuleSet py_eq → Expr → Type 0
  ByTerm x set e = Memᴰ x (rules_for_term py_eq (get_filter_term e) set.rules_by_filter_term)

  abbrev AnyCall : RuleMatcher → RuleSet py_eq → Expr → Type 0
  AnyCall x set e = (is_call e ≡ true) × Memᴰ x set.any_call_rules

  possible_rules_iff :
      (x : RuleMatcher) (set : RuleSet py_eq) (e : Expr)
      → Memᴰ x (possible_rules py_eq set e) ↔ (ByTerm x set e ⊎ AnyCall x set e)
  unfolding possible_rules
  possible_rules_iff x set e = elim (Bool-cases (is_call e)) [
    | inl c ↦ rw c (
      λ m. elim (Memᴰ.append_cases _ m) [ inl a ↦ inl a | inr a ↦ inr (refl, a) ],
      λ h. elim h [
        | inl a ↦ Memᴰ.append_left set.any_call_rules a
        | inr (_, a) ↦ Memᴰ.append_right _ a
      ],
    )
    | inr c ↦ rw c (λ m. inl m, λ h. elim h [ inl a ↦ a | inr (t, a) ↦ cc t ])
  ]

  is_possible_iff :
      (r : RuleMatcher) (e : Expr)
      → (is_possible py_eq r e ≡ true) ↔ (
          (any (term_same py_eq (get_filter_term e)) r.possible_filter_terms ≡ true)
          ⊎ ((is_call e ≡ true) × (r.may_match_any_call ≡ true)))
  unfolding is_possible
  is_possible_iff r e = or_iff (any (term_same py_eq (get_filter_term e)) r.possible_filter_terms)
    where
      or_iff :
          (a : Bool)
          → ((a || (is_call e && r.may_match_any_call)) ≡ true)
            ↔ ((a ≡ true) ⊎ ((is_call e ≡ true) × (r.may_match_any_call ≡ true)))
      or_iff true = (λ h. inl refl, λ h. refl)
      or_iff false = (
        λ h. inr (&&-left _ _ h, &&-right (is_call e) _ h),
        λ h. elim h [ inl f ↦ cc f | inr (c, m) ↦ rw (c, m) refl ],
      )

  any_call-add :
      (x r : RuleMatcher) (rs : List RuleMatcher) (b : Bool)
      → Memᴰ x (if b then rs ++ r ∷ [] else rs) ↔ (Memᴰ x rs ⊎ ((x ≡ r) × (b ≡ true)))
  any_call-add x r rs true = (
    λ m. elim (Memᴰ.append_cases rs m) [
      | inl a ↦ inl a
      | inr a ↦ inr (Memᴰ.eq_of_singleton a, refl)
    ],
    λ h. elim h [ inl a ↦ Memᴰ.append_left _ a | inr (e, t) ↦ Memᴰ.append_right rs (Memᴰ.head e) ],
  )
  any_call-add x r rs false = (λ m. inl m, λ h. elim h [ inl a ↦ a | inr (e, t) ↦ cc t ])

  -- After a rule has been added, it is run where it is possible, and the others as before.
  possible_rules-add :
      (x r : RuleMatcher) (set : RuleSet py_eq) (e : Expr)
      → Memᴰ x (possible_rules py_eq (add_rule py_eq r set) e)
        ↔ (Memᴰ x (possible_rules py_eq set e) ⊎ ((x ≡ r) × (is_possible py_eq r e ≡ true)))
  unfolding add_rule
  possible_rules-add x r set e =
      let term = get_filter_term e in
      let table =
        rules_for_term-add_all py_eq equality r term r.possible_filter_terms
          set.rules_by_filter_term in
      (
        λ m. elim ((possible_rules_iff x (add_rule py_eq r set) e).0 m) [
          | inl a ↦ elim (Memᴰ.append_cases _ (subst (Memᴰ x) table a)) [
            | inl b ↦ inl ((possible_rules_iff x set e).1 (inl b))
            | inr b ↦
                let (same, hit) = (hits_iff py_eq equality x r term r.possible_filter_terms).0 b in
                inr (same, (is_possible_iff r e).1 (inl hit))
          ]
          | inr (c, a) ↦ elim ((any_call-add x r set.any_call_rules r.may_match_any_call).0 a) [
            | inl b ↦ inl ((possible_rules_iff x set e).1 (inr (c, b)))
            | inr (same, may) ↦ inr (same, (is_possible_iff r e).1 (inr (c, may)))
          ]
        ],
        λ h. (possible_rules_iff x (add_rule py_eq r set) e).1 (elim h [
          | inl m ↦ elim ((possible_rules_iff x set e).0 m) [
            | inl a ↦ inl (subst (Memᴰ x) (sym table) (Memᴰ.append_left _ a))
            | inr (c, a) ↦
                inr (c, (any_call-add x r set.any_call_rules r.may_match_any_call).1 (inl a))
          ]
          | inr (same, p) ↦ elim ((is_possible_iff r e).0 p) [
            | inl hit ↦ inl (
                subst (Memᴰ x) (sym table) (
                  Memᴰ.append_right _
                    ((hits_iff py_eq equality x r term r.possible_filter_terms).1 (same, hit))))
            | inr (c, may) ↦
                inr (
                  c,
                  (any_call-add x r set.any_call_rules r.may_match_any_call).1 (inr (same, may)),
                )
          ]
        ]),
      )

  -- Rules that are added one by one are run where they are possible.
  possible_rules-add_all :
      (x : RuleMatcher) (rules : List RuleMatcher) (set : RuleSet py_eq) (e : Expr)
      → Memᴰ x (possible_rules py_eq (add_rules py_eq rules set) e)
        ↔ (Memᴰ x (possible_rules py_eq set e) ⊎ (Memᴰ x rules × (is_possible py_eq x e ≡ true)))
  possible_rules-add_all x [] set e =
      (λ m. inl m, λ h. elim h [ inl m ↦ m | inr (m, p) ↦ absurd (Memᴰ.not-nil m) ])
  possible_rules-add_all x (r ∷ rs) set e = (
    λ m. elim ((possible_rules-add_all x rs (add_rule py_eq r set) e).0 m) [
      | inl a ↦ elim ((possible_rules-add x r set e).0 a) [
        | inl b ↦ inl b
        | inr (same, p) ↦ inr (Memᴰ.head same, rw same p)
      ]
      | inr (a, p) ↦ inr (Memᴰ.tail a, p)
    ],
    λ h. (possible_rules-add_all x rs (add_rule py_eq r set) e).1 (elim h [
      | inl m ↦ inl ((possible_rules-add x r set e).1 (inl m))
      | inr (m, p) ↦ elim (Memᴰ.cases_cons m) [
        | inl same ↦ inl ((possible_rules-add x r set e).1 (inr (same, rw same at p)))
        | inr a ↦ inr (a, p)
      ]
    ]),
  )

  -- A `RuleSet` runs on an expression exactly the rules of which `RuleMatcher.matches_here` would
  -- find the expression possible.
  pub possible_rules-rule_set :
      (x : RuleMatcher) (rules : List RuleMatcher) (e : Expr)
      → Memᴰ x (possible_rules py_eq (rule_set py_eq rules) e)
        ↔ (Memᴰ x rules × (is_possible py_eq x e ≡ true))
  unfolding rule_set rules_for_term
  possible_rules-rule_set x rules e =
      let (down, up) = possible_rules-add_all x rules empty e in
      (λ m. elim (down m) [ inl a ↦ absurd (not-empty a) | inr h ↦ h ], λ h. up (inr h))
    where
      empty : RuleSet py_eq
      empty = record { rules_by_filter_term = []; any_call_rules = [] }

      not-empty : Memᴰ x (possible_rules py_eq empty e) → ⊥
      not-empty m = elim ((possible_rules_iff x empty e).0 m) [
        | inl a ↦ Memᴰ.not-nil a
        | inr (c, a) ↦ Memᴰ.not-nil a
      ]

  abbrev YieldedBy : Match → List RuleMatcher → ExprWithPath → Environment → Type 0
  YieldedBy m rules ewp env =
      (r : RuleMatcher) × (ns : List Match) × Memᴰ r rules
      × (r.matches_for_possible_expr ewp env ≡ ok ns)
      × Memᴰ m ns

  -- Rules that succeed are run one after the other.
  run_rules_lem :
      (rules : List RuleMatcher) (ewp : ExprWithPath) (env : Environment)
      → ((r : RuleMatcher)
          → Memᴰ r rules
          → (ns : List Match) × (r.matches_for_possible_expr ewp env ≡ ok ns))
      → (ms : List Match) × (run_rules py_eq rules ewp env ≡ ok ms)
        × ((m : Match) → Memᴰ m ms ↔ YieldedBy m rules ewp env)
  run_rules_lem [] ewp env runs = (
    [],
    refl,
    λ m. (λ a. absurd (Memᴰ.not-nil a), λ (r, ns, at, run, a). absurd (Memᴰ.not-nil at)),
  )
  run_rules_lem (r ∷ rs) ewp env runs =
      let (ns, run) = runs r (Memᴰ.head refl) in
      let (ms, run', iff) = run_rules_lem rs ewp env (λ q at. runs q (Memᴰ.tail at)) in
      (
        ns ++ ms,
        rw (run, run') refl,
        λ m. (
          λ a. elim (Memᴰ.append_cases ns a) [
            | inl b ↦ (r, ns, Memᴰ.head refl, run, b)
            | inr b ↦ let (q, qs, at, go, c) = (iff m).0 b in (q, qs, Memᴰ.tail at, go, c)
          ],
          λ (q, qs, at, go, c). elim (Memᴰ.cases_cons at) [
            | inl same ↦
                let first : r.matches_for_possible_expr ewp env ≡ ok qs = rw (← same) go in
                Memᴰ.append_left ms (subst (Memᴰ m) (ok_inj (sym first ∙ run)) c)
            | inr later ↦ Memᴰ.append_right ns ((iff m).1 (q, qs, later, go, c))
          ],
        ),
      )
    where
      ok_inj : {ks ls : List Match} → ok ks ≡ ok ls → ks ≡ ls
      ok_inj h = cc h

  -- The match is yielded by `matches_here` of some rule of the list.
  abbrev pub SomeRule : Match → List RuleMatcher → ExprWithPath → Environment → Type 0
  SomeRule m rules ewp env =
      (r : RuleMatcher) × (ns : List Match) × Memᴰ r rules
      × (rule_matches_here py_eq r ewp env ≡ ok ns)
      × Memᴰ m ns

  -- Where `==` on constants is symmetric and transitive, and each rule on its own succeeds, the set of the rules succeeds, and yields a match when,
  -- and only when, one of the rules yields it on its own.
  pub set_matches_here_lem :
      (rules : List RuleMatcher) (ewp : ExprWithPath) (env : Environment)
      → ((r : RuleMatcher)
          → Memᴰ r rules
          → (ns : List Match) × (rule_matches_here py_eq r ewp env ≡ ok ns))
      → (ms : List Match) × (set_matches_here py_eq (rule_set py_eq rules) ewp env ≡ ok ms)
        × ((m : Match) → Memᴰ m ms ↔ SomeRule m rules ewp env)
  unfolding set_matches_here
  set_matches_here_lem rules ewp env runs =
      let chosen = λ (r : RuleMatcher). possible_rules-rule_set r rules ewp.expr in
      let (ms, run, iff) =
        run_rules_lem (possible_rules py_eq (rule_set py_eq rules) ewp.expr) ewp env (λ r at.
          let (given, p) = (chosen r).0 at in
          let (ns, go) = runs r given in (ns, sym (possible-run py_eq r ewp env p) ∙ go)) in
      (
        ms,
        run,
        λ m. (
          λ a.
              let (r, ns, at, go, b) = (iff m).0 a in
              let (given, p) = (chosen r).0 at in
              (r, ns, given, possible-run py_eq r ewp env p ∙ go, b),
          λ (r, ns, given, go, b).
              let p = possible-yields py_eq r ewp env ns m go b in
              (iff m).1
                (r, ns, (chosen r).1 (given, p), sym (possible-run py_eq r ewp env p) ∙ go, b),
        ),
      )
