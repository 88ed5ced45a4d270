-- ===== src/Rewrites/Table.antt =====
-- src/python/ksc/rewrites.py, class RuleSet: what is found in the table of rules by filter term.
use knossos_ksc.Base.{
  ◌≡◌, refl, sym, ap, ◌∙◌, Bool, true, false, List, [], ◌∷◌, ◌++◌, arith, Memᴰ, inl, inr, ◌↔◌, any,
  Bool-cases, if◌then◌else◌, append_assoc, append-nil,
}
use mathlib.Core.List.Memᴰ
use knossos_ksc.Names.Laws.{sname_same_iff}
use knossos_ksc.Expr.{Constant}
use knossos_ksc.Alpha.{
  FilterTerm, var_class, lam_class, let_class, if_class, assert_class, value, call_name,
}
use knossos_ksc.Rewrites.{RuleMatcher, term_same, add_for_term, rules_for_term, add_for_terms}

-- Python's `==` on constants: symmetric and transitive, and not reflexive on NaN.
pub record Equality (py_eq : Constant → Constant → Bool) : Type 0 where
  pub symm : (c d : Constant) → py_eq c d ≡ true → py_eq d c ≡ true
  pub trans : (b c d : Constant) → py_eq b c ≡ true → py_eq c d ≡ true → py_eq b d ≡ true

module _ (py_eq : Constant → Constant → Bool) (equality : Equality py_eq) where
  term_same_symm : (s t : FilterTerm) → term_same py_eq s t ≡ true → term_same py_eq t s ≡ true
  unfolding term_same
  term_same_symm (value c) (value d) h = equality.symm c d h
  term_same_symm (call_name f) (call_name g) h =
      (sname_same_iff g f).1 (sym ((sname_same_iff f g).0 h))
  term_same_symm var_class var_class h = refl
  term_same_symm lam_class lam_class h = refl
  term_same_symm let_class let_class h = refl
  term_same_symm if_class if_class h = refl
  term_same_symm assert_class assert_class h = refl
  term_same_symm _ _ h = cc h

  term_same_trans :
      (r s t : FilterTerm)
      → term_same py_eq r s ≡ true
      → term_same py_eq s t ≡ true
      → term_same py_eq r t ≡ true
  unfolding term_same
  term_same_trans (value b) (value c) (value d) h k = equality.trans b c d h k
  term_same_trans (call_name f) (call_name g) t h k = rw (← (sname_same_iff f g).0 h) at k
  term_same_trans var_class var_class t h k = k
  term_same_trans lam_class lam_class t h k = k
  term_same_trans let_class let_class t h k = k
  term_same_trans if_class if_class t h k = k
  term_same_trans assert_class assert_class t h k = k
  term_same_trans (value b) (value c) _ h k = cc k
  term_same_trans _ _ t h k = cc h

  -- Terms that are the same are the same as the same terms.
  term_same-left :
      (s t k : FilterTerm) → term_same py_eq t k ≡ true → term_same py_eq s t ≡ term_same py_eq s k
  term_same-left s t k h = elim (Bool-cases (term_same py_eq s t)) [
    | inl e ↦ e ∙ sym (term_same_trans s t k e h)
    | inr e ↦ elim (Bool-cases (term_same py_eq s k)) [
      | inl f ↦ cc (term_same_trans s k t f (term_same_symm t k h))
      | inr f ↦ e ∙ sym f
    ]
  ]

  term_same-apart :
      (s t k : FilterTerm)
      → term_same py_eq s k ≡ true
      → term_same py_eq t k ≡ false
      → term_same py_eq s t ≡ false
  term_same-apart s t k h n = elim (Bool-cases (term_same py_eq s t)) [
    | inl e ↦ cc (n, term_same_trans t s k (term_same_symm s t e) h)
    | inr e ↦ e
  ]

  abbrev pub one_if : RuleMatcher → Bool → List RuleMatcher
  one_if r b = if b then r ∷ [] else []

  -- Adding a rule for a term appends it to what is found for that term.
  rules_for_term-add :
      (r : RuleMatcher) (t s : FilterTerm) (table : List (FilterTerm × List RuleMatcher))
      → rules_for_term py_eq s (add_for_term py_eq r t table)
        ≡ rules_for_term py_eq s table ++ one_if r (term_same py_eq s t)
  unfolding rules_for_term add_for_term
  rules_for_term-add r t s [] = refl
  rules_for_term-add r t s ((k, rs) ∷ table) = elim (Bool-cases (term_same py_eq t k)) [
    | inl e ↦
        let same = term_same-left s t k e in
        elim (Bool-cases (term_same py_eq s k)) [
          | inl f ↦ rw (e, same, f) refl
          | inr f ↦ rw (e, same, f) (sym (append-nil _))
        ]
    | inr e ↦ elim (Bool-cases (term_same py_eq s k)) [
      | inl f ↦ let apart = term_same-apart s t k f e in rw (e, f, apart) (sym (append-nil rs))
      | inr f ↦ rw (e, f) (rules_for_term-add r t s table)
    ]
  ]

  -- The rule, once for each of the terms that is the same as the one looked up.
  abbrev pub hits : RuleMatcher → FilterTerm → List FilterTerm → List RuleMatcher
  hits r s [] = []
  hits r s (t ∷ terms) = one_if r (term_same py_eq s t) ++ hits r s terms

  pub rules_for_term-add_all :
      (r : RuleMatcher) (s : FilterTerm) (terms : List FilterTerm)
      (table : List (FilterTerm × List RuleMatcher))
      → rules_for_term py_eq s (add_for_terms py_eq r terms table)
        ≡ rules_for_term py_eq s table ++ hits r s terms
  rules_for_term-add_all r s [] table = sym (append-nil _)
  rules_for_term-add_all r s (t ∷ terms) table =
      rules_for_term-add_all r s terms (add_for_term py_eq r t table)
      ∙ ap (λ rs. rs ++ hits r s terms) (rules_for_term-add r t s table)
      ∙ append_assoc (rules_for_term py_eq s table) (one_if r (term_same py_eq s t))
          (hits r s terms)

  one_if_iff : (x r : RuleMatcher) (b : Bool) → Memᴰ x (one_if r b) ↔ ((x ≡ r) × (b ≡ true))
  one_if_iff x r true = (λ m. (Memᴰ.eq_of_singleton m, refl), λ (e, t). Memᴰ.head e)
  one_if_iff x r false = (λ m. absurd (Memᴰ.not-nil m), λ (e, t). cc t)

  pub hits_iff :
      (x r : RuleMatcher) (s : FilterTerm) (terms : List FilterTerm)
      → Memᴰ x (hits r s terms) ↔ ((x ≡ r) × (any (term_same py_eq s) terms ≡ true))
  hits_iff x r s [] = (λ m. absurd (Memᴰ.not-nil m), λ (e, t). cc t)
  hits_iff x r s (t ∷ terms) = (
    λ m. elim (Memᴰ.append_cases (one_if r (term_same py_eq s t)) m) [
      | inl a ↦ let (e, h) = (one_if_iff x r (term_same py_eq s t)).0 a in (e, rw h refl)
      | inr a ↦ let (e, h) = (hits_iff x r s terms).0 a in (e, ground (arith, h))
    ],
    λ (e, h). elim (Bool-cases (term_same py_eq s t)) [
      | inl f ↦ Memᴰ.append_left _ ((one_if_iff x r (term_same py_eq s t)).1 (e, f))
      | inr f ↦
          Memᴰ.append_right (one_if r (term_same py_eq s t))
            ((hits_iff x r s terms).1 (e, ground (arith, h, f)))
    ],
  )
