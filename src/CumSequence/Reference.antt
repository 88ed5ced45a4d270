-- ===== src/CumSequence/Reference.antt =====
-- What a cumulative sequence means (rlo/src/rlo/cum_sequence.py): the best value that was stored at
-- an index or before it; and the update of the list of items that keeps it.
use knossos_ksc.Base.{
  ℕ, suc, ◌<◌, ◌≤◌, ◌≡◌, refl, ◌∙◌, sym, ap, true, false, Option, none, some, List, [], ◌∷◌,
  if◌then◌else◌, ◌==◌, ltb, leb, Bool-cases, inl, inr, arith, ◌⊎◌,
}
use knossos_ksc.CumSequence.{Order}

module _ {E : Type 0} where
  abbrev pub or_else : Option E → E → Option E
  or_else none u = some u
  or_else (some v) u = some v

  -- The value at an index: that of the last key which is not larger.
  unfoldable pub value_at : ℕ → List (ℕ × E) → Option E
  value_at i [] = none
  value_at i ((k, u) ∷ items) =
      let later = value_at i items in if leb k i then or_else later u else none

module _ {E : Type 0} (order : Order E) where
  open order use {skip_update}

  -- The better of the old value and the new one.
  abbrev pub best : Option E → E → E
  best none v = v
  best (some u) v = if skip_update u v then u else v

  abbrev pub Improves : Option E → E → Type 0
  Improves none u = Unit {0}
  Improves (some w) u = skip_update w u ≡ false

  -- Keys from `lo` on, ascending, each with a better value than the one before.
  abbrev pub IsCritical : ℕ → Option E → List (ℕ × E) → Type 0
  IsCritical lo b [] = Unit {0}
  IsCritical lo b ((k, u) ∷ items) = (lo ≤ k) × Improves b u × IsCritical (suc k) (some u) items

  -- The items without those in front that the value makes superfluous.
  unfoldable pub prune : E → List (ℕ × E) → List (ℕ × E)
  prune v [] = []
  prune v ((k, u) ∷ items) =
      let rest = prune v items in if skip_update v u then rest else (k, u) ∷ items

  -- The items with the value at the key, which is better than what stands there.
  unfoldable pub improve : ℕ → E → List (ℕ × E) → List (ℕ × E)
  unfolding prune
  improve k v [] = (k, v) ∷ []
  improve k v ((j, u) ∷ items) =
      let rest = improve k v items in
      if ltb j k
      then (j, u) ∷ rest
      else if j == k
      then (k, v) ∷ prune v items
      else (k, v) ∷ prune v ((j, u) ∷ items)

  pub not_both : {A : Type 0} → true ≡ false → A
  not_both e = cc e

  pub skip-false-left :
      (a b c : E) → skip_update a b ≡ true → skip_update a c ≡ false → skip_update b c ≡ false
  skip-false-left a b c h k = elim (Bool-cases (skip_update b c)) [
    | inl e ↦ not_both (sym (order.skip_trans a b c h e) ∙ k)
    | inr e ↦ e
  ]

  -- Better than the better is better.
  improves_trans :
      (a b c : E) → skip_update a b ≡ false → skip_update b c ≡ false → skip_update a c ≡ false
  improves_trans a b c h k = skip-false-left b a c (order.skip_total a b h) k

  weaken :
      (lo lo' : ℕ) (b : Option E) (items : List (ℕ × E))
      → lo ≤ lo'
      → IsCritical lo' b items
      → IsCritical lo b items
  weaken lo lo' b [] h c = tt
  weaken lo lo' b ((k, u) ∷ items) h (low, imp, rest) = (omega arith, imp, rest)

  prune-IsCritical :
      (v : E) (lo : ℕ) (b : Option E) (items : List (ℕ × E))
      → IsCritical lo b items
      → IsCritical lo (some v) (prune v items)
  unfolding prune
  prune-IsCritical v lo b [] c = tt
  prune-IsCritical v lo b ((k, u) ∷ items) (low, imp, rest) = elim (Bool-cases (skip_update v u)) [
    | inl e ↦ rw e (
        weaken lo (suc k) (some v) (prune v items) (omega arith)
          (prune-IsCritical v (suc k) (some u) items rest))
    | inr e ↦ rw e (low, e, rest)
  ]

  pub value_at-below :
      (i lo : ℕ) (b : Option E) (items : List (ℕ × E))
      → IsCritical lo b items
      → i < lo
      → value_at i items ≡ none
  unfolding value_at
  value_at-below i lo b [] c h = refl
  value_at-below i lo b ((k, u) ∷ items) (low, imp, rest) h = ground arith

  -- Every value improves on the ones before it.
  pub value_at-Improves :
      (i lo : ℕ) (a w : E) (items : List (ℕ × E))
      → IsCritical lo (some a) items
      → value_at i items ≡ some w
      → skip_update a w ≡ false
  unfolding value_at
  value_at-Improves i lo a w [] c h = cc
  value_at-Improves i lo a w ((k, u) ∷ items) (low, imp, rest) h = elim (Bool-cases (leb k i)) [
    | inl e ↦
        later (value_at i items) (λ x g. value_at-Improves i (suc k) u x items rest g) (rw e at h)
    | inr e ↦ cc (rw e at h)
  ]
    where
      later :
          (o : Option E)
          → ((x : E) → o ≡ some x → skip_update u x ≡ false)
          → or_else o u ≡ some w
          → skip_update a w ≡ false
      later none ih g = let same : u ≡ w = cc g in rw (← same) imp
      later (some x) ih g = improves_trans a u w imp (ih w g)

  -- What the value at a key improves on, where the new value improves on the last of them.
  fresh_parts :
      (k lo : ℕ) (u v : E) (items : List (ℕ × E))
      → IsCritical lo (some u) items
      → Improves (or_else (value_at k items) u) v
      → (skip_update u v ≡ false) × Improves (value_at k items) v
  fresh_parts k lo u v items c h = parts (value_at k items) refl h
    where
      parts :
          (o : Option E)
          → value_at k items ≡ o
          → Improves (or_else o u) v
          → (skip_update u v ≡ false) × Improves (value_at k items) v
      parts none e g = (g, rw e tt)
      parts (some w) e g = (improves_trans u w v (value_at-Improves k lo u w items c e) g, rw e g)

  -- The items stay critical where the new value is better than what stands before the key.
  pub improve-IsCritical :
      (k : ℕ) (v : E) (lo : ℕ) (b : Option E) (items : List (ℕ × E))
      → IsCritical lo b items
      → lo ≤ k
      → Improves b v
      → Improves (value_at k items) v
      → IsCritical lo b (improve k v items)
  unfolding improve value_at
  improve-IsCritical k v lo b [] c h imp fresh = (h, imp, tt)
  improve-IsCritical k v lo b ((j, u) ∷ items) (low, first, rest) h imp fresh =
      elim (Bool-cases (ltb j k)) [
        | inl e ↦
            let below : leb j k ≡ true = ground arith in
            let (better, others) = fresh_parts k (suc j) u v items rest (rw below at fresh) in
            rw e (
              low,
              first,
              improve-IsCritical k v (suc j) (some u) items rest (ground arith) better others,
            )
        | inr e ↦ elim (Bool-cases (j == k)) [
          | inl f ↦
              rw (e, f)
                (
                  h,
                  imp,
                  weaken (suc k) (suc j) (some v) (prune v items) (ground arith)
                      (prune-IsCritical v (suc j) (some u) items rest),
                )
          | inr f ↦
              rw (e, f)
                (h, imp, prune-IsCritical v (suc k) b ((j, u) ∷ items) (ground arith, first, rest))
        ]
      ]

  best-absorbs : (o : Option E) (u v : E) → skip_update v u ≡ true → best (or_else o u) v ≡ best o v
  best-absorbs (some w) u v h = refl
  best-absorbs none u v h = elim (Bool-cases (skip_update u v)) [
    | inl e ↦ rw e (order.skip_antisym u v e h)
    | inr e ↦ rw e refl
  ]

  best-improved :
      (o : Option E) (u v : E) → skip_update u v ≡ false → best o v ≡ best (or_else o u) v
  best-improved (some w) u v h = refl
  best-improved none u v h = rw h refl

  best-kept :
      (o : Option E) (v : E)
      → ((w : E) → o ≡ some w → skip_update v w ≡ false)
      → or_else o v ≡ some (best o v)
  best-kept none v h = refl
  best-kept (some w) v h = rw (order.skip_total v w (h w refl)) refl

  -- After pruning, the value in front stands for what was pruned.
  value_at-prune :
      (i lo : ℕ) (v : E) (b : Option E) (items : List (ℕ × E))
      → IsCritical lo b items
      → or_else (value_at i (prune v items)) v ≡ some (best (value_at i items) v)
  unfolding prune value_at
  value_at-prune i lo v b [] c = refl
  value_at-prune i lo v b ((k, u) ∷ items) (low, imp, rest) = elim (Bool-cases (skip_update v u)) [
    | inl e ↦ rw e (
        value_at-prune i (suc k) v (some u) items rest
        ∙ ap some (pruned_best (Bool-cases (leb k i)) e))
    | inr e ↦ rw e (
        best-kept (value_at i ((k, u) ∷ items)) v
          (λ w g. value_at-Improves i lo v w ((k, u) ∷ items) (low, e, rest) g))
  ]
    where
      pruned_best :
          (leb k i ≡ true) ⊎ (leb k i ≡ false)
          → skip_update v u ≡ true
          → best (value_at i items) v ≡ best (value_at i ((k, u) ∷ items)) v
      pruned_best (inl f) e = rw f (sym (best-absorbs (value_at i items) u v e))
      pruned_best (inr f) e =
          rw (f, value_at-below i (suc k) (some u) items rest (ground arith)) refl

  -- At and after the key the value is the better of the two, before it the old one.
  pub value_at-improve :
      (k : ℕ) (v : E) (lo : ℕ) (b : Option E) (items : List (ℕ × E)) (i : ℕ)
      → IsCritical lo b items
      → Improves (value_at k items) v
      → value_at i (improve k v items)
        ≡ (if leb k i then some (best (value_at i items) v) else value_at i items)
  unfolding improve value_at
  value_at-improve k v lo b [] i c fresh = ground arith
  value_at-improve k v lo b ((j, u) ∷ items) i (low, first, rest) fresh =
      elim (Bool-cases (ltb j k)) [
        | inl e ↦
            let below : leb j k ≡ true = ground arith in
            let (better, others) = fresh_parts k (suc j) u v items rest (rw below at fresh) in
            let ih = value_at-improve k v (suc j) (some u) items i rest others in
            elim (Bool-cases (leb k i)) [
              | inl f ↦
                  let g : leb j i ≡ true = ground arith in
                  rw (e, f, g) (rw (ih, f) (ap some (best-improved (value_at i items) u v better)))
              | inr f ↦ rw (e, f) (rw (ih, f) refl)
            ]
        | inr e ↦ elim (Bool-cases (j == k)) [
          | inl f ↦
              let below : leb j k ≡ true = ground arith in
              let (better, others) = fresh_parts k (suc j) u v items rest (rw below at fresh) in
              elim (Bool-cases (leb k i)) [
                | inl g ↦
                    let h : leb j i ≡ true = ground arith in
                    rw (e, f, g, h)
                      (value_at-prune i (suc j) v (some u) items rest
                        ∙ ap some (best-improved (value_at i items) u v better))
                | inr g ↦ let h : leb j i ≡ false = ground arith in rw (e, f, g, h) refl
              ]
          | inr f ↦ elim (Bool-cases (leb k i)) [
            | inl g ↦ rw (e, f, g) (value_at-prune i lo v b ((j, u) ∷ items) (low, first, rest))
            | inr g ↦ let h : leb j i ≡ false = ground arith in rw (e, f, g, h) refl
          ]
        ]
      ]
