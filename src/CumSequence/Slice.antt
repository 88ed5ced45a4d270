-- ===== src/CumSequence/Slice.antt =====
-- rlo/src/rlo/cum_sequence.py: the slice that `update` propagates over, and where `bisect` points.
use knossos_ksc.Base.{
  ℕ, suc, ◌+◌, ◌<◌, ◌≤◌, ◌≡◌, refl, ap, true, false, Option, none, some, List, [], ◌∷◌, ◌++◌, ◌==◌,
  ltb, leb, Bool-cases, inl, inr, arith,
}
use knossos_ksc.CumSequence.{Order, put_item, delete_item, find_item, count_at_most, drop}
use knossos_ksc.CumSequence.Reference.{IsCritical, prune, improve}

module _ {E : Type 0} where
  abbrev pub KeysBelow : ℕ → List (ℕ × E) → Type 0
  KeysBelow lo [] = Unit {0}
  KeysBelow lo ((k, u) ∷ items) = (k < lo) × KeysBelow lo items

  pub KeysBelow-weaken :
      (lo hi : ℕ) (items : List (ℕ × E)) → lo ≤ hi → KeysBelow lo items → KeysBelow hi items
  KeysBelow-weaken lo hi [] h below = tt
  KeysBelow-weaken lo hi ((k, u) ∷ items) h (low, below) =
      (omega arith, KeysBelow-weaken lo hi items h below)

  pub delete_item-append :
      (front rest : List (ℕ × E)) (k : ℕ) (u : E)
      → KeysBelow k front
      → delete_item k (front ++ ((k, u) ∷ rest)) ≡ front ++ rest
  unfolding delete_item
  delete_item-append [] rest k u below = ground arith
  delete_item-append ((j, w) ∷ front) rest k u (low, below) =
      let other : (j == k) ≡ false = ground arith in
      rw other (ap (λ l. (j, w) ∷ l) (delete_item-append front rest k u below))

module _ {E : Type 0} (order : Order E) where
  open order use {skip_update}

  pub find_item-below :
      (k lo : ℕ) (b : Option E) (items : List (ℕ × E))
      → IsCritical order lo b items
      → k < lo
      → (find_item k items ≡ none) × (count_at_most k items ≡ 0)
  unfolding find_item count_at_most
  find_item-below k lo b [] c h = (refl, refl)
  find_item-below k lo b ((j, u) ∷ items) (low, imp, rest) h =
      let (lost, none_below) = find_item-below k (suc j) (some u) items rest (omega arith) in
      let other : (j == k) ≡ false = ground arith in
      let above : leb j k ≡ false = ground arith in (rw other lost, rw above none_below)

  abbrev pub right_index : Option E → ℕ → ℕ
  right_index none c = c + 1
  right_index (some u) c = c

  -- The slice to propagate over is what follows the new item.
  pub put_item-parts :
      (k : ℕ) (v : E) (lo : ℕ) (b : Option E) (items : List (ℕ × E))
      → IsCritical order lo b items
      → (front : List (ℕ × E)) × (rest : List (ℕ × E)) × (put_item k v items ≡ front ++ rest)
        × (drop (right_index (find_item k items) (count_at_most k items)) (front ++ rest) ≡ rest)
        × KeysBelow (suc k) front
        × ((w : Option E) × IsCritical order (suc k) w rest)
        × (front ++ prune order v rest ≡ improve order k v items)
  unfolding put_item improve find_item count_at_most prune
  put_item-parts k v lo b [] c = ((k, v) ∷ [], [], refl, refl, (omega arith, tt), (none, tt), refl)
  put_item-parts k v lo b ((j, u) ∷ items) (low, imp, rest) = elim (Bool-cases (ltb j k)) [
    | inl e ↦
        let (front, tail, made, sliced, below, crit, done) =
          put_item-parts k v (suc j) (some u) items rest in
        let other : (j == k) ≡ false = ground arith in
        let under : leb j k ≡ true = ground arith in
        (
          (j, u) ∷ front,
          tail,
          rw e (ap (λ l. (j, u) ∷ l) made),
          rw (other, under) (shift (find_item k items) (count_at_most k items) front tail sliced),
          (ground arith, below),
          crit,
          rw e (ap (λ l. (j, u) ∷ l) done),
        )
    | inr e ↦ elim (Bool-cases (j == k)) [
      | inl f ↦
          let same : leb j k ≡ true = ground arith in
          let none_below = (find_item-below k (suc j) (some u) items rest (ground arith)).1 in
          (
            (k, v) ∷ [],
            items,
            rw (e, f) refl,
            rw (f, same, none_below) refl,
            (omega arith, tt),
            (some u, critical_from (suc k) (suc j) (some u) items (ground arith) rest),
            rw (e, f) refl,
          )
      | inr f ↦
          let above : leb j k ≡ false = ground arith in
          let (lost, none_below) = find_item-below k (suc j) (some u) items rest (ground arith) in
          (
            (k, v) ∷ [],
            (j, u) ∷ items,
            rw (e, f) refl,
            rw (f, above, lost, none_below) refl,
            (omega arith, tt),
            (b, (ground arith, imp, rest)),
            rw (e, f) refl,
          )
    ]
  ]
    where
      critical_from :
          (lo lo' : ℕ) (b : Option E) (items : List (ℕ × E))
          → lo ≤ lo'
          → IsCritical order lo' b items
          → IsCritical order lo b items
      critical_from lo lo' b [] h c = tt
      critical_from lo lo' b ((k, u) ∷ items) h (low, imp, rest) = (omega arith, imp, rest)

      shift :
          (o : Option E) (c : ℕ) (front tail : List (ℕ × E))
          → drop (right_index o c) (front ++ tail) ≡ tail
          → drop (right_index o (suc c)) ((j, u) ∷ (front ++ tail)) ≡ tail
      shift none c front tail h = let next : suc c + 1 ≡ suc (c + 1) = omega arith in rw next h
      shift (some w) c front tail h = h
