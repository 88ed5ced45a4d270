-- ===== src/CumSequence/Update.antt =====
-- rlo/src/rlo/cum_sequence.py: `update` and `__getitem__` keep and read the reference sequence.
use knossos_ksc.Base.{
  ℕ, zero, suc, ◌+◌, ◌≤◌, ◌≡◌, refl, ◌∙◌, sym, ap, Bool, true, false, not, Option, none, some, List,
  [], ◌∷◌, ◌++◌, if◌then◌else◌, ◌==◌, leb, Bool-cases, Option-cases, inl, inr, arith, get_elem?,
}
use knossos_ksc.Base.Int.{pos}
use knossos_ksc.Base.Result.{Result, ok, err, index_error}
use knossos_ksc.CumSequence.{
  Order, SortedDict, delete_item, find_item, count_at_most, nth_value, propagate_over, propagate,
  before, get_item, update, update_from_seq, skipped, value_of,
}
use knossos_ksc.CumSequence.Reference.{
  value_at, best, Improves, IsCritical, prune, improve, or_else, value_at-below, value_at-Improves,
  improve-IsCritical, value_at-improve,
}
use knossos_ksc.CumSequence.Slice.{
  KeysBelow, KeysBelow-weaken, delete_item-append, find_item-below, right_index, put_item-parts,
}

skip_refl : {E : Type 0} (order : Order E) (a : E) → order.skip_update a a ≡ true
skip_refl order a = elim (Bool-cases (order.skip_update a a)) [
  | inl e ↦ e
  | inr e ↦ order.skip_total a a e
]

module _ {E : Type 0} (order : Order E) where
  open order use {skip_update}

  at_count : ℕ → List (ℕ × E) → Option (ℕ × E)
  at_count zero items = none
  at_count (suc n) items = get_elem? items n

  some_at :
      (k n lo : ℕ) (b : Option E) (items : List (ℕ × E))
      → IsCritical order lo b items
      → count_at_most k items ≡ suc n
      → (w : E) × (value_at k items ≡ some w)
  unfolding count_at_most value_at
  some_at k n lo b [] c h = absurd (omega (arith, h))
  some_at k n lo b ((j, u) ∷ items) (low, imp, rest) h = elim (Bool-cases (leb j k)) [
    | inl e ↦ rw e (last (value_at k items))
    | inr e ↦ absurd (
        omega (
          arith,
          sym (rw e at h) ∙ (find_item-below order k (suc j) (some u) items rest (ground arith)).1,
        ))
  ]
    where
      last : (o : Option E) → (w : E) × (or_else o u ≡ some w)
      last none = (u, refl)
      last (some w) = (w, refl)

  -- The item before the point of bisection has the value at the key.
  at_count-value :
      (k lo : ℕ) (b : Option E) (items : List (ℕ × E))
      → IsCritical order lo b items
      → value_of (at_count (count_at_most k items) items) ≡ value_at k items
  unfolding count_at_most value_at at_count
  at_count-value k lo b [] c = refl
  at_count-value k lo b ((j, u) ∷ items) (low, imp, rest) = elim (Bool-cases (leb j k)) [
    | inl e ↦
        rw e (counted (count_at_most k items) refl (at_count-value k (suc j) (some u) items rest))
    | inr e ↦ rw (e, (find_item-below order k (suc j) (some u) items rest (ground arith)).1) refl
  ]
    where
      counted :
          (c : ℕ)
          → count_at_most k items ≡ c
          → value_of (at_count c items) ≡ value_at k items
          → value_of (get_elem? ((j, u) ∷ items) c) ≡ or_else (value_at k items) u
      counted zero h ih = rw (← ih) refl
      counted (suc n) h ih =
          let (w, found) = some_at k n (suc j) (some u) items rest h in rw (ih, found) refl

  -- A stored value is read back from the key on, or a better one.
  pub value_at_mono :
      (k i lo : ℕ) (b : Option E) (items : List (ℕ × E)) (u : E)
      → IsCritical order lo b items
      → k ≤ i
      → value_at k items ≡ some u
      → (w : E) × (value_at i items ≡ some w) × (skip_update w u ≡ true)
  unfolding value_at
  value_at_mono k i lo b [] u c h g = cc
  value_at_mono k i lo b ((j, x) ∷ items) u (low, imp, rest) h g = elim (Bool-cases (leb j k)) [
    | inl e ↦
        let under : leb j i ≡ true = ground arith in
        rw under (elim (Option-cases (value_at k items)) [
          | inl lost ↦
              let same : x ≡ u = cc (rw (e, lost) at g) in
              rw (← same) (
                from_here (value_at i items)
                  (λ w found. value_at-Improves order i (suc j) x w items rest found))
          | inr (w, found) ↦
              let same : w ≡ u = cc (rw (e, found) at g) in
              let (z, at, better) =
                value_at_mono k i (suc j) (some x) items u rest h (found ∙ ap some same) in
              (z, rw at refl, better)
        ])
    | inr e ↦ cc (rw e at g)
  ]
    where
      from_here :
          (o : Option E)
          → ((w : E) → o ≡ some w → skip_update x w ≡ false)
          → (w : E) × (or_else o x ≡ some w) × (skip_update w x ≡ true)
      from_here none above = (x, refl, skip_refl order x)
      from_here (some w) above = (w, refl, order.skip_total x w (above w refl))

  find_item-value :
      (k lo : ℕ) (b : Option E) (items : List (ℕ × E)) (v : E)
      → IsCritical order lo b items
      → find_item k items ≡ some v
      → value_at k items ≡ some v
  unfolding find_item value_at
  find_item-value k lo b [] v c h = cc
  find_item-value k lo b ((j, u) ∷ items) v (low, imp, rest) h = elim (Bool-cases (j == k)) [
    | inl e ↦
        let under : leb j k ≡ true = ground arith in
        rw (under, value_at-below order k (suc j) (some u) items rest (ground arith)) (rw e at h)
    | inr e ↦ elim (Bool-cases (leb j k)) [
      | inl f ↦ rw (f, find_item-value k (suc j) (some u) items v rest (rw e at h)) refl
      | inr f ↦
          cc ((find_item-below order k (suc j) (some u) items rest (ground arith)).0, rw e at h)
    ]
  ]

abbrev pub Holds : {E : Type 0} (order : Order E) → List (ℕ × E) → Type 0
Holds order items = IsCritical order 0 none items

abbrev pub read : {E : Type 0} → Option E → Result E
read none = err index_error
read (some v) = ok v

module _ {E : Type 0} (order : Order E) (dict : SortedDict E) where
  open order use {skip_update}
  open dict use {State, items, put, delete, bisect}

  nth_value-before :
      (n : ℕ) (d : State)
      → nth_value (before order dict n d) ≡ read (value_of (at_count order n (items d)))
  unfolding at_count
  nth_value-before zero d = refl
  nth_value-before (suc n) d = same (get_elem? (items d) n)
    where
      same : (o : Option (ℕ × E)) → nth_value o ≡ read (value_of o)
      same none = refl
      same (some (k, v)) = refl

  value_of-before :
      (k : ℕ) (d : State)
      → Holds order (items d)
      → value_of (before order dict (bisect k d) d) ≡ value_at k (items d)
  unfolding at_count
  value_of-before k d c =
      same (bisect k d) ∙ rw (dict.bisect_count k d) (at_count-value order k 0 none (items d) c)
    where
      same : (n : ℕ) → value_of (before order dict n d) ≡ value_of (at_count order n (items d))
      same zero = refl
      same (suc n) = refl

  -- With a linear order of values and the documented sorted dictionary, in a well-formed sequence,
  -- a natural index is read as the reference sequence has it: the value
  -- of the last key at or before it; before the first key it is an IndexError. So {0: 2.3, 5: 4.5}
  -- has 2.3 at index 4.
  pub get_item_lem :
      (i : ℕ) (d : State)
      → Holds order (items d)
      → get_item order dict (pos i) d ≡ read (value_at i (items d))
  unfolding get_item
  get_item_lem i d c = elim (Option-cases (find_item i (items d))) [
    | inl lost ↦
        rw (lost, get_item)
          (nth_value-before (bisect i d) d
            ∙ rw (dict.bisect_count i d) (ap read (at_count-value order i 0 none (items d) c)))
    | inr (v, found) ↦
        rw (found, get_item) (rw (find_item-value order i 0 none (items d) v c found) refl)
  ]

  -- The loop deletes what the value makes superfluous, and keeps what stands before the slice.
  items-propagate_over :
      (rest front : List (ℕ × E)) (lo : ℕ) (b : Option E) (v : E) (d : State)
      → items d ≡ front ++ rest
      → KeysBelow lo front
      → IsCritical order lo b rest
      → items (propagate_over order dict rest v d) ≡ front ++ prune order v rest
  unfolding propagate_over prune
  items-propagate_over [] front lo b v d made below c = made
  items-propagate_over ((k, u) ∷ rest) front lo b v d made below (low, imp, crit) =
      elim (Bool-cases (skip_update v u)) [
        | inl e ↦ rw e (
            items-propagate_over rest front (suc k) (some u) v (delete k d)
              (dict.items-delete k d
                ∙ ap (delete_item k) made
                ∙ delete_item-append front rest k u (KeysBelow-weaken lo k front low below))
              (KeysBelow-weaken lo (suc k) front (omega arith) below) crit)
        | inr e ↦ rw e made
      ]

  -- The items after a store.
  items-store :
      (k : ℕ) (v : E) (d : State)
      → Holds order (items d)
      → items (
          propagate order dict
            (right_index order (find_item k (items d)) (bisect k d))
            v
            (put k v d))
        ≡ improve order k v (items d)
  unfolding propagate
  items-store k v d c =
      let (front, rest, made, sliced, below, (w, crit), done) =
        put_item-parts order k v 0 none (items d) c in
      let now : items (put k v d) ≡ front ++ rest = dict.items-put k v d ∙ made in
      rw (now, dict.bisect_count k d, sliced)
        (items-propagate_over rest front (suc k) w v (put k v d) now below crit ∙ done)

  -- What an update leaves behind, and whether it stored the value.
  abbrev pub Updated : ℕ → E → State → Bool × State → Type 0
  Updated k v d (stored, d') =
      Holds order (items d')
      × ((i : ℕ)
          → value_at i (items d') ≡ (
              if leb k i then some (best order (value_at i (items d)) v) else value_at i (items d)))
      × (stored ≡ not (skipped order (value_at k (items d)) v))

  updated :
      (k : ℕ) (v : E) (d : State)
      → Holds order (items d)
      → skipped order (value_at k (items d)) v ≡ false
      → Updated k v d (
        true,
        propagate order dict (right_index order (find_item k (items d)) (bisect k d)) v (put k v d),
      )
  updated k v d c fresh =
      let better : Improves order (value_at k (items d)) v =
        improves (value_at k (items d)) fresh in
      rw (items-store k v d c) (
        improve-IsCritical order k v 0 none (items d) c (omega arith) tt better,
        (λ i. value_at-improve order k v 0 none (items d) i c better),
        rw fresh refl,
      )
    where
      improves : (o : Option E) → skipped order o v ≡ false → Improves order o v
      improves none h = tt
      improves (some u) h = h

  unchanged :
      (k : ℕ) (v u : E) (d : State)
      → Holds order (items d)
      → value_at k (items d) ≡ some u
      → skip_update u v ≡ true
      → Updated k v d (false, d)
  unchanged k v u d c at skip = (
    c,
    (λ i. elim (Bool-cases (leb k i)) [
      | inl e ↦
          let (w, found, better) = value_at_mono order k i 0 none (items d) u c (ground arith) at in
          rw (e, found, order.skip_trans w u v better skip) refl
      | inr e ↦ rw e refl
    ]),
    rw (at, skip) refl,
  )

  skipped_update :
      (k : ℕ) (v : E) (d : State)
      → Holds order (items d)
      → skipped order (value_at k (items d)) v ≡ true
      → Updated k v d (false, d)
  skipped_update k v d c skip = elim (Option-cases (value_at k (items d))) [
    | inl none_at ↦ cc (rw none_at at skip)
    | inr (u, at) ↦ unchanged k v u d c at (rw at at skip)
  ]

  -- With a linear order of values and the documented sorted dictionary, in a well-formed sequence,
  -- `update` at a natural index succeeds and keeps the invariant. From the index on, the sequence
  -- has the better of its old value and the new one; before the index it is as it was. It returns
  -- whether the value was stored: not when it is skipped by the value at the index.
  pub update_lem :
      (k : ℕ) (v : E) (d : State)
      → Holds order (items d)
      → (r : Bool × State) × (update order dict (pos k) v d ≡ ok r) × Updated k v d r
  unfolding update
  update_lem k v d c = elim (Option-cases (find_item k (items d))) [
    | inr (u, found) ↦
        let at = find_item-value order k 0 none (items d) u c found in
        elim (Bool-cases (skip_update u v)) [
          | inl skip ↦ ((false, d), rw (found, update, skip) refl, unchanged k v u d c at skip)
          | inr fresh ↦ (
            (true, propagate order dict (bisect k d) v (put k v d)),
            rw (found, update, fresh) refl,
            rw found at (updated k v d c (rw at fresh)),
          )
        ]
    | inl lost ↦
        let same = value_of-before k d c in
        elim (Bool-cases (skipped order (value_at k (items d)) v)) [
          | inl skip ↦ ((false, d), rw (lost, update, same, skip) refl, skipped_update k v d c skip)
          | inr fresh ↦ (
            (true, propagate order dict (bisect k d + 1) v (put k v d)),
            rw (lost, update, same, fresh) refl,
            rw lost at (updated k v d c fresh),
          )
        ]
  ]

  -- The best of a value and of those of the list that are stored at the index or before it.
  abbrev pub best_stored : ℕ → Option E → List (ℕ × E) → Option E
  best_stored i o [] = o
  best_stored i o ((k, v) ∷ other) =
      best_stored i (if leb k i then some (best order o v) else o) other

  -- With a linear order of values and the documented sorted dictionary, in a well-formed sequence,
  -- updates from any list of natural indices and values succeed, keep the invariant, and leave at each
  -- index the best of what was there and of what the list stores at that index or before it.
  pub update_from_seq_lem :
      (other : List (ℕ × E)) (d : State)
      → Holds order (items d)
      → (r : Bool × State) × (update_from_seq order dict other d ≡ ok r)
        × Holds order (items r.1)
        × ((i : ℕ) → value_at i (items r.1) ≡ best_stored i (value_at i (items d)) other)
  unfolding update_from_seq
  update_from_seq_lem [] d c = ((false, d), refl, c, λ i. refl)
  update_from_seq_lem ((k, v) ∷ other) d c =
      let ((stored, d'), run, (kept, at, _)) = update_lem k v d c in
      let ((any_stored, d''), run', kept', at') = update_from_seq_lem other d' kept in
      (
        (if stored then true else any_stored, d''),
        rw (run, run') refl,
        kept',
        λ i. at' i ∙ ap (λ o. best_stored i o other) (at i),
      )

  -- With a linear order of values and the documented sorted dictionary, in a well-formed sequence:
  -- where an index has a value, a later one has a value, and that skips the earlier one's.
  pub get_item_mono :
      (i j : ℕ) (d : State) (u : E)
      → Holds order (items d)
      → i ≤ j
      → get_item order dict (pos i) d ≡ ok u
      → (w : E) × (get_item order dict (pos j) d ≡ ok w) × (skip_update w u ≡ true)
  get_item_mono i j d u c h got =
      let (w, at, better) =
        value_at_mono order i j 0 none (items d) u c h
          (read-ok (value_at i (items d)) (sym (get_item_lem i d c) ∙ got)) in
      (w, get_item_lem j d c ∙ ap read at, better)
    where
      read-ok : (o : Option E) → read o ≡ ok u → o ≡ some u
      read-ok none e = cc e
      read-ok (some x) e = cc e
