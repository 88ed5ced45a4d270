-- ===== src/CumSequence.antt =====
-- rlo/src/rlo/cum_sequence.py: cumulative maxima and minima, kept at the indices where they change.
-- The sorted dictionary is a third-party class, and a parameter: what it holds is the list of its
-- items. An index is an integer, a key of the dictionary a natural number: `update` admits no other.
pub mod Reference
pub mod Slice
pub mod Update
use knossos_ksc.Base.{
  ℕ, zero, suc, ◌+◌, ◌-◌, ◌<◌, ◌≤◌, ◌≡◌, Bool, true, false, not, Option, none, some, List, [], ◌∷◌,
  if◌then◌else◌, ◌==◌, ltb, leb, length, get_elem?,
}
use knossos_ksc.Base.Int.{ℤ, pos, negsuc}
use knossos_ksc.Base.Result.{Result, ok, err, index_error, ◌>>=◌, map_ok}

-- `_skip_update`, the one method of a subclass. `CumMaxSequence` skips a new value that is at most
-- the current one, `CumMinSequence` one that is at least the current one: each by a linear order.
pub record Order (E : Type 0) : Type 0 where
  pub skip_update : E → E → Bool
  pub skip_trans :
      (a b c : E) → skip_update a b ≡ true → skip_update b c ≡ true → skip_update a c ≡ true
  pub skip_total : (a b : E) → skip_update a b ≡ false → skip_update b a ≡ true
  pub skip_antisym : (a b : E) → skip_update a b ≡ true → skip_update b a ≡ true → a ≡ b

module _ {E : Type 0} where
  -- The items with one more key, before the first that is larger.
  unfoldable pub put_item : ℕ → E → List (ℕ × E) → List (ℕ × E)
  put_item k v [] = (k, v) ∷ []
  put_item k v ((j, u) ∷ items) =
      let rest = put_item k v items in
      if ltb j k then (j, u) ∷ rest else if j == k then (k, v) ∷ items else (k, v) ∷ (j, u) ∷ items

  unfoldable pub delete_item : ℕ → List (ℕ × E) → List (ℕ × E)
  delete_item k [] = []
  delete_item k ((j, u) ∷ items) =
      let rest = delete_item k items in if j == k then items else (j, u) ∷ rest

  unfoldable pub find_item : ℕ → List (ℕ × E) → Option E
  find_item k [] = none
  find_item k ((j, u) ∷ items) = let rest = find_item k items in if j == k then some u else rest

  -- How many keys are at most `k`.
  unfoldable pub count_at_most : ℕ → List (ℕ × E) → ℕ
  count_at_most k [] = 0
  count_at_most k ((j, u) ∷ items) =
      let rest = count_at_most k items in if leb j k then suc rest else rest

  abbrev pub drop : ℕ → List (ℕ × E) → List (ℕ × E)
  drop zero items = items
  drop (suc n) [] = []
  drop (suc n) (i ∷ items) = drop n items

  abbrev pub value_of : Option (ℕ × E) → Option E
  value_of none = none
  value_of (some (k, v)) = some v

  abbrev pub nth_value : Option (ℕ × E) → Result E
  nth_value none = err index_error
  nth_value (some (k, v)) = ok v

-- The class `SortedDict` of sortedcontainers, as documented: items in the order of their keys,
-- and `bisect` for the number of keys that are not larger.
pub record SortedDict (E : Type 0) : Type 1 where
  pub State : Type 0
  pub items : State → List (ℕ × E)
  pub empty : State
  pub put : ℕ → E → State → State
  pub delete : ℕ → State → State
  pub bisect : ℕ → State → ℕ
  pub items-empty : items empty ≡ []
  pub items-put : (k : ℕ) (v : E) (d : State) → items (put k v d) ≡ put_item k v (items d)
  pub items-delete : (k : ℕ) (d : State) → items (delete k d) ≡ delete_item k (items d)
  pub bisect_count : (k : ℕ) (d : State) → bisect k d ≡ count_at_most k (items d)

abbrev pub skipped : {E : Type 0} → Order E → Option E → E → Bool
skipped order none value = false
skipped order (some v) value = order.skip_update v value

module _ {E : Type 0} (order : Order E) (dict : SortedDict E) where
  open order use {skip_update}
  open dict use {State, items, put, delete, bisect}

  -- The loop of `_propagate` over a slice of the items.
  unfoldable pub propagate_over : List (ℕ × E) → E → State → State
  propagate_over [] value d = d
  propagate_over ((k, v) ∷ rest) value d =
      let more = propagate_over rest value (delete k d) in if skip_update value v then more else d

  unfoldable pub propagate : ℕ → E → State → State
  unfolding propagate_over
  propagate key_index value d = propagate_over (drop key_index (items d)) value d

  -- The item at `bisect - 1`, when there is one.
  abbrev pub before : ℕ → State → Option (ℕ × E)
  before zero d = none
  before (suc n) d = get_elem? (items d) n

  unfoldable pub get_item : ℤ → State → Result E
  get_item (negsuc n) d = err index_error
  get_item (pos index) d = elim (find_item index (items d)) [
    | some v ↦ ok v
    | none ↦ nth_value (before (bisect index d) d)
  ]

  -- The assignment and the propagation, from the index right of the key.
  abbrev pub store : ℕ → E → ℕ → State → Result (Bool × State)
  store index value right_index d = ok (true, propagate right_index value (put index value d))

  unfoldable pub update : ℤ → E → State → Result (Bool × State)
  unfolding propagate
  update (negsuc n) value d = err index_error
  update (pos index) value d = elim (find_item index (items d)) [
    | some v ↦ if skip_update v value then ok (false, d) else store index value (bisect index d) d
    | none ↦
        if skipped order (value_of (before (bisect index d) d)) value
        then ok (false, d)
        else store index value (bisect index d + 1) d
  ]

  -- `[self.update(k, v) for …]`, then `any`.
  unfoldable pub update_from_seq : List (ℕ × E) → State → Result (Bool × State)
  unfolding update
  update_from_seq [] d = ok (false, d)
  update_from_seq ((k, v) ∷ other) d = update (pos k) v d >>= λ (is_updated, d').
      map_ok (λ (any_updated, d''). (if is_updated then true else any_updated, d''))
        (update_from_seq other d')

  abbrev pub last_key : List (ℕ × E) → ℕ
  last_key [] = 0
  last_key ((k, v) ∷ []) = k + 1
  last_key ((k, v) ∷ i ∷ rest) = last_key (i ∷ rest)

  -- `__len__`.
  unfoldable pub seq_len : State → ℕ
  seq_len d = last_key (items d)
