-- ===== src/Base/Assoc.antt =====
-- Python dictionaries as association lists, over keys with a Boolean equality.
use mathlib.Core.Path.{◌≡◌, refl}
use mathlib.Core.Logic.{◌↔◌, inl, inr}
use mathlib.Core.Bool.{Bool, true}
use mathlib.Core.Option.{Option, none, some}
use mathlib.Core.List.{List, [], ◌∷◌}
use native.Mathlib.Omega.{arith}
use knossos_ksc.Base.Tests.{if◌then◌else◌, Bool-cases}
use knossos_ksc.Base.Text.{Text, text_eq, text_eq_iff}

pub record Key {ℓ} (K : Type ℓ) : Type ℓ where
  pub same : K → K → Bool
  pub same_iff : (k l : K) → (same k l ≡ true) ↔ (k ≡ l)

instance abbrev pub text_key : Key Text
text_key = record { same = text_eq; same_iff = text_eq_iff }

abbrev pub Dict {ℓ κ} : Type ℓ → Type κ → Type (ℓ ⊔ κ)
Dict K V = List (K × V)

module _ {ℓ κ} {K : Type ℓ} {V : Type κ} ⦃e : Key K⦄ where
  -- `m.get(k)`.
  unfoldable pub lookup : K → Dict K V → Option V
  lookup key [] = none
  lookup key ((k, found) ∷ rest) = if e.same k key then some found else lookup key rest

  -- `{**m, k: v}` and `m[k] = v`: an old entry is overwritten in its place.
  unfoldable pub insert : K → V → Dict K V → Dict K V
  insert key new [] = (key, new) ∷ []
  insert key new ((k, old) ∷ rest) =
      if e.same k key then (k, new) ∷ rest else (k, old) ∷ insert key new rest

  -- `{j: v for j, v in m.items() if p(j)}`.
  unfoldable pub keep : (K → Bool) → Dict K V → Dict K V
  keep p [] = []
  keep p ((j, v) ∷ m) = let rest = keep p m in if p j then (j, v) ∷ rest else rest

module _ {ℓ} {K : Type ℓ} ⦃e : Key K⦄ where
  pub same_refl : (k : K) → e.same k k ≡ true
  same_refl k = (e.same_iff k k).1 refl

module _ {ℓ κ} {K : Type ℓ} {V : Type κ} ⦃e : Key K⦄ where
  pub lookup-insert :
      (k j : K) (v : V) (m : Dict K V)
      → lookup j (insert k v m) ≡ (if e.same k j then some v else lookup j m)
  unfolding lookup insert
  lookup-insert k j v [] = refl
  lookup-insert k j v ((i, w) ∷ m) = elim (Bool-cases (e.same i k)) [
    | inl p ↦ rw (p, ← (e.same_iff i k).0 p) (ground arith)
    | inr p ↦ elim (Bool-cases (e.same i j)) [
      | inl q ↦ elim (Bool-cases (e.same k j)) [
        | inl r ↦
            absurd (cc (p, (e.same_iff i k).1 (cc ((e.same_iff i j).0 q, (e.same_iff k j).0 r))))
        | inr r ↦ rw (p, q, r)
      ]
      | inr q ↦ rw (p, q) (lookup-insert k j v m)
    ]
  ]

  pub lookup-keep :
      (p : K → Bool) (j : K) (m : Dict K V)
      → lookup j (keep p m) ≡ (if p j then lookup j m else none)
  unfolding lookup keep
  lookup-keep p j [] = ground arith
  lookup-keep p j ((i, w) ∷ m) = elim (Bool-cases (e.same i j)) [
    | inl q ↦ rw (q, (e.same_iff i j).0 q) (ground (arith, lookup-keep p j m, same_refl j))
    | inr q ↦ ground (arith, lookup-keep p j m)
  ]
