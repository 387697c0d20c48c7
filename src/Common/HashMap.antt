-- ===== src/Common/HashMap.antt =====
-- `HashMap<u32, V>` as an association list. The program never depends on the order of its entries.
use Prim.Native.Nat.{ℕ, ◌+◌, ◌≤◌, ◌<◌}
use mathlib.Core.Path.{◌≡◌, refl}
use mathlib.Core.Logic.{◌⊎◌, inl, inr, ◌≢◌}
use mathlib.Core.Bool.{Bool, true, false, ◌||◌, false≢true}
use mathlib.Core.List.{List, [], ◌∷◌}
use mathlib.Core.Option.{Option, none, some}
use native.Mathlib.Omega.{arith}
use dahua_p2p_bridge.Common.Tests.{◌==◌, if◌then◌else◌, Bool-cases}
use dahua_p2p_bridge.Common.Lists.{length, In}

abbrev pub HashMap : Type 0 → Type 0
HashMap V = List (ℕ × V)

module _ {V : Type 0} where
  -- `map.get(&k)`
  unfoldable pub lookup : ℕ → HashMap V → Option V
  lookup k [] = none
  lookup k ((j, v) ∷ m) = if j == k then some v else lookup k m

  -- `map.contains_key(&k)`
  unfoldable pub contains_key : ℕ → HashMap V → Bool
  contains_key k [] = false
  contains_key k ((j, v) ∷ m) = j == k || contains_key k m

  -- `map.remove(&k)`, the map that it leaves.
  unfoldable pub remove : ℕ → HashMap V → HashMap V
  remove k [] = []
  remove k ((j, v) ∷ m) = if j == k then remove k m else (j, v) ∷ remove k m

  -- `map.insert(k, v)`
  unfoldable pub insert : ℕ → V → HashMap V → HashMap V
  unfolding remove
  insert k v m = (k, v) ∷ remove k m

  pub lookup-remove :
      (k j : ℕ) (m : HashMap V) → lookup j (remove k m) ≡ (if k == j then none else lookup j m)
  unfolding lookup remove
  lookup-remove k j [] = ground arith
  lookup-remove k j ((i, v) ∷ m) = ground (arith, lookup-remove k j m)

  pub lookup-insert :
      (k j : ℕ) (v : V) (m : HashMap V)
      → lookup j (insert k v m) ≡ (if k == j then some v else lookup j m)
  unfolding lookup insert
  lookup-insert k j v m = ground (arith, lookup-remove k j m)

  pub contains_key-lookup : (k : ℕ) (m : HashMap V) → contains_key k m ≡ false → lookup k m ≡ none
  unfolding lookup contains_key
  contains_key-lookup k [] e = refl
  contains_key-lookup k ((j, v) ∷ m) e = ground (arith, contains_key-lookup k m)

  pub length-remove-le : (k : ℕ) (m : HashMap V) → length (remove k m) ≤ length m
  unfolding remove
  length-remove-le k [] = omega arith
  length-remove-le k ((j, v) ∷ m) = ground (arith, length-remove-le k m)

  -- A key that is there makes the map shorter when it goes.
  pub length-remove-lt :
      (k : ℕ) (m : HashMap V) (v : V) → lookup k m ≡ some v → length (remove k m) < length m
  unfolding lookup remove
  length-remove-lt k [] v e = cc
  length-remove-lt k ((j, w) ∷ m) v e = ground (arith, length-remove-le k m, length-remove-lt k m v)

  pub In-remove : (e : ℕ × V) (k : ℕ) (m : HashMap V) → In e (remove k m) → In e m × (e.0 ≢ k)
  unfolding remove
  In-remove e k [] h = absurd h
  In-remove e k ((j, v) ∷ m) h = ground (arith, In-remove e k m)

  pub In-lookup : (k : ℕ) (v : V) (m : HashMap V) → lookup k m ≡ some v → In (k, v) m
  unfolding lookup
  In-lookup k v [] e = cc
  In-lookup k v ((j, w) ∷ m) e = ground (arith, In-lookup k v m)

  pub In-insert :
      (e : ℕ × V) (k : ℕ) (v : V) (m : HashMap V) → In e (insert k v m) → (e ≡ (k, v)) ⊎ In e m
  unfolding insert
  In-insert e k v m (inl h) = inl h
  In-insert e k v m (inr h) = inr (In-remove e k m h).0

  pub lookup-contains_key :
      (k : ℕ) (m : HashMap V) → contains_key k m ≡ true → (v : V) × (lookup k m ≡ some v)
  unfolding lookup contains_key
  lookup-contains_key k [] e = absurd (false≢true e)
  lookup-contains_key k ((j, w) ∷ m) e = elim (Bool-cases (j == k)) [
    | inl same ↦ (w, rw same)
    | inr other ↦ rw other (lookup-contains_key k m (rw other at e))
  ]

  -- A new key makes the map one longer.
  pub length-insert_new :
      (k : ℕ) (v : V) (m : HashMap V)
      → contains_key k m ≡ false
      → length (insert k v m) ≡ length m + 1
  unfolding insert remove contains_key
  length-insert_new k v [] e = omega arith
  length-insert_new k v ((j, w) ∷ m) e = ground (arith, length-insert_new k v m)

  pub In-lookup-some :
      (k : ℕ) (v : V) (m : HashMap V) → In (k, v) m → (w : V) × (lookup k m ≡ some w)
  unfolding lookup
  In-lookup-some k v [] i = absurd i
  In-lookup-some k v ((j, u) ∷ m) (inl e) = (u, ground arith)
  In-lookup-some k v ((j, u) ∷ m) (inr i) = elim (Bool-cases (j == k)) [
    | inl same ↦ (u, rw same)
    | inr other ↦ rw other (In-lookup-some k v m i)
  ]

  pub In-insert_self : (k : ℕ) (v : V) (m : HashMap V) → In (k, v) (insert k v m)
  unfolding insert
  In-insert_self k v m = inl refl
