-- ===== src/Containers.antt =====
-- std::unordered_map and std::unordered_set as src/peer_client.h uses them: entries in the order in
-- which the container is walked (which C++ leaves open), looked up by the key's own `==`.
use p2p_file_sharing_system.Prelude.{
  ℕ, ◌+◌, ◌≤◌, ◌≡◌, refl, sym, ◌∙◌, ◌↔◌, Bool, true, false, ◌&&◌, ◌||◌, not, Option, none, some,
  List, [], ◌∷◌, ◌++◌, arith, if◌then◌else◌, Bool-cases, ◌⊎◌, inl, inr, length,
}
pub mod Laws
pub mod Sweep

-- The `==` of a key type: an equivalence, that may forget a part of the key.
pub record Key {ℓ} (K : Type ℓ) : Type ℓ where
  pub same : K → K → Bool
  pub same_refl : (k : K) → same k k ≡ true
  pub same_sym : (j k : K) → same j k ≡ same k j
  pub same_trans : (i j k : K) → same i j ≡ true → same i k ≡ same j k

module _ {ℓ κ} {K : Type ℓ} {V : Type κ} ⦃key : Key K⦄ where
  -- find
  unfoldable pub lookup : K → List (K × V) → Option V
  lookup k [] = none
  lookup k ((j, v) ∷ m) = if key.same j k then some v else lookup k m

  -- `m[k] = v`. The key of an entry that is there stays as it was first written.
  unfoldable pub insert : K → V → List (K × V) → List (K × V)
  insert k v [] = (k, v) ∷ []
  insert k v ((j, w) ∷ m) = if key.same j k then (j, v) ∷ m else (j, w) ∷ insert k v m

  unfoldable pub erase : K → List (K × V) → List (K × V)
  erase k [] = []
  erase k ((j, w) ∷ m) = if key.same j k then m else (j, w) ∷ erase k m

  -- find(k) != end()
  unfoldable pub contains : K → List (K × V) → Bool
  contains k [] = false
  contains k ((j, w) ∷ m) = key.same j k || contains k m

  -- `m[k]` for a read: a missing key is first given the default value.
  unfoldable pub index : K → V → List (K × V) → V × List (K × V)
  unfolding lookup insert
  index k d m = elim (lookup k m) [ some v ↦ (v, m) | none ↦ (d, insert k d m) ]

-- Erasing the keys that a walk of the map collected.
module _ {ℓ κ} {K : Type ℓ} {V : Type κ} ⦃key : Key K⦄ where
  unfoldable pub erase_all : List K → List (K × V) → List (K × V)
  erase_all [] m = m
  erase_all (k ∷ ks) m = erase_all ks (erase k m)

-- The keys that pass a test, in the order of the walk.
unfoldable pub collect_keys {ℓ κ} : {K : Type ℓ} {V : Type κ} → (K → Bool) → List (K × V) → List K
collect_keys test [] = []
collect_keys test ((k, v) ∷ m) = if test k then k ∷ collect_keys test m else collect_keys test m
