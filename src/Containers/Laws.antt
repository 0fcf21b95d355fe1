-- ===== src/Containers/Laws.antt =====
-- The maps of module Containers under one operation after another, for any key with an `==`.
use p2p_file_sharing_system.Prelude.{
  ◌≡◌, refl, Bool, true, false, ◌||◌, Option, none, some, List, [], ◌∷◌, arith, if◌then◌else◌,
}
use p2p_file_sharing_system.Containers.{Key, lookup, insert, erase, contains, index}

abbrev pub is_some {ℓ} : {A : Type ℓ} → Option A → Bool
is_some none = false
is_some (some a) = true

module _ {ℓ κ} {K : Type ℓ} {V : Type κ} ⦃key : Key K⦄ where
  pub lookup-insert :
      (k j : K) (v : V) (m : List (K × V))
      → lookup j (insert k v m) ≡ (if key.same k j then some v else lookup j m)
  unfolding lookup insert
  lookup-insert k j v [] = refl
  lookup-insert k j v ((i, w) ∷ m) =
      ground
        (arith, key.same_trans i k j, key.same_trans i j k, key.same_sym j k, lookup-insert k j v m)

  pub contains-lookup : (k : K) (m : List (K × V)) → contains k m ≡ is_some (lookup k m)
  unfolding contains lookup
  contains-lookup k [] = refl
  contains-lookup k ((i, w) ∷ m) = ground (arith, contains-lookup k m)

  pub contains-insert :
      (k j : K) (v : V) (m : List (K × V))
      → contains j (insert k v m) ≡ (key.same k j || contains j m)
  contains-insert k j v m =
      ground (arith, contains-lookup j (insert k v m), contains-lookup j m, lookup-insert k j v m)

  -- A key that is equal to another finds the same entry.
  pub lookup_congr : (j k : K) (m : List (K × V)) → key.same j k ≡ true → lookup j m ≡ lookup k m
  unfolding lookup
  lookup_congr j k [] h = refl
  lookup_congr j k ((i, w) ∷ m) h =
      ground
        (arith, key.same_trans j k i h, key.same_sym j i, key.same_sym k i, lookup_congr j k m h)

  -- No two entries have equal keys.
  abbrev pub Distinct : List (K × V) → Type 0
  Distinct [] = Unit
  Distinct ((k, v) ∷ m) = (contains k m ≡ false) × Distinct m

  pub insert-Distinct : (k : K) (v : V) (m : List (K × V)) → Distinct m → Distinct (insert k v m)
  unfolding insert contains
  insert-Distinct k v [] h = (refl, tt)
  insert-Distinct k v ((i, w) ∷ m) h =
      ground (arith, insert-Distinct k v m, contains-insert k i v m, key.same_sym i k)

  pub contains_congr :
      (j k : K) (m : List (K × V)) → key.same j k ≡ true → contains j m ≡ contains k m
  contains_congr j k m h =
      ground (arith, contains-lookup j m, contains-lookup k m, lookup_congr j k m h)

  pub lookup-erase :
      (k j : K) (m : List (K × V))
      → Distinct m
      → lookup j (erase k m) ≡ (if key.same k j then none else lookup j m)
  unfolding lookup erase
  lookup-erase k j [] d = ground arith
  lookup-erase k j ((i, w) ∷ m) d = ground (
    arith,
    key.same_trans i k j,
    key.same_trans i j k,
    key.same_sym j k,
    lookup-erase k j m d.1,
    contains-lookup i m,
    lookup_congr i j m,
  )

  pub contains-erase :
      (k j : K) (m : List (K × V))
      → Distinct m
      → contains j (erase k m) ≡ (if key.same k j then false else contains j m)
  contains-erase k j m d =
      ground (arith, contains-lookup j (erase k m), contains-lookup j m, lookup-erase k j m d)

  pub erase-Distinct : (k : K) (m : List (K × V)) → Distinct m → Distinct (erase k m)
  unfolding erase
  erase-Distinct k [] d = tt
  erase-Distinct k ((i, w) ∷ m) d = ground (arith, erase-Distinct k m d.1, contains-erase k i m d.1)

  -- A new key changes nothing under the keys that are there.
  pub lookup-insert_new :
      (k j : K) (v u : V) (m : List (K × V))
      → contains k m ≡ false
      → lookup j m ≡ some u
      → lookup j (insert k v m) ≡ some u
  lookup-insert_new k j v u m new found =
      ground (arith, lookup-insert k j v m, lookup_congr k j m, contains-lookup k m)

  pub lookup-index :
      (k j : K) (d u : V) (m : List (K × V))
      → lookup j m ≡ some u
      → lookup j (index k d m).1 ≡ some u
  unfolding index
  lookup-index k j d u m found = ground (arith, contains-lookup k m, lookup-insert_new k j d u m)

  pub index_self :
      (k : K) (d : V) (m : List (K × V)) → lookup k (index k d m).1 ≡ some (index k d m).0
  unfolding index
  index_self k d m = ground (arith, lookup-insert k k d m, key.same_refl k)

  pub index_found :
      (k : K) (d v : V) (m : List (K × V)) → lookup k m ≡ some v → index k d m ≡ (v, m)
  unfolding index
  index_found k d v m h = ground arith
