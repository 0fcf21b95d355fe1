-- ===== src/Containers/Sweep.antt =====
-- The walk of a map that collects keys and then erases them, as MantainQueryMapSize of
-- src/peer_client.cpp does.
use p2p_file_sharing_system.Prelude.{
  ◌≡◌, refl, Bool, false, List, [], ◌∷◌, arith, if◌then◌else◌, Bool-cases, inl, inr, All, ap, ◌∙◌,
}
use p2p_file_sharing_system.Containers.{Key, erase, contains, erase_all, collect_keys}
use p2p_file_sharing_system.Containers.Laws.{Distinct}

-- The entries that do not pass.
abbrev pub keep_entries {ℓ κ} : {K : Type ℓ} {V : Type κ} → (K → Bool) → List (K × V) → List (K × V)
keep_entries test [] = []
keep_entries test ((k, v) ∷ m) =
    if test k then keep_entries test m else (k, v) ∷ keep_entries test m

-- None of the keys is equal to the first.
abbrev Apart {ℓ} : {K : Type ℓ} ⦃key : Key K⦄ → K → List K → Type 0
Apart ⦃key⦄ k = All (λ j. key.same k j ≡ false)

module _ {ℓ κ} {K : Type ℓ} {V : Type κ} ⦃key : Key K⦄ where
  erase_all_head :
      (k : K) (ks : List K) (v : V) (m : List (K × V))
      → erase_all (k ∷ ks) ((k, v) ∷ m) ≡ erase_all ks m
  unfolding erase_all erase
  erase_all_head k ks v m = ap (erase_all ks) (rw (key.same_refl k))

  erase_all_none : (m : List (K × V)) → erase_all [] m ≡ m
  unfolding erase_all
  erase_all_none m = refl

  erase_all-cons :
      (ks : List K) (k : K) (v : V) (m : List (K × V))
      → Apart k ks
      → erase_all ks ((k, v) ∷ m) ≡ (k, v) ∷ erase_all ks m
  unfolding erase_all erase
  erase_all-cons [] k v m h = refl
  erase_all-cons (j ∷ ks) k v m (h, hs) = rw h (erase_all-cons ks k v (erase j m) hs)

  collect_keys-Apart :
      (test : K → Bool) (k : K) (m : List (K × V))
      → contains k m ≡ false
      → Apart k (collect_keys test m)
  unfolding collect_keys contains
  collect_keys-Apart test k [] h = tt
  collect_keys-Apart test k ((i, w) ∷ m) h =
      ground (arith, key.same_sym i k, collect_keys-Apart test k m)

  -- In a map with distinct keys the sweep keeps the entries that do not pass, in their order.
  pub erase_all-collect_keys :
      (test : K → Bool) (m : List (K × V))
      → Distinct m
      → erase_all (collect_keys test m) m ≡ keep_entries test m
  unfolding collect_keys
  erase_all-collect_keys test [] d = erase_all_none []
  erase_all-collect_keys test ((k, v) ∷ m) (new, d) = elim (Bool-cases (test k)) [
    | inl passes ↦ rw passes (erase_all_head k _ v m ∙ erase_all-collect_keys test m d)
    | inr stays ↦ rw stays (
        erase_all-cons _ k v m (collect_keys-Apart test k m new)
        ∙ ap (λ r. (k, v) ∷ r) (erase_all-collect_keys test m d))
  ]
