-- ===== src/Config/Neighbours.antt =====
-- LoadTopology of src/peer_client.cpp on lines of the form that the configuration files have.
use p2p_file_sharing_system.Prelude.{
  ℕ, inl, inr, Bool-cases, ◌≡◌, ◌≢◌, ◌<◌, refl, Bool, true, false, ◌||◌, some, List, [], ◌∷◌, ◌++◌,
  map, arith, leb, length, if◌then◌else◌, eq_ℤ, pos, All,
}
use p2p_file_sharing_system.Result.{ok}
use p2p_file_sharing_system.Text.{Bytes, Lacks, space}
use p2p_file_sharing_system.Text.Number.{to_string, is_number, int_limit}
use p2p_file_sharing_system.Text.Number.RoundTrip.{
  stoi-to_string, to_string-Lacks_other, is_number-to_string, to_string-ne-nil,
}
use p2p_file_sharing_system.Text.Split.{split_string, join_string}
use p2p_file_sharing_system.Text.Split.Join.{LastFilled, split_string-join_string}
use p2p_file_sharing_system.Containers.{insert, contains}
use p2p_file_sharing_system.Containers.Laws.{contains-insert}
use p2p_file_sharing_system.Ids.{PeerId, peer_id_key, no_limit}
use p2p_file_sharing_system.Peer.{Peer}
use p2p_file_sharing_system.Register.RoundTrip.{cut_at-append}
use p2p_file_sharing_system.Config.{
  some_neighbour, load_topology, add_neighbours, load_topology_lines,
}

abbrev pub number : ℕ → Bytes
number n = to_string (pos n)

-- A line `id: n1 n2 ...`.
unfoldable pub topology_line : ℕ × List ℕ → Bytes
topology_line (id, neighbours) =
    number id ++ b':' ∷ join_string ([] ∷ map number neighbours) (space ∷ [])

-- The ids of a line fit an int, and it names a neighbour.
abbrev pub IsLine : ℕ × List ℕ → Type 0
IsLine (id, neighbours) = (id < int_limit) × All (λ n. n < int_limit) neighbours × (neighbours ≢ [])

-- The neighbours that the first line about a peer names.
abbrev pub neighbours_of : PeerId → List (ℕ × List ℕ) → List ℕ
neighbours_of p [] = []
neighbours_of p ((id, neighbours) ∷ entries) =
    if eq_ℤ (pos id) p then neighbours else neighbours_of p entries

abbrev pub names : PeerId → List ℕ → Bool
names j [] = false
names j (n ∷ ns) = eq_ℤ (pos n) j || names j ns

-- The peer with the neighbours added.
unfoldable pub added : List ℕ → Peer → Peer
added [] s = s
added (n ∷ ns) s = added ns (record s { peer_id_to_ip = insert (pos n) [] s.peer_id_to_ip })

add_neighbours-number :
    (ns : List ℕ) (s : Peer)
    → All (λ n. n < int_limit) ns
    → add_neighbours (map number ns) s ≡ ok (added ns s)
unfolding add_neighbours added
add_neighbours-number [] s h = refl
add_neighbours-number (n ∷ ns) s (fits, hs) =
    rw (is_number-to_string n, stoi-to_string (pos n) fits)
      (add_neighbours-number ns (record s { peer_id_to_ip = insert (pos n) [] s.peer_id_to_ip }) hs)

pub added-names :
    (ns : List ℕ) (s : Peer) (j : PeerId)
    → contains j (added ns s).peer_id_to_ip ≡ (contains j s.peer_id_to_ip || names j ns)
unfolding added
added-names [] s j = ground arith
added-names (n ∷ ns) s j =
    let s' = record s { peer_id_to_ip = insert (pos n) [] s.peer_id_to_ip } in
    ground (arith, added-names ns s' j, contains-insert (pos n) j [] s.peer_id_to_ip)

split_neighbours :
    (ns : List ℕ)
    → ns ≢ []
    → split_string (join_string ([] ∷ map number ns) (space ∷ [])) (space ∷ []) no_limit
      ≡ [] ∷ map number ns
split_neighbours ns some_neighbour =
    split_string-join_string ([] ∷ map number ns) space (tt, lacks ns) (filled ns some_neighbour)
  where
    lacks : (ns : List ℕ) → All (Lacks space) (map number ns)
    lacks [] = tt
    lacks (n ∷ ns) =
        (to_string-Lacks_other space (omega arith, inl (omega arith)) (pos n), lacks ns)

    last : (n : ℕ) (ns : List ℕ) → LastFilled (number n ∷ map number ns)
    last n [] = to_string-ne-nil n
    last n (m ∷ ns) = last m ns

    filled : (ns : List ℕ) → ns ≢ [] → LastFilled ([] ∷ map number ns)
    filled [] h = absurd (h refl)
    filled (n ∷ ns) h = last n ns

-- What the lines add, where one is about the peer.
load_topology_lines-added :
    (entries : List (ℕ × List ℕ)) (s : Peer)
    → All IsLine entries
    → neighbours_of s.peer_id entries ≢ []
    → load_topology_lines (map topology_line entries) s
      ≡ ok (added (neighbours_of s.peer_id entries) s)
unfolding load_topology_lines topology_line add_neighbours is_number
load_topology_lines-added [] s h found = absurd (found refl)
load_topology_lines-added ((id, ns) ∷ entries) s ((id_fits, fits, filled), h) found =
    let read =
      cut_at-append b':' (number id) (join_string ([] ∷ map number ns) (space ∷ []))
        (to_string-Lacks_other b':' (omega arith, inr (omega arith)) (pos id)) in
    let go_on = load_topology_lines-added entries s h in
    rw (read, stoi-to_string (pos id) id_fits)
      (elim (Bool-cases (eq_ℤ (pos id) s.peer_id)) [
        | inl own ↦ rw (own, split_neighbours ns filled) (add_neighbours-number ns s fits)
        | inr other ↦ rw other (go_on (λ e. found (rw other e)))
      ])

contains-length :
    (j : PeerId) (m : List (PeerId × Bytes)) → contains j m ≡ true → leb 1 (length m) ≡ true
unfolding contains
contains-length j [] h = absurd (ground arith)
contains-length j (p ∷ m) h = ground arith

some_neighbour-added :
    (ns : List ℕ) (s : Peer) → ns ≢ [] → some_neighbour (added ns s) ≡ ok (added ns s)
unfolding some_neighbour
some_neighbour-added [] s filled = absurd (filled refl)
some_neighbour-added (n ∷ ns) s filled =
    let t = added (n ∷ ns) s in
    let named : contains (pos n) t.peer_id_to_ip ≡ true =
      ground (arith, added-names (n ∷ ns) s (pos n)) in
    rw (contains-length (pos n) t.peer_id_to_ip named) refl

pub load_topology-added :
    (entries : List (ℕ × List ℕ)) (s : Peer)
    → All IsLine entries
    → neighbours_of s.peer_id entries ≢ []
    → load_topology (some (map topology_line entries)) s
      ≡ ok (added (neighbours_of s.peer_id entries) s)
unfolding load_topology
load_topology-added entries s lines found =
    rw (load_topology_lines-added entries s lines found)
      (some_neighbour-added (neighbours_of s.peer_id entries) s found)

-- From lines `id: n1 n2 ...` with ids that fit an int and one neighbour or more in every line, of which
-- one is about the peer, LoadTopology takes for neighbours just those that the first line about the
-- peer names, besides those that it had.
pub load_topology_lem :
    (entries : List (ℕ × List ℕ)) (s : Peer) (j : PeerId)
    → All IsLine entries
    → neighbours_of s.peer_id entries ≢ []
    → (t : Peer) × (load_topology (some (map topology_line entries)) s ≡ ok t)
      × (contains j t.peer_id_to_ip
          ≡ (contains j s.peer_id_to_ip || names j (neighbours_of s.peer_id entries)))
load_topology_lem entries s j lines found = (
  added (neighbours_of s.peer_id entries) s,
  load_topology-added entries s lines found,
  added-names (neighbours_of s.peer_id entries) s j,
)
