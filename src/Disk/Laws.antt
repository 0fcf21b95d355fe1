-- ===== src/Disk/Laws.antt =====
-- Locations after a write, and the paths of plain names, on the disk under src/peer_file_client.cpp and
-- src/peer_file_server.cpp.
use p2p_file_sharing_system.Prelude.{
  ◌≤◌, ◌≡◌, refl, ap, false, none, some, List, [], ◌∷◌, ◌++◌, arith, length, ◌==◌, if◌then◌else◌,
  if_both, Bool-cases, inl, inr,
}
use p2p_file_sharing_system.Text.{Bytes, bytes_eq, bytes_eq_iff, Lacks}
use p2p_file_sharing_system.Containers.{lookup, insert}
use p2p_file_sharing_system.Containers.Laws.{lookup-insert}
use p2p_file_sharing_system.Peer.{Peer}
use p2p_file_sharing_system.Peer.Threads.{load_file_info}
use p2p_file_sharing_system.Disk.{
  Location, Disk, Entry, folder, entry, same_location, same_location_iff, location_key, components,
  slash, dot, dot_dot, descend, walk, list_folder, c_str, name_max,
}

-- A name that is no way of writing the folder itself or the one above it.
pub record IsName (name : Bytes) : Type 0 where
  pub filled : bytes_eq name [] ≡ false
  pub not_dot : bytes_eq name dot ≡ false
  pub not_dot_dot : bytes_eq name dot_dot ≡ false

-- A name that can be one component of a path, and that calls of the system take as it is.
pub record IsPlain (name : Bytes) : Type 0 where
  pub named : IsName name
  pub one_name : Lacks slash name
  pub no_zero : Lacks 0 name
  pub short : length name ≤ name_max

pub entry-insert :
    (name : Bytes) (above : Location) (e : Entry) (disk : Disk) (l : Location)
    → bytes_eq name dot_dot ≡ false
    → entry (insert (name ∷ above) e disk) l
      ≡ (if same_location (name ∷ above) l then some e else entry disk l)
unfolding entry same_location
entry-insert name above e disk [] h = refl
entry-insert name above e disk (m ∷ l) h = ground (
  arith,
  lookup-insert (name ∷ above) (m ∷ l) e disk,
  bytes_eq_iff name m,
  bytes_eq_iff m dot_dot,
  bytes_eq_iff name dot_dot,
)

components-cons :
    (s : Bytes) → (name : Bytes) × (names : List Bytes) × (components s ≡ name ∷ names)
unfolding components
components-cons [] = ([], [], refl)
components-cons (c ∷ s) =
    let (name, names, e) = components-cons s in
    elim (Bool-cases (c == slash)) [
      | inl at_slash ↦ ([], name ∷ names, rw (e, at_slash) refl)
      | inr other ↦ (c ∷ name, names, rw (e, other) refl)
    ]

pub components-name : (s : Bytes) → Lacks slash s → components s ≡ s ∷ []
unfolding components
components-name [] h = refl
components-name (c ∷ s) (h, hs) = rw (components-name s hs) (ground arith)

pub components-append :
    (s t : Bytes) → Lacks slash s → components (s ++ slash ∷ t) ≡ s ∷ components t
unfolding components
components-append [] t h = let (name, names, e) = components-cons t in rw e refl
components-append (c ∷ s) t (h, hs) = rw (components-append s t hs) (ground arith)

pub c_str-Lacks : (s : Bytes) → Lacks 0 s → c_str s ≡ s
unfolding c_str
c_str-Lacks [] h = refl
c_str-Lacks (c ∷ s) (h, hs) = rw (c_str-Lacks s hs) (ground arith)

pub walk-folder :
    (disk : Disk) (name : Bytes) (names : List Bytes) (here : Location)
    → entry disk here ≡ some folder
    → length name ≤ name_max
    → walk disk (name ∷ names) here ≡ walk disk names (descend name here)
unfolding walk
walk-folder disk name names here h short = rw (walk, h) (ground arith)

pub descend-name : (name : Bytes) (here : Location) → IsName name → descend name here ≡ name ∷ here
unfolding descend
descend-name name here n = rw (n.filled, n.not_dot, n.not_dot_dot) refl

-- What is written below a folder is not listed in it.
pub list_folder-insert :
    (name : Bytes) (above : Location) (e : Entry) (disk : Disk) (place : Location)
    → same_location above place ≡ false
    → list_folder place (insert (name ∷ above) e disk) ≡ list_folder place disk
unfolding list_folder insert same_location
list_folder-insert name above e [] place h = rw h refl
list_folder-insert name above e (([], d) ∷ disk) place h =
    list_folder-insert name above e disk place h
list_folder-insert name above e ((m ∷ l, d) ∷ disk) place h =
    ground (arith, list_folder-insert name above e disk place h, same_location_iff l above)

-- A new folder is no file of the folder it is made in.
pub load_file_info-insert :
    (name : Bytes) (above : Location) (disk : Disk) (place : Location) (s : Peer)
    → lookup (name ∷ above) disk ≡ none
    → load_file_info (list_folder place (insert (name ∷ above) folder disk)) s
      ≡ load_file_info (list_folder place disk) s
unfolding list_folder insert lookup load_file_info same_location
load_file_info-insert name above [] place s h =
    if_both (λ xs. load_file_info xs s ≡ s) (same_location above place) _ _ refl refl
load_file_info-insert name above (([], d) ∷ disk) place s h =
    load_file_info-insert name above disk place s h
load_file_info-insert name above ((m ∷ l, d) ∷ disk) place s h = ground (
  arith,
  load_file_info-insert name above disk place s,
  load_file_info-insert name above disk place (record s { files = m ∷ s.files }),
)

-- What is in a folder is not the folder.
pub same_location-cons : (name : Bytes) (l : Location) → same_location l (name ∷ l) ≡ false
same_location-cons name l = elim (Bool-cases (same_location l (name ∷ l))) [
  | inl same ↦ absurd (omega (arith, ap length ((same_location_iff l (name ∷ l)).0 same)))
  | inr other ↦ other
]
