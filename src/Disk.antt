-- ===== src/Disk.antt =====
-- The disk under the transfers of src/peer_file_client.cpp and src/peer_file_server.cpp: what fopen,
-- std::ofstream, opendir, mkdir and readdir do on folders and plain files, without symbolic links and
-- with every access permitted.
use p2p_file_sharing_system.Prelude.{
  ℕ, ◌≡◌, refl, sym, ◌∙◌, ◌↔◌, Bool, true, false, ◌&&◌, ◌||◌, Option, none, some, List, [], ◌∷◌,
  ◌++◌, arith, ◌==◌, ltb, length, if◌then◌else◌, Bool-cases, inl, inr,
}
use p2p_file_sharing_system.Result.{Result, ok, fault, null_pointer}
use p2p_file_sharing_system.Text.{Bytes, codes, bytes_eq, bytes_eq_iff}
use p2p_file_sharing_system.Containers.{Key, lookup, insert}
pub mod Laws

-- Where a file or a folder is: its name, and the names of the folders it is in, the innermost first, up
-- to the folder that the process works in.
abbrev pub Location : Type 0
Location = List Bytes

unfoldable pub same_location : Location → Location → Bool
same_location [] [] = true
same_location [] (d ∷ t) = false
same_location (c ∷ s) [] = false
same_location (c ∷ s) (d ∷ t) = bytes_eq c d && same_location s t

pub same_location_iff : (s t : Location) → (same_location s t ≡ true) ↔ (s ≡ t)
unfolding same_location
same_location_iff [] [] = ground arith
same_location_iff [] (d ∷ t) = ground arith
same_location_iff (c ∷ s) [] = ground arith
same_location_iff (c ∷ s) (d ∷ t) = ground (arith, bytes_eq_iff c d, same_location_iff s t)

pub same_location_refl : (s : Location) → same_location s s ≡ true
same_location_refl s = (same_location_iff s s).1 refl

pub same_location_sym : (s t : Location) → same_location s t ≡ same_location t s
same_location_sym s t = ground (arith, same_location_iff s t, same_location_iff t s)

pub same_location_trans :
    (r s t : Location) → same_location r s ≡ true → same_location r t ≡ same_location s t
same_location_trans r s t h = rw ((same_location_iff r s).0 h) refl

instance abbrev pub location_key : Key Location
location_key = record {
  same = same_location;
  same_refl = same_location_refl;
  same_sym = same_location_sym;
  same_trans = same_location_trans;
}

pub data Entry : Type 0 where
  folder : Entry
  file : Bytes → Entry

abbrev pub Disk : Type 0
Disk = List (Location × Entry)

abbrev pub slash : ℕ
slash = b'/'

abbrev pub dot : Bytes
dot = codes "."

abbrev pub dot_dot : Bytes
dot_dot = codes ".."

-- What is at a location. The folder of the process and those above it are always there.
unfoldable pub entry : Disk → Location → Option Entry
entry disk [] = some folder
entry disk (name ∷ at) = if bytes_eq name dot_dot then some folder else lookup (name ∷ at) disk

-- The names of a path, empty ones where slashes meet.
unfoldable pub components : Bytes → List Bytes
components [] = [] ∷ []
components (c ∷ s) = elim (components s) [
  | [] ↦ []
  | name ∷ names ↦ if c == slash then [] ∷ name ∷ names else (c ∷ name) ∷ names
]

-- The folder above.
unfoldable pub parent : Location → Location
parent [] = dot_dot ∷ []
parent (name ∷ at) = if bytes_eq name dot_dot then dot_dot ∷ name ∷ at else at

unfoldable pub descend : Bytes → Location → Location
unfolding parent
descend name at =
    if bytes_eq name [] || bytes_eq name dot
    then at
    else if bytes_eq name dot_dot
    then parent at
    else name ∷ at

-- What a path leads to: a location whose folder is there, or an error (ENOENT, or ENOTDIR and
-- ENAMETOOLONG, which are treated alike).
pub data Found : Type 0 where
  at : Location → Found
  no_entry : Found
  refused : Found

-- NAME_MAX: the longest name of the file systems the program is run on.
abbrev pub name_max : ℕ
name_max = 255

unfoldable pub walk : Disk → List Bytes → Location → Found
unfolding entry descend
walk disk [] here = at here
walk disk (name ∷ names) here = elim (entry disk here) [
  | none ↦ no_entry
  | some folder ↦
      let rest = walk disk names (descend name here) in
      if ltb name_max (length name) then refused else rest
  | some (file contents) ↦ refused
]

-- What a call of the system reads of a string: the bytes in front of the first zero.
unfoldable pub c_str : Bytes → Bytes
c_str [] = []
c_str (c ∷ s) = if c == 0 then [] else c ∷ c_str s

unfoldable pub locate : Disk → Bytes → Found
unfolding walk components c_str
locate disk path = walk disk (components (c_str path)) []

-- fopen(path, "rb"), and all that fread then gives: a folder can be opened, and nothing is read from it.
unfoldable pub read_file : Disk → Bytes → Option Bytes
unfolding locate
read_file disk path = elim (locate disk path) [
  | at here ↦ elim (entry disk here) [
    | none ↦ none
    | some folder ↦ some []
    | some (file contents) ↦ some contents
  ]
  | no_entry ↦ none
  | refused ↦ none
]

-- std::ofstream at a path, and what is written to it: `combine` makes the new contents of the old ones,
-- which are empty for a new file. Where the file cannot be opened the writes do nothing.
unfoldable pub write_file : (Bytes → Bytes) → Disk → Bytes → Disk
unfolding locate
write_file combine disk path = elim (locate disk path) [
  | at here ↦ elim (entry disk here) [
    | none ↦ insert here (file (combine [])) disk
    | some folder ↦ disk
    | some (file contents) ↦ insert here (file (combine contents)) disk
  ]
  | no_entry ↦ disk
  | refused ↦ disk
]

-- opendir, and mkdir where it says ENOENT. Any other error is followed by closedir(NULL).
unfoldable pub make_folder : Disk → Bytes → Result Disk
unfolding locate
make_folder disk path = elim (locate disk path) [
  | at here ↦ elim (entry disk here) [
    | none ↦ ok (insert here folder disk)
    | some folder ↦ ok disk
    | some (file contents) ↦ fault null_pointer
  ]
  | no_entry ↦ ok disk
  | refused ↦ fault null_pointer
]

-- readdir: the names in a folder, each with whether it is a folder itself, besides `.` and `..`.
abbrev is_folder : Entry → Bool
is_folder folder = true
is_folder (file contents) = false

unfoldable pub list_folder : Location → Disk → List (Bool × Bytes)
list_folder place [] = []
list_folder place (([], e) ∷ disk) = list_folder place disk
list_folder place ((name ∷ above, e) ∷ disk) =
    if same_location above place
    then (is_folder e, name) ∷ list_folder place disk
    else list_folder place disk
