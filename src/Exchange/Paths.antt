-- ===== src/Exchange/Paths.antt =====
-- Where the paths of src/peer_file_client.cpp and src/peer_file_server.cpp lead.
use p2p_file_sharing_system.Prelude.{
  ℕ, ◌≡◌, refl, ap, ◌∙◌, some, List, [], ◌∷◌, ◌++◌, arith, append_assoc, inl, pos, ◌≢◌, ◌≤◌, length,
  length-append, All-append,
}
use p2p_file_sharing_system.Text.{Bytes, codes, bytes_eq, Lacks}
use p2p_file_sharing_system.Text.Number.{to_string, int_limit}
use p2p_file_sharing_system.Text.Number.RoundTrip.{Fits, to_string-Lacks_other}
use p2p_file_sharing_system.Text.Number.Width.{length-to_string_int}
use p2p_file_sharing_system.Ids.{PeerId}
use p2p_file_sharing_system.Disk.{
  Location, Disk, folder, entry, components, slash, dot, dot_dot, descend, parent, walk, locate, at,
  name_max,
}
use p2p_file_sharing_system.Disk.Laws.{
  IsName, IsPlain, components-name, components-append, walk-folder, descend-name, c_str-Lacks,
}
use p2p_file_sharing_system.Exchange.{
  file_path, receive_folder, receive_dir, pushed_path, obtained_path,
}

abbrev pub shared : Location
shared = codes "shared_files" ∷ []

abbrev pub received_name : PeerId → Bytes
received_name id = codes "received" ++ to_string id

abbrev pub received_at : PeerId → Location
received_at id = received_name id ∷ shared

-- The name under which HandleObtainResponse stores a file.
abbrev pub numbered : ℕ → Bytes → Bytes
numbered n name = to_string (pos n) ++ (codes "_" ++ name)

-- A disk with the folder for shared files, and one in it for the files that the peer receives.
pub record HasFolders (disk : Disk) (id : PeerId) : Type 0 where
  pub fits : Fits int_limit id
  pub for_shared : entry disk shared ≡ some folder
  pub for_received : entry disk (received_at id) ≡ some folder

walk_shared :
    (disk : Disk) (names : List Bytes)
    → walk disk (dot ∷ codes "shared_files" ∷ names) [] ≡ walk disk names shared
unfolding entry descend bytes_eq
walk_shared disk names =
    walk-folder disk dot (codes "shared_files" ∷ names) [] refl (omega arith)
    ∙ walk-folder disk (codes "shared_files") names [] refl (omega arith)

components_shared :
    (path : Bytes)
    → components (codes "./shared_files/" ++ path) ≡ dot ∷ codes "shared_files" ∷ components path
components_shared path =
    components-append dot (codes "shared_files/" ++ path) (omega arith)
    ∙ ap (λ names. dot ∷ names) (components-append (codes "shared_files") path (omega arith))

-- A path in the folder for shared files.
locate_shared :
    (disk : Disk) (path : Bytes)
    → Lacks 0 path
    → locate disk (codes "./shared_files/" ++ path) ≡ walk disk (components path) shared
unfolding locate
locate_shared disk path no_zero =
    ap (λ s. walk disk (components s) [])
      (c_str-Lacks (codes "./shared_files/" ++ path)
        (All-append (λ c. c ≢ 0) (codes "./shared_files/") path (omega arith) no_zero))
    ∙ rw (components_shared path) (walk_shared disk (components path))

walk_name :
    (disk : Disk) (name : Bytes) (here : Location)
    → entry disk here ≡ some folder
    → IsName name
    → length name ≤ name_max
    → walk disk (name ∷ []) here ≡ at (name ∷ here)
unfolding walk
walk_name disk name here is_there named short =
    walk-folder disk name [] here is_there short ∙ ap at (descend-name name here named)

pub locate-file_path :
    (disk : Disk) (name : Bytes)
    → entry disk shared ≡ some folder
    → IsPlain name
    → locate disk (file_path name) ≡ at (name ∷ shared)
locate-file_path disk name is_there plain =
    locate_shared disk name plain.no_zero
    ∙ ap (λ names. walk disk names shared) (components-name name plain.one_name)
    ∙ walk_name disk name shared is_there plain.named plain.short

received_name-IsName : (id : PeerId) → IsName (received_name id)
unfolding bytes_eq
received_name-IsName id = record { filled = refl; not_dot = refl; not_dot_dot = refl }

received_name-IsPlain : (id : PeerId) → Fits int_limit id → IsPlain (received_name id)
received_name-IsPlain id fits = record {
  named = received_name-IsName id;
  one_name =
      All-append (λ c. c ≢ slash) (codes "received") (to_string id) (omega arith)
        (to_string-Lacks_other slash (omega arith, inl (omega arith)) id);
  no_zero =
      All-append (λ c. c ≢ 0) (codes "received") (to_string id) (omega arith)
        (to_string-Lacks_other 0 (omega arith, inl (omega arith)) id);
  short =
      omega (arith, length-append (codes "received") (to_string id), length-to_string_int id fits);
}

pub locate-receive_folder :
    (disk : Disk) (id : PeerId)
    → Fits int_limit id
    → entry disk shared ≡ some folder
    → locate disk (receive_folder id) ≡ at (received_at id)
locate-receive_folder disk id fits is_there =
    locate-file_path disk (received_name id) is_there (received_name-IsPlain id fits)

receive_dir-append :
    (id : PeerId) (path : Bytes)
    → receive_dir id ++ path ≡ codes "./shared_files/" ++ (received_name id ++ slash ∷ path)
receive_dir-append id path = simp append_assoc

-- A path in the folder for received files.
locate_received :
    (disk : Disk) (id : PeerId) (path : Bytes)
    → HasFolders disk id
    → Lacks 0 path
    → locate disk (receive_dir id ++ path) ≡ walk disk (components path) (received_at id)
locate_received disk id path folders no_zero =
    let plain = received_name-IsPlain id folders.fits in
    ap (locate disk) (receive_dir-append id path)
    ∙ locate_shared disk (received_name id ++ slash ∷ path) (
        All-append (λ c. c ≢ 0) (received_name id) (slash ∷ path) plain.no_zero
          (omega arith, no_zero))
    ∙ ap (λ names. walk disk names shared)
        (components-append (received_name id) path plain.one_name)
    ∙ walk-folder disk (received_name id) (components path) shared folders.for_shared plain.short
    ∙ ap (walk disk (components path))
        (descend-name (received_name id) shared (received_name-IsName id))

-- A name in the middle of which there is an underscore.
underscored : (t name : Bytes) → IsName (t ++ (codes "_" ++ name))
unfolding bytes_eq
underscored [] name = record { filled = refl; not_dot = refl; not_dot_dot = refl }
underscored (c ∷ []) name = record {
  filled = refl;
  not_dot = ground arith;
  not_dot_dot = ground arith;
}
underscored (c ∷ d ∷ []) name = record {
  filled = refl;
  not_dot = ground arith;
  not_dot_dot = ground arith;
}
underscored (c ∷ d ∷ e ∷ t) name = record {
  filled = refl;
  not_dot = ground arith;
  not_dot_dot = ground arith;
}

pub numbered-IsPlain :
    (n : ℕ) (name : Bytes)
    → IsPlain name
    → length (numbered n name) ≤ name_max
    → IsPlain (numbered n name)
numbered-IsPlain n name plain short = record {
  named = underscored (to_string (pos n)) name;
  one_name =
      All-append (λ c. c ≢ slash) (to_string (pos n)) (codes "_" ++ name)
        (to_string-Lacks_other slash (omega arith, inl (omega arith)) (pos n))
        (omega arith, plain.one_name);
  no_zero =
      All-append (λ c. c ≢ 0) (to_string (pos n)) (codes "_" ++ name)
        (to_string-Lacks_other 0 (omega arith, inl (omega arith)) (pos n))
        (omega arith, plain.no_zero);
  short = short;
}

obtained_path-numbered :
    (id : PeerId) (n : ℕ) (name : Bytes)
    → obtained_path id n name ≡ receive_dir id ++ numbered n name
obtained_path-numbered id n name = simp append_assoc

pub locate-obtained_path :
    (disk : Disk) (id : PeerId) (n : ℕ) (name : Bytes)
    → HasFolders disk id
    → IsPlain (numbered n name)
    → locate disk (obtained_path id n name) ≡ at (numbered n name ∷ received_at id)
locate-obtained_path disk id n name folders plain =
    ap (locate disk) (obtained_path-numbered id n name)
    ∙ locate_received disk id (numbered n name) folders plain.no_zero
    ∙ ap (λ names. walk disk names (received_at id))
        (components-name (numbered n name) plain.one_name)
    ∙ walk_name disk (numbered n name) (received_at id) folders.for_received plain.named plain.short

-- The second of two slashes changes nothing.
walk_pushed :
    (disk : Disk) (id : PeerId) (path : Bytes)
    → HasFolders disk id
    → Lacks 0 path
    → locate disk (pushed_path id path) ≡ walk disk (components path) (received_at id)
unfolding components descend bytes_eq
walk_pushed disk id path folders no_zero =
    ap (locate disk) (append_assoc (receive_dir id) (codes "/") path)
    ∙ locate_received disk id (slash ∷ path) folders (omega arith, no_zero)
    ∙ ap (λ names. walk disk names (received_at id)) (components-append [] path tt)
    ∙ walk-folder disk [] (components path) (received_at id) folders.for_received (omega arith)

pub locate-pushed_path :
    (disk : Disk) (id : PeerId) (name : Bytes)
    → HasFolders disk id
    → IsPlain name
    → locate disk (pushed_path id name) ≡ at (name ∷ received_at id)
locate-pushed_path disk id name folders plain =
    walk_pushed disk id name folders plain.no_zero
    ∙ ap (λ names. walk disk names (received_at id)) (components-name name plain.one_name)
    ∙ walk_name disk name (received_at id) folders.for_received plain.named plain.short

-- A name that leads out of the folder for received files.
abbrev pub escaping : Bytes → Bytes
escaping name = codes "../" ++ name

pub locate-pushed_path-escaping :
    (disk : Disk) (id : PeerId) (name : Bytes)
    → HasFolders disk id
    → IsPlain name
    → locate disk (pushed_path id (escaping name)) ≡ at (name ∷ shared)
unfolding components descend bytes_eq parent
locate-pushed_path-escaping disk id name folders plain =
    walk_pushed disk id (escaping name) folders
      (omega arith, (omega arith, (omega arith, plain.no_zero)))
    ∙ ap (λ names. walk disk names (received_at id)) (components-append dot_dot name (omega arith))
    ∙ walk-folder disk dot_dot (components name) (received_at id) folders.for_received (omega arith)
    ∙ ap (λ names. walk disk names shared) (components-name name plain.one_name)
    ∙ walk_name disk name shared folders.for_shared plain.named plain.short
