-- ===== src/Exchange/Folders.antt =====
-- The folder for received files, made where it is missing, and what is written in it: src/peer_file_client.cpp
-- and src/peer_file_server.cpp.
use p2p_file_sharing_system.Prelude.{
  ◌≡◌, ◌≢◌, refl, ◌∙◌, false, ◌⊎◌, Option, none, some, [], inl, inr,
}
use p2p_file_sharing_system.Result.{ok}
use p2p_file_sharing_system.Text.{Bytes, bytes_eq}
use p2p_file_sharing_system.Containers.{insert}
use p2p_file_sharing_system.Text.Number.{int_limit}
use p2p_file_sharing_system.Text.Number.RoundTrip.{Fits}
use p2p_file_sharing_system.Ids.{PeerId}
use p2p_file_sharing_system.Peer.{Peer}
use p2p_file_sharing_system.Peer.Threads.{load_file_info}
use p2p_file_sharing_system.Disk.{
  Location, Disk, Entry, folder, file, entry, locate, at, make_folder, write_file, read_file,
  same_location, same_location_refl, location_key, list_folder,
}
use p2p_file_sharing_system.Disk.Laws.{entry-insert, load_file_info-insert}
use p2p_file_sharing_system.Exchange.{receive_folder}
use p2p_file_sharing_system.Exchange.Paths.{
  shared, received_at, received_name, HasFolders, locate-receive_folder,
}

-- The folder for shared files is there, and the one for received files is or can be made; the id of the
-- peer is an int.
pub record CanReceive (disk : Disk) (id : PeerId) : Type 0 where
  pub fits : Fits int_limit id
  pub for_shared : entry disk shared ≡ some folder
  pub for_received :
      (entry disk (received_at id) ≡ none) ⊎ (entry disk (received_at id) ≡ some folder)

-- The disk has the folder for received files now, and apart from that it is the same.
pub record Prepared (disk made : Disk) (id : PeerId) : Type 0 where
  pub folders : HasFolders made id
  pub others :
      (l : Location) → same_location (received_at id) l ≡ false → entry made l ≡ entry disk l
  pub listed :
      (s : Peer)
      → load_file_info (list_folder shared made) s ≡ load_file_info (list_folder shared disk) s

pub make_folder-Prepared :
    (disk : Disk) (id : PeerId)
    → CanReceive disk id
    → (made : Disk) × (make_folder disk (receive_folder id) ≡ ok made) × Prepared disk made id
unfolding make_folder entry bytes_eq same_location
make_folder-Prepared disk id can =
    let here = locate-receive_folder disk id can.fits can.for_shared in
    elim can.for_received [
      | inl missing ↦
          let inserted =
            λ (l : Location). entry-insert (received_name id) shared folder disk l refl in
          (
            insert (received_at id) folder disk,
            rw (make_folder, here, missing) refl,
            record {
              folders = record {
                fits = can.fits;
                for_shared = inserted shared ∙ can.for_shared;
                for_received =
                    inserted (received_at id) ∙ rw (same_location_refl (received_at id)) refl;
              };
              others = λ l other. inserted l ∙ rw other refl;
              listed = λ s. load_file_info-insert (received_name id) shared disk shared s missing;
            },
          )
      | inr there ↦ (
        disk,
        rw (make_folder, here, there) refl,
        record {
          folders = record { fits = can.fits; for_shared = can.for_shared; for_received = there };
          others = λ l other. refl;
          listed = λ s. refl;
        },
      )
    ]

-- What a file at a location holds, nothing where no file is.
unfoldable pub contents_of : Option Entry → Bytes
contents_of none = []
contents_of (some folder) = []
contents_of (some (file contents)) = contents

entry_cases :
    (e : Option Entry)
    → (e ≡ none) ⊎ ((e ≡ some folder) ⊎ ((contents : Bytes) × (e ≡ some (file contents))))
entry_cases none = inl refl
entry_cases (some folder) = inr (inl refl)
entry_cases (some (file contents)) = inr (inr (contents, refl))

pub read_file-at :
    (disk : Disk) (path : Bytes) (l : Location)
    → locate disk path ≡ at l
    → (read_file disk path ≡ none) × (contents_of (entry disk l) ≡ [])
      ⊎ (read_file disk path ≡ some (contents_of (entry disk l)))
unfolding read_file contents_of
read_file-at disk path l here = elim (entry_cases (entry disk l)) [
  | inl missing ↦ inl (rw (read_file, here, missing) refl, rw missing refl)
  | inr (inl is_folder) ↦ inr (rw (read_file, here, is_folder) refl)
  | inr (inr (contents, is_file)) ↦ inr (rw (read_file, here, is_file) refl)
]

pub write_file-at :
    (combine : Bytes → Bytes) (disk : Disk) (path : Bytes) (l : Location)
    → locate disk path ≡ at l
    → entry disk l ≢ some folder
    → write_file combine disk path ≡ insert l (file (combine (contents_of (entry disk l)))) disk
unfolding write_file contents_of
write_file-at combine disk path l here free = elim (entry_cases (entry disk l)) [
  | inl missing ↦ rw (write_file, here, missing) refl
  | inr (inl is_folder) ↦ absurd (free is_folder)
  | inr (inr (contents, is_file)) ↦ rw (write_file, here, is_file) refl
]
