-- ===== src/Exchange/Storing.antt =====
-- A file that comes over a connection, on the disk: HandleObtainResponse (src/peer_file_client.cpp) and
-- ReceiveFile (src/peer_file_server.cpp).
use p2p_file_sharing_system.Prelude.{
  ℕ, ◌+◌, ◌≤◌, ◌≡◌, ◌≢◌, refl, ap, ◌∙◌, true, false, Option, some, List, ◌∷◌, ◌++◌, arith, length,
  pos, take, pos_part, ℤ,
}
use p2p_file_sharing_system.Result.{ok}
use p2p_file_sharing_system.Text.{Bytes, Lacks, newline, bytes_eq, codes}
use p2p_file_sharing_system.Containers.{insert}
use p2p_file_sharing_system.Ids.{PeerId, RequestType, msg_buf_size, add_port}
use p2p_file_sharing_system.Peer.{Peer}
use p2p_file_sharing_system.Peer.Threads.{load_file_info}
use p2p_file_sharing_system.FileTransfer.{
  create_request_header, parse_request, request_code, receive_file,
}
use p2p_file_sharing_system.FileTransfer.Header.{parse_request-header}
use p2p_file_sharing_system.Disk.{
  Location, Disk, folder, file, entry, same_location, same_location_refl, location_key, dot_dot,
  list_folder, name_max,
}
use p2p_file_sharing_system.Disk.Laws.{
  IsPlain, entry-insert, same_location-cons, list_folder-insert,
}
use p2p_file_sharing_system.Exchange.{
  Served, FileClient, handle_obtain_response, appended, obtained_path, receive_pushed_file,
  truncated, pushed_path,
}
use p2p_file_sharing_system.Exchange.Paths.{
  shared, received_at, numbered, locate-obtained_path, locate-pushed_path, numbered-IsPlain,
}
use p2p_file_sharing_system.Exchange.Folders.{
  CanReceive, Prepared, make_folder-Prepared, contents_of, write_file-at,
}

-- The first bytes of a connection: the header of a request, and what else the first recv returned.
abbrev pub request : RequestType → Bytes → Bytes → Bytes
request req_type name padding = create_request_header req_type name ++ padding

pub parse_request-request :
    (req_type : RequestType) (name padding : Bytes)
    → Lacks newline name
    → length (request req_type name padding) ≢ msg_buf_size
    → parse_request (request req_type name padding) ≡ ok (request_code req_type, name)
parse_request-request req_type name padding one_line short =
    parse_request-header req_type name padding one_line ∙ ground arith

-- The folder for received files holds these contents under the name, nothing else has changed but that
-- the folder may be new, and LoadFileInfo finds nothing new.
pub record Stored (before after : Disk) (id : PeerId) (name contents : Bytes) : Type 0 where
  pub stands : entry after (name ∷ received_at id) ≡ some (file contents)
  pub others :
      (l : Location)
      → same_location (name ∷ received_at id) l ≡ false
      → same_location (received_at id) l ≡ false
      → entry after l ≡ entry before l
  pub listed :
      (s : Peer)
      → load_file_info (list_folder shared after) s ≡ load_file_info (list_folder shared before) s

insert-Stored :
    (disk made : Disk) (id : PeerId) (name contents : Bytes)
    → Prepared disk made id
    → bytes_eq name dot_dot ≡ false
    → Stored disk (insert (name ∷ received_at id) (file contents) made) id name contents
unfolding same_location bytes_eq
insert-Stored disk made id name contents ready not_up =
    let place = name ∷ received_at id in
    let after =
      λ (l : Location). entry-insert name (received_at id) (file contents) made l not_up in
    record {
      stands = after place ∙ rw (same_location_refl place) refl;
      others = λ l elsewhere other. after l ∙ rw (elsewhere, ready.others l other) refl;
      listed = λ s.
          ap (λ entries. load_file_info entries s)
            (list_folder-insert name (received_at id) (file contents) made shared refl)
          ∙ ready.listed s;
    }

pub handle_obtain_response_stores :
    (received : List (Option Bytes)) (contents name : Bytes) (c : FileClient)
    → receive_file received ≡ some contents
    → IsPlain name
    → length (numbered c.obtain_num name) ≤ name_max
    → CanReceive c.disk c.peer_id
    → entry c.disk (numbered c.obtain_num name ∷ received_at c.peer_id) ≢ some folder
    → add_port 1 (pos c.obtain_num) ≡ ok (pos (c.obtain_num + 1))
    → (t : FileClient) × (handle_obtain_response received name c ≡ ok (some t))
      × (t.obtain_num ≡ c.obtain_num + 1)
      × Stored c.disk t.disk c.peer_id (numbered c.obtain_num name) (
          contents_of (entry c.disk (numbered c.obtain_num name ∷ received_at c.peer_id))
          ++ contents)
unfolding handle_obtain_response
handle_obtain_response_stores received contents name c whole plain small can free fits =
    let id = c.peer_id in
    let place = numbered c.obtain_num name ∷ received_at id in
    let new = contents_of (entry c.disk place) ++ contents in
    let (made, making, ready) = make_folder-Prepared c.disk id can in
    let place_plain = numbered-IsPlain c.obtain_num name plain small in
    let leads = locate-obtained_path made id c.obtain_num name ready.folders place_plain in
    let before : entry made place ≡ entry c.disk place =
      ready.others place (same_location-cons (numbered c.obtain_num name) (received_at id)) in
    let written =
      write_file-at (appended contents) made (obtained_path id c.obtain_num name) place leads
        (rw before free) in
    let not_up = place_plain.named.not_dot_dot in
    (
      record c { obtain_num = c.obtain_num + 1; dirty = true; disk = insert place (file new) made },
      rw (making, fits, whole, written, before) refl,
      refl,
      insert-Stored c.disk made id (numbered c.obtain_num name) new ready not_up,
    )

-- ReceiveFile, where the folder for received files can be made.
pub receive_pushed_file_stores :
    (send : ℕ → ℕ → ℤ) (received : List (Option Bytes)) (contents name : Bytes) (id : PeerId)
    (disk : Disk)
    → receive_file received ≡ some contents
    → IsPlain name
    → CanReceive disk id
    → entry disk (name ∷ received_at id) ≢ some folder
    → (u : Served) × (receive_pushed_file send id received disk name ≡ ok (some u))
      × (u.closes ≡ 1)
      × Stored disk u.disk id name contents
unfolding receive_pushed_file
receive_pushed_file_stores send received contents name id disk whole plain can free =
    let place = name ∷ received_at id in
    let (made, making, ready) = make_folder-Prepared disk id can in
    let leads = locate-pushed_path made id name ready.folders plain in
    let before : entry made place ≡ entry disk place =
      ready.others place (same_location-cons name (received_at id)) in
    let written =
      write_file-at (truncated contents) made (pushed_path id name) place leads (rw before free) in
    (
      record {
        disk = insert place (file contents) made;
        sent = take (pos_part (send 0 2)) (codes "st");
        dirty = true;
        closes = 1;
      },
      rw (making, whole, written) refl,
      refl,
      insert-Stored disk made id name contents ready plain.named.not_dot_dot,
    )
