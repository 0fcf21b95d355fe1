-- ===== src/Exchange/Push.antt =====
-- Files that a client pushes: HandlePushResponse (src/peer_file_client.cpp), and HandleClient and
-- ReceiveFile (src/peer_file_server.cpp).
use p2p_file_sharing_system.Prelude.{
  ℕ, ◌≡◌, ◌≢◌, refl, ◌∙◌, true, false, Option, none, some, List, [], ◌∷◌, length, ℤ, take, pos_part,
  ◌++◌, ltb, if◌then◌else◌, map,
}
use p2p_file_sharing_system.Result.{Result, ok, ◌>>=◌}
use p2p_file_sharing_system.Text.{Bytes, codes, Lacks, newline}
use p2p_file_sharing_system.Containers.{insert}
use p2p_file_sharing_system.Ids.{PeerId, push_file, msg_buf_size}
use p2p_file_sharing_system.Peer.{Peer}
use p2p_file_sharing_system.FileTransfer.{receive_file}
use p2p_file_sharing_system.Disk.{
  Disk, folder, file, entry, same_location, same_location_refl, location_key,
}
use p2p_file_sharing_system.Disk.Laws.{IsPlain, entry-insert}
use p2p_file_sharing_system.Exchange.{
  Served, Pushed, handle_client, receive_pushed_file, closed, truncated, pushed_path,
}
use p2p_file_sharing_system.Exchange.Paths.{
  shared, received_at, locate-pushed_path-escaping, escaping,
}
use p2p_file_sharing_system.Exchange.Folders.{CanReceive, make_folder-Prepared, write_file-at}
use p2p_file_sharing_system.Exchange.Storing.{request, parse_request-request}

unfoldable pub pieces : Bytes → List Bytes
pieces [] = []
pieces (c ∷ s) = (c ∷ s) ∷ []

abbrev blocked : Result (Option Served)
blocked = ok none

-- What HandleClient does with a request to push a file, once the header has been read.
handle_client-push :
    (send : ℕ → ℕ → ℤ) (id : PeerId) (received : List (Option Bytes)) (disk : Disk)
    (name padding : Bytes)
    → Lacks newline name
    → length (request push_file name padding) ≢ msg_buf_size
    → handle_client send id (some (request push_file name padding)) received disk
      ≡ (receive_pushed_file send id received disk name >>= λ served. ok (closed served))
unfolding handle_client
handle_client-push send id received disk name padding one_line short =
    rw (parse_request-request push_file name padding one_line short) refl

-- A push under a name `../f` writes outside the folder for received files: it replaces the file `f` that
-- the peer shares. `f` is plain (not empty, `.` or `..`, without slash, newline and zero, of at most 255
-- bytes), no folder stands in its place, and it is not the folder for received files itself; the first
-- recv returns the header whole, in fewer bytes than the buffer holds, the shared folder is there and the
-- other can be made, and the id of the peer is an int.
pub push_escapes :
    (send : ℕ → ℕ → ℤ) (id : PeerId) (received : List (Option Bytes)) (disk : Disk)
    (f padding contents : Bytes)
    → Lacks newline f
    → length (request push_file (escaping f) padding) ≢ msg_buf_size
    → receive_file received ≡ some contents
    → IsPlain f
    → CanReceive disk id
    → entry disk (f ∷ shared) ≢ some folder
    → same_location (received_at id) (f ∷ shared) ≡ false
    → (u : Served) × (handle_client send id
          (some (request push_file (escaping f) padding))
          received
          disk
        ≡ ok (some u))
      × (entry u.disk (f ∷ shared) ≡ some (file contents))
unfolding receive_pushed_file
push_escapes send id received disk f padding contents one_line short whole plain can free other =
    let place = f ∷ shared in
    let (made, making, ready) = make_folder-Prepared disk id can in
    let leads = locate-pushed_path-escaping made id f ready.folders plain in
    let before : entry made place ≡ entry disk place = ready.others place other in
    let written =
      write_file-at (truncated contents) made (pushed_path id (escaping f)) place leads
        (rw before free) in
    (
      record {
        disk = insert place (file contents) made;
        sent = take (pos_part (send 0 2)) (codes "st");
        dirty = true;
        closes = 2;
      },
      handle_client-push send id received disk (escaping f) padding
            (λ e. cc, (λ e. cc, (λ e. cc, one_line))) short
          ∙ rw (making, whole, written) refl,
      entry-insert f shared (file contents) made place plain.named.not_dot_dot
          ∙ rw (same_location_refl place) refl,
    )

-- What comes over the socket of a push behind the header: the bytes that were sent, in one piece, and the
-- end of the stream once the socket is closed.
unfoldable pub arrival : Pushed → List (Option Bytes)
arrival p = map some (pieces p.sent) ++ (if ltb 0 p.closes then some [] ∷ [] else [])
