-- ===== src/Exchange/Download.antt =====
-- A file on its way from the disk of one peer to that of another: HandleClient and SendFile
-- (src/peer_file_server.cpp), and HandleObtainResponse (src/peer_file_client.cpp).
use mathlib.Core.List.{flatten}
use p2p_file_sharing_system.Prelude.{
  ℕ, ◌+◌, ◌≤◌, ◌≡◌, ◌≢◌, refl, ap, ◌∙◌, false, Option, some, List, [], ◌∷◌, ◌++◌, map, inl, inr,
  length, pos, ℤ,
}
use p2p_file_sharing_system.Result.{ok}
use p2p_file_sharing_system.Text.{Bytes, Lacks, newline}
use p2p_file_sharing_system.Ids.{PeerId, download_file, msg_buf_size, add_port}
use p2p_file_sharing_system.Transport.Complete.{Sends, AllFilled}
use p2p_file_sharing_system.FileTransfer.Download.{send_file_whole, receive_file_whole}
use p2p_file_sharing_system.Disk.{
  Location, Disk, folder, file, entry, same_location, location_key, name_max,
}
use p2p_file_sharing_system.Disk.Laws.{IsPlain}
use p2p_file_sharing_system.Exchange.{
  handle_client, send_shared_file, FileClient, handle_obtain_response, file_path,
}
use p2p_file_sharing_system.Exchange.Paths.{shared, received_at, numbered, locate-file_path}
use p2p_file_sharing_system.Exchange.Storing.{
  request, parse_request-request, handle_obtain_response_stores,
}
use p2p_file_sharing_system.Exchange.Folders.{CanReceive, contents_of, read_file-at}

send_shared_file_lem :
    (send : ℕ → ℕ → ℤ) (disk : Disk) (name : Bytes)
    → Sends send
    → entry disk shared ≡ some folder
    → IsPlain name
    → send_shared_file send disk name
      ≡ some (record {
        disk = disk;
        sent = contents_of (entry disk (name ∷ shared));
        dirty = false;
        closes = 0;
      })
unfolding send_shared_file
send_shared_file_lem send disk name works is_there plain =
    let contents = contents_of (entry disk (name ∷ shared)) in
    let (calls, sent) = send_file_whole send (contents_of (entry disk (name ∷ shared))) works in
    elim (read_file-at disk (file_path name) (name ∷ shared)
      (locate-file_path disk name is_there plain)) [
        | inl (missing, nothing) ↦ rw (send_shared_file, missing, nothing) refl
        | inr found ↦ rw (send_shared_file, found, sent) refl
      ]

-- A client asks for a file by a plain name (not empty, `.` or `..`, without slash, newline and zero, of at most
-- 255 bytes), over a connection that works and whose first recv returns
-- the header whole, in fewer bytes than the buffer holds. The server sends what the file of that name in
-- its shared folder holds, or nothing where there is none, closes the socket and changes nothing on its
-- disk. The client, however the network cuts the stream, appends that to a file in its folder for
-- received files, under the name with the number of the download before it, and counts the download;
-- no other file of its disk changes. It has the shared folder, the other can be made, no folder is in
-- the place of the new file, whose name has at most 255 bytes with the number, and the number of
-- downloads fits an int, like the id of the client.
pub obtain_from_server :
    (send : ℕ → ℕ → ℤ) (server_id : PeerId) (disk : Disk) (name padding : Bytes)
    (segments : List Bytes) (rest : List (Option Bytes)) (c : FileClient)
    → Sends send
    → entry disk shared ≡ some folder
    → IsPlain name
    → Lacks newline name
    → length (request download_file name padding) ≢ msg_buf_size
    → AllFilled segments
    → flatten segments ≡ contents_of (entry disk (name ∷ shared))
    → length (numbered c.obtain_num name) ≤ name_max
    → CanReceive c.disk c.peer_id
    → entry c.disk (numbered c.obtain_num name ∷ received_at c.peer_id) ≢ some folder
    → add_port 1 (pos c.obtain_num) ≡ ok (pos (c.obtain_num + 1))
    → let place = numbered c.obtain_num name ∷ received_at c.peer_id in
      let contents = contents_of (entry disk (name ∷ shared)) in
      (handle_client send server_id (some (request download_file name padding)) [] disk
        ≡ ok (some (record { disk = disk; sent = contents; dirty = false; closes = 1 })))
      × (t : FileClient) × (handle_obtain_response (map some segments ++ some [] ∷ rest) name c
          ≡ ok (some t))
      × (t.obtain_num ≡ c.obtain_num + 1)
      × (entry t.disk place ≡ some (file (contents_of (entry c.disk place) ++ contents)))
      × ((l : Location)
          → same_location place l ≡ false
          → same_location (received_at c.peer_id) l ≡ false
          → entry t.disk l ≡ entry c.disk l)
unfolding handle_client
obtain_from_server send server_id disk name padding segments rest c works is_there plain one_line
      short filled cut small can free fits =
    let (t, stores, counted, stored) =
      handle_obtain_response_stores (map some segments ++ some [] ∷ rest) _ name c
        (receive_file_whole segments rest filled ∙ ap some cut) plain small can free fits in
    (
      rw
          (
            parse_request-request download_file name padding one_line short,
            send_shared_file_lem send disk name works is_there plain,
          )
          refl,
      t,
      stores,
      counted,
      stored.stands,
      stored.others,
    )
