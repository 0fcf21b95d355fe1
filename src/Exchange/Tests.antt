-- ===== src/Exchange/Tests.antt =====
-- Transfers between two disks at concrete inputs.
use mathlib.Core.List.{flatten}
use p2p_file_sharing_system.Prelude.{
  ℕ, ◌<◌, ◌≤◌, ◌≡◌, refl, true, false, some, [], ◌∷◌, ◌++◌, map, arith, inl, ℤ, pos,
}
use p2p_file_sharing_system.Result.{ok}
use p2p_file_sharing_system.Text.{codes, bytes_eq}
use p2p_file_sharing_system.Text.Number.{to_string}
use p2p_file_sharing_system.Containers.{lookup}
use p2p_file_sharing_system.Ids.{download_file, push_file, add_port}
use p2p_file_sharing_system.FileTransfer.{receive_file, create_request_header}
use p2p_file_sharing_system.Disk.{
  at, locate, Disk, Location, folder, file, entry, list_folder, same_location, location_key,
}
use p2p_file_sharing_system.Disk.Laws.{IsPlain}
use p2p_file_sharing_system.Exchange.{
  Served, file_path, FileClient, handle_client, handle_obtain_response,
}
use p2p_file_sharing_system.Exchange.Paths.{shared, received_at, numbered, escaping}
use p2p_file_sharing_system.Exchange.Folders.{CanReceive, contents_of}
use p2p_file_sharing_system.Exchange.Storing.{request}
use p2p_file_sharing_system.Exchange.Download.{obtain_from_server}
use p2p_file_sharing_system.Exchange.Push.{push_escapes}

-- A send() that takes one byte.
abbrev byte_by_byte : ℕ → ℕ → ℤ
byte_by_byte i n = pos 1

byte_by_byte_works : (i n : ℕ) → 0 < n → (r : ℕ) × (byte_by_byte i n ≡ pos r) × (0 < r) × (r ≤ n)
byte_by_byte_works i n h = (1, refl, omega arith, omega arith)

-- A peer that shares the file `mine`.
abbrev sharing : Disk
sharing = (shared, folder) ∷ (codes "mine" ∷ shared, file (codes "a file")) ∷ []

abbrev client : FileClient
client = record { peer_id = pos 3; obtain_num = 0; disk = (shared, folder) ∷ []; dirty = false }

mine-IsPlain : IsPlain (codes "mine")
unfolding bytes_eq
mine-IsPlain = record {
  named = record { filled = refl; not_dot = refl; not_dot_dot = refl };
  one_name = omega arith;
  no_zero = omega arith;
  short = omega arith;
}

sharing-CanReceive : CanReceive sharing (pos 2)
unfolding entry bytes_eq lookup same_location to_string
sharing-CanReceive = record { fits = omega arith; for_shared = refl; for_received = inl refl }

client-CanReceive : CanReceive client.disk (pos 3)
unfolding entry bytes_eq lookup same_location to_string
client-CanReceive = record { fits = omega arith; for_shared = refl; for_received = inl refl }

obtain_from_server_example :
    (handle_client byte_by_byte (pos 2) (some (request download_file (codes "mine") [])) [] sharing
      ≡ ok (some (record { disk = sharing; sent = codes "a file"; dirty = false; closes = 1 })))
    × (t : FileClient) × (handle_obtain_response
          (map some (codes "a fi" ∷ codes "le" ∷ []) ++ some [] ∷ [])
          (codes "mine")
          client
        ≡ ok (some t))
    × (t.obtain_num ≡ 1)
    × (entry t.disk (numbered 0 (codes "mine") ∷ received_at (pos 3))
        ≡ some (file (codes "a file")))
    × ((l : Location)
        → same_location (numbered 0 (codes "mine") ∷ received_at (pos 3)) l ≡ false
        → same_location (received_at (pos 3)) l ≡ false
        → entry t.disk l ≡ entry client.disk l)
unfolding flatten contents_of entry bytes_eq lookup same_location to_string add_port
    create_request_header
obtain_from_server_example =
    obtain_from_server byte_by_byte (pos 2) sharing (codes "mine") []
      (codes "a fi" ∷ codes "le" ∷ []) [] client byte_by_byte_works refl mine-IsPlain (omega arith)
      (omega arith) (λ e. cc, (λ e. cc, tt)) refl (omega arith) client-CanReceive (λ e. cc) refl

push_escapes_example :
    (u : Served) × (handle_client byte_by_byte
        (pos 2)
        (some (request push_file (escaping (codes "mine")) []))
        (some (codes "copy") ∷ some [] ∷ [])
        sharing
      ≡ ok (some u))
    × (entry u.disk (codes "mine" ∷ shared) ≡ some (file (codes "copy")))
unfolding entry bytes_eq lookup same_location to_string create_request_header receive_file
push_escapes_example =
    push_escapes byte_by_byte (pos 2) (some (codes "copy") ∷ some [] ∷ []) sharing (codes "mine") []
      (codes "copy") (omega arith) (omega arith) refl mine-IsPlain sharing-CanReceive (λ e. cc) refl

-- A name that goes on behind a zero byte is taken for what stands before it.
zero_cuts :
    locate sharing (file_path (codes "mine" ++ 0 ∷ codes ".bin")) ≡ at (codes "mine" ∷ shared)
unfolding locate bytes_eq lookup same_location
zero_cuts = refl

-- A file that is shared is listed, and the folder for received files is a folder.
listing :
    list_folder shared ((received_at (pos 2), folder) ∷ sharing)
    ≡ (true, codes "received2") ∷ (false, codes "mine") ∷ []
unfolding list_folder same_location bytes_eq to_string
listing = refl
