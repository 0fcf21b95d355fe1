-- ===== src/Commands.antt =====
-- The commands of the user: the loop of CPeerClient::Run and IsValidUserCommand (src/peer_client.cpp).
use p2p_file_sharing_system.Prelude.{
  ℕ, zero, suc, Bool, true, false, ◌||◌, Option, none, some, List, [], ◌∷◌, ◌==◌, if◌then◌else◌, ℤ,
  pos,
}
use p2p_file_sharing_system.Result.{Result, ok, fault, ◌>>=◌}
use p2p_file_sharing_system.Text.{Bytes, codes, newline, space, bytes_eq}
use p2p_file_sharing_system.Text.Number.{stoi}
use p2p_file_sharing_system.Ids.{MessageId}
use p2p_file_sharing_system.Peer.{Peer}
use p2p_file_sharing_system.Peer.Operations.{
  send_query, send_inv_query, obtain_file, replicate_file, send_test_query, send_test_obtain,
  send_concurrent_test_query, send_test_obtain2, send_test_obtain3,
}
use p2p_file_sharing_system.Register.{cut_at, cut}
pub mod Reading
pub mod Choice
pub mod Hijack
pub mod EmptyName
mod Tests

-- std::fgets with room for `n` bytes before the final zero: what it reads, and what is left.
unfoldable pub fgets : ℕ → Bytes → Bytes × Bytes
fgets zero s = ([], s)
fgets (suc n) [] = ([], [])
fgets (suc n) (c ∷ s) =
    let (line, left) = fgets n s in if c == newline then (c ∷ [], s) else (c ∷ line, left)

-- A char array as a std::string: up to the first zero, which the memset put behind the text.
unfoldable pub before_zero : Bytes → Bytes
before_zero [] = []
before_zero (c ∷ s) = if c == 0 then [] else c ∷ before_zero s

-- find_last_of: what stands before the last byte `c`.
unfoldable pub before_last : ℕ → Bytes → Option Bytes
before_last c [] = none
before_last c (b ∷ s) = elim (before_last c s) [
  | some before ↦ some (b ∷ before)
  | none ↦ if b == c then some [] else none
]

-- substr(0, pos), the whole where nothing was found.
unfoldable pub or_whole : Bytes → Option Bytes → Bytes
or_whole s none = s
or_whole s (some before) = before

abbrev pub user_command_size : ℕ
user_command_size = 99

-- The array as a command, without the newline.
unfoldable pub command_text : Bytes → Bytes
unfolding before_zero before_last or_whole
command_text line = let text = before_zero line in or_whole text (before_last newline text)

-- One round's reading, with room for `n` bytes: the command, and the input that is left.
unfoldable pub read_line : ℕ → Bytes → Bytes × Bytes
unfolding fgets command_text
read_line n input = let (line, left) = fgets n input in (command_text line, left)

unfoldable pub read_command : Bytes → Bytes × Bytes
unfolding read_line
read_command = read_line user_command_size

unfoldable pub is_valid_user_command : Bytes → Bool
unfolding cut_at
is_valid_user_command command =
    let command_type = (cut_at space command).0 in
    bytes_eq command_type (codes "help")
    || bytes_eq command_type (codes "query")
    || bytes_eq command_type (codes "obtain")
    || bytes_eq command_type (codes "inv_query")
    || bytes_eq command_type (codes "replicate")
    || bytes_eq command_type (codes "test_query")
    || bytes_eq command_type (codes "test_query2")
    || bytes_eq command_type (codes "test_obtain")
    || bytes_eq command_type (codes "test_obtain2")
    || bytes_eq command_type (codes "test_obtain3")
    || bytes_eq command_type (codes "clear")

-- The branches of the loop.
pub data Command : Type 0 where
  help query obtain inv_query replicate_one test_query test_query2 test_obtain : Command
  test_obtain2 test_obtain3 clear_screen : Command

-- The chain of tests in Run; `none` is its last branch, "Invalid command.".
unfoldable pub choose : Bytes → Option Command
choose command_type =
    if bytes_eq command_type (codes "help")
    then some help
    else if bytes_eq command_type (codes "query")
    then some query
    else if bytes_eq command_type (codes "obtain")
    then some obtain
    else if bytes_eq command_type (codes "inv_query")
    then some inv_query
    else if bytes_eq command_type (codes "replicate")
    then some replicate_one
    else if bytes_eq command_type (codes "test_query")
    then some test_query
    else if bytes_eq command_type (codes "test_query2")
    then some test_query2
    else if bytes_eq command_type (codes "test_obtain")
    then some test_obtain
    else if bytes_eq command_type (codes "test_obtain2")
    then some test_obtain2
    else if bytes_eq command_type (codes "test_obtain3")
    then some test_obtain3
    else if bytes_eq command_type (codes "clear")
    then some clear_screen
    else none

-- The client with the local variables of the loop; the id is `none` until a command writes it.
pub record Console : Type 0 where
  pub peer : Peer
  pub message_id : Option MessageId
  pub con_test_query_max_peer : ℤ

-- std::stoi with 9 in place of any exception.
unfoldable pub max_peer_of : Bytes → ℤ
max_peer_of content = elim (stoi content) [ ok n ↦ n | fault e ↦ pos 9 ]

with_max_peer : (ℤ → Peer → Peer) → Bytes → Console → Console
unfolding max_peer_of
with_max_peer send content c =
    let n = max_peer_of content in record c { peer = send n c.peer; con_test_query_max_peer = n }

unfoldable pub execute : Command → Bytes → Console → Result Console
unfolding with_max_peer
execute help content c = ok c
execute query content c =
    let (id, s) = send_query content c.peer in ok (record c { peer = s; message_id = some id })
execute obtain content c =
    let (id, s) = obtain_file content c.peer in ok (record c { peer = s; message_id = some id })
execute inv_query content c =
    let (id, s) = send_inv_query content c.message_id c.peer in
    ok (record c { peer = s; message_id = id })
execute replicate_one content c = do
  (id, s) ← replicate_file content c.message_id c.peer
  ok (record c { peer = s; message_id = id })
execute test_query content c = ok (record c { peer = send_test_query c.peer })
execute test_query2 content c = ok (with_max_peer send_concurrent_test_query content c)
execute test_obtain content c = ok (record c { peer = send_test_obtain c.peer })
execute test_obtain2 content c = ok (with_max_peer send_test_obtain2 content c)
execute test_obtain3 content c = ok (with_max_peer send_test_obtain3 content c)
execute clear_screen content c = ok c

execute_choice : Option Command → Bytes → Console → Result Console
unfolding execute
execute_choice none content c = ok c
execute_choice (some command) content c = execute command content c

-- A round of the loop behind the reading.
unfoldable pub run_command : Bytes → Console → Result Console
unfolding is_valid_user_command choose execute_choice cut_at
run_command command c =
    let (command_type, content) = cut_at space command in
    if is_valid_user_command command then execute_choice (choose command_type) content c else ok c
