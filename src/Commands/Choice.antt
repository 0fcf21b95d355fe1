-- ===== src/Commands/Choice.antt =====
-- The two lists of commands of src/peer_client.cpp: IsValidUserCommand and the branches of Run.
use p2p_file_sharing_system.Prelude.{◌≡◌, Bool, true, false, Option, none, some, arith}
use p2p_file_sharing_system.Result.{ok}
use p2p_file_sharing_system.Text.{Bytes, space}
use p2p_file_sharing_system.Register.{cut_at}
use p2p_file_sharing_system.Commands.{
  Command, Console, choose, execute, is_valid_user_command, run_command,
}

abbrev is_chosen : Option Command → Bool
is_chosen none = false
is_chosen (some command) = true

valid-choose :
    (command : Bytes) → is_valid_user_command command ≡ is_chosen (choose (cut_at space command).0)
unfolding is_valid_user_command choose
valid-choose command = ground arith

-- A command is carried out by the branch of Run for its first word, and one that has no branch changes
-- nothing: the test of IsValidUserCommand before the branches lets every command through that has one.
pub run_command_lem :
    (command : Bytes) (c : Console)
    → run_command command c ≡ elim (choose (cut_at space command).0) [
      | none ↦ ok c
      | some branch ↦ execute branch (cut_at space command).1 c
    ]
unfolding run_command
run_command_lem command c = ground (arith, valid-choose command)
