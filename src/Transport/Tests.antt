-- ===== src/Transport/Tests.antt =====
-- Runs of the loops around recv() and accept().
use mathlib.Core.List.{flatten}
use p2p_file_sharing_system.Prelude.{
  ◌≡◌, ◌==◌, refl, true, false, pos, negsuc, none, some, List, [], ◌∷◌, arith,
}
use p2p_file_sharing_system.Result.{ok, fault, exited}
use p2p_file_sharing_system.Text.{Bytes, codes}
use p2p_file_sharing_system.Transport.{handle_request_loop}
use p2p_file_sharing_system.Transport.Frames.{handle_request_loop_lem}
use p2p_file_sharing_system.Transport.Accepting.{Acceptor, start_listening, accept_round}

abbrev frames : List Bytes
frames = codes "abc" ∷ codes "def" ∷ []

handle_request_loop_lem_example :
    (handle_request_loop (λ i. false) (λ i. i) 2 3 3 (flatten frames) 0 [] ≡ some frames)
    × (handle_request_loop (λ i. false) (λ i. i) 3 3 3 (flatten frames) 0 [] ≡ none)
handle_request_loop_lem_example =
    handle_request_loop_lem (λ i. false) (λ i. i) frames 3 3 (λ i. refl) (omega arith) (omega arith)
      (refl, (refl, tt))

-- A connection that fails in the second message delivers what came of it, and zeros.
cut_short :
    handle_request_loop (λ i. i == 3) (λ i. 1) 9 9 3 (codes "abcde") 0 []
    ≡ some (codes "abc" ∷ (100 ∷ 101 ∷ 0 ∷ []) ∷ [])
unfolding handle_request_loop
cut_short = refl

abbrev one_client : Acceptor
one_client = record {
  client_addr = codes "10.0.0.2";
  started = pos 4 ∷ [];
  closed = [];
  accepting = true;
}

-- Behind StopAccepting the next client is turned away.
last_client :
    accept_round false (pos 5) (codes "10.0.0.3") one_client
    ≡ ok (record one_client {
      client_addr = codes "10.0.0.3";
      closed = pos 5 ∷ [];
      accepting = false;
    })
unfolding accept_round
last_client = refl

bind_fails : start_listening (pos 3) (negsuc 0) (pos 0) ≡ fault exited
unfolding start_listening
bind_fails = refl
