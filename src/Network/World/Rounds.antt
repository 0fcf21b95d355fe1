-- ===== src/Network/World/Rounds.antt =====
-- The rounds of the threads of src/peer_client.cpp at a peer in a network.
use mathlib.Core.Path.{subst}
use p2p_file_sharing_system.Prelude.{
  ℕ, ◌<◌, ◌≡◌, refl, ap, ◌∙◌, true, Bool-cases, inl, inr, List, [], ◌∷◌, ◌++◌, All, All-append,
  if◌then◌else◌, length, ◌==◌,
}
use p2p_file_sharing_system.Result.{ok}
use p2p_file_sharing_system.Text.{Bytes, bytes_eq}
use p2p_file_sharing_system.Text.Split.{join_string}
use p2p_file_sharing_system.Containers.{contains}
use p2p_file_sharing_system.Ids.{MessageId, message_id_key, peer_id_key}
use p2p_file_sharing_system.Peer.{Peer}
use p2p_file_sharing_system.Peer.Wire.{header_vec}
use p2p_file_sharing_system.Peer.Queries.Refinement.{receive_query}
use p2p_file_sharing_system.Peer.Queries.Replication.{
  InvQuery, IsWellFormed as IsWellFormedInv, encode_inv_query, receive_inv_query,
  handle_inv_query-encode_inv_query,
}
use p2p_file_sharing_system.Peer.Hits.Refinement.{receive_hit}
use p2p_file_sharing_system.Peer.Threads.{
  dispatch, command_of, deal_with_request, handle_message_round, push_message,
}
use p2p_file_sharing_system.Network.Hop.{Passes, dispatch-query}
use p2p_file_sharing_system.Network.World.{Net, IsNet}
use p2p_file_sharing_system.Network.World.Invariant.{
  Caches, Knows, Comes, Comes.query, Comes.inv_query, Comes.hit, IsSound, IsSound-Grows,
}
use p2p_file_sharing_system.Network.World.Goes.{Goes, idle-Goes, along-Goes, onward-Goes}
use p2p_file_sharing_system.Network.World.Hits.{dispatch-answer, receive_hit-Goes}
use p2p_file_sharing_system.Network.World.Queries.{receive_query-Goes}
use p2p_file_sharing_system.Network.World.InvQueries.{receive_inv_query-Goes}

received :
    (b m : Bytes) (s : Peer)
    → Passes m b
    → deal_with_request b s ≡ ok (if length m == 0 then s else push_message m s)
unfolding deal_with_request
received b m s through = rw through.read refl

dispatch-inv_query :
    (q : InvQuery) (s : Peer)
    → IsWellFormedInv q
    → dispatch (encode_inv_query q) s ≡ receive_inv_query q s
unfolding dispatch command_of encode_inv_query header_vec join_string bytes_eq
dispatch-inv_query q s wf = handle_inv_query-encode_inv_query q s wf

module _ (net : Net) (c : Caches) (i : ℕ) (is_net : IsNet net) (lt : i < net.size) where
  pushed-IsSound :
      (m : Bytes) (s : Peer)
      → IsSound net c i s
      → Comes net c i m
      → IsSound net c i (record s { messages_queue = s.messages_queue ++ m ∷ [] })
  pushed-IsSound m s sound comes = record {
    self = sound.self;
    wired = sound.wired;
    addressed = sound.addressed;
    timed = sound.timed;
    counted = sound.counted;
    factored = sound.factored;
    honest = sound.honest;
    known = sound.known;
    inbox = All-append _ s.messages_queue (m ∷ []) sound.inbox (comes, tt);
    outbox = sound.outbox;
    wire = sound.wire;
  }

  pub receive-Goes :
      (b m : Bytes) (s : Peer)
      → IsSound net c i s
      → Passes m b
      → Comes net c i m
      → Goes net c i s (deal_with_request b s)
  receive-Goes b m s sound through comes = elim (Bool-cases (length m == 0)) [
    | inl empty ↦
        along-Goes net c i s _ (ok s) (received b m s through ∙ rw empty refl)
          (idle-Goes net c i s sound)
    | inr filled ↦
        along-Goes net c i s _ (ok (push_message m s)) (received b m s through ∙ rw filled refl)
          (record {
            after = push_message m s;
            runs = refl;
            keeps = unfold push_message in λ id h. h;
            sound =
                unfold push_message in
                λ c' grows covered.
                  IsSound-Grows net c c' grows i _ (pushed-IsSound m s sound comes);
          })
  ]

  taken-IsSound :
      (m : Bytes) (ms : List Bytes) (s : Peer)
      → IsSound net c i s
      → s.messages_queue ≡ m ∷ ms
      → Comes net c i m × IsSound net c i (record s { messages_queue = ms })
  taken-IsSound m ms s sound e =
      let queue : Comes net c i m × All (Comes net c i) ms =
        subst (All (Comes net c i)) e sound.inbox in
      (
        queue.0,
        record {
          self = sound.self;
          wired = sound.wired;
          addressed = sound.addressed;
          timed = sound.timed;
          counted = sound.counted;
          factored = sound.factored;
          honest = sound.honest;
          known = sound.known;
          inbox = queue.1;
          outbox = sound.outbox;
          wire = sound.wire;
        },
      )

  dispatch-Goes :
      (m : Bytes) (s : Peer)
      → IsSound net c i s
      → ((id : MessageId) → Knows c i id → contains id s.queries ≡ true)
      → Comes net c i m
      → Goes net c i s (dispatch m s)
  dispatch-Goes m s sound mine (query q n fd e sendable up socket knows) =
      along-Goes net c i s _ (receive_query q s)
        (ap (λ t. dispatch t s) e ∙ dispatch-query q s sendable.wf)
        (receive_query-Goes net c i is_net lt q n fd s sound sendable up socket knows)
  dispatch-Goes m s sound mine (inv_query q n fd e sendable up socket knows) =
      along-Goes net c i s _ (receive_inv_query q s)
        (ap (λ t. dispatch t s) e ∙ dispatch-inv_query q s sendable.wf)
        (receive_inv_query-Goes net c i is_net lt q n fd s sound sendable up socket knows)
  dispatch-Goes m s sound mine (hit h e sendable knows) =
      along-Goes net c i s _ (receive_hit h s)
        (ap (λ t. dispatch t s) e ∙ dispatch-answer h s sendable.answer sendable.wf)
        (receive_hit-Goes net c i h s is_net sound sendable (mine h.id knows))

  handle_queue-Goes :
      (queue : List Bytes) (s : Peer)
      → s.messages_queue ≡ queue
      → IsSound net c i s
      → ((id : MessageId) → Knows c i id → contains id s.queries ≡ true)
      → Goes net c i s (handle_message_round s)
  unfolding handle_message_round
  handle_queue-Goes [] s e sound mine =
      along-Goes net c i s _ (ok s) (rw e refl) (idle-Goes net c i s sound)
  handle_queue-Goes (m ∷ ms) s e sound mine =
      let (comes, sound') = taken-IsSound m ms s sound e in
      let u : Peer = record s { messages_queue = ms } in
      along-Goes net c i s _ (dispatch m u) (rw e refl)
        (onward-Goes net c i s u (dispatch m u) (λ id h. h) (dispatch-Goes m u sound' mine comes))

  pub handle-Goes :
      (s : Peer)
      → IsSound net c i s
      → ((id : MessageId) → Knows c i id → contains id s.queries ≡ true)
      → Goes net c i s (handle_message_round s)
  handle-Goes s sound mine = handle_queue-Goes s.messages_queue s refl sound mine
