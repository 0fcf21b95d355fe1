-- ===== src/Network/World/Sending.antt =====
-- What a peer in a network sends: BroadcastProcessThread, and UpdateFileInfoPeriodically, of
-- src/peer_client.cpp.
use mathlib.Core.Path.{subst}
use p2p_file_sharing_system.Prelude.{
  arith, length, ℕ, ◌<◌, ◌≡◌, refl, Bool, if_both, some, List, [], ◌∷◌, ◌++◌, map, pos, All,
  All-append,
}
use p2p_file_sharing_system.Result.{ok}
use p2p_file_sharing_system.Text.{Bytes}
use p2p_file_sharing_system.Containers.{lookup}
use p2p_file_sharing_system.Ids.{PeerId, MessageId, message_id_key, peer_id_key}
use p2p_file_sharing_system.Peer.{Peer, set_wait_query_hit, member}
use p2p_file_sharing_system.Peer.Threads.{
  mantain_query_map_size, time_out_ms, broadcast_round, load_file_info, update_file_info,
}
use p2p_file_sharing_system.Peer.Threads.Broadcast.{others, broadcast_round_lem}
use p2p_file_sharing_system.Network.Hop.{broadcast_round-idle}
use p2p_file_sharing_system.Network.World.{Net, IsNet}
use p2p_file_sharing_system.Network.World.Invariant.{
  IsHonest, Caches, Leaves, Sent, IsSound, IsSound-Grows,
}
use p2p_file_sharing_system.Network.World.Goes.{Goes, IsSame, idle-Goes, same-Goes, along-Goes}

load_file_info-IsSame :
    (entries : List (Bool × Bytes)) (s u : Peer) → IsSame s u → IsSame s (load_file_info entries u)
unfolding load_file_info
load_file_info-IsSame [] s u same = same
load_file_info-IsSame ((is_dir, name) ∷ entries) s u same =
    load_file_info-IsSame entries s _
      (if_both (IsSame s) is_dir u _ same (if_both (IsSame s) (member name u.files) u _ same same))

update_file_info-IsSame :
    (entries : List (Bool × Bytes)) (s : Peer) → IsSame s (update_file_info entries s)
unfolding update_file_info
update_file_info-IsSame entries s =
    if_both (IsSame s) s.file_info_dirty _ s (load_file_info-IsSame entries s _ refl) refl

load_file_info-IsHonest :
    (net : Net) (entries : List (Bool × Bytes)) (u : Peer)
    → IsHonest net u
    → IsHonest net (load_file_info entries u)
unfolding load_file_info
load_file_info-IsHonest net [] u honest = honest
load_file_info-IsHonest net ((is_dir, name) ∷ entries) u honest =
    load_file_info-IsHonest net entries _ (
      if_both (IsHonest net) is_dir u _ honest
        (if_both (IsHonest net) (member name u.files) u _ honest honest))

update_file_info-IsHonest :
    (net : Net) (entries : List (Bool × Bytes)) (s : Peer)
    → IsHonest net s
    → IsHonest net (update_file_info entries s)
unfolding update_file_info
update_file_info-IsHonest net entries s honest =
    if_both (IsHonest net) s.file_info_dirty _ s (load_file_info-IsHonest net entries _ honest)
      honest

-- With few queries in the cache MantainQueryMapSize does nothing.
maintains_few : (s : Peer) → length s.queries < time_out_ms → mantain_query_map_size s ≡ ok s
unfolding mantain_query_map_size
maintains_few s few = ground arith

module _ (net : Net) (c : Caches) (i : ℕ) (is_net : IsNet net) (lt : i < net.size) where
  -- A message for the neighbours may come to the one at the end of any socket.
  everywhere-Sent :
      (m : Bytes) (l : Leaves net c i m) (fds : List ℕ)
      → All (λ (e : ℕ × Bytes). Sent net c i e.0 e.1) (map (λ fd. (fd, l.buffer)) fds)
  everywhere-Sent m l [] = tt
  everywhere-Sent m l (fd ∷ fds) = (
    record {
      message = m;
      through = l.through;
      comes = λ k socket.
          let (n, fd', e, back) = is_net.mutual_sockets i (pos k) fd socket in
          l.comes k fd' (subst (λ j. lookup (pos i) (net.sockets j) ≡ some fd') (cc) back);
    },
    everywhere-Sent m l fds,
  )

  broadcast_first-Goes :
      (m : Bytes) (l : Leaves net c i m) (exclude : PeerId) (rest : List (Bytes × PeerId))
      (s : Peer)
      → s.broadcast_queue ≡ (m, exclude) ∷ rest
      → IsSound net c i s
      → All (λ (e : Bytes × PeerId). Leaves net c i e.0) rest
      → Goes net c i s (broadcast_round s)
  broadcast_first-Goes m l exclude rest s e sound outbox =
      let t : Peer = record s {
        broadcast_queue = rest;
        sent = s.sent ++ map (λ fd. (fd, l.buffer)) (others exclude s.peer_id_to_sockfd);
      } in
      let sound' : IsSound net c i t = record {
        self = sound.self;
        wired = sound.wired;
        addressed = sound.addressed;
        timed = sound.timed;
        counted = sound.counted;
        factored = sound.factored;
        honest = sound.honest;
        known = sound.known;
        inbox = sound.inbox;
        outbox = outbox;
        wire =
            All-append _ s.sent _ sound.wire
              (everywhere-Sent m l (others exclude s.peer_id_to_sockfd));
      } in
      record {
        after = t;
        runs = broadcast_round_lem m exclude rest l.buffer s e l.through.filled;
        keeps = λ id h. h;
        sound = λ c' grows covered. IsSound-Grows net c c' grows i t sound';
      }

  broadcast_queue-Goes :
      (queue : List (Bytes × PeerId)) (s : Peer)
      → s.broadcast_queue ≡ queue
      → IsSound net c i s
      → Goes net c i s (broadcast_round s)
  broadcast_queue-Goes [] s e sound =
      along-Goes net c i s _ (ok s) (broadcast_round-idle s e) (idle-Goes net c i s sound)
  broadcast_queue-Goes ((m, exclude) ∷ rest) s e sound =
      let outbox : Leaves net c i m × All (λ (e : Bytes × PeerId). Leaves net c i e.0) rest =
        subst (All (λ (e : Bytes × PeerId). Leaves net c i e.0)) e sound.outbox in
      broadcast_first-Goes m outbox.0 exclude rest s e sound outbox.1

  pub broadcast_round-Goes : (s : Peer) → IsSound net c i s → Goes net c i s (broadcast_round s)
  broadcast_round-Goes s sound = broadcast_queue-Goes s.broadcast_queue s refl sound

  pub wait-Goes :
      (id : MessageId) (filename : Bytes) (s : Peer)
      → IsSound net c i s
      → Goes net c i s (ok (set_wait_query_hit s id filename))
  unfolding set_wait_query_hit
  wait-Goes id filename s sound = same-Goes net c i s _ refl sound.honest sound

  pub refresh-Goes :
      (entries : List (Bool × Bytes)) (s : Peer)
      → IsSound net c i s
      → Goes net c i s (ok (update_file_info entries s))
  refresh-Goes entries s sound =
      same-Goes net c i s _ (update_file_info-IsSame entries s)
        (update_file_info-IsHonest net entries s sound.honest) sound

  pub maintain-Goes :
      (s : Peer)
      → length s.queries < time_out_ms
      → IsSound net c i s
      → Goes net c i s (mantain_query_map_size s)
  maintain-Goes s few sound =
      along-Goes net c i s _ (ok s) (maintains_few s few) (idle-Goes net c i s sound)
