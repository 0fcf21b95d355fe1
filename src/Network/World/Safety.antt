-- ===== src/Network/World/Safety.antt =====
-- No round of a thread of src/peer_client.cpp or src/peer_server.cpp ends in a fault in a network whose
-- peers ask each other for files.
use mathlib.Core.Path.{subst}
use p2p_file_sharing_system.Prelude.{
  pos, ℕ, ◌<◌, ◌≡◌, ◌≢◌, refl, sym, ◌∙◌, true, false, Bool-cases, inl, inr, some, List, [], ◌∷◌,
  All, All-middle, ◌==◌, ==_iff,
}
use p2p_file_sharing_system.Result.{Result, ok, OnOk_use}
use p2p_file_sharing_system.Text.{Bytes}
use p2p_file_sharing_system.Containers.{lookup, contains}
use p2p_file_sharing_system.Ids.{
  ClientRequest, get_file_server_port, MessageId, message_id_key, peer_id_key,
}
use p2p_file_sharing_system.Peer.{Peer}
use p2p_file_sharing_system.Network.World.{
  World, update, Net, IsNet, IsFresh, Round, Round.asks, Round.offers, Round.replicates,
  Round.waits, Round.maintains, Round.receives, Round.handles, Round.broadcasts, Round.refreshes,
  Reach, Reach.here, Reach.next,
}
use p2p_file_sharing_system.Network.World.Invariant.{Caches, Grows, Sent, IsSound, IsSound-Grows}
use p2p_file_sharing_system.Network.World.Goes.{Goes, along-Goes}
use p2p_file_sharing_system.Network.World.Rounds.{receive-Goes, handle-Goes}
use p2p_file_sharing_system.Network.World.Starting.{ask-Goes, offer-Goes, replicate-Goes}
use p2p_file_sharing_system.Network.World.Sending.{
  maintain-Goes, wait-Goes, refresh-Goes, broadcast_round-Goes,
}

abbrev caches : World → Caches
caches w n = (w n).queries

update_same : (w : World) (i j : ℕ) (t : Peer) → (i == j) ≡ true → update w i t j ≡ t
update_same w i j t e = rw e refl

update_other : (w : World) (i j : ℕ) (t : Peer) → (i == j) ≡ false → update w i t j ≡ w j
update_other w i j t e = rw e refl

abbrev Holds : MessageId → Peer → Type 0
Holds id u = contains id u.queries ≡ true

update-Grows :
    (w : World) (i : ℕ) (t : Peer)
    → ((id : MessageId) → Holds id (w i) → Holds id t)
    → Grows (caches w) (caches (update w i t))
update-Grows w i t keeps j id h = elim (Bool-cases (i == j)) [
  | inl e ↦
      subst (Holds id) (sym (update_same w i j t e))
        (keeps id (subst (λ k. Holds id (w k)) (sym ((==_iff i j).0 e)) h))
  | inr e ↦ subst (Holds id) (sym (update_other w i j t e)) h
]

lookup_of_empty :
    {V : Type 0} (id : MessageId) (v : V) (m : List (MessageId × V)) → m ≡ [] → lookup id m ≢ some v
unfolding lookup
lookup_of_empty id v [] e found = cc
lookup_of_empty id v (x ∷ m) e found = cc

abbrev AllSound : Net → World → Type 0
AllSound net w = (i : ℕ) → i < net.size → IsSound net (caches w) i (w i)

module _ (net : Net) (is_net : IsNet net) where
  Round-Goes :
      (w : World) (i : ℕ) (r : Result Peer)
      → AllSound net w
      → i < net.size
      → Round net w i r
      → Goes net (caches w) i (w i) r
  Round-Goes w i r sound lt (asks filename nameable e) =
      along-Goes net (caches w) i (w i) r _ e
        (ask-Goes net (caches w) i is_net lt filename (w i) nameable (sound i lt))
  Round-Goes w i r sound lt (offers filename out nameable e) =
      along-Goes net (caches w) i (w i) r _ e
        (offer-Goes net (caches w) i is_net lt filename out (w i) nameable (sound i lt))
  Round-Goes w i r sound lt (replicates filename out nameable wanted e) =
      along-Goes net (caches w) i (w i) r _ e
        (replicate-Goes net (caches w) i is_net lt filename out (w i) wanted nameable (sound i lt))
  Round-Goes w i r sound lt (waits id filename e) =
      along-Goes net (caches w) i (w i) r _ e
        (wait-Goes net (caches w) i is_net lt id filename (w i) (sound i lt))
  Round-Goes w i r sound lt (receives j fd b before after has socket sent e) =
      let s : Sent net (caches w) j fd b =
        All-middle (λ (e : ℕ × Bytes). Sent net (caches w) j e.0 e.1) before after (fd, b)
          (subst (All (λ (e : ℕ × Bytes). Sent net (caches w) j e.0 e.1)) sent
            (sound j has).wire) in
      along-Goes net (caches w) i (w i) r _ e (
        receive-Goes net (caches w) i is_net lt b s.message (w i) (sound i lt) s.through
          (s.comes i socket))
  Round-Goes w i r sound lt (handles e) =
      along-Goes net (caches w) i (w i) r _ e
        (handle-Goes net (caches w) i is_net lt (w i) (sound i lt) (λ id h. h))
  Round-Goes w i r sound lt (broadcasts e) =
      along-Goes net (caches w) i (w i) r _ e
        (broadcast_round-Goes net (caches w) i is_net lt (w i) (sound i lt))
  Round-Goes w i r sound lt (maintains few e) =
      along-Goes net (caches w) i (w i) r _ e
        (maintain-Goes net (caches w) i is_net lt (w i) few (sound i lt))
  Round-Goes w i r sound lt (refreshes entries e) =
      along-Goes net (caches w) i (w i) r _ e
        (refresh-Goes net (caches w) i is_net lt entries (w i) (sound i lt))

  Round-AllSound :
      (w : World) (i : ℕ) (t : Peer)
      → AllSound net w
      → i < net.size
      → Round net w i (ok t)
      → AllSound net (update w i t)
  Round-AllSound w i t sound lt round j has =
      let goes = Round-Goes w i (ok t) sound lt round in
      let same : goes.after ≡ t = OnOk_use (λ u. u ≡ t) (ok t) goes.runs refl in
      let c' = caches (update w i t) in
      let grows = update-Grows w i t (λ id h. subst (Holds id) same (goes.keeps id h)) in
      elim (Bool-cases (i == j)) [
        | inl e ↦
            let self : update w i t i ≡ t = update_same w i i t ((==_iff i i).1 refl) in
            let covered =
              λ (id : MessageId) (h : Holds id goes.after). subst (Holds id) (same ∙ sym self) h in
            subst (λ k. IsSound net c' k (update w i t k)) ((==_iff i j).0 e)
              (subst (IsSound net c' i) (same ∙ sym self) (goes.sound c' grows covered))
        | inr e ↦
            subst (IsSound net c' j) (sym (update_other w i j t e))
              (IsSound-Grows net (caches w) c' grows j (w j) (sound j has))
      ]

  Reach-AllSound : (w : World) {v : World} → AllSound net w → Reach net w v → AllSound net v
  Reach-AllSound w sound here = sound
  Reach-AllSound w sound (next {u} i t before lt round e) =
      subst (AllSound net) (sym e) (Round-AllSound u i t (Reach-AllSound w sound before) lt round)

  fresh-IsSound : (c : Caches) (i : ℕ) (s : Peer) → IsFresh net i s → IsSound net c i s
  fresh-IsSound c i s fresh = record {
    self = fresh.self;
    wired = fresh.wired;
    addressed = fresh.addressed;
    timed = fresh.timed;
    counted = fresh.counted;
    factored = fresh.factored;
    honest = (
      λ id results found.
          absurd (lookup_of_empty id results s.query_hit_result fresh.no_results found),
      rw fresh.no_requests tt,
    );
    known = λ id up found. absurd (lookup_of_empty id up s.queries fresh.no_queries found);
    inbox = rw fresh.no_messages tt;
    outbox = rw fresh.no_broadcasts tt;
    wire = rw fresh.none_sent tt;
  }

-- In every world that rounds without a fault lead to from peers that are connected and have done
-- nothing else, no round ends in a fault, in whatever order the rounds of all the peers come and the
-- buffers arrive. The rounds, each taken as one step, so that races between threads are not spoken of, are
-- SendQuery, SendInvQuery and SetWaitQueryHit, whichever files the user names, ReplicateFile where the
-- factor of the peer is at least two, DealWithRequest of a buffer that a neighbour sent, a turn of the
-- message thread, of the broadcast thread and of the thread that clears the caches, and UpdateFileInfo;
-- ReplicateFile with a smaller factor, which may read an id that was never set, is none of them, and
-- neither is a transfer of a file. The names fit a message. The neighbours are mutual, with one socket for each, the address of a peer is
-- one line of one to 15 bytes, none of them zero, and the ids leave room for the ports. No test
-- command is given, and no round clears a cache, which is for one of 120000 queries or more.
pub no_reachable_fault :
    (net : Net) (w v : World) (i : ℕ) (r : Result Peer)
    → IsNet net
    → ((j : ℕ) → j < net.size → IsFresh net j (w j))
    → Reach net w v
    → i < net.size
    → Round net v i r
    → (t : Peer) × (r ≡ ok t)
no_reachable_fault net w v i r is_net fresh reach lt round =
    let sound =
      Reach-AllSound net is_net w
        (λ j has. fresh-IsSound net is_net (caches w) j (w j) (fresh j has)) reach in
    let goes = Round-Goes net is_net v i r sound lt round in (goes.after, goes.runs)

-- In every world that rounds without a fault lead to from peers that are connected and have done
-- nothing else, each download and each push that a peer has queued names a peer of the network: it goes
-- to that peer's own address, and to its port for files. The names that are asked for fit a message, and
-- ReplicateFile runs as a whole only where the factor is at least two.
-- The neighbours are mutual, with one socket for each, the address of a peer is
-- one line of one to 15 bytes, none of them zero, and the ids leave room for the ports. No test
-- command is given, and no round clears a cache, which is for one of 120000 queries or more.
pub requests_go_to_peers :
    (net : Net) (w v : World) (i : ℕ)
    → IsNet net
    → ((j : ℕ) → j < net.size → IsFresh net j (w j))
    → Reach net w v
    → i < net.size
    → All
        (λ (r : ClientRequest).
          (n : ℕ) × (n < net.size)
          × (r.ip ≡ net.ips n)
          × (get_file_server_port (pos n) ≡ ok r.port))
        (v i).requests
requests_go_to_peers net w v i is_net fresh reach lt =
    (Reach-AllSound net is_net w
      (λ j has. fresh-IsSound net is_net (caches w) j (w j) (fresh j has)) reach i lt).honest.1
