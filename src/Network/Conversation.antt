-- ===== src/Network/Conversation.antt =====
-- A query that passes down a row of peers, and the answer that passes up again: src/peer_client.cpp.
use mathlib.Core.Path.{subst}
use p2p_file_sharing_system.Prelude.{
  ℕ, zero, suc, ◌<◌, ◌≤◌, ◌≡◌, refl, sym, ap, ◌∙◌, true, false, some, List, [], ◌∷◌, ◌++◌, arith, ℤ,
  pos, ◌-ℤ◌, leb_ℤ, eq_ℤ, length, inl,
}
use p2p_file_sharing_system.Result.{ok}
use p2p_file_sharing_system.Text.{Bytes, Lacks, newline}
use p2p_file_sharing_system.Text.Number.{int_limit, to_string}
use p2p_file_sharing_system.Text.Number.RoundTrip.{Fits, to_string-Lacks_other, format-Lacks_other}
use p2p_file_sharing_system.Text.Split.Join.{join_string-Lacks}
use p2p_file_sharing_system.Containers.{lookup, insert}
use p2p_file_sharing_system.Containers.Laws.{lookup-insert}
use p2p_file_sharing_system.Ids.{PeerId, MessageId, message_id_key, peer_id_key, same_id_refl}
use p2p_file_sharing_system.Peer.{Peer, has_file, is_query_cached}
use p2p_file_sharing_system.Peer.Wire.{header_vec}
use p2p_file_sharing_system.Peer.Wire.Fields.{CanDecrement}
use p2p_file_sharing_system.Peer.Wire.Bounds.{length-encode_query}
use p2p_file_sharing_system.Peer.Queries.Refinement.{Query, IsWellFormed, encode_query, forwarded}
use p2p_file_sharing_system.Peer.Hits.Refinement.{IsWellFormed as IsWellFormedHit, encode_hit}
use p2p_file_sharing_system.Network.{to_peer, next_of, converse}
use p2p_file_sharing_system.Network.Sockets.{
  sent_on-append, sent_on-one, sent_on-others, to_peer-sent,
}
use p2p_file_sharing_system.Network.Hop.{
  Passes, passes, IsIdle, query_hit, relayed, hop-relay, hop-back, hop-answer,
}

pub encode_query-Lacks : (q : Query) → Lacks 0 q.filename → Lacks 0 (encode_query q)
unfolding encode_query header_vec
encode_query-Lacks q h =
    let digits : (z : ℤ) → Lacks 0 (to_string z) =
      to_string-Lacks_other 0 (omega arith, inl (omega arith)) in
    join_string-Lacks 0 newline _ (omega arith) (
      omega arith,
      (
        digits q.id.peer_id,
        (
          format-Lacks_other 0 (omega arith, inl (omega arith)) q.id.msg_id,
          (digits q.id.timestamp, (digits q.ttl, (digits q.upstream, (h, tt)))),
        ),
      ),
    )

-- A peer between two others that has nothing else to do, has not seen the query, lacks the file, and is
-- not the one that asked.
pub record IsRelay (id : MessageId) (filename : Bytes) (prev next : PeerId) (s : Peer)
    : Type 0 where
  pub idle : IsIdle s
  pub new : is_query_cached s id ≡ false
  pub lacks : has_file s filename ≡ false
  pub up : ℕ
  pub up_socket : lookup prev s.peer_id_to_sockfd ≡ some up
  pub down : ℕ
  pub down_socket : lookup next s.peer_id_to_sockfd ≡ some down
  pub apart : eq_ℤ prev next ≡ false
  pub foreign : eq_ℤ id.peer_id s.peer_id ≡ false
  pub fits : Fits int_limit s.peer_id

-- The last peer of a row, which has the file and knows its own address.
pub record IsHolder (id : MessageId) (filename ip : Bytes) (prev : PeerId) (s : Peer) : Type 0 where
  pub idle : IsIdle s
  pub new : is_query_cached s id ≡ false
  pub has : has_file s filename ≡ true
  pub own_ip : lookup s.peer_id s.peer_id_to_ip ≡ some ip
  pub up : ℕ
  pub up_socket : lookup prev s.peer_id_to_sockfd ≡ some up

-- A row of relays behind the peer `prev`, the holder at its end.
abbrev pub Row : MessageId → Bytes → Bytes → Peer → PeerId → List Peer → Type 0
Row id filename ip holder prev [] = IsHolder id filename ip prev holder
Row id filename ip holder prev (s ∷ relays) =
    IsRelay id filename prev (next_of relays holder) s × Row id filename ip holder s.peer_id relays

pub counted_down : (z : ℤ) (n : ℕ) → z ≡ pos (suc n) → z -ℤ pos 1 ≡ pos n
counted_down z n e = ap (λ y. y -ℤ pos 1) e ∙ ground arith

pub forwarded-IsWellFormed :
    (q : Query) (s : Peer) (n : ℕ)
    → IsWellFormed q
    → q.ttl ≡ pos (suc n)
    → Fits int_limit s.peer_id
    → IsWellFormed (forwarded s q)
unfolding forwarded
forwarded-IsWellFormed q s n wf ttl fits = record {
  id_fits = wf.id_fits;
  ttl_fits =
      subst CanDecrement (sym (counted_down q.ttl n ttl))
        (omega (arith, subst (Fits int_limit) ttl wf.ttl_fits.0), λ e. cc);
  upstream_fits = fits;
  named = wf.named;
  one_line = wf.one_line;
}

pub encode_query-Passes :
    (q : Query)
    → IsWellFormed q
    → Lacks 0 q.filename
    → length q.filename ≤ 900
    → (b : Bytes) × Passes (encode_query q) b
encode_query-Passes q wf no_zero short =
    passes (encode_query q) (encode_query-Lacks q no_zero) (length-encode_query q wf short)

pub converse-Row :
    (relays : List Peer) (q : Query) (holder : Peer) (ip : Bytes) (n : ℕ) (b answer : Bytes)
    → IsWellFormed q
    → Lacks 0 q.filename
    → length q.filename ≤ 900
    → q.ttl ≡ pos n
    → length relays < n
    → Row q.id q.filename ip holder q.upstream relays
    → IsWellFormedHit (query_hit q.id holder.peer_id ip q.filename)
    → Passes (encode_hit (query_hit q.id holder.peer_id ip q.filename)) answer
    → Passes (encode_query q) b
    → (relays' : List Peer) × (holder' : Peer) × (converse q.upstream relays holder b
        ≡ ok (relays', holder', answer))
unfolding converse forwarded
converse-Row [] q holder ip n b answer wf no_zero short ttl hops row hit_wf back through =
    let t : Peer = record holder {
      messages_queue = [];
      queries = insert q.id q.upstream holder.queries;
      sent = holder.sent ++ (row.up, answer) ∷ [];
    } in
    let answers =
      hop-answer q b answer ip row.up holder wf through back row.idle row.new row.has row.own_ip
        row.up_socket in
    let gets : to_peer q.upstream t ≡ ok answer =
      to_peer-sent q.upstream row.up answer t row.up_socket (
        sent_on-append row.up answer holder.sent ((row.up, answer) ∷ [])
          (sent_on-one row.up answer)) in
    ([], t, rw (answers, gets) refl)
converse-Row (s ∷ relays) q holder ip zero b answer wf no_zero short ttl hops row hit_wf back
      through =
    absurd (omega arith)
converse-Row (s ∷ relays) q holder ip (suc n) b answer wf no_zero short ttl hops (relay, row) hit_wf
      back through =
    let next = next_of relays holder in
    let q' = forwarded s q in
    let wf' = forwarded-IsWellFormed q s n wf ttl relay.fits in
    let (b', onward) = encode_query-Passes q' wf' no_zero short in
    let t = relayed q b' s in
    let t' : Peer = record t { messages_queue = []; sent = t.sent ++ (relay.up, answer) ∷ [] } in
    let alive : leb_ℤ q.ttl (pos 1) ≡ false = ap (λ z. leb_ℤ z (pos 1)) ttl ∙ ground arith in
    let relays_it = hop-relay q b b' s wf through onward relay.idle relay.new relay.lacks alive in
    let forward : to_peer next t ≡ ok b' = to_peer-sent next relay.down b' t relay.down_socket (
      sent_on-append relay.down b' s.sent _ (
        sent_on-others next q.upstream relay.down b' s.peer_id_to_sockfd relay.down_socket
          relay.apart)) in
    let (relays', holder', rest) =
      converse-Row relays q' holder ip n b' answer wf' no_zero short (counted_down q.ttl n ttl)
        (omega arith) row hit_wf back onward in
    let cached : lookup q.id t.queries ≡ some q.upstream =
      lookup-insert q.id q.id q.upstream s.queries ∙ rw (same_id_refl q.id) refl in
    let returns =
      hop-back q.id holder.peer_id ip q.filename answer q.upstream relay.up t hit_wf back
        (record { no_messages = refl; no_broadcasts = refl }) relay.foreign cached
        relay.up_socket in
    let gets : to_peer q.upstream t' ≡ ok answer =
      to_peer-sent q.upstream relay.up answer t' relay.up_socket (
        sent_on-append relay.up answer t.sent ((relay.up, answer) ∷ [])
          (sent_on-one relay.up answer)) in
    (t' ∷ relays', holder', rw (relays_it, forward, rest, returns, gets) refl)
