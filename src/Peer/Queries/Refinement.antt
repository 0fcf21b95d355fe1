-- ===== src/Peer/Queries/Refinement.antt =====
-- A query as a record, what a peer should do with it, and HandleQuery of src/peer_client.cpp on its text.
use p2p_file_sharing_system.Prelude.{
  ◌≡◌, ◌≢◌, [], ◌∷◌, ◌++◌, arith, ℤ, pos, ◌-ℤ◌, leb_ℤ, if◌then◌else◌,
}
use p2p_file_sharing_system.Result.{Result, ok}
use p2p_file_sharing_system.Text.{Bytes, Lacks, newline}
use p2p_file_sharing_system.Text.Number.{int_limit}
use p2p_file_sharing_system.Text.Number.RoundTrip.{Fits, stoi-to_string}
use p2p_file_sharing_system.Text.Split.{join_string}
use p2p_file_sharing_system.Ids.{PeerId, MessageId, delim, peer_msg_query}
use p2p_file_sharing_system.Peer.{
  Peer, has_file, is_query_cached, cache_query, relay_query, relay_query_hit,
}
use p2p_file_sharing_system.Peer.Wire.{header_vec, create_query_hit_message}
use p2p_file_sharing_system.Peer.Wire.Fields.{
  decrement_lem, FitsId, CanDecrement, read_message_id-header, split_string-header,
}
use p2p_file_sharing_system.Peer.Queries.{handle_query}

pub record Query : Type 0 where
  pub id : MessageId
  pub ttl : ℤ
  pub upstream : PeerId
  pub filename : Bytes

pub record IsWellFormed (q : Query) : Type 0 where
  pub id_fits : FitsId q.id
  pub ttl_fits : CanDecrement q.ttl
  pub upstream_fits : Fits int_limit q.upstream
  pub named : q.filename ≢ []
  pub one_line : Lacks newline q.filename

unfoldable pub encode_query : Query → Bytes
encode_query q =
    join_string (header_vec peer_msg_query q.id q.ttl q.upstream ++ q.filename ∷ []) delim

-- The query that a peer hands to its neighbours.
unfoldable pub forwarded : Peer → Query → Query
forwarded s q = record q { ttl = q.ttl -ℤ pos 1; upstream = s.peer_id }

-- A query that was seen before is dropped. A new one is cached with its upstream, and then answered,
-- dropped at the end of its life, or handed on.
unfoldable pub receive_query : Query → Peer → Result Peer
unfolding forwarded
receive_query q s =
    let s₁ = cache_query s q.id q.upstream in
    let (hit, s₂) = create_query_hit_message q.filename q.id s₁ in
    if is_query_cached s q.id
    then ok s
    else if has_file s₁ q.filename
    then relay_query_hit s₂ hit q.id
    else if leb_ℤ q.ttl (pos 1)
    then ok s₁
    else ok (relay_query s₁ (encode_query (forwarded s₁ q)) q.upstream)

-- HandleQuery, given the text of a well-formed query, does what a peer should do with the query.
pub handle_query-encode_query :
    (q : Query) (s : Peer) → IsWellFormed q → handle_query (encode_query q) s ≡ receive_query q s
unfolding handle_query receive_query encode_query forwarded
handle_query-encode_query q s wf =
    rw
      (
        split_string-header peer_msg_query q.id q.ttl q.upstream q.filename [] (omega arith)
            (wf.one_line, tt) wf.named,
        read_message_id-header peer_msg_query q.id q.ttl q.upstream (q.filename ∷ []) wf.id_fits,
      )
      (unfold header_vec in
        rw
          (
            stoi-to_string q.upstream wf.upstream_fits,
            stoi-to_string q.ttl wf.ttl_fits.0,
            decrement_lem q.ttl wf.ttl_fits,
          )
          (ground arith))
