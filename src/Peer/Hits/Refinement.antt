-- ===== src/Peer/Hits/Refinement.antt =====
-- A query hit as a record, what a peer should do with it, and HandleQueryHit of src/peer_client.cpp on
-- its text.
use p2p_file_sharing_system.Prelude.{
  ◌≡◌, List, ◌∷◌, ◌++◌, arith, ℤ, pos, leb_ℤ, eq_ℤ, if◌then◌else◌, All,
}
use p2p_file_sharing_system.Result.{Result, ok, ◌>>=◌}
use p2p_file_sharing_system.Text.{Bytes, Lacks, newline}
use p2p_file_sharing_system.Text.Number.{int_limit}
use p2p_file_sharing_system.Text.Number.RoundTrip.{Fits, stoi-to_string}
use p2p_file_sharing_system.Text.Split.{join_string}
use p2p_file_sharing_system.Text.Split.Join.{LastFilled}
use p2p_file_sharing_system.Ids.{PeerId, MessageId, PeerServerInfo, delim, get_file_server_port}
use p2p_file_sharing_system.Peer.{Peer, get_timestamp, is_query_cached, relay_query_hit}
use p2p_file_sharing_system.Peer.Wire.{header_vec}
use p2p_file_sharing_system.Peer.Wire.Fields.{
  FitsId, CanDecrement, decrement_lem, read_message_id-header, split_string-header,
}
use p2p_file_sharing_system.Peer.Hits.{
  handle_wait_query_hit, add_result, receive_own_hit, pass_hit_on, handle_query_hit,
}

-- `rest` is the name of the file in a query hit, and nothing in an inverse query hit.
pub record Hit : Type 0 where
  pub msg_type : Bytes
  pub id : MessageId
  pub ttl : ℤ
  pub originator : PeerId
  pub ip : Bytes
  pub rest : List Bytes

pub record IsWellFormed (h : Hit) : Type 0 where
  pub type_line : Lacks newline h.msg_type
  pub id_fits : FitsId h.id
  pub ttl_fits : CanDecrement h.ttl
  pub originator_fits : Fits int_limit h.originator
  pub lines : All (Lacks newline) (h.ip ∷ h.rest)
  pub filled : LastFilled (h.ip ∷ h.rest)

unfoldable pub hit_vec : Hit → List Bytes
hit_vec h = header_vec h.msg_type h.id h.ttl h.originator ++ h.ip ∷ h.rest

unfoldable pub encode_hit : Hit → Bytes
unfolding hit_vec
encode_hit h = join_string (hit_vec h) delim

-- The peer that asked remembers who answered and starts the operation that waits for the answer.
unfoldable pub accept_hit : Hit → Peer → Result Peer
accept_hit h s = do
  let (now, s') = get_timestamp s
  port ← get_file_server_port h.originator
  let server : PeerServerInfo = record { ip = h.ip; port = port }
  handle_wait_query_hit h.msg_type h.id
      (add_result h.id (record { server_info = server; timestamp = now }) s')

-- Another peer sends the same hit to its upstream, unless the time to live is over.
unfoldable pub receive_hit : Hit → Peer → Result Peer
unfolding accept_hit
receive_hit h s =
    if eq_ℤ h.id.peer_id s.peer_id
    then (if is_query_cached s h.id then accept_hit h s else ok s)
    else if leb_ℤ h.ttl (pos 1)
    then ok s
    else relay_query_hit s (encode_hit h) h.id

own_hit-header :
    (h : Hit) (s : Peer)
    → IsWellFormed h
    → receive_own_hit (hit_vec h) h.id s ≡ (if is_query_cached s h.id then accept_hit h s else ok s)
unfolding receive_own_hit hit_vec header_vec accept_hit
own_hit-header h s wf = rw (stoi-to_string h.originator wf.originator_fits) (ground arith)

pass_on-header :
    (h : Hit) (s : Peer)
    → IsWellFormed h
    → pass_hit_on (hit_vec h) h.id s
      ≡ (if leb_ℤ h.ttl (pos 1) then ok s else relay_query_hit s (encode_hit h) h.id)
unfolding pass_hit_on encode_hit header_vec
pass_on-header h s wf =
    rw (stoi-to_string h.ttl wf.ttl_fits.0, decrement_lem h.ttl wf.ttl_fits) (ground arith)

-- HandleQueryHit, given the text of a well-formed hit, does what a peer should do with the hit: in
-- particular it sends on the same text, its time to live included.
pub handle_query_hit-encode_hit :
    (h : Hit) (s : Peer) → IsWellFormed h → handle_query_hit (encode_hit h) s ≡ receive_hit h s
unfolding handle_query_hit encode_hit receive_hit
handle_query_hit-encode_hit h s wf =
    rw
      (
        split_string-header h.msg_type h.id h.ttl h.originator h.ip h.rest wf.type_line wf.lines
            wf.filled,
        read_message_id-header h.msg_type h.id h.ttl h.originator (h.ip ∷ h.rest) wf.id_fits,
      )
      (ground (arith, own_hit-header h s wf, pass_on-header h s wf))
