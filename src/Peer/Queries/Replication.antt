-- ===== src/Peer/Queries/Replication.antt =====
-- An inverse query as a record, what a peer should do with it, and HandleInvQuery of
-- src/peer_client.cpp on its text.
use p2p_file_sharing_system.Prelude.{
  ◌≡◌, ◌≢◌, refl, ap, sym, ◌∙◌, [], ◌∷◌, ◌++◌, arith, ℤ, pos, ◌-ℤ◌, leb_ℤ, ◌||◌, if◌then◌else◌,
}
use p2p_file_sharing_system.Result.{Result, ok, fault, invalid_argument, ◌>>=◌}
use p2p_file_sharing_system.Text.{Bytes, Lacks, newline}
use p2p_file_sharing_system.Text.Number.{int_limit, to_string, stoi}
use p2p_file_sharing_system.Text.Number.RoundTrip.{Fits, stoi-to_string, to_string-Lacks}
use p2p_file_sharing_system.Text.Split.{join_string}
use p2p_file_sharing_system.Ids.{PeerId, MessageId, delim, peer_msg_inv_query}
use p2p_file_sharing_system.Peer.{
  Peer, has_file, member, is_query_cached, cache_query, relay_query, relay_query_hit, at,
}
use p2p_file_sharing_system.Peer.Wire.{header_vec, create_inv_query_hit_message}
use p2p_file_sharing_system.Peer.Wire.Fields.{
  decrement_lem, FitsId, CanDecrement, read_message_id-header, split_string-header,
  decrease_ttl-header,
}
use p2p_file_sharing_system.Peer.Queries.{
  handle_inv_query, offer_to_hold, decrease_factor_and_relay, replicate_or_relay,
}

-- `factor` is how many copies are still wanted.
pub record InvQuery : Type 0 where
  pub id : MessageId
  pub ttl : ℤ
  pub upstream : PeerId
  pub filename : Bytes
  pub factor : ℤ

pub record IsWellFormed (q : InvQuery) : Type 0 where
  pub id_fits : FitsId q.id
  pub ttl_fits : CanDecrement q.ttl
  pub upstream_fits : Fits int_limit q.upstream
  pub factor_fits : CanDecrement q.factor
  pub one_line : Lacks newline q.filename

unfoldable pub encode_inv_query : InvQuery → Bytes
encode_inv_query q =
    join_string
      (header_vec peer_msg_inv_query q.id q.ttl q.upstream ++ q.filename ∷ to_string q.factor ∷ [])
      delim

-- What the neighbours are sent: one copy less is wanted, and one hop less is left.
unfoldable pub handed_on : Peer → InvQuery → InvQuery
handed_on s q = record q { ttl = q.ttl -ℤ pos 1; factor = q.factor -ℤ pos 1; upstream = s.peer_id }

-- A new inverse query is cached. One for a file that an inverse query named before ends here. For
-- another the peer offers to hold a copy if it has none, and hands the query on while copies are
-- wanted and hops are left, counting one copy less whether it made the offer or not.
unfoldable pub receive_inv_query : InvQuery → Peer → Result Peer
unfolding handed_on
receive_inv_query q s =
    let s₁ = cache_query s q.id q.upstream in
    let s₂ = record s₁ { replicate_query_filename = q.filename ∷ s₁.replicate_query_filename } in
    let (hit, s₃) = create_inv_query_hit_message q.filename q.id s₂ in
    if is_query_cached s q.id
    then ok s
    else if member q.filename s₁.replicate_query_filename
    then ok s₁
    else ((if has_file s₂ q.filename then ok s₂ else relay_query_hit s₃ hit q.id) >>= λ t. ok (
        if leb_ℤ q.factor (pos 1) || leb_ℤ q.ttl (pos 1)
        then t
        else relay_query t (encode_inv_query (handed_on t q)) q.upstream))

decrease_factor-header :
    (t : Peer) (q : InvQuery)
    → IsWellFormed q
    → decrease_factor_and_relay t
        (header_vec peer_msg_inv_query q.id q.ttl q.upstream
          ++ q.filename ∷ to_string q.factor ∷ [])
        q.upstream
        q.factor
      ≡ ok (
          if leb_ℤ q.factor (pos 1) || leb_ℤ q.ttl (pos 1)
          then t
          else relay_query t (encode_inv_query (handed_on t q)) q.upstream)
unfolding decrease_factor_and_relay header_vec encode_inv_query handed_on
decrease_factor-header t q wf =
    let relayed =
      decrease_ttl-header t peer_msg_inv_query q.id q.ttl q.upstream
        (q.filename ∷ to_string (q.factor -ℤ pos 1) ∷ []) q.upstream wf.ttl_fits in
    rw (decrement_lem q.factor wf.factor_fits) (ground (arith, relayed))

replicate_or_relay-header :
    (s : Peer) (q : InvQuery)
    → IsWellFormed q
    → replicate_or_relay s
        (header_vec peer_msg_inv_query q.id q.ttl q.upstream
          ++ q.filename ∷ to_string q.factor ∷ [])
        q.id
        q.upstream
      ≡ (if member q.filename s.replicate_query_filename
          then ok s
          else (offer_to_hold
                (record s { replicate_query_filename = q.filename ∷ s.replicate_query_filename })
                q.id
                q.filename
              >>= λ t. ok (
                  if leb_ℤ q.factor (pos 1) || leb_ℤ q.ttl (pos 1)
                  then t
                  else relay_query t (encode_inv_query (handed_on t q)) q.upstream)))
unfolding replicate_or_relay header_vec
replicate_or_relay-header s q wf =
    let s' = record s { replicate_query_filename = q.filename ∷ s.replicate_query_filename } in
    rw (stoi-to_string q.factor wf.factor_fits.0) (
      ap
        (λ (f : Peer → Result Peer).
          if member q.filename s.replicate_query_filename
          then ok s
          else (offer_to_hold s' q.id q.filename >>= f))
        (λ i t. decrease_factor-header t q wf i))

sender-header :
    (q : InvQuery)
    → at
        (header_vec peer_msg_inv_query q.id q.ttl q.upstream
          ++ q.filename ∷ to_string q.factor ∷ [])
        5
      ≡ ok (to_string q.upstream)
unfolding header_vec
sender-header q = refl

to_string-filled : (z : ℤ) → Fits int_limit z → to_string z ≢ []
unfolding stoi
to_string-filled z fits =
    λ e. let h : ok z ≡ fault invalid_argument = sym (stoi-to_string z fits) ∙ ap stoi e in cc

-- HandleInvQuery, given the text of a well-formed inverse query, does what a peer should do with it.
pub handle_inv_query-encode_inv_query :
    (q : InvQuery) (s : Peer)
    → IsWellFormed q
    → handle_inv_query (encode_inv_query q) s ≡ receive_inv_query q s
unfolding handle_inv_query receive_inv_query encode_inv_query offer_to_hold
handle_inv_query-encode_inv_query q s wf =
    rw
      (
        split_string-header peer_msg_inv_query q.id q.ttl q.upstream q.filename
            (to_string q.factor ∷ []) (omega arith) (wf.one_line, (to_string-Lacks q.factor, tt))
            (to_string-filled q.factor wf.factor_fits.0),
        read_message_id-header peer_msg_inv_query q.id q.ttl q.upstream
            (q.filename ∷ to_string q.factor ∷ []) wf.id_fits,
        sender-header q,
        stoi-to_string q.upstream wf.upstream_fits,
        replicate_or_relay-header (cache_query s q.id q.upstream) q wf,
      )
      refl
