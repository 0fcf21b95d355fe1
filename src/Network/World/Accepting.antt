-- ===== src/Network/World/Accepting.antt =====
-- A hit for a query of the peer's own, in a network: HandleWaitQueryHit of src/peer_client.cpp and the
-- transfers that it starts.
use mathlib.Core.Path.{subst}
use p2p_file_sharing_system.Prelude.{
  All-append, ℕ, ◌+◌, ◌-ℤ◌, ◌≡◌, refl, sym, ap, ◌∙◌, Bool-cases, if_both, Option-cases, inl, inr,
  some, List, [], ◌∷◌, ◌++◌, ℤ, pos, leb_ℤ,
}
use p2p_file_sharing_system.Result.{Result, ok}
use p2p_file_sharing_system.Text.{Bytes, bytes_eq}
use p2p_file_sharing_system.Containers.{insert, lookup, erase}
use p2p_file_sharing_system.Containers.Laws.{lookup-insert}
use p2p_file_sharing_system.Ids.{
  ClientRequest, same_id, MessageId, QueryResult, message_id_key, peer_id_key, same_id_refl,
  peer_msg_query_hit, peer_msg_inv_query_hit, PeerServerInfo, get_file_server_port,
}
use p2p_file_sharing_system.Peer.{
  Peer, has_file, get_timestamp, start_file_transfer, start_push_file,
}
use p2p_file_sharing_system.Peer.Hits.{add_result, use_results, push_to_results}
use p2p_file_sharing_system.Peer.Hits.Refinement.{Hit, accept_hit}
use p2p_file_sharing_system.Peer.Hits.Transfer.{
  remembered, remembered_fields, result_of, accept_hit_not_waiting, wait_over,
}
use p2p_file_sharing_system.Network.World.{Net}
use p2p_file_sharing_system.Network.World.Invariant.{IsServer, Servers, IsHonest}
use p2p_file_sharing_system.Network.World.Goes.{IsSame}

-- A peer that sends on and knows what another does, with transfers between peers of the network alone.
abbrev Same : Net → Peer → Peer → Type 0
Same net s t = IsSame s t × IsHonest net t

-- A result without a fault.
abbrev pub Takes : Net → Peer → Result Peer → Type 0
Takes net s r = (t : Peer) × (r ≡ ok t) × Same net s t

inserted-Servers :
    (net : Net) (id j : MessageId) (rs qs : List QueryResult) (s : Peer)
    → IsHonest net s
    → Servers net rs
    → lookup j (insert id rs s.query_hit_result) ≡ some qs
    → Servers net qs
inserted-Servers net id j rs qs s honest servers found = elim (Bool-cases (same_id id j)) [
  | inl e ↦
      let met : some rs ≡ some qs =
        sym (lookup-insert id j rs s.query_hit_result ∙ rw e refl) ∙ found in
      subst (Servers net) (cc) servers
  | inr e ↦ honest.0 j qs (sym (lookup-insert id j rs s.query_hit_result ∙ rw e refl) ∙ found)
]

-- The results under the id of a hit, once it is remembered, are some.
abbrev Filled : Net → Hit → Peer → Type 0
Filled net h u =
    (x : QueryResult) × (xs : List QueryResult) × (lookup h.id u.query_hit_result ≡ some (x ∷ xs))
    × Servers net (x ∷ xs)

module _ (net : Net) (h : Hit) (port : ℤ) (s : Peer) (server : IsServer net h.ip port)
    (honest : IsHonest net s) where
  remembered-Same : Same net s (remembered h port s)
  unfolding remembered add_result get_timestamp
  remembered-Same = elim (Option-cases (lookup h.id s.query_hit_result)) [
    | inl e ↦
        rw (add_result, e)
          (
            refl,
            (
              λ j qs found.
                  inserted-Servers net h.id j (result_of h port s ∷ []) qs s honest (server, tt)
                    found,
              honest.1,
            ),
          )
    | inr (results, e) ↦
        rw (add_result, e)
          (
            refl,
            (
              λ j qs found.
                  inserted-Servers net h.id j (results ++ result_of h port s ∷ []) qs s honest
                    (All-append _ results (result_of h port s ∷ []) (honest.0 h.id results e)
                      (server, tt))
                    found,
              honest.1,
            ),
          )
  ]

filled :
    (net : Net) (h : Hit) (rs : List QueryResult) (x : QueryResult) (u : Peer)
    → lookup h.id u.query_hit_result ≡ some (rs ++ x ∷ [])
    → IsHonest net u
    → Filled net h u
filled net h [] x u found honest = (x, [], found, honest.0 h.id (x ∷ []) found)
filled net h (r ∷ rs) x u found honest =
    (r, rs ++ x ∷ [], found, honest.0 h.id (r ∷ (rs ++ x ∷ [])) found)

add_result_last :
    (id : MessageId) (x : QueryResult) (s : Peer)
    → (rs : List QueryResult) × (lookup id (add_result id x s).query_hit_result
        ≡ some (rs ++ x ∷ []))
unfolding add_result
add_result_last id x s = elim (Option-cases (lookup id s.query_hit_result)) [
  | inl e ↦ (
    [],
    rw (add_result, e)
        (lookup-insert id id (x ∷ []) s.query_hit_result ∙ rw (same_id_refl id) refl),
  )
  | inr (rs, e) ↦ (
    rs,
    rw (add_result, e)
        (lookup-insert id id (rs ++ x ∷ []) s.query_hit_result ∙ rw (same_id_refl id) refl),
  )
]

module _ (net : Net) (s : Peer) where
  -- One more transfer, with a peer of the network.
  request-Same :
      (r : ClientRequest) (u : Peer)
      → IsServer net r.ip r.port
      → Same net s u
      → Same net s (record u { requests = u.requests ++ r ∷ [] })
  request-Same r u server (same, (results, requests)) =
      (same, (results, All-append _ u.requests (r ∷ []) requests (server, tt)))

  push-Same :
      (filename : Bytes) (server : PeerServerInfo) (u : Peer)
      → IsServer net server.ip server.port
      → Same net s u
      → Same net s (start_push_file u filename server)
  unfolding start_push_file
  push-Same filename server u is_server same =
      if_both (Same net s) (has_file u filename) _ u (request-Same _ u is_server same) same

  pushes-Same :
      (filename : Bytes) (elems : List QueryResult) (count : ℕ) (u : Peer)
      → Servers net elems
      → Same net s u
      → Same net s (push_to_results u filename elems count)
  unfolding push_to_results
  pushes-Same filename [] count u servers same = same
  pushes-Same filename (x ∷ elems) count u (server, servers) same =
      if_both (Same net s) (leb_ℤ (u.replication_factor -ℤ pos 1) (pos count)) u _ same (
        pushes-Same filename elems (count + 1) _ servers
          (push-Same filename x.server_info u server same))

  -- Results that are there are used without a fault.
  use_results-Takes :
      (msg_type filename : Bytes) (x : QueryResult) (xs : List QueryResult) (u : Peer)
      → Servers net (x ∷ xs)
      → Same net s u
      → Takes net s (use_results u msg_type filename (x ∷ xs))
  unfolding use_results start_file_transfer
  use_results-Takes msg_type filename x xs u servers same =
      if_both (Takes net s) (bytes_eq msg_type peer_msg_query_hit) _ _
        (start_file_transfer u filename x.server_info, refl, request-Same _ u servers.0 same)
        (if_both (Takes net s) (bytes_eq msg_type peer_msg_inv_query_hit) _ _
          (
            push_to_results u filename (x ∷ xs) 0,
            refl,
            pushes-Same filename (x ∷ xs) 0 u servers same,
          )
          (u, refl, same))

-- The peer that asked takes every hit that it is given.
pub accept_hit-Takes :
    (net : Net) (h : Hit) (port : ℤ) (s : Peer)
    → get_file_server_port h.originator ≡ ok port
    → IsServer net h.ip port
    → IsHonest net s
    → Takes net s (accept_hit h s)
unfolding accept_hit remembered get_timestamp
accept_hit-Takes net h port s has_port server honest =
    let u = remembered h port s in
    let same = remembered-Same net h port s server honest in
    let (rs, last) = add_result_last h.id (result_of h port s) (get_timestamp s).1 in
    let (x, xs, held, servers) = filled net h rs (result_of h port s) u last same.1 in
    elim (Option-cases (lookup h.id u.wait_queryhit)) [
      | inl idle ↦ (
        u,
        accept_hit_not_waiting h s port has_port
            (sym (ap (lookup h.id) (remembered_fields h port s).1) ∙ idle),
        same,
      )
      | inr (filename, waits) ↦
          let (t, used, t_same) =
            use_results-Takes net s h.msg_type filename x xs
              (record u { wait_queryhit = erase h.id u.wait_queryhit }) servers same in
          (t, rw has_port (wait_over h.msg_type h.id u filename (x ∷ xs) waits held ∙ used), t_same)
    ]
