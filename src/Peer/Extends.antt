-- ===== src/Peer/Extends.antt =====
-- How the state of a peer before a handler of src/peer_client.cpp relates to the state behind it.
pub mod Queries
pub mod Operations
pub mod Messages
pub mod Once
use p2p_file_sharing_system.Prelude.{
  ◌≡◌, refl, ap, ◌∙◌, Bool, true, false, ◌||◌, Option, none, some, List, ℤ, pos, ℕ, arith,
  if◌then◌else◌, Option-cases, Bool-cases, ◌⊎◌, inl, inr,
}
use p2p_file_sharing_system.Result.{
  Result, ok, OnOk, OnOk->>=, OnOk-map, fault, ◌>>=◌, or_fault, assert_failed,
}
use p2p_file_sharing_system.Buffer.{fill_buffer}
use p2p_file_sharing_system.Text.{Bytes}
use p2p_file_sharing_system.Containers.{lookup, insert, contains, index}
use p2p_file_sharing_system.Containers.Laws.{lookup-insert_new, lookup-index}
use p2p_file_sharing_system.Ids.{MessageId, PeerId, message_id_key, peer_id_key}
use p2p_file_sharing_system.Peer.Wire.{own_ip}
use p2p_file_sharing_system.Peer.{
  Peer, is_query_cached, cache_query, relay_query, broadcast, relay_query_hit,
}

pub record Extends (s t : Peer) : Type 0 where
  pub same_peer : t.peer_id ≡ s.peer_id
  pub same_factor : t.replication_factor ≡ s.replication_factor
  pub same_sockets : t.peer_id_to_sockfd ≡ s.peer_id_to_sockfd
  pub same_files : t.files ≡ s.files
  pub keeps :
      (j : MessageId) (u : PeerId) → lookup j s.queries ≡ some u → lookup j t.queries ≡ some u

pub Extends-refl : (s : Peer) → Extends s s
Extends-refl s = record {
  same_peer = refl;
  same_factor = refl;
  same_sockets = refl;
  same_files = refl;
  keeps = λ j u h. h;
}

pub Extends-trans : {s t u : Peer} → Extends s t → Extends t u → Extends s u
Extends-trans a b = record {
  same_peer = b.same_peer ∙ a.same_peer;
  same_factor = b.same_factor ∙ a.same_factor;
  same_sockets = b.same_sockets ∙ a.same_sockets;
  same_files = b.same_files ∙ a.same_files;
  keeps = λ j v h. b.keeps j v (a.keeps j v h);
}

-- A state with the same identity, neighbours, files and cached queries.
pub same_core :
    (s t : Peer)
    → t.peer_id ≡ s.peer_id
    → t.replication_factor ≡ s.replication_factor
    → t.peer_id_to_sockfd ≡ s.peer_id_to_sockfd
    → t.files ≡ s.files
    → t.queries ≡ s.queries
    → Extends s t
same_core s t a b c d e = record {
  same_peer = a;
  same_factor = b;
  same_sockets = c;
  same_files = d;
  keeps = λ j u h. ap (lookup j) e ∙ h;
}

-- A step from `t` on, where `s` was extended to `t` before.
pub then-Extends :
    (s t : Peer) (m : Result Peer) → Extends s t → OnOk (Extends t) m → OnOk (Extends s) m
then-Extends s t m first rest = OnOk-map (Extends s) (Extends t) m (λ u. Extends-trans first) rest

pub Extends-bind :
    (s : Peer) (m : Result Peer) (f : Peer → Result Peer)
    → OnOk (Extends s) m
    → ((t : Peer) → OnOk (Extends t) (f t))
    → OnOk (Extends s) (m >>= f)
Extends-bind s (ok t) f h k = then-Extends s t (f t) h (k t)
Extends-bind s (fault e) f h k = tt

pub cache_query-Extends : (s : Peer) (id : MessageId) (u : PeerId) → Extends s (cache_query s id u)
unfolding cache_query
cache_query-Extends s id u = elim (Bool-cases (contains id s.queries)) [
  | inl old ↦ rw old (Extends-refl s)
  | inr new ↦ rw new (record {
    same_peer = refl;
    same_factor = refl;
    same_sockets = refl;
    same_files = refl;
    keeps = λ j v h. lookup-insert_new id j u v s.queries new h;
  })
]

pub relay_query-Extends : (s : Peer) (m : Bytes) (u : PeerId) → Extends s (relay_query s m u)
unfolding relay_query
relay_query-Extends s m u = record {
  same_peer = refl;
  same_factor = refl;
  same_sockets = refl;
  same_files = refl;
  keeps = λ j u h. h;
}

pub relay_query_hit-Extends :
    (s : Peer) (m : Bytes) (id : MessageId) → OnOk (Extends s) (relay_query_hit s m id)
unfolding relay_query_hit
relay_query_hit-Extends s m id =
    OnOk->>= (Extends s)
      (or_fault (lookup (index id (pos 0) s.queries).0 s.peer_id_to_sockfd) assert_failed) _
      λ sock_fd. OnOk->>= (Extends s) (fill_buffer m) _ λ buffer. record {
        same_peer = refl;
        same_factor = refl;
        same_sockets = refl;
        same_files = refl;
        keeps = λ j u h. lookup-index id j (pos 0) u s.queries h;
      }

-- A state that differs only in what no handler is held to.
pub own_ip-Extends : (s : Peer) → Extends s (own_ip s).1
unfolding own_ip
own_ip-Extends s = record {
  same_peer = refl;
  same_factor = refl;
  same_sockets = refl;
  same_files = refl;
  keeps = λ j u h. h;
}
