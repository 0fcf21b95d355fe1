-- ===== src/Startup/Kept.antt =====
-- What the settings, the shared directory and the addresses leave alone of a peer that starts:
-- src/peer_client.cpp.
use p2p_file_sharing_system.Prelude.{
  ℕ, ◌≡◌, refl, ◌∙◌, Bool, ◌||◌, Option, none, some, List, [], ◌∷◌, arith, if_both, pos, eq_ℤ,
}
use p2p_file_sharing_system.Result.{Result, ok, fault, ◌>>=◌, OnOk, OnOk->>=, OnOk-map}
use p2p_file_sharing_system.Text.{Bytes, codes, bytes_eq, space}
use p2p_file_sharing_system.Text.Number.{stoi}
use p2p_file_sharing_system.Text.Split.{split_string}
use p2p_file_sharing_system.Containers.{insert, contains}
use p2p_file_sharing_system.Ids.{PeerId, peer_id_key, no_limit}
use p2p_file_sharing_system.Peer.{Peer, member, at}
use p2p_file_sharing_system.Peer.Threads.{load_file_info}
use p2p_file_sharing_system.Register.{take_line}
use p2p_file_sharing_system.Register.RoundTrip.{take_clients, take_line_same}
use p2p_file_sharing_system.Config.{load_setting, load_setting_lines, load_settings}
use p2p_file_sharing_system.Config.Neighbours.{added}

-- The identity of a peer, its addresses and its sockets are the same.
pub record SameNet (s t : Peer) : Type 0 where
  pub same_peer : t.peer_id ≡ s.peer_id
  pub same_addresses : t.peer_id_to_ip ≡ s.peer_id_to_ip
  pub same_sockets : t.peer_id_to_sockfd ≡ s.peer_id_to_sockfd

pub net :
    (s t : Peer)
    → t.peer_id ≡ s.peer_id
    → t.peer_id_to_ip ≡ s.peer_id_to_ip
    → t.peer_id_to_sockfd ≡ s.peer_id_to_sockfd
    → SameNet s t
net s t a b c = record { same_peer = a; same_addresses = b; same_sockets = c }

SameNet-refl : (s : Peer) → SameNet s s
SameNet-refl s = net s s refl refl refl

pub SameNet-trans : {s t u : Peer} → SameNet s t → SameNet t u → SameNet s u
SameNet-trans a b = record {
  same_peer = b.same_peer ∙ a.same_peer;
  same_addresses = b.same_addresses ∙ a.same_addresses;
  same_sockets = b.same_sockets ∙ a.same_sockets;
}

-- A setting changes other members only.
load_setting-SameNet :
    (vec : List Bytes) (key : Bytes) (s : Peer) → OnOk (SameNet s) (load_setting vec key s)
unfolding load_setting
load_setting-SameNet vec key s =
    let P = λ (r : Result Peer). OnOk (SameNet s) r in
    let same : SameNet s s = SameNet-refl s in
    if_both P (bytes_eq key (codes "replication_factor")) _ _
      (OnOk->>= (SameNet s) (at vec 1) _
        λ v. OnOk->>= (SameNet s) (stoi v) _ λ n. net s _ refl refl refl)
      (if_both P (bytes_eq key (codes "server_ip")) _ _
        (OnOk->>= (SameNet s) (at vec 1) _ λ v. net s _ refl refl refl)
        (if_both P (bytes_eq key (codes "ensure_query_hit_file")) _ _
          (OnOk->>= (SameNet s) (at vec 1) _ λ v. net s _ refl refl refl)
          (if_both P (bytes_eq key (codes "large_file_transfer")) _ _
            (OnOk->>= (SameNet s) (at vec 1) _ λ v. net s _ refl refl refl) same)))

pub load_file_info-SameNet :
    (entries : List (Bool × Bytes)) (s : Peer) → SameNet s (load_file_info entries s)
unfolding load_file_info
load_file_info-SameNet [] s = SameNet-refl s
load_file_info-SameNet ((is_dir, name) ∷ entries) s =
    SameNet-trans
      (if_both (SameNet s) is_dir _ _ (SameNet-refl s)
        (if_both (SameNet s) (member name s.files) _ _ (SameNet-refl s) (net s _ refl refl refl)))
      (load_file_info-SameNet entries _)

OnOk->>=_from :
    (P : Peer → Type 0) (m : Result Peer) (f : Peer → Result Peer)
    → OnOk P m
    → ((t : Peer) → P t → OnOk P (f t))
    → OnOk P (m >>= f)
OnOk->>=_from P (ok t) f h k = k t h
OnOk->>=_from P (fault e) f h k = tt

load_setting_lines-SameNet :
    (lines : List Bytes) (s : Peer) → OnOk (SameNet s) (load_setting_lines lines s)
unfolding load_setting_lines
load_setting_lines-SameNet [] s = SameNet-refl s
load_setting_lines-SameNet (line ∷ lines) s =
    let vec = split_string line (space ∷ []) no_limit in
    OnOk->>= (SameNet s) (at vec 0) _ λ key.
      OnOk->>=_from (SameNet s) (load_setting vec key s) (load_setting_lines lines)
        (load_setting-SameNet vec key s)
        (λ t x.
          OnOk-map (SameNet s) (SameNet t) (load_setting_lines lines t) (λ u. SameNet-trans x)
            (load_setting_lines-SameNet lines t))

pub load_settings-SameNet :
    (lines : Option (List Bytes)) (s : Peer) → OnOk (SameNet s) (load_settings lines s)
unfolding load_settings
load_settings-SameNet none s = tt
load_settings-SameNet (some lines) s = load_setting_lines-SameNet lines s

-- What naming neighbours and learning addresses leave alone.
pub added-SameNet :
    (ns : List ℕ) (s : Peer)
    → ((added ns s).peer_id ≡ s.peer_id) × ((added ns s).peer_id_to_sockfd ≡ s.peer_id_to_sockfd)
unfolding added
added-SameNet [] s = (refl, refl)
added-SameNet (n ∷ ns) s =
    added-SameNet ns (record s { peer_id_to_ip = insert (pos n) [] s.peer_id_to_ip })

pub take_line-SameNet :
    (id : PeerId) (ip : Bytes) (s : Peer)
    → ((take_line id ip s).peer_id ≡ s.peer_id)
      × ((take_line id ip s).peer_id_to_sockfd ≡ s.peer_id_to_sockfd)
unfolding take_line
take_line-SameNet id ip s = ground arith

pub take_clients_same :
    (clients : List (PeerId × Bytes)) (s : Peer) (j : PeerId)
    → let t = take_clients clients s in
      (t.peer_id ≡ s.peer_id)
      × (t.peer_id_to_sockfd ≡ s.peer_id_to_sockfd)
      × ((contains j t.peer_id_to_ip || eq_ℤ j t.peer_id)
          ≡ (contains j s.peer_id_to_ip || eq_ℤ j s.peer_id))
unfolding take_clients
take_clients_same [] s j = (refl, refl, refl)
take_clients_same ((id, ip) ∷ clients) s j =
    let s' = take_line id ip s in
    let (peer, sockets, known) = take_clients_same clients s' j in
    let (peer', sockets') = take_line-SameNet id ip s in
    (peer ∙ peer', sockets ∙ sockets', known ∙ take_line_same id j ip s)
