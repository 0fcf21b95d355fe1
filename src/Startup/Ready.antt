-- ===== src/Startup/Ready.antt =====
-- The connections that a peer has when the beginning of CPeerClient::Run (src/peer_client.cpp) is over.
use mathlib.Core.Path.{subst}
use p2p_file_sharing_system.Prelude.{
  ℕ, ◌≡◌, ◌≢◌, refl, ap, sym, ◌∙◌, Bool, true, false, ltb, length, ◌<◌, if◌then◌else◌, ◌||◌, ◌&&◌,
  not, Option, some, List, [], ◌∷◌, map, arith, Bool-cases, if_both, inl, inr, ℤ, pos, eq_ℤ,
  eq_ℤ_iff, All,
}
use p2p_file_sharing_system.Result.{ok, OnOk_use}
use p2p_file_sharing_system.Text.{Bytes, Lacks}
use p2p_file_sharing_system.Containers.{insert, contains, lookup}
use p2p_file_sharing_system.Containers.Laws.{Distinct, insert-Distinct, contains-lookup, is_some}
use p2p_file_sharing_system.Ids.{PeerId, msg_buf_size, peer_id_key}
use p2p_file_sharing_system.Peer.{Peer}
use p2p_file_sharing_system.Peer.Threads.{load_file_info}
use p2p_file_sharing_system.Register.{take_line, all_peers_response}
use p2p_file_sharing_system.Register.RoundTrip.{
  IsEntry, take_clients, take_clients-learned, learned, handle_register_response-take,
}
use p2p_file_sharing_system.Config.{load_settings, load_topology}
use p2p_file_sharing_system.Config.Neighbours.{
  topology_line, IsLine, neighbours_of, names, added, added-names, load_topology-added,
}
use p2p_file_sharing_system.Startup.{Surroundings, settings_file, topology_file_name, run_start}
use p2p_file_sharing_system.Startup.Response.{register_with_lem}
use p2p_file_sharing_system.Startup.Kept.{
  SameNet, SameNet-trans, load_file_info-SameNet, load_settings-SameNet, added-SameNet,
  take_clients_same,
}
use p2p_file_sharing_system.Startup.Sockets.{
  Answers, Callable, connect_to_peers-sockets, All-lookup, with_sockets,
}

added-Distinct :
    (ns : List ℕ) (s : Peer) → Distinct s.peer_id_to_ip → Distinct (added ns s).peer_id_to_ip
unfolding added
added-Distinct [] s d = d
added-Distinct (n ∷ ns) s d =
    added-Distinct ns (record s { peer_id_to_ip = insert (pos n) [] s.peer_id_to_ip })
      (insert-Distinct (pos n) [] s.peer_id_to_ip d)

take_clients-Distinct :
    (clients : List (PeerId × Bytes)) (s : Peer)
    → Distinct s.peer_id_to_ip
    → Distinct (take_clients clients s).peer_id_to_ip
unfolding take_clients take_line
take_clients-Distinct [] s d = d
take_clients-Distinct ((id, ip) ∷ clients) s d = take_clients-Distinct clients (take_line id ip s) (
    if_both (λ (t : Peer). Distinct t.peer_id_to_ip)
      (contains id s.peer_id_to_ip || eq_ℤ id s.peer_id) _ s
      (insert-Distinct id ip s.peer_id_to_ip d) d)

All-names :
    (P : PeerId → Type 0) (j : PeerId) (ns : List ℕ)
    → All (λ n. P (pos n)) ns
    → names j ns ≡ true
    → P j
All-names P j [] h e = absurd (cc)
All-names P j (n ∷ ns) (pn, h) e = elim (Bool-cases (eq_ℤ (pos n) j)) [
  | inl same ↦ subst P ((eq_ℤ_iff (pos n) j).0 same) pn
  | inr other ↦ All-names P j ns h (ground arith)
]

-- The response has an address of the peer, at which a connection is made.
abbrev pub Listed : (PeerId → Bytes → ℤ → Option ℕ) → List (PeerId × Bytes) → PeerId → Type 0
Listed connect clients id = (ip : Bytes) × (lookup id clients ≡ some ip) × Answers connect id ip

learned-known :
    (clients : List (PeerId × Bytes)) (s : Peer) (j : PeerId) (ip : Bytes)
    → lookup j clients ≡ some ip
    → contains j s.peer_id_to_ip ≡ true
    → learned s clients j ≡ some ip
learned-known clients s j ip at_clients known = rw (learned, at_clients, known) refl

-- What a peer with such neighbours has learned of another it can call.
learned-Callable :
    (connect : PeerId → Bytes → ℤ → Option ℕ) (clients : List (PeerId × Bytes)) (ns : List ℕ)
    (v : Peer) (j : PeerId) (ip : Bytes)
    → ((k : PeerId) → contains k v.peer_id_to_ip ≡ names k ns)
    → All (λ n. Listed connect clients (pos n)) ns
    → Distinct clients
    → lookup j (take_clients clients v).peer_id_to_ip ≡ some ip
    → Callable connect v.peer_id j ip
learned-Callable connect clients ns v j ip named listed d found =
    let w = take_clients clients v in
    let (w_peer, w_sockets, known) = take_clients_same clients v j in
    let there : contains j w.peer_id_to_ip ≡ true =
      contains-lookup j w.peer_id_to_ip ∙ ap is_some found in
    elim (Bool-cases (eq_ℤ j v.peer_id)) [
      | inl self ↦ inl self
      | inr other ↦
          let kept : contains j v.peer_id_to_ip ≡ true = ground (arith, known, there, other) in
          let (ip', at_clients, answers) =
            All-names (Listed connect clients) j ns listed (sym (named j) ∙ kept) in
          let same : some ip' ≡ some ip =
            sym (learned-known clients v j ip' at_clients kept)
            ∙ sym (take_clients-learned clients v j d)
            ∙ found in
          let equal : ip' ≡ ip = cc in inr (subst (Answers connect j) equal answers)
    ]

named_sockets :
    (socket before address name self : Bool)
    → socket ≡ (before || address && not self)
    → before ≡ false
    → (address || self) ≡ (name || self)
    → socket ≡ (name && not self)
named_sockets socket before address name self e f g = ground arith

if_true : {A : Type 0} (b : Bool) (x y : A) → b ≡ true → (if b then x else y) ≡ x
if_true b x y e = rw e refl

-- A peer without addresses and sockets that starts, whose settings are read without a fault, and whose type
-- of topology has a file with lines of the form `id: n1 n2 ...` of which one is about the peer, is
-- connected to just the neighbours that the first such line names, itself left out, once it has registered
-- and a response of the register server has come that is well-formed, names no peer twice, has no zero byte
-- and is shorter than the buffer. The response has an address for each of these neighbours, and at that
-- address and the port of the neighbour a connection can be made; nothing is supposed of other addresses.
pub run_start_lem :
    (connect : PeerId → Bytes → ℤ → Option ℕ) (lines_of : Bytes → Option (List Bytes))
    (topology_type : ℤ) (name : Bytes) (entries : List (ℕ × List ℕ)) (shared : List (Bool × Bytes))
    (clients : List (PeerId × Bytes)) (s configured : Peer) (sent : ℕ) (j : PeerId)
    → load_settings (lines_of settings_file) s ≡ ok configured
    → topology_file_name topology_type ≡ ok name
    → lines_of name ≡ some (map topology_line entries)
    → s.peer_id_to_ip ≡ []
    → s.peer_id_to_sockfd ≡ []
    → All IsLine entries
    → neighbours_of s.peer_id entries ≢ []
    → All IsEntry clients
    → Distinct clients
    → All (λ n. Listed connect clients (pos n)) (neighbours_of s.peer_id entries)
    → Lacks 0 (all_peers_response clients)
    → length (all_peers_response clients) < msg_buf_size
    → let around : Surroundings = record {
      lines_of = lines_of;
      shared = shared;
      registration = record {
        connected = true;
        sent = pos sent;
        arrived = some (all_peers_response clients);
      };
    } in
      (t : Peer) × (run_start connect around topology_type s ≡ ok t)
      × (contains j t.peer_id_to_sockfd
          ≡ (names j (neighbours_of s.peer_id entries) && not (eq_ℤ j s.peer_id)))
unfolding run_start contains
run_start_lem connect lines_of topology_type name entries shared clients s configured sent j read
      named_file has_lines no_ip no_sockets lines found listed distinct answer no_zero short =
    let ns = neighbours_of s.peer_id entries in
    let u = load_file_info shared configured in
    let v = added ns u in
    let w = take_clients clients v in
    let kept : SameNet s u =
      SameNet-trans
        (OnOk_use (SameNet s) (load_settings (lines_of settings_file) s) read
          (load_settings-SameNet (lines_of settings_file) s))
        (load_file_info-SameNet shared configured) in
    let (v_peer, v_sockets) = added-SameNet ns u in
    let (w_peer, w_sockets, known) = take_clients_same clients v j in
    let self : w.peer_id ≡ s.peer_id = w_peer ∙ v_peer ∙ kept.same_peer in
    let topology : load_topology (some (map topology_line entries)) u ≡ ok v =
      load_topology-added entries u lines (rw kept.same_peer found)
      ∙ ap (λ p. ok (added (neighbours_of p entries) u)) kept.same_peer in
    let no_socket : contains j w.peer_id_to_sockfd ≡ false =
      ap (contains j) (w_sockets ∙ v_sockets ∙ kept.same_sockets ∙ no_sockets) in
    let named : contains j v.peer_id_to_ip ≡ names j ns =
      added-names ns u j ∙ ap (λ m. contains j m || names j ns) (kept.same_addresses ∙ no_ip) in
    let named_all : (k : PeerId) → contains k v.peer_id_to_ip ≡ names k ns = λ k.
      added-names ns u k ∙ ap (λ m. contains k m || names k ns) (kept.same_addresses ∙ no_ip) in
    let w_distinct : Distinct w.peer_id_to_ip =
      take_clients-Distinct clients v (added-Distinct ns u (rw (kept.same_addresses, no_ip) tt)) in
    let (sockets, made, which) = connect_to_peers-sockets connect w.peer_id_to_ip w (
      subst (λ p. All (λ (e : PeerId × Bytes). Callable connect p e.0 e.1) w.peer_id_to_ip)
        (sym w_peer)
        (All-lookup (Callable connect v.peer_id) w.peer_id_to_ip w_distinct (λ k ip at_w.
          learned-Callable connect clients ns v k ip named_all answer distinct at_w))) in
    let known' : (contains j w.peer_id_to_ip || eq_ℤ j s.peer_id)
        ≡ (names j ns || eq_ℤ j s.peer_id) =
      ap (λ p. contains j w.peer_id_to_ip || eq_ℤ j p) (sym self)
      ∙ known
      ∙ ap (λ p. contains j v.peer_id_to_ip || eq_ℤ j p) (v_peer ∙ kept.same_peer)
      ∙ ap (λ b. b || eq_ℤ j s.peer_id) named in
    (
      with_sockets w sockets,
      rw (read, named_file, has_lines, topology)
          (register_with_lem connect sent (all_peers_response clients) v no_zero
            ∙ if_true (ltb (length (all_peers_response clients)) msg_buf_size) _ _ (ground arith)
            ∙ handle_register_response-take connect clients v listed
            ∙ made),
      named_sockets (contains j sockets) (contains j w.peer_id_to_sockfd)
          (contains j w.peer_id_to_ip) (names j ns) (eq_ℤ j s.peer_id)
          (which j
            ∙ ap
                (λ p.
                  contains j w.peer_id_to_sockfd || contains j w.peer_id_to_ip && not (eq_ℤ j p))
                self)
          no_socket known',
    )
