-- ===== src/Register/Everyone.antt =====
-- The register server of src/register_server.cpp until every peer has registered.
use p2p_file_sharing_system.Prelude.{
  ℕ, ◌+◌, ◌≡◌, ◌≤◌, ◌<◌, refl, ap, sym, ◌∙◌, false, ◌||◌, none, some, List, [], ◌∷◌, ◌++◌, arith,
  append_assoc, append-nil, ◌==◌, if◌then◌else◌, pos, eq_ℤ, All, length, length-append,
}
use p2p_file_sharing_system.Result.{Result, ok, ◌>>=◌}
use p2p_file_sharing_system.Text.{Bytes, bytes_eq}
use p2p_file_sharing_system.Text.Number.{int_limit, to_string}
use p2p_file_sharing_system.Text.Number.RoundTrip.{Fits, stoi-to_string}
use p2p_file_sharing_system.Containers.{insert, contains}
use p2p_file_sharing_system.Containers.Laws.{Distinct}
use p2p_file_sharing_system.Ids.{PeerId, peer_id_key}
use p2p_file_sharing_system.Register.{
  RegisterServer, create_register_message, cut, atoi, number_or_zero, enter, register, respond,
  all_peers_response,
}

-- Peers that register one after another, each with the message that it sends.
unfoldable pub register_all : List (PeerId × Bytes) → RegisterServer → Result RegisterServer
unfolding register
register_all [] s = ok s
register_all ((id, ip) ∷ peers) s =
    register (create_register_message id) ip s >>= λ t. register_all peers t

-- The server behind the registrations `done`, where `n` peers are waited for.
abbrev pub registered : ℕ → List (PeerId × Bytes) → RegisterServer
registered n done = record {
  num_of_peers = pos n;
  all_peers_registered = eq_ℤ (pos (length done)) (pos n);
  client_info = done;
  thread_exit_count = 0;
}

atoi-to_string : (id : PeerId) → Fits int_limit id → atoi (to_string id) ≡ ok id
unfolding atoi number_or_zero
atoi-to_string id fits = ap number_or_zero (stoi-to_string id fits)

insert_new :
    (id : PeerId) (ip : Bytes) (m : List (PeerId × Bytes))
    → contains id m ≡ false
    → insert id ip m ≡ m ++ (id, ip) ∷ []
unfolding insert contains
insert_new id ip [] h = refl
insert_new id ip ((j, v) ∷ m) h = ground (arith, insert_new id ip m)

contains-append :
    (k : PeerId) (m n : List (PeerId × Bytes))
    → contains k (m ++ n) ≡ (contains k m || contains k n)
unfolding contains
contains-append k [] n = refl
contains-append k ((j, v) ∷ m) n = ground (arith, contains-append k m n)

-- None of the peers is known.
abbrev AllNew : List (PeerId × Bytes) → List (PeerId × Bytes) → Type 0
AllNew known = All (λ (p : PeerId × Bytes). contains p.0 known ≡ false)

AllNew-append :
    (known peers : List (PeerId × Bytes)) (id : PeerId) (ip : Bytes)
    → contains id peers ≡ false
    → AllNew known peers
    → AllNew (known ++ (id, ip) ∷ []) peers
unfolding contains
AllNew-append known [] id ip h new = tt
AllNew-append known ((j, v) ∷ peers) id ip h (this, new) = (
  ground (arith, contains-append j known ((id, ip) ∷ [])),
  AllNew-append known peers id ip (ground arith) new,
)

register-registered :
    (n : ℕ) (done : List (PeerId × Bytes)) (id : PeerId) (ip : Bytes)
    → Fits int_limit id
    → contains id done ≡ false
    → length done < n
    → register (create_register_message id) ip (registered n done)
      ≡ ok (registered n (done ++ (id, ip) ∷ []))
unfolding register create_register_message cut bytes_eq enter
register-registered n done id ip fits new few =
    rw (atoi-to_string id fits, insert_new id ip done new) (ground arith)

register_all-registered :
    (n : ℕ) (peers done : List (PeerId × Bytes))
    → All (λ (p : PeerId × Bytes). Fits int_limit p.0) peers
    → Distinct peers
    → AllNew done peers
    → length done + length peers ≤ n
    → register_all peers (registered n done) ≡ ok (registered n (done ++ peers))
unfolding register_all
register_all-registered n [] done fits d new few =
    ap (λ m. ok (registered n m)) (sym (append-nil done))
register_all-registered n ((id, ip) ∷ peers) done (fit, fits) (alone, d) (this, new) few =
    let done' = done ++ (id, ip) ∷ [] in
    let room : length done' + length peers ≤ n =
      omega (arith, length-append done ((id, ip) ∷ [])) in
    rw (register-registered n done id ip fit this (omega arith)) (
      register_all-registered n peers done' fits d (AllNew-append done peers id ip alone new) room
      ∙ ap (λ m. ok (registered n m)) (append_assoc done ((id, ip) ∷ []) peers))

all_new : (peers : List (PeerId × Bytes)) → AllNew [] peers
unfolding contains
all_new [] = tt
all_new (p ∷ peers) = (refl, all_new peers)

-- Where `n` peers are waited for, one or more, and at most `n` different ones, whose ids are ints, have registered by
-- the message that a peer sends, the server has a response if and only if all `n` have: it then holds
-- every peer with its address.
pub register_all_lem :
    (n : ℕ) (peers : List (PeerId × Bytes))
    → 0 < n
    → length peers ≤ n
    → All (λ (p : PeerId × Bytes). Fits int_limit p.0) peers
    → Distinct peers
    → (s : RegisterServer) × (register_all peers (registered n []) ≡ ok s)
      × (s.client_info ≡ peers)
      × (respond s ≡ (
          if length peers == n
          then some (all_peers_response peers, record s { thread_exit_count = 1 })
          else none))
unfolding respond
register_all_lem n peers some_peer few fits d = (
  registered n peers,
  register_all-registered n peers [] fits d (all_new peers) (omega arith),
  refl,
  ground arith,
)
