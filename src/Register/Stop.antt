-- ===== src/Register/Stop.antt =====
-- The threads of CRegisterServer (src/register_server.cpp), one for each connection, and when the server
-- stops (src/tcp_server.cpp).
use mathlib.Core.Path.{subst}
use p2p_file_sharing_system.Prelude.{
  ℕ, ◌+◌, ◌≤◌, ◌≡◌, ◌≢◌, refl, sym, ap, ◌∙◌, true, false, ◌||◌, Option, none, some, List, [], ◌∷◌,
  arith, pos, eq_ℤ, ltb_ℤ, length, leb, Bool-cases, if_both, ◌⊎◌, inl, inr,
}
use p2p_file_sharing_system.Result.{Result, ok, assert_failed, or_fault, OnOk, OnOk->>=, OnOk_use}
use p2p_file_sharing_system.Text.{Bytes, newline, bytes_eq}
use p2p_file_sharing_system.Containers.{insert}
use p2p_file_sharing_system.Ids.{PeerId, peer_id_key}
use p2p_file_sharing_system.Register.{
  RegisterServer, cut, atoi, enter, register, respond, is_keep_running, register_request,
  command_max_len,
}

-- The server at its start, for `n` peers.
abbrev pub start : ℕ → RegisterServer
start n = record {
  num_of_peers = pos n;
  all_peers_registered = false;
  client_info = [];
  thread_exit_count = 0;
}

-- A thread enters its peer, or it finds that all have registered and responds.
pub data Step : RegisterServer → RegisterServer → Type 0 where
  registers : (message ip : Bytes) (s t : RegisterServer) → register message ip s ≡ ok t → Step s t
  responds : (response : Bytes) (s t : RegisterServer) → respond s ≡ some (response, t) → Step s t

pub data Reach (n : ℕ) : RegisterServer → Type 0 where
  initially : Reach n (start n)
  step : {s t : RegisterServer} → Reach n s → Step s t → Reach n t

pub record Inv (n : ℕ) (s : RegisterServer) : Type 0 where
  pub peers : s.num_of_peers ≡ pos n
  pub responded : (s.thread_exit_count ≡ 0) ⊎ (s.all_peers_registered ≡ true)
  pub registered : (s.all_peers_registered ≡ false) ⊎ (n ≤ length s.client_info)

length-insert-le :
    (id : PeerId) (ip : Bytes) (m : List (PeerId × Bytes)) → length m ≤ length (insert id ip m)
unfolding insert
length-insert-le id ip [] = omega arith
length-insert-le id ip ((j, v) ∷ m) = ground (arith, length-insert-le id ip m)

entered-Inv :
    (n : ℕ) (id : PeerId) (ip : Bytes) (s : RegisterServer)
    → Inv n s
    → let clients = insert id ip s.client_info in
      Inv n (record s {
        client_info = clients;
        all_peers_registered = eq_ℤ (pos (length clients)) s.num_of_peers || s.all_peers_registered;
      })
entered-Inv n id ip s inv =
    let longer = length-insert-le id ip s.client_info in
    record {
      peers = inv.peers;
      responded = ground (arith, inv.responded);
      registered = rw inv.peers (ground (arith, inv.registered, longer));
    }

enter-Inv :
    (n : ℕ) (body ip : Bytes) (s : RegisterServer) → Inv n s → OnOk (Inv n) (enter body ip s)
unfolding enter
enter-Inv n body ip s inv = OnOk->>= (Inv n) (atoi body) _ λ id. entered-Inv n id ip s inv

register-Inv :
    (n : ℕ) (message ip : Bytes) (s : RegisterServer)
    → Inv n s
    → OnOk (Inv n) (register message ip s)
unfolding register
register-Inv n message ip s inv =
    let P = λ (r : Result RegisterServer). OnOk (Inv n) r in
    OnOk->>= (Inv n) (or_fault (cut newline message) assert_failed) _ λ parts.
      if_both P (leb command_max_len (length parts.0)) _ _ tt
        (if_both P (bytes_eq parts.0 register_request) _ _ (enter-Inv n parts.1 ip s inv) tt)

abbrev behind : RegisterServer → Option (Bytes × RegisterServer) → RegisterServer
behind s none = s
behind s (some (response, t)) = t

some-ne-none : {A : Type 0} (a : A) → some a ≢ none
some-ne-none a e = cc

respond-Inv :
    (n : ℕ) (response : Bytes) (s t : RegisterServer)
    → respond s ≡ some (response, t)
    → Inv n s
    → Inv n t
unfolding respond
respond-Inv n response s t e inv = elim (Bool-cases s.all_peers_registered) [
  | inl all ↦
      let next : record s { thread_exit_count = s.thread_exit_count + 1 } ≡ t =
        sym (rw (respond, all) refl) ∙ ap (behind s) e in
      subst (Inv n) next
        (record { peers = inv.peers; responded = inr all; registered = inv.registered })
  | inr waits ↦
      let same : respond s ≡ none = rw (respond, waits) refl in
      absurd (some-ne-none (response, t) (sym e ∙ same))
]

Step-Inv : (n : ℕ) {s t : RegisterServer} → Step s t → Inv n s → Inv n t
Step-Inv n (registers message ip s t e) inv =
    OnOk_use (Inv n) (register message ip s) e (register-Inv n message ip s inv)
Step-Inv n (responds response s t e) inv = respond-Inv n response s t e inv

Reach-Inv_registered : (n : ℕ) {s : RegisterServer} → Reach n s → Inv n s
Reach-Inv_registered n initially = record {
  peers = refl;
  responded = inl refl;
  registered = inl refl;
}
Reach-Inv_registered n (step r k) = Step-Inv n k (Reach-Inv_registered n r)

-- A register server for one peer or more does not stop before as many peers as it waits for have
-- registered and as many responses have been sent, whatever the order in which its threads enter peers
-- and respond.
pub stops_when_all_registered :
    (n : ℕ) (s : RegisterServer)
    → Reach n s
    → 1 ≤ n
    → is_keep_running s ≡ false
    → (s.all_peers_registered ≡ true) × (n ≤ length s.client_info) × (n ≤ s.thread_exit_count)
unfolding is_keep_running
stops_when_all_registered n s r some_peers stopped =
    let inv = Reach-Inv_registered n r in
    let enough : ltb_ℤ (pos s.thread_exit_count) (pos n) ≡ false =
      ap (ltb_ℤ (pos s.thread_exit_count)) (sym inv.peers) ∙ stopped in
    ground (arith, inv.responded, inv.registered)
