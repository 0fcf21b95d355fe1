-- ===== src/Register/RoundTrip.antt =====
-- The response of CRegisterServer (src/register_server.cpp) as CPeerClient::HandleRegisterResponse
-- (src/peer_client.cpp) reads it.
use p2p_file_sharing_system.Prelude.{
  inl, ℕ, ◌&&◌, ◌≡◌, ◌≢◌, refl, ap, ◌∙◌, ◌||◌, Option, none, some, List, [], ◌∷◌, ◌++◌, map, arith,
  append_assoc, if◌then◌else◌, ℤ, eq_ℤ, All, All-append,
}
use p2p_file_sharing_system.Result.{ok}
use p2p_file_sharing_system.Text.{Bytes, Lacks, newline, space, bytes_eq}
use p2p_file_sharing_system.Text.Number.{int_limit, to_string}
use p2p_file_sharing_system.Text.Number.RoundTrip.{
  Fits, stoi-to_string, to_string-Lacks, to_string-Lacks_other,
}
use p2p_file_sharing_system.Text.Split.Join.{terminated, split_string-terminated}
use p2p_file_sharing_system.Containers.{lookup, contains}
use p2p_file_sharing_system.Containers.Laws.{
  Distinct, lookup-insert, lookup_congr, contains-insert, contains-lookup,
}
use p2p_file_sharing_system.Ids.{PeerId, peer_id_key}
use p2p_file_sharing_system.Peer.{Peer}
use p2p_file_sharing_system.Register.{
  cut, cut_at, parts_or_whole, response_lines, all_peers_response, take_line, take_lines,
  connect_to_peers, handle_register_response,
}

-- An entry that a line can hold.
abbrev pub IsEntry : PeerId × Bytes → Type 0
IsEntry (id, ip) = Fits int_limit id × Lacks newline ip

line : PeerId × Bytes → Bytes
line (id, ip) = (to_string id ++ space ∷ []) ++ ip

cut-append :
    (c : ℕ) (before behind : Bytes)
    → Lacks c before
    → cut c (before ++ c ∷ behind) ≡ some (before, behind)
unfolding cut
cut-append c [] behind h = ground arith
cut-append c (b ∷ before) behind (h, hs) = ground (arith, cut-append c before behind hs)

pub cut_at-append :
    (c : ℕ) (before behind : Bytes)
    → Lacks c before
    → cut_at c (before ++ c ∷ behind) ≡ (before, behind)
unfolding cut_at parts_or_whole
cut_at-append c before behind h =
    ap (parts_or_whole (before ++ c ∷ behind)) (cut-append c before behind h)

response_lines-terminated :
    (clients : List (PeerId × Bytes))
    → response_lines clients ≡ terminated newline (map line clients)
unfolding response_lines terminated line
response_lines-terminated [] = refl
response_lines-terminated ((id, ip) ∷ clients) =
    simp (response_lines-terminated clients, append_assoc)

-- The addresses that a peer knows once it has taken a line for each client.
unfoldable pub take_clients : List (PeerId × Bytes) → Peer → Peer
unfolding take_line
take_clients [] s = s
take_clients ((id, ip) ∷ clients) s = take_clients clients (take_line id ip s)

take_lines-line :
    (clients : List (PeerId × Bytes)) (s : Peer)
    → All IsEntry clients
    → take_lines (map line clients) s ≡ ok (take_clients clients s)
unfolding take_lines take_clients line
take_lines-line [] s h = refl
take_lines-line ((id, ip) ∷ clients) s ((fits, one_line), hs) =
    rw
      (
        append_assoc (to_string id) (space ∷ []) ip,
        cut_at-append space (to_string id) ip
            (to_string-Lacks_other space (omega arith, inl (omega arith)) id),
        stoi-to_string id fits,
      )
      (take_lines-line clients (take_line id ip s) hs)

-- What a peer knows of `j` behind the response.
abbrev pub learned : Peer → List (PeerId × Bytes) → PeerId → Option Bytes
learned s clients j = elim (lookup j clients) [
  | none ↦ lookup j s.peer_id_to_ip
  | some ip ↦
      if contains j s.peer_id_to_ip || eq_ℤ j s.peer_id then some ip else lookup j s.peer_id_to_ip
]

take_line-lookup :
    (id j : PeerId) (ip : Bytes) (s : Peer)
    → lookup j (take_line id ip s).peer_id_to_ip ≡ (
        if eq_ℤ id j && (contains j s.peer_id_to_ip || eq_ℤ j s.peer_id)
        then some ip
        else lookup j s.peer_id_to_ip)
unfolding take_line
take_line-lookup id j ip s = ground (
  arith,
  lookup-insert id j ip s.peer_id_to_ip,
  lookup_congr j id s.peer_id_to_ip,
  contains-lookup j s.peer_id_to_ip,
  contains-lookup id s.peer_id_to_ip,
)

pub take_line_same :
    (id j : PeerId) (ip : Bytes) (s : Peer)
    → (contains j (take_line id ip s).peer_id_to_ip || eq_ℤ j (take_line id ip s).peer_id)
      ≡ (contains j s.peer_id_to_ip || eq_ℤ j s.peer_id)
unfolding take_line
take_line_same id j ip s = ground (
  arith,
  contains-insert id j ip s.peer_id_to_ip,
  lookup_congr j id s.peer_id_to_ip,
  contains-lookup j s.peer_id_to_ip,
  contains-lookup id s.peer_id_to_ip,
)

pub take_clients-learned :
    (clients : List (PeerId × Bytes)) (s : Peer) (j : PeerId)
    → Distinct clients
    → lookup j (take_clients clients s).peer_id_to_ip ≡ learned s clients j
unfolding take_clients lookup
take_clients-learned [] s j d = refl
take_clients-learned ((id, ip) ∷ clients) s j (new, d) =
    take_clients-learned clients (take_line id ip s) j d
    ∙ ground (
      arith,
      take_line-lookup id j ip s,
      take_line_same id j ip s,
      lookup_congr j id clients,
      contains-lookup id clients,
    )

lines_lack :
    (clients : List (PeerId × Bytes)) → All IsEntry clients → All (Lacks newline) (map line clients)
unfolding line
lines_lack [] h = tt
lines_lack ((id, ip) ∷ clients) ((fits, one_line), h) = (
  All-append (λ c. c ≢ newline) (to_string id ++ space ∷ []) ip
      (All-append (λ c. c ≢ newline) (to_string id) (space ∷ []) (to_string-Lacks id) (λ e. cc, tt))
      one_line,
  lines_lack clients h,
)

pub handle_register_response-take :
    (connect : PeerId → Bytes → ℤ → Option ℕ) (clients : List (PeerId × Bytes)) (s : Peer)
    → All IsEntry clients
    → handle_register_response connect (all_peers_response clients) s
      ≡ connect_to_peers connect (take_clients clients s).peer_id_to_ip (take_clients clients s)
unfolding handle_register_response all_peers_response cut_at cut parts_or_whole bytes_eq
handle_register_response-take connect clients s entries =
    rw
      (
        response_lines-terminated clients,
        split_string-terminated (map line clients) newline (lines_lack clients entries),
        take_lines-line clients s entries,
      )
      refl

-- A peer that is sent the response of a register server, in which no peer stands twice and every id and
-- address fits a line, knows the addresses of its neighbours, and its own, that stand in the response;
-- it learns no other address, and then connects.
pub handle_register_response_lem :
    (connect : PeerId → Bytes → ℤ → Option ℕ) (clients : List (PeerId × Bytes)) (s : Peer)
    (j : PeerId)
    → All IsEntry clients
    → Distinct clients
    → (t : Peer) × (handle_register_response connect (all_peers_response clients) s
        ≡ connect_to_peers connect t.peer_id_to_ip t)
      × (lookup j t.peer_id_to_ip ≡ learned s clients j)
handle_register_response_lem connect clients s j entries d = (
  take_clients clients s,
  handle_register_response-take connect clients s entries,
  take_clients-learned clients s j d,
)
