-- ===== src/Ids.antt =====
-- The data of src/defines.h that the components share: constants, SMessageID with its `==`,
-- SPeerServerInfo, SQueryResult, and SClientRequest of src/peer_file_client.h. A PeerID is an int.
use p2p_file_sharing_system.Prelude.{
  ℕ, ◌-◌, ◌≡◌, Bool, true, ◌&&◌, [], ◌∷◌, ◌==◌, arith, if◌then◌else◌, ℤ, pos, negsuc, eq_ℤ, leb_ℤ,
  ◌+ℤ◌, ◌-ℤ◌,
}
use p2p_file_sharing_system.Result.{Result, ok, fault, signed_overflow}
use p2p_file_sharing_system.Text.{Bytes, codes, newline}
use p2p_file_sharing_system.Text.Number.{int_limit}
use p2p_file_sharing_system.Containers.{Key}

abbrev pub PeerId : Type 0
PeerId = ℤ

pub record MessageId : Type 0 where
  pub peer_id : PeerId
  pub msg_id : ℕ
  pub timestamp : ℤ

-- SMessageID::operator==, which leaves the timestamp out.
abbrev pub same_id : MessageId → MessageId → Bool
same_id a b = eq_ℤ a.peer_id b.peer_id && a.msg_id == b.msg_id

pub same_id_refl : (a : MessageId) → same_id a a ≡ true
same_id_refl a = ground arith

pub same_id_sym : (a b : MessageId) → same_id a b ≡ same_id b a
same_id_sym a b = ground arith

pub same_id_trans : (a b c : MessageId) → same_id a b ≡ true → same_id a c ≡ same_id b c
same_id_trans a b c h = ground arith

instance abbrev pub message_id_key : Key MessageId
message_id_key = record {
  same = same_id;
  same_refl = same_id_refl;
  same_sym = same_id_sym;
  same_trans = same_id_trans;
}

pub eq_ℤ_refl : (a : ℤ) → eq_ℤ a a ≡ true
eq_ℤ_refl a = ground arith

pub eq_ℤ_sym : (a b : ℤ) → eq_ℤ a b ≡ eq_ℤ b a
eq_ℤ_sym a b = ground arith

pub eq_ℤ_trans : (a b c : ℤ) → eq_ℤ a b ≡ true → eq_ℤ a c ≡ eq_ℤ b c
eq_ℤ_trans a b c h = ground arith

instance abbrev pub peer_id_key : Key ℤ
peer_id_key = record {
  same = eq_ℤ;
  same_refl = eq_ℤ_refl;
  same_sym = eq_ℤ_sym;
  same_trans = eq_ℤ_trans;
}

pub record PeerServerInfo : Type 0 where
  pub ip : Bytes
  pub port : ℤ

pub record QueryResult : Type 0 where
  pub server_info : PeerServerInfo
  pub timestamp : ℤ

pub data RequestType : Type 0 where
  download_file push_file : RequestType

pub record ClientRequest : Type 0 where
  pub req_type : RequestType
  pub filename : Bytes
  pub ip : Bytes
  pub port : ℤ

abbrev pub delim : Bytes
delim = newline ∷ []

abbrev pub no_limit : ℤ
no_limit = negsuc 0

-- The upstream of a query of one's own.
abbrev pub own_query : PeerId
own_query = negsuc 0

abbrev pub initial_ttl : ℤ
initial_ttl = pos 5

abbrev pub msg_buf_size : ℕ
msg_buf_size = 1024

abbrev pub peer_msg_query : Bytes
peer_msg_query = codes "peer_query"

abbrev pub peer_msg_query_hit : Bytes
peer_msg_query_hit = codes "peer_query_hit"

abbrev pub peer_msg_inv_query : Bytes
peer_msg_inv_query = codes "peer_inv_query"

abbrev pub peer_msg_inv_query_hit : Bytes
peer_msg_inv_query_hit = codes "peer_inv_query_hit"

abbrev pub peer_msg_con_test_query : Bytes
peer_msg_con_test_query = codes "peer_con_test_query"

abbrev pub peer_msg_test_obtain2 : Bytes
peer_msg_test_obtain2 = codes "peer_test_obtain_2"

-- `i--` on an int; below INT_MIN it is undefined.
unfoldable pub decrement : ℤ → Result ℤ
decrement z = if eq_ℤ z (negsuc (int_limit - 1)) then fault signed_overflow else ok (z -ℤ pos 1)

-- `k + i` for a port number k; above INT_MAX it is undefined.
unfoldable pub add_port : ℕ → ℤ → Result ℤ
add_port k z = if leb_ℤ (pos int_limit) (pos k +ℤ z) then fault signed_overflow else ok (pos k +ℤ z)

-- GetFileServerPort, GetPeerServerPort
unfoldable pub get_file_server_port : PeerId → Result ℤ
unfolding add_port
get_file_server_port peer_id = add_port 3000 peer_id

unfoldable pub get_peer_server_port : PeerId → Result ℤ
unfolding add_port
get_peer_server_port peer_id = add_port 2234 peer_id
