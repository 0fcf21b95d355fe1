-- ===== src/Peer/Wire/Fields.antt =====
-- The fields of the messages of src/peer_client.cpp, as its handlers read them.
use p2p_file_sharing_system.Prelude.{
  ◌-◌, ◌<◌, ◌≡◌, ◌≢◌, List, ◌∷◌, ◌++◌, arith, ℤ, pos, negsuc, ◌-ℤ◌, leb_ℤ, if◌then◌else◌, All,
  All-append,
}
use p2p_file_sharing_system.Result.{ok}
use p2p_file_sharing_system.Text.{Bytes, Lacks, newline}
use p2p_file_sharing_system.Text.Number.{int_limit, int64_limit, uint64_mod}
use p2p_file_sharing_system.Text.Number.RoundTrip.{
  Fits, stoi-to_string, stoll-to_string, stoull-format, to_string-Lacks, format-Lacks,
}
use p2p_file_sharing_system.Text.Split.{split_string, join_string}
use p2p_file_sharing_system.Text.Split.Join.{LastFilled, split_string-join_string}
use p2p_file_sharing_system.Ids.{PeerId, MessageId, delim, no_limit, decrement}
use p2p_file_sharing_system.Peer.{Peer, read_message_id, relay_query}
use p2p_file_sharing_system.Peer.Wire.{header_vec}
use p2p_file_sharing_system.Peer.Queries.{decrease_ttl_and_relay}

-- The ids that fit the types of SMessageID.
pub record FitsId (id : MessageId) : Type 0 where
  pub peer_fits : Fits int_limit id.peer_id
  pub counter_fits : id.msg_id < uint64_mod
  pub time_fits : Fits int64_limit id.timestamp

-- An int that can be counted down.
abbrev pub CanDecrement : ℤ → Type 0
CanDecrement z = Fits int_limit z × (z ≢ negsuc (int_limit - 1))

pub read_message_id-header :
    (msg_type : Bytes) (id : MessageId) (ttl sender : ℤ) (tail : List Bytes)
    → FitsId id
    → read_message_id (header_vec msg_type id ttl sender ++ tail) ≡ ok id
unfolding read_message_id header_vec
read_message_id-header msg_type id ttl sender tail fits = rw (
  stoi-to_string id.peer_id fits.peer_fits,
  stoull-format id.msg_id fits.counter_fits,
  stoll-to_string id.timestamp fits.time_fits,
)

pub split_string-header :
    (msg_type : Bytes) (id : MessageId) (ttl sender : ℤ) (p : Bytes) (tail : List Bytes)
    → Lacks newline msg_type
    → All (Lacks newline) (p ∷ tail)
    → LastFilled (p ∷ tail)
    → split_string
        (join_string (header_vec msg_type id ttl sender ++ p ∷ tail) delim)
        delim
        no_limit
      ≡ header_vec msg_type id ttl sender ++ p ∷ tail
unfolding header_vec
split_string-header msg_type id ttl sender p tail lacks rest filled =
    split_string-join_string _ newline
      (All-append (Lacks newline) (header_vec msg_type id ttl sender) (p ∷ tail) header rest) filled
  where
    header : All (Lacks newline) (header_vec msg_type id ttl sender)
    header = (
      lacks,
      (
        to_string-Lacks id.peer_id,
        (
          format-Lacks id.msg_id,
          (to_string-Lacks id.timestamp, (to_string-Lacks ttl, (to_string-Lacks sender, tt))),
        ),
      ),
    )

pub decrement_lem : (z : ℤ) → CanDecrement z → decrement z ≡ ok (z -ℤ pos 1)
unfolding decrement
decrement_lem z (fits, ne) = ground arith

-- What the last step of a query's handler sends on.
pub decrease_ttl-header :
    (s : Peer) (msg_type : Bytes) (id : MessageId) (ttl sender : ℤ) (tail : List Bytes)
    (upstream : PeerId)
    → CanDecrement ttl
    → decrease_ttl_and_relay s (header_vec msg_type id ttl sender ++ tail) upstream
      ≡ ok (
          if leb_ℤ (ttl -ℤ pos 1) (pos 0)
          then s
          else relay_query s
              (join_string (header_vec msg_type id (ttl -ℤ pos 1) s.peer_id ++ tail) delim)
              upstream)
unfolding decrease_ttl_and_relay header_vec
decrease_ttl-header s msg_type id ttl sender tail upstream can =
    rw (stoi-to_string ttl can.0, decrement_lem ttl can)
