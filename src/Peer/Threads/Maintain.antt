-- ===== src/Peer/Threads/Maintain.antt =====
-- MantainQueryMapSize of src/peer_client.cpp, over its three maps.
use p2p_file_sharing_system.Prelude.{
  ◌+◌, ◌≡◌, refl, Bool, true, false, List, [], ◌∷◌, arith, length, ltb, if◌then◌else◌, All, ℤ, pos,
  ◌+ℤ◌, ◌-ℤ◌, ltb_ℤ,
}
use p2p_file_sharing_system.Result.{ok}
use p2p_file_sharing_system.Text.Number.{int64_limit}
use p2p_file_sharing_system.Text.Number.RoundTrip.{Fits}
use p2p_file_sharing_system.Containers.{collect_keys}
use p2p_file_sharing_system.Containers.Laws.{Distinct}
use p2p_file_sharing_system.Containers.Sweep.{keep_entries, erase_all-collect_keys}
use p2p_file_sharing_system.Ids.{MessageId, message_id_key}
use p2p_file_sharing_system.Peer.{Peer, get_timestamp}
use p2p_file_sharing_system.Peer.Threads.{mantain_query_map_size, is_old, collect_old, time_out_ms}

-- The two minutes of a query are over.
abbrev pub is_over : ℤ → MessageId → Bool
is_over now id = ltb_ℤ (id.timestamp +ℤ pos time_out_ms) now

-- The age of each entry is an int64.
abbrev pub AllTimed {ℓ} : {V : Type ℓ} → ℤ → List (MessageId × V) → Type 0
AllTimed {V = V} now = All (λ (e : MessageId × V). Fits int64_limit (now -ℤ e.0.timestamp))

ages : (now t : ℤ) → ltb_ℤ (pos time_out_ms) (now -ℤ t) ≡ ltb_ℤ (t +ℤ pos time_out_ms) now
ages now t = ground arith

is_old-is_over :
    (now : ℤ) (id : MessageId)
    → Fits int64_limit (now -ℤ id.timestamp)
    → is_old now id ≡ ok (is_over now id)
unfolding is_old
is_old-is_over now id fits = ground (arith, ages now id.timestamp)

collect_old-collect_keys {ℓ} :
    {V : Type ℓ} (now : ℤ) (m : List (MessageId × V))
    → AllTimed now m
    → collect_old now m ≡ ok (collect_keys (is_over now) m)
unfolding collect_old collect_keys
collect_old-collect_keys now [] h = refl
collect_old-collect_keys now ((id, v) ∷ m) (fits, h) =
    rw (is_old-is_over now id fits, collect_old-collect_keys now m h) refl

ok_either {ℓ} :
    {A : Type ℓ} (b : Bool) (x y : A) → (if b then ok x else ok y) ≡ ok (if b then x else y)
ok_either true x y = refl
ok_either false x y = refl

-- With fewer than 120000 cached queries the round changes nothing. With as many or more, if no map holds
-- a key twice and the age of no entry overflows an int64, just the entries of the three maps stay whose
-- query is not older than two minutes, and besides that the clock was read nothing else changes.
pub mantain_query_map_size_lem :
    (s : Peer)
    → Distinct s.queries
    → Distinct s.query_hit_result
    → Distinct s.wait_queryhit
    → AllTimed (s.clock s.reads) s.queries
    → AllTimed (s.clock s.reads) s.query_hit_result
    → AllTimed (s.clock s.reads) s.wait_queryhit
    → let over = is_over (s.clock s.reads) in
      mantain_query_map_size s
      ≡ ok (
          if ltb (length s.queries) time_out_ms then s else record s {
            reads = s.reads + 1;
            queries = keep_entries over s.queries;
            query_hit_result = keep_entries over s.query_hit_result;
            wait_queryhit = keep_entries over s.wait_queryhit;
          })
unfolding mantain_query_map_size get_timestamp
mantain_query_map_size_lem s dq dr dw tq tr tw =
    let now = s.clock s.reads in
    rw
      (
        collect_old-collect_keys now s.queries tq,
        collect_old-collect_keys now s.query_hit_result tr,
        collect_old-collect_keys now s.wait_queryhit tw,
        erase_all-collect_keys (is_over now) s.queries dq,
        erase_all-collect_keys (is_over now) s.query_hit_result dr,
        erase_all-collect_keys (is_over now) s.wait_queryhit dw,
      )
      (ok_either (ltb (length s.queries) time_out_ms) _ _)
