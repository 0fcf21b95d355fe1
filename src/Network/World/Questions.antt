-- ===== src/Network/World/Questions.antt =====
-- The queries of both kinds that the peers of a network hand to their neighbours pass through a buffer,
-- their own and those of others: CreateQueryMessage, CreateInvQueryMessage and DecreaseTTLAndRelay of
-- src/peer_client.cpp.
use p2p_file_sharing_system.Prelude.{
  ℕ, zero, suc, ◌≤◌, ◌<◌, ◌≡◌, refl, inl, false, arith, ℤ, pos, negsuc, ◌-ℤ◌, leb_ℤ, length,
  length-append,
}
use p2p_file_sharing_system.Text.{Bytes, Lacks, newline}
use p2p_file_sharing_system.Text.Number.{int_limit, to_string}
use p2p_file_sharing_system.Text.Number.RoundTrip.{Fits, to_string-Lacks_other, format-Lacks_other}
use p2p_file_sharing_system.Text.Number.Width.{
  length-format_uint64, length-to_string_int, length-to_string_int64,
}
use p2p_file_sharing_system.Text.Split.{join_string}
use p2p_file_sharing_system.Text.Split.Join.{join_string-Lacks}
use p2p_file_sharing_system.Ids.{msg_buf_size, initial_ttl}
use p2p_file_sharing_system.Peer.{Peer}
use p2p_file_sharing_system.Peer.Wire.{header_vec}
use p2p_file_sharing_system.Peer.Wire.Fields.{FitsId, CanDecrement}
use p2p_file_sharing_system.Peer.Queries.Refinement.{Query, encode_query, forwarded}
use p2p_file_sharing_system.Peer.Queries.Replication.{
  InvQuery, IsWellFormed as IsWellFormedInv, encode_inv_query, handed_on,
}
use p2p_file_sharing_system.Peer.Operations.Queries.{next_id, own_query_for}
use p2p_file_sharing_system.Network.Hop.{passes}
use p2p_file_sharing_system.Network.Conversation.{encode_query-Passes}
use p2p_file_sharing_system.Network.World.{Net, IsNet, IsNameable}
use p2p_file_sharing_system.Network.World.Invariant.{
  Caches, Knows, IsSound, IsSendable, IsSendableInv, Comes.query, Comes.inv_query, Leaves,
}

-- An inverse query of one's own for a file.
abbrev pub own_inv_query_for : Bytes → Peer → InvQuery
own_inv_query_for filename s = record {
  id = next_id s;
  ttl = initial_ttl;
  upstream = s.peer_id;
  filename = filename;
  factor = s.replication_factor -ℤ pos 1;
}

encode_inv_query-Lacks : (q : InvQuery) → Lacks 0 q.filename → Lacks 0 (encode_inv_query q)
unfolding encode_inv_query header_vec
encode_inv_query-Lacks q h =
    let digits : (z : ℤ) → Lacks 0 (to_string z) =
      to_string-Lacks_other 0 (omega arith, inl (omega arith)) in
    join_string-Lacks 0 newline _ (omega arith) (
      omega arith,
      (
        digits q.id.peer_id,
        (
          format-Lacks_other 0 (omega arith, inl (omega arith)) q.id.msg_id,
          (digits q.id.timestamp, (digits q.ttl, (digits q.upstream, (h, (digits q.factor, tt))))),
        ),
      ),
    )

length-encode_inv_query :
    (q : InvQuery)
    → IsWellFormedInv q
    → length q.filename ≤ 900
    → length (encode_inv_query q) < msg_buf_size
unfolding encode_inv_query header_vec join_string
length-encode_inv_query q wf h = simp length-append (
    omega (
      arith,
      length-to_string_int q.id.peer_id wf.id_fits.peer_fits,
      length-format_uint64 q.id.msg_id wf.id_fits.counter_fits,
      length-to_string_int64 q.id.timestamp wf.id_fits.time_fits,
      length-to_string_int q.ttl wf.ttl_fits.0,
      length-to_string_int q.upstream wf.upstream_fits,
      length-to_string_int q.factor wf.factor_fits.0,
    ))

-- An int that is more than one is so after it is counted down.
counts_down : (z : ℤ) → Fits int_limit z → leb_ℤ z (pos 1) ≡ false → CanDecrement (z -ℤ pos 1)
counts_down (pos zero) fits h = absurd (cc)
counts_down (pos (suc n)) fits h = (ground arith, λ e. ground arith)
counts_down (negsuc n) fits h = absurd (ground arith)

module _ (net : Net) (c : Caches) (i : ℕ) where
  -- A query that the peer i knows, with itself as upstream.
  pub query-Leaves :
      (q : Query)
      → IsSendable q
      → q.upstream ≡ pos i
      → Knows c i q.id
      → Leaves net c i (encode_query q)
  query-Leaves q sendable by_itself knows =
      let (b, through) = encode_query-Passes q sendable.wf sendable.zero_free sendable.short in
      record {
        buffer = b;
        through = through;
        comes = λ k fd socket. query q i fd refl sendable by_itself (rw by_itself socket) knows;
      }

  pub inv_query-Leaves :
      (q : InvQuery)
      → IsSendableInv q
      → q.upstream ≡ pos i
      → Knows c i q.id
      → Leaves net c i (encode_inv_query q)
  inv_query-Leaves q sendable by_itself knows =
      let (b, through) =
        passes (encode_inv_query q) (encode_inv_query-Lacks q sendable.zero_free)
          (length-encode_inv_query q sendable.wf sendable.short) in
      record {
        buffer = b;
        through = through;
        comes = λ k fd socket. inv_query q i fd refl sendable by_itself (rw by_itself socket) knows;
      }

module _ (net : Net) (is_net : IsNet net) (i : ℕ) (lt : i < net.size) (s : Peer)
    (self : s.peer_id ≡ pos i) where
  Fits-self : Fits int_limit s.peer_id
  Fits-self = rw self (omega (arith, is_net.bounded, lt))

  -- The query that the peer i hands on.
  pub forwarded-IsSendable :
      (q : Query) → IsSendable q → leb_ℤ q.ttl (pos 1) ≡ false → IsSendable (forwarded s q)
  unfolding forwarded
  forwarded-IsSendable q sendable alive = record {
    wf = record {
      id_fits = sendable.wf.id_fits;
      ttl_fits = counts_down q.ttl sendable.wf.ttl_fits.0 alive;
      upstream_fits = Fits-self;
      named = sendable.wf.named;
      one_line = sendable.wf.one_line;
    };
    zero_free = sendable.zero_free;
    short = sendable.short;
  }

  pub handed_on-IsSendable :
      (q : InvQuery)
      → IsSendableInv q
      → leb_ℤ q.factor (pos 1) ≡ false
      → leb_ℤ q.ttl (pos 1) ≡ false
      → IsSendableInv (handed_on s q)
  unfolding handed_on
  handed_on-IsSendable q sendable wanted alive = record {
    wf = record {
      id_fits = sendable.wf.id_fits;
      ttl_fits = counts_down q.ttl sendable.wf.ttl_fits.0 alive;
      upstream_fits = Fits-self;
      factor_fits = counts_down q.factor sendable.wf.factor_fits.0 wanted;
      one_line = sendable.wf.one_line;
    };
    zero_free = sendable.zero_free;
    short = sendable.short;
  }

  next_id-FitsId : (c : Caches) → IsSound net c i s → FitsId (next_id s)
  next_id-FitsId c sound = record {
    peer_fits = Fits-self;
    counter_fits = sound.counted;
    time_fits = sound.timed s.reads;
  }

  -- A query of its own.
  pub own_query-IsSendable :
      (c : Caches) (filename : Bytes)
      → IsSound net c i s
      → IsNameable filename
      → IsSendable (own_query_for filename s)
  own_query-IsSendable c filename sound nameable = record {
    wf = record {
      id_fits = next_id-FitsId c sound;
      ttl_fits = (omega arith, λ e. cc);
      upstream_fits = Fits-self;
      named = nameable.named;
      one_line = nameable.one_line;
    };
    zero_free = nameable.zero_free;
    short = nameable.short;
  }

  pub own_inv_query-IsSendable :
      (c : Caches) (filename : Bytes)
      → IsSound net c i s
      → IsNameable filename
      → leb_ℤ s.replication_factor (pos 1) ≡ false
      → IsSendableInv (own_inv_query_for filename s)
  own_inv_query-IsSendable c filename sound nameable wanted = record {
    wf = record {
      id_fits = next_id-FitsId c sound;
      ttl_fits = (omega arith, λ e. cc);
      upstream_fits = Fits-self;
      factor_fits = counts_down s.replication_factor sound.factored wanted;
      one_line = nameable.one_line;
    };
    zero_free = nameable.zero_free;
    short = nameable.short;
  }
