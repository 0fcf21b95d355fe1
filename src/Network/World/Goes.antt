-- ===== src/Network/World/Goes.antt =====
-- One round of a peer of src/peer_client.cpp in a network, and what it keeps of the peer.
use mathlib.Core.Path.{subst}
use p2p_file_sharing_system.Prelude.{
  List, ◌≢◌, some, ℕ, ◌≡◌, refl, true, false, ◌∙◌, ap, [], ◌∷◌, All-append,
}
use p2p_file_sharing_system.Result.{Result, ok, ◌>>=◌}
use p2p_file_sharing_system.Text.{Bytes}
use p2p_file_sharing_system.Containers.{lookup, contains}
use p2p_file_sharing_system.Ids.{QueryResult, PeerId, MessageId, message_id_key, peer_id_key}
use p2p_file_sharing_system.Peer.{Peer, broadcast}
use p2p_file_sharing_system.Network.World.{Net}
use p2p_file_sharing_system.Network.World.Invariant.{
  IsHonest, Caches, Knows, Grows, Leaves, IsSound, IsSound-Grows,
}

-- What a round of the peer i leaves: no fault, at least what was cached, and a peer of which the same
-- holds in every network whose caches have grown by the peer's own.
pub record Goes (net : Net) (c : Caches) (i : ℕ) (s : Peer) (r : Result Peer) : Type 0 where
  pub after : Peer
  pub runs : r ≡ ok after
  pub keeps : (id : MessageId) → contains id s.queries ≡ true → contains id after.queries ≡ true
  pub sound :
      (c' : Caches)
      → Grows c c'
      → ((id : MessageId) → contains id after.queries ≡ true → Knows c' i id)
      → IsSound net c' i after

-- A peer without what the messages of a network do not depend on.
abbrev pub core : Peer → Peer
core s = record s {
  query_hit_result = [];
  files = [];
  file_info_dirty = false;
  wait_queryhit = [];
  replicate_query_filename = [];
  requests = [];
  reads = 0;
}

abbrev pub IsSame : Peer → Peer → Type 0
IsSame s t = core s ≡ core t

same_queries :
    (id : MessageId) (t s : Peer)
    → t.queries ≡ s.queries
    → contains id s.queries ≡ true
    → contains id t.queries ≡ true
same_queries id t s e h = ap (contains id) e ∙ h

lookup-nil : (id : MessageId) (results : List QueryResult) → lookup id [] ≢ some results
unfolding lookup
lookup-nil id results found = cc

module _ (net : Net) (c : Caches) (i : ℕ) where
  core-IsSound : (s : Peer) → IsSound net c i s → IsSound net c i (core s)
  core-IsSound s sound = record {
    self = sound.self;
    wired = sound.wired;
    addressed = sound.addressed;
    timed = sound.timed;
    counted = sound.counted;
    factored = sound.factored;
    honest = (λ id results found. absurd (lookup-nil id results found), tt);
    known = sound.known;
    inbox = sound.inbox;
    outbox = sound.outbox;
    wire = sound.wire;
  }

  IsSound-core : (s : Peer) → IsHonest net s → IsSound net c i (core s) → IsSound net c i s
  IsSound-core s honest sound = record {
    self = sound.self;
    wired = sound.wired;
    addressed = sound.addressed;
    timed = sound.timed;
    counted = sound.counted;
    factored = sound.factored;
    honest = honest;
    known = sound.known;
    inbox = sound.inbox;
    outbox = sound.outbox;
    wire = sound.wire;
  }

  pub same-IsSound :
      (s t : Peer) → IsSame s t → IsHonest net t → IsSound net c i s → IsSound net c i t
  same-IsSound s t same honest sound =
      IsSound-core t honest (subst (IsSound net c i) same (core-IsSound s sound))

  pub same-Goes :
      (s t : Peer) → IsSame s t → IsHonest net t → IsSound net c i s → Goes net c i s (ok t)
  same-Goes s t same honest sound = record {
    after = t;
    runs = refl;
    keeps = λ id h. subst (λ (u : Peer). contains id u.queries ≡ true) same h;
    sound =
        λ c' grows covered. IsSound-Grows net c c' grows i t (same-IsSound s t same honest sound);
  }

  pub idle-Goes : (s : Peer) → IsSound net c i s → Goes net c i s (ok s)
  idle-Goes s sound = same-Goes s s refl sound.honest sound

  pub along-Goes : (s : Peer) (r r' : Result Peer) → r ≡ r' → Goes net c i s r' → Goes net c i s r
  along-Goes s r r' e goes = record {
    after = goes.after;
    runs = e ∙ goes.runs;
    keeps = goes.keeps;
    sound = goes.sound;
  }

  -- A round that goes on from a peer with more queries cached.
  pub onward-Goes :
      (s u : Peer) (r : Result Peer)
      → ((id : MessageId) → contains id s.queries ≡ true → contains id u.queries ≡ true)
      → Goes net c i u r
      → Goes net c i s r
  onward-Goes s u r more goes = record {
    after = goes.after;
    runs = goes.runs;
    keeps = λ id h. goes.keeps id (more id h);
    sound = goes.sound;
  }

  -- What is done to the peer that a round leaves.
  pub then-Goes :
      (s : Peer) (r : Result Peer) (g : Peer → Peer)
      → Goes net c i s r
      → ((t : Peer) → (g t).queries ≡ t.queries)
      → ((c' : Caches) (t : Peer)
          → ((id : MessageId) → contains id s.queries ≡ true → Knows c' i id)
          → IsSound net c' i t
          → IsSound net c' i (g t))
      → Goes net c i s (r >>= λ t. ok (g t))
  then-Goes s r g goes same kept =
      let covers = λ (id : MessageId) (h : contains id goes.after.queries ≡ true).
        same_queries id (g goes.after) goes.after (same goes.after) h in
      record {
        after = g goes.after;
        runs = ap (λ m. m >>= λ t. ok (g t)) goes.runs;
        keeps = λ id h. covers id (goes.keeps id h);
        sound = λ c' grows covered.
            kept c' goes.after (λ id h. covered id (covers id (goes.keeps id h)))
              (goes.sound c' grows (λ id h. covered id (covers id h)));
      }

  -- A query that goes to the other neighbours.
  pub broadcast-IsSound :
      (m : Bytes) (exclude : PeerId) (s : Peer)
      → IsSound net c i s
      → Leaves net c i m
      → IsSound net c i (broadcast s m exclude)
  unfolding broadcast
  broadcast-IsSound m exclude s sound leaves = record {
    self = sound.self;
    wired = sound.wired;
    addressed = sound.addressed;
    timed = sound.timed;
    counted = sound.counted;
    factored = sound.factored;
    honest = sound.honest;
    known = sound.known;
    inbox = sound.inbox;
    outbox = All-append _ s.broadcast_queue ((m, exclude) ∷ []) sound.outbox (leaves, tt);
    wire = sound.wire;
  }
