-- ===== src/FileTransfer/Server.antt =====
-- The connections of the file server: the accept loop of CPeerFileServer::Run with its count of
-- sockets, and the four threads of HandleRequestThreadFunc, as steps of one state. Each step is what is
-- done under one mutex.
use p2p_file_sharing_system.Prelude.{
  ℕ, ◌+◌, ◌-◌, ◌≤◌, ◌≡◌, refl, ◌∙◌, ap, Option, none, some, List, [], ◌∷◌, ◌++◌, replicate, arith,
  length, length-append, ltb, if◌then◌else◌,
}

-- MAX_SOCKET_FD_QUEUE_SIZE and FILE_SERVER_THREAD_NUM
abbrev pub max_socket_fd_queue_size : ℕ
max_socket_fd_queue_size = 300

abbrev pub file_server_thread_num : ℕ
file_server_thread_num = 4

-- `accepted` is the socket that the accept loop has counted and not put in the queue yet; `threads` are
-- the threads, each with the socket it serves or `none` while it waits for one; `refused` are the sockets
-- that were closed at once.
pub record Server : Type 0 where
  pub socket_fd_counts : ℕ
  pub accepted : Option ℕ
  pub socket_fd_queue : List ℕ
  pub threads : List (Option ℕ)
  pub refused : List ℕ

-- The constructor and Init.
abbrev pub start : Server
start = record {
  socket_fd_counts = 0;
  accepted = none;
  socket_fd_queue = [];
  threads = replicate file_server_thread_num none;
  refused = [];
}

-- A connection comes in, and is counted or closed.
unfoldable pub accept_client : ℕ → Server → Server
accept_client fd s =
    if ltb max_socket_fd_queue_size s.socket_fd_counts
    then record s { refused = fd ∷ s.refused }
    else record s { socket_fd_counts = s.socket_fd_counts + 1; accepted = some fd }

-- The socket that was counted goes to the end of the queue.
unfoldable pub push_client : Option ℕ → Server → Server
push_client none s = s
push_client (some fd) s = record s {
  accepted = none;
  socket_fd_queue = s.socket_fd_queue ++ fd ∷ [];
}

-- The head of the queue goes to the thread between these, which goes on waiting where there is none.
unfoldable pub begin_client : List (Option ℕ) → List (Option ℕ) → List ℕ → Server → Server
begin_client before behind [] s = s
begin_client before behind (fd ∷ queue) s = record s {
  socket_fd_queue = queue;
  threads = before ++ some fd ∷ behind;
}

-- Behind HandleClient the count goes down, and the thread between these waits again.
unfoldable pub finish_client : List (Option ℕ) → List (Option ℕ) → Server → Server
finish_client before behind s = record s {
  socket_fd_counts = s.socket_fd_counts - 1;
  threads = before ++ none ∷ behind;
}

-- The loop accepts where it has no socket in hand, clients come at any time, and the threads work in any
-- order: each that waits may take a socket, and each that serves one may be done next.
pub data Step : Server → Server → Type 0 where
  accepts : (fd : ℕ) (s : Server) → s.accepted ≡ none → Step s (accept_client fd s)
  pushes : (s : Server) → Step s (push_client s.accepted s)
  begins :
      (before behind : List (Option ℕ)) (s : Server)
      → s.threads ≡ before ++ none ∷ behind
      → Step s (begin_client before behind s.socket_fd_queue s)
  finishes :
      (before : List (Option ℕ)) (fd : ℕ) (behind : List (Option ℕ)) (s : Server)
      → s.threads ≡ before ++ some fd ∷ behind
      → Step s (finish_client before behind s)

pub data Reach : Server → Type 0 where
  initially : Reach start
  step : {s t : Server} → Reach s → Step s t → Reach t

-- The sockets that these have.
unfoldable pub held : List (Option ℕ) → ℕ
held [] = 0
held (none ∷ threads) = held threads
held (some fd ∷ threads) = held threads + 1

held-append :
    (before behind : List (Option ℕ)) → held (before ++ behind) ≡ held before + held behind
unfolding held
held-append [] behind = omega arith
held-append (none ∷ before) behind = held-append before behind
held-append (some fd ∷ before) behind = omega (arith, held-append before behind)

held-length : (threads : List (Option ℕ)) → held threads ≤ length threads
unfolding held
held-length [] = omega arith
held-length (none ∷ threads) = omega (arith, held-length threads)
held-length (some fd ∷ threads) = omega (arith, held-length threads)

pub record Inv (s : Server) : Type 0 where
  pub counted :
      s.socket_fd_counts ≡ held (s.accepted ∷ []) + length s.socket_fd_queue + held s.threads
  pub bounded : s.socket_fd_counts ≤ max_socket_fd_queue_size + 1
  pub same_threads : length s.threads ≡ file_server_thread_num

pushed-Inv : (o : Option ℕ) (s : Server) → s.accepted ≡ o → Inv s → Inv (push_client o s)
unfolding push_client held
pushed-Inv none s e v = v
pushed-Inv (some fd) s e v = record {
  counted =
      omega
        (arith, v.counted, ap (λ o. held (o ∷ [])) e, length-append s.socket_fd_queue (fd ∷ []));
  bounded = v.bounded;
  same_threads = v.same_threads;
}

-- A thread has taken another socket, or none.
replaced :
    (before behind threads : List (Option ℕ)) (o p : Option ℕ)
    → threads ≡ before ++ o ∷ behind
    → (held (before ++ p ∷ behind) + held (o ∷ []) ≡ held threads + held (p ∷ []))
      × (length (before ++ p ∷ behind) ≡ length threads)
unfolding held
replaced before behind threads o p e = (
  omega (
    arith,
    ap held e,
    held-append before (o ∷ behind),
    held-append before (p ∷ behind),
    held-append (o ∷ []) behind,
    held-append (p ∷ []) behind,
  ),
  omega (arith, ap length e, length-append before (o ∷ behind), length-append before (p ∷ behind)),
)

begun-Inv :
    (before behind : List (Option ℕ)) (queue : List ℕ) (s : Server)
    → s.threads ≡ before ++ none ∷ behind
    → s.socket_fd_queue ≡ queue
    → Inv s
    → Inv (begin_client before behind queue s)
unfolding begin_client held
begun-Inv before behind [] s e f v = v
begun-Inv before behind (fd ∷ queue) s e f v =
    let (more, same) = replaced before behind s.threads none (some fd) e in
    record {
      counted = omega (arith, v.counted, ap length f, more);
      bounded = v.bounded;
      same_threads = same ∙ v.same_threads;
    }

Step-Inv : {s t : Server} → Step s t → Inv s → Inv t
unfolding accept_client finish_client held
Step-Inv (accepts fd s e) v = ground (arith, ap (λ o. held (o ∷ [])) e)
Step-Inv (pushes s) v = pushed-Inv s.accepted s refl v
Step-Inv (begins before behind s e) v = begun-Inv before behind s.socket_fd_queue s e refl v
Step-Inv (finishes before fd behind s e) v =
    let (fewer, same) = replaced before behind s.threads (some fd) none e in
    record {
      counted = omega (arith, v.counted, fewer);
      bounded = omega (arith, v.bounded);
      same_threads = same ∙ v.same_threads;
    }

Reach-Inv : {s : Server} → Reach s → Inv s
Reach-Inv initially = unfold held in omega arith
Reach-Inv (step r st) = Step-Inv st (Reach-Inv r)

-- Whatever the order in which clients come, the loop counts and queues them and threads work: the count
-- is that of the sockets that the loop has in hand, that wait in the queue and that threads serve, at most
-- one more than the limit, and at most four are served.
pub socket_fd_counts_lem :
    {s : Server}
    → Reach s
    → (s.socket_fd_counts ≡ held (s.accepted ∷ []) + length s.socket_fd_queue + held s.threads)
      × (s.socket_fd_counts ≤ max_socket_fd_queue_size + 1)
      × (held s.threads ≤ file_server_thread_num)
socket_fd_counts_lem {s} r =
    let v = Reach-Inv r in
    (v.counted, v.bounded, omega (arith, v.same_threads, held-length s.threads))
