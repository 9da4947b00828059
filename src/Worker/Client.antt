-- ===== src/Worker/Client.antt =====
-- src/workers/worker.cpp: how a worker takes a client that the main thread sends it, and the timer that
-- closes a client whose application has not been told of it in time. Whether `new`, epoller.add and the SSL
-- library succeed, and what on_create of the context does, are parameters.
use avant.Base.Set
use avant.Base.{
  ℕ, ℤ, pos, eq_ℤ, leb_ℤ, Bool, true, false, not, ◌==◌, Option, none, some, List, [], ◌∷◌, ◌++◌,
  if◌then◌else◌, int_eq,
}
use avant.Connection.{Connection}
use avant.ConnectionMgr.{
  ConnectionMgr, alloc_connection, get_conn, get_conn_by_gid, deref, at_index,
}
use avant.Timer.{Timer, new_timer, add, check_and_handle}
use avant.Worker.{
  WorkerState, TaskType, none_task, http_task, stream_task, websocket_task, close_client_fd,
}

-- what the worker asks of its surroundings
pub record Surroundings : Type 0 where
  -- begin of the set of free indices
  pub begin : List ℕ → Option ℕ
  pub use_ssl : Bool
  -- `new (std::nothrow)` of the context gave one
  pub ctx_made : Bool
  -- epoller.add returned 0
  pub poller_adds : Bool
  -- SSL_new gave an instance, and SSL_set_fd returned 1
  pub ssl_made : Bool

-- an assignment to the connection at an index of the pool
unfoldable pub at_conn : (Connection → Connection) → ℕ → WorkerState → WorkerState
at_conn f index w = record w {
  worker_connection_mgr = record w.worker_connection_mgr {
    connection_pool = elim w.worker_connection_mgr.connection_pool [
      | none ↦ none
      | some pool ↦ some (at_index f index pool)
    ];
  };
}

-- The stages of on_new_client_fd give whether to go on, and the state. A stage that fails returns after
-- close_client_fd.
-- the block of a type: a context where there is none
unfoldable pub make_context : Surroundings → Connection → ℕ → WorkerState → Bool × WorkerState
unfolding at_conn
make_context x conn index w =
    if conn.has_ctx
    then (true, w)
    else if x.ctx_made
    then (true, at_conn (λ c. record c { has_ctx = true }) index w)
    else (false, w)

unfoldable pub create_context :
    Surroundings → TaskType → Connection → ℕ → WorkerState → Bool × WorkerState
unfolding make_context
create_context x type conn index w = elim type [
  | none_task ↦ (false, w)
  | http_task ↦ make_context x conn index w
  | stream_task ↦ make_context x conn index w
  | websocket_task ↦ make_context x conn index w
]

-- set_fd, then epoller.add
unfoldable pub reset_socket : Surroundings → ℤ → ℕ → WorkerState → Bool × WorkerState
unfolding at_conn
reset_socket x fd index w =
    let set = at_conn (λ c. record c { socket_fd = fd }) index w in
    (x.poller_adds, record set { added_events = set.added_events ++ (fd ∷ []) })

unfoldable pub start_ssl : Surroundings → Connection → ℕ → WorkerState → Bool × WorkerState
unfolding at_conn
start_ssl x conn index w =
    if x.use_ssl
    then (if conn.has_ssl
        then (false, w)
        else if x.ssl_made
        then (true, at_conn (λ c. record c { has_ssl = true }) index w)
        else (false, w))
    else (true, w)

-- the timer of 5 seconds
unfoldable pub start_timer : ℤ → Connection → WorkerState → Bool × WorkerState
start_timer fd conn w =
    let added =
      add (some (new_timer conn.gid w.m_latest_tick_time_monotonic (pos 1) 5 (some fd)))
        w.m_conn_timeout_timer_manager in
    elim added.0 [
      | none ↦ (false, w)
      | some timer ↦ (true, record w { m_conn_timeout_timer_manager = added.1 })
    ]

module _ (x : Surroundings) (type : TaskType) (on_create : ℤ → WorkerState → WorkerState) where
  -- on_new_client_fd once the connection at `index` is there
  unfoldable pub open_conn : ℤ → Connection → ℕ → WorkerState → WorkerState
  unfolding create_context reset_socket start_ssl start_timer
  open_conn fd conn index w0 =
      let created = create_context x type conn index w0 in
      if not created.0
      then close_client_fd fd created.1
      else (let reset = reset_socket x fd index created.1 in
          if not reset.0
          then close_client_fd fd reset.1
          else (let ssl = start_ssl x conn index reset.1 in
              if not ssl.0
              then close_client_fd fd ssl.1
              else (let timed = start_timer fd conn ssl.1 in
                  if not timed.0 then close_client_fd fd timed.1 else on_create fd timed.1)))

  -- on_new_client_fd with what alloc_connection gave
  unfoldable pub after_alloc : ℤ → WorkerState → ℤ × ConnectionMgr → WorkerState
  unfolding open_conn
  after_alloc fd w allocated =
      let w0 = record w { worker_connection_mgr = allocated.1 } in
      if not (eq_ℤ allocated.0 (pos 0))
      then close_client_fd fd w0
      else elim (get_conn fd w0.worker_connection_mgr) [
        | none ↦ close_client_fd fd w0
        | some index ↦ elim (deref w0.worker_connection_mgr (some index)) [
          | none ↦ close_client_fd fd w0
          | some conn ↦ open_conn fd conn index w0
        ]
      ]

  unfoldable pub on_new_client_fd : ℤ → ℕ → WorkerState → WorkerState
  unfolding after_alloc
  on_new_client_fd fd gid w =
      if not (leb_ℤ (pos 0) fd)
      then w
      else after_alloc fd w (alloc_connection x.begin fd gid w.worker_connection_mgr)

-- the callback of the timer, which captures `fd`
unfoldable pub on_timeout : ℤ → Timer ℤ → WorkerState → WorkerState
on_timeout fd timer_instance w =
    elim (deref w.worker_connection_mgr
      (get_conn_by_gid timer_instance.m_id w.worker_connection_mgr)) [
        | none ↦ w
        | some conn ↦
            if conn.app_layer_notified
            then w
            else record w { m_timeout_fd = Set.insert fd w.m_timeout_fd }
      ]

abbrev pub close_all : List ℤ → WorkerState → WorkerState
close_all [] w = w
close_all (fd ∷ fds) w = close_all fds (close_client_fd fd w)

-- The part of a run of the event loop before the events: it gives timeout_fd_copy too.
unfoldable pub run_timers : ℕ → WorkerState → List ℤ × WorkerState
unfolding on_timeout
run_timers now w0 =
    let w = record w0 { m_closed_fd = [] } in
    if w.m_latest_tick_time_monotonic == now
    then ([], w)
    else (let ticked = record w { m_latest_tick_time_monotonic = now } in
        let checked = check_and_handle on_timeout now ticked.m_conn_timeout_timer_manager ticked in
        let late = (checked.1).m_timeout_fd in
        (
          late,
          record (close_all late
              (record (checked.1) { m_conn_timeout_timer_manager = checked.0 })) {
                m_timeout_fd = [];
              },
        ))
