-- ===== src/Worker/Accept.antt =====
-- The outcome of on_new_client_fd.
use avant.Base.Map
use avant.Base.Set
use avant.Base.{
  ℕ, ◌≡◌, ◌≢◌, ◌⊎◌, List, [], ◌∷◌, ◌++◌, length, is_some, refl, ap, ◌∙◌, ℤ, pos, leb_ℤ, Bool, true,
  false, not, ◌&&◌, none, some, if◌then◌else◌, arith, nat_eq, int_eq, inl, inr,
}
use avant.Connection.{Connection}
use avant.ConnectionMgr.{ConnectionMgr, bind_index, get_conn, deref}
use avant.ConnectionMgr.Inv.{IsWf, IsBegin}
use avant.ConnectionMgr.Alloc.{alloc_cases, opened, has_ssl-opened, fd_index, named}
use avant.Timer.{new_timer}
use avant.Timer.Indexed.{IsIndexed, timer_of}
use avant.Worker.{WorkerState, TaskType, none_task, close_client_fd}
use avant.Worker.Client.{
  Surroundings, create_context, reset_socket, start_ssl, start_timer, open_conn, after_alloc,
  on_new_client_fd,
}
use avant.Worker.Stages.{
  IsStaged, WithContext, WithSocket, WithSsl, create_context-IsStaged, reset_socket-IsStaged,
  start_ssl-IsStaged, start_timer-IsOpening, start_timer_lem,
}
use avant.Worker.Opening.{
  IsOpening, IsRefused, bind_index-IsOpening, close_client_fd-IsRefused, close_client_fd_unknown,
}

-- The worker has taken the client: its connection stands open, has a context, holds the descriptor and
-- an SSL instance where one is asked for, the descriptor is at the poller, and its timer of 5 seconds runs.
-- The worker has a type, and what it asked for it was given.
pub record IsTaken (x : Surroundings) (type : TaskType) (fd : ℤ) (gid : ℕ) (w w' : WorkerState)
    : Type 0 where
  pub index : ℕ
  pub conn : Connection
  pub opening : IsOpening fd gid index conn w w'
  pub context : conn.has_ctx ≡ true
  pub socket : conn.socket_fd ≡ fd
  pub ssl : x.use_ssl && not conn.has_ssl ≡ false
  pub event : w'.added_events ≡ w.added_events ++ (fd ∷ [])
  pub timer :
      timer_of gid w'.m_conn_timeout_timer_manager
      ≡ some (new_timer gid w.m_latest_tick_time_monotonic (pos 1) 5 (some fd))
  pub typed : type ≢ none_task
  pub poller_added : x.poller_adds ≡ true
  pub ssl_given : x.use_ssl && not x.ssl_made ≡ false

-- why a client is refused: the pool has no place for it or has its gid already, the worker has no type, the
-- context, the poller or the SSL library fails, or a free connection still has an SSL instance
pub data Cause (x : Surroundings) (type : TaskType) (gid : ℕ) (w : WorkerState) : Type 0 where
  no_pool : w.worker_connection_mgr.connection_pool ≡ none → Cause x type gid w
  no_place : length w.worker_connection_mgr.unused_set ≡ 0 → Cause x type gid w
  gid_bound : is_some (Map.find gid w.worker_connection_mgr.gid2fd) ≡ true → Cause x type gid w
  no_type : type ≡ none_task → Cause x type gid w
  no_context : x.ctx_made ≡ false → Cause x type gid w
  not_added : x.poller_adds ≡ false → Cause x type gid w
  no_ssl : x.use_ssl ≡ true → x.ssl_made ≡ false → Cause x type gid w
  left_ssl :
      (i : ℕ) (c : Connection)
      → x.use_ssl ≡ true
      → Set.contains i w.worker_connection_mgr.unused_set ≡ true
      → deref w.worker_connection_mgr (some i) ≡ some c
      → c.has_ssl ≡ true
      → Cause x type gid w

module _ (x : Surroundings) (type : TaskType) (on_create : ℤ → WorkerState → WorkerState) (fd : ℤ)
    (gid : ℕ) (w : WorkerState) where
  -- The client is refused for a cause, or taken and then created.
  abbrev pub IsOutcome : WorkerState → Type 0
  IsOutcome r =
      (IsRefused fd gid w r × Cause x type gid w)
      ⊎ ((w' : WorkerState) × IsTaken x type fd gid w w' × (r ≡ on_create fd w'))

  stage-IsOutcome :
      (index : ℕ) (P : Connection → WorkerState → Type 0) (Q : Type 0) (r : Bool × WorkerState)
      (next : WorkerState → WorkerState)
      → IsStaged fd gid index w P Q r
      → (Q → Cause x type gid w)
      → ((c : Connection) → IsOpening fd gid index c w r.1 → P c r.1 → IsOutcome (next r.1))
      → IsOutcome (if not r.0 then close_client_fd fd r.1 else next r.1)
  stage-IsOutcome index P Q r next (inl (e, c, o, q)) why go_on =
      rw e (inl (close_client_fd-IsRefused fd gid index c w r.1 o, why q))
  stage-IsOutcome index P Q r next (inr (e, c, o, p)) why go_on = rw e (go_on c o p)

  untyped : (type ≡ none_task) ⊎ (x.ctx_made ≡ false) → Cause x type gid w
  untyped (inl e) = no_type e
  untyped (inr e) = no_context e

  open_conn-IsOutcome :
      (index : ℕ) (conn : Connection) (w0 : WorkerState)
      → IsOpening fd gid index conn w w0
      → w0.added_events ≡ w.added_events
      → (x.use_ssl ≡ true → conn.has_ssl ≡ true → Cause x type gid w)
      → IsOutcome (open_conn x type on_create fd conn index w0)
  unfolding open_conn
  open_conn-IsOutcome index conn w0 h same left =
      stage-IsOutcome index (λ c v. (type ≢ none_task) × WithContext x fd gid index w conn w0 c v)
        ((type ≡ none_task) ⊎ (x.ctx_made ≡ false)) (create_context x type conn index w0)
        with_context (create_context-IsStaged x fd gid index w type w0 conn h) untyped
        (λ c1 o1 p1.
          stage-IsOutcome index
            (WithSocket x fd gid index w c1 (create_context x type conn index w0).1)
            (x.poller_adds ≡ false)
            (reset_socket x fd index (create_context x type conn index w0).1) with_socket
            (reset_socket-IsStaged x fd gid index w (create_context x type conn index w0).1 c1 o1)
            not_added
            (λ c2 o2 p2.
              stage-IsOutcome index
                (WithSsl x fd gid index w c2
                  (reset_socket x fd index (create_context x type conn index w0).1).1)
                ((x.use_ssl ≡ true) × ((conn.has_ssl ≡ true) ⊎ (x.ssl_made ≡ false)))
                (start_ssl x conn index
                  (reset_socket x fd index (create_context x type conn index w0).1).1)
                with_ssl
                (start_ssl-IsStaged x fd gid index w
                  (reset_socket x fd index (create_context x type conn index w0).1).1 conn c2 o2)
                failed
                (λ c3 o3 p3.
                  taken
                    (start_ssl x conn index
                      (reset_socket x fd index (create_context x type conn index w0).1).1).1
                    c3 o3 (p3.0 ∙ p2.0 ∙ p1.1.0) (p3.1 ∙ p2.2) p3.2
                    (p3.3 ∙ p2.3 ∙ ap (λ (es : List ℤ). es ++ (fd ∷ [])) (p1.1.2 ∙ same)) p1.0 p2.4
                    p3.4)))
    where
      failed :
          (x.use_ssl ≡ true) × ((conn.has_ssl ≡ true) ⊎ (x.ssl_made ≡ false)) → Cause x type gid w
      failed (asked, inl e) = left asked e
      failed (asked, inr e) = no_ssl asked e

      with_ssl : WorkerState → WorkerState
      with_ssl v =
          let timed = start_timer fd conn v in
          if not timed.0 then close_client_fd fd timed.1 else on_create fd timed.1

      taken :
          (v : WorkerState) (c : Connection)
          → IsOpening fd gid index c w v
          → c.has_ctx ≡ true
          → c.socket_fd ≡ fd
          → x.use_ssl && not c.has_ssl ≡ false
          → v.added_events ≡ w.added_events ++ (fd ∷ [])
          → type ≢ none_task
          → x.poller_adds ≡ true
          → x.use_ssl && not x.ssl_made ≡ false
          → IsOutcome (with_ssl v)
      taken v c o a b d events typed added_there given =
          let timed = start_timer-IsOpening x fd gid index w v conn c h.its_gid o in
          let added : (start_timer fd conn v).0 ≡ true =
            ap (λ (r : Bool × WorkerState). r.0) (start_timer_lem x fd gid index w v conn) in
          rw added (
            inr (
              (start_timer fd conn v).1,
              record {
                index = index;
                conn = c;
                opening = timed.0;
                context = a;
                socket = b;
                ssl = d;
                event = timed.2 ∙ events;
                timer = timed.1;
                typed = typed;
                poller_added = added_there;
                ssl_given = given;
              },
              refl,
            ))

      with_socket : WorkerState → WorkerState
      with_socket v =
          let ssl = start_ssl x conn index v in
          if not ssl.0 then close_client_fd fd ssl.1 else with_ssl ssl.1

      with_context : WorkerState → WorkerState
      with_context v =
          let reset = reset_socket x fd index v in
          if not reset.0 then close_client_fd fd reset.1 else with_socket reset.1

  -- an SSL instance that the connection had before it was handed out
  opened-left :
      (i : ℕ) (pool : List Connection) (h : IsWf w.worker_connection_mgr)
      (p : w.worker_connection_mgr.connection_pool ≡ some pool)
      (free : Set.contains i w.worker_connection_mgr.unused_set ≡ true)
      → x.use_ssl ≡ true
      → (opened fd gid i pool w.worker_connection_mgr h p free).has_ssl ≡ true
      → Cause x type gid w
  opened-left i pool h p free asked e =
      let c = has_ssl-opened fd gid i pool w.worker_connection_mgr h p free in
      left_ssl i c.0 asked free c.1 (c.2 ∙ e)

  -- Where a worker whose pool is well formed and whose timers are in order gets a client whose
  -- descriptor is not negative and none of its own, and `begin` names a free index unless there is
  -- none, there are two outcomes. The client is refused, with no connection more or less, the other gids
  -- naming what they named, and both counters one less; and then there is no pool or no free index, or
  -- the gid is bound, or the worker has no type, or the context cannot be made, or the poller does not
  -- add, or with SSL the instance cannot be made or a free connection still has one. Or its connection
  -- stands open, neither closed nor marked to be closed, with a context, the descriptor, the SSL instance
  -- where one is asked for, its descriptor added to the poller and a timer of 5 seconds, the counters as
  -- they were, and on_create of its context is called next; and then the worker has a type, the poller
  -- has added, and with SSL the instance was made.
  pub on_new_client_fd-IsOutcome :
      IsBegin x.begin
      → IsWf w.worker_connection_mgr
      → IsIndexed w.m_conn_timeout_timer_manager
      → leb_ℤ (pos 0) fd ≡ true
      → Map.find fd w.worker_connection_mgr.fd2gid ≡ none
      → IsOutcome (on_new_client_fd x type on_create fd gid w)
  unfolding on_new_client_fd after_alloc get_conn
  on_new_client_fd-IsOutcome begins h t le unbound = rw le (
      alloc_cases x.begin begins fd gid m (λ r. IsOutcome (after_alloc x type on_create fd w r)) h
        (λ p. refused (no_pool p)) (λ p. absurd (ground (arith, p, unbound)))
        (λ p. refused (gid_bound p)) (λ p. refused (no_place p))
        (λ i pool p q r free.
          rw (fd_index fd gid i pool m h p free, named fd gid i pool m h p free)
            (open_conn-IsOutcome i (opened fd gid i pool m h p free)
              (record w { worker_connection_mgr = bind_index fd gid i pool m })
              (bind_index-IsOpening fd gid i pool w h p free t q r) refl
              (opened-left i pool h p free))))
    where
      m : ConnectionMgr
      m = w.worker_connection_mgr

      refused : Cause x type gid w → IsOutcome (close_client_fd fd w)
      refused cause = inl (close_client_fd_unknown fd gid w h t (ground (arith, unbound)), cause)
