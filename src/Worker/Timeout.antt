-- ===== src/Worker/Timeout.antt =====
-- Clients that the application has not been told of in time.
use avant.Base.Set
use avant.Base.{
  ℕ, ◌≡◌, ◌≢◌, ◌≤◌, ◌<◌, refl, ap, sym, ◌∙◌, subst, ℤ, true, false, ◌==◌, some, [], arith, int_eq,
  inl,
}
use avant.Connection.{Connection}
use avant.ConnectionMgr.{ConnectionMgr, get_conn, get_conn_by_gid, deref}
use avant.Timer.{Timer, TimerManager, check_and_handle, uint64_max}
use avant.Timer.Indexed.{IsIndexed, timer_of}
use avant.Timer.Fire.{check_and_handle_fires}
use avant.Worker.{WorkerState}
use avant.Worker.Client.{on_timeout, run_timers}
use avant.Worker.Shut.{IsPool, IsShut, IsOpenAt, close_all-IsShut}

mgr-on_timeout :
    (fd : ℤ) (t : Timer ℤ) (w : WorkerState)
    → (on_timeout fd t w).worker_connection_mgr ≡ w.worker_connection_mgr
unfolding on_timeout
mgr-on_timeout fd t w = ground arith

on_timeout_notes :
    (fd : ℤ) (t : Timer ℤ) (conn : Connection) (w : WorkerState)
    → deref w.worker_connection_mgr (get_conn_by_gid t.m_id w.worker_connection_mgr) ≡ some conn
    → conn.app_layer_notified ≡ false
    → Set.contains fd (on_timeout fd t w).m_timeout_fd ≡ true
unfolding on_timeout
on_timeout_notes fd t conn w e told =
    ground (arith, e, told, Set.contains-insert fd fd w.m_timeout_fd, int_eq.beq_iff fd fd)

on_timeout_keeps :
    (fd other : ℤ) (t : Timer ℤ) (w : WorkerState)
    → Set.contains fd w.m_timeout_fd ≡ true
    → Set.contains fd (on_timeout other t w).m_timeout_fd ≡ true
unfolding on_timeout
on_timeout_keeps fd other t w e = ground (arith, e, Set.contains-insert other fd w.m_timeout_fd)

-- Where a worker's pool and timers are in order, the time has moved on and is less than UINT64_MAX, the
-- timer of a client is due, and its gid and the descriptor that the timer has name the same connection,
-- whose application has not been told of it, that connection is closed before any event is handled:
-- behind the calls made before, its context is told if it has one, and then the descriptor that its
-- socket holds is closed, and nothing more is called; its index is no longer in use, and the timer's
-- descriptor names no connection, is deleted at the poller, and is one of those whose events are skipped
-- in this run of the event loop.
pub run_timers_closes :
    (now gid i : ℕ) (fd : ℤ) (t : Timer ℤ) (conn : Connection) (w : WorkerState)
    → IsPool w.worker_connection_mgr
    → IsIndexed w.m_conn_timeout_timer_manager
    → w.m_latest_tick_time_monotonic ≢ now
    → now < uint64_max
    → timer_of gid w.m_conn_timeout_timer_manager ≡ some t
    → t.m_callback ≡ some fd
    → t.m_expired_time ≤ now
    → get_conn_by_gid gid w.worker_connection_mgr ≡ some i
    → get_conn fd w.worker_connection_mgr ≡ some i
    → deref w.worker_connection_mgr (some i) ≡ some conn
    → conn.app_layer_notified ≡ false
    → IsShut fd i conn
        (run_timers now w).1.worker_connection_mgr
        (run_timers now w).1.deleted_events
      × (Set.contains fd (run_timers now w).0 ≡ true)
unfolding run_timers
run_timers_closes now gid i fd t conn w h ix ne lt found callback due by_gid by_fd there told =
    rw moved (
      close_all-IsShut fd i conn (checked.1).m_timeout_fd
          (record (checked.1) { m_conn_timeout_timer_manager = checked.0 })
          (subst IsPool (sym fired.1) h)
          (inl (fired.0, subst (IsOpenAt fd i conn) (sym fired.1) (by_fd, there))),
      fired.0,
    )
  where
    moved : (w.m_latest_tick_time_monotonic == now) ≡ false
    moved = ground (arith, ne)

    ticked : WorkerState
    ticked = record w { m_closed_fd = []; m_latest_tick_time_monotonic = now }

    checked : TimerManager ℤ × WorkerState
    checked = check_and_handle on_timeout now w.m_conn_timeout_timer_manager ticked

    Same : WorkerState → Type 0
    Same v = v.worker_connection_mgr ≡ w.worker_connection_mgr

    fired : (Set.contains fd (checked.1).m_timeout_fd ≡ true) × Same checked.1
    fired =
        check_and_handle_fires on_timeout Same
          (λ v.
            (Set.contains fd v.m_timeout_fd ≡ true)
            × (v.worker_connection_mgr ≡ w.worker_connection_mgr))
          fd gid
          (λ s v e p. (
            on_timeout_notes fd s conn v
                (ap (λ (m : ConnectionMgr). deref m (get_conn_by_gid s.m_id m)) p
                  ∙ ap
                      (λ g.
                        deref w.worker_connection_mgr (get_conn_by_gid g w.worker_connection_mgr))
                      e
                  ∙ ap (deref w.worker_connection_mgr) by_gid
                  ∙ there)
                told,
            mgr-on_timeout fd s v ∙ p,
          ))
          (λ d s v p. mgr-on_timeout d s v ∙ p)
          (λ d s v q. (on_timeout_keeps fd d s v q.0, mgr-on_timeout d s v ∙ q.1)) now
          w.m_conn_timeout_timer_manager t ticked lt ix refl found callback due
