-- ===== src/Worker/Close.antt =====
-- Closing a client, and events that come for it afterwards.
use avant.Base.Set
use avant.Base.{
  ◌≡◌, refl, sym, subst, ap, ◌∙◌, ℤ, true, none, some, [], ◌∷◌, ◌++◌, arith, nat_eq, int_eq, inl,
  inr,
}
use avant.Balance.{sub_one}
use avant.Connection.{Connection}
use avant.ConnectionMgr.{ConnectionMgr, release_connection, get_conn, deref}
use avant.ConnectionMgr.Inv.{IsWf}
use avant.ConnectionMgr.Release.{release_connection-IsWf, release_connection-IsReleased}
use avant.Timer.{mark_delete}
use avant.Worker.{WorkerState, close_client_fd, close_conn, on_client_event}

pub no_fd_left :
    (fd : ℤ) (m : ConnectionMgr) → IsWf m → get_conn fd (release_connection fd m).1 ≡ none
unfolding get_conn
no_fd_left fd m h = elim (release_connection-IsReleased fd m h) [
  | inl (unbound, same) ↦
      ap (λ (r : ℤ × ConnectionMgr). get_conn fd r.1) same ∙ ground (arith, unbound)
  | inr (gid, bound, zero_code, released) ↦ released.no_fd
]

-- what the worker is after closing the client of `fd`, which was `conn`
pub record IsClosed (fd : ℤ) (conn : Connection) (w w' : WorkerState) : Type 0 where
  pub still_wf : IsWf w'.worker_connection_mgr
  pub gone : get_conn fd w'.worker_connection_mgr ≡ none
  pub timer : w'.m_conn_timeout_timer_manager ≡ mark_delete conn.gid w.m_conn_timeout_timer_manager
  pub event : w'.deleted_events ≡ w.deleted_events ++ (fd ∷ [])
  pub noted : Set.contains fd w'.m_closed_fd ≡ true
  pub one_less : w'.worker_connection_num ≡ sub_one w.worker_connection_num
  pub one_less_in_all : w'.curr_connection_num ≡ sub_one w.curr_connection_num

close_conn_found :
    (fd : ℤ) (conn : Connection) (w : WorkerState)
    → deref w.worker_connection_mgr (get_conn fd w.worker_connection_mgr) ≡ some conn
    → close_conn fd w ≡ record w {
      m_conn_timeout_timer_manager = mark_delete conn.gid w.m_conn_timeout_timer_manager;
      deleted_events = w.deleted_events ++ (fd ∷ []);
      worker_connection_mgr = (release_connection fd w.worker_connection_mgr).1;
    }
unfolding close_conn
close_conn_found fd conn w found = ground (arith, found)

-- the worker after closing the client of `fd`, which was `conn`
abbrev pub closing : ℤ → Connection → WorkerState → WorkerState
closing fd conn w = record w {
  m_conn_timeout_timer_manager = mark_delete conn.gid w.m_conn_timeout_timer_manager;
  deleted_events = w.deleted_events ++ (fd ∷ []);
  worker_connection_mgr = (release_connection fd w.worker_connection_mgr).1;
  m_closed_fd = Set.insert fd w.m_closed_fd;
  worker_connection_num = sub_one w.worker_connection_num;
  curr_connection_num = sub_one w.curr_connection_num;
}

pub close_client_fd_found :
    (fd : ℤ) (conn : Connection) (w : WorkerState)
    → deref w.worker_connection_mgr (get_conn fd w.worker_connection_mgr) ≡ some conn
    → close_client_fd fd w ≡ closing fd conn w
unfolding close_client_fd
close_client_fd_found fd conn w found =
    ap
      (λ (v : WorkerState). record v {
        m_closed_fd = Set.insert fd v.m_closed_fd;
        worker_connection_num = sub_one v.worker_connection_num;
        curr_connection_num = sub_one v.curr_connection_num;
      })
      (close_conn_found fd conn w found)

-- Closing a client of a worker whose pool is well formed keeps the pool so, leaves the
-- descriptor without a connection, deletes the timer of its gid and its registration at the
-- poller, notes the descriptor as closed, and takes one off both counters.
pub close_client_fd-IsClosed :
    (fd : ℤ) (conn : Connection) (w : WorkerState)
    → IsWf w.worker_connection_mgr
    → deref w.worker_connection_mgr (get_conn fd w.worker_connection_mgr) ≡ some conn
    → IsClosed fd conn w (close_client_fd fd w)
close_client_fd-IsClosed fd conn w h found =
    subst (IsClosed fd conn w) (sym (close_client_fd_found fd conn w found)) (record {
      still_wf = release_connection-IsWf fd w.worker_connection_mgr h;
      gone = no_fd_left fd w.worker_connection_mgr h;
      timer = refl;
      event = refl;
      noted = ground (arith, Set.contains-insert fd fd w.m_closed_fd, int_eq.beq_iff fd fd);
      one_less = refl;
      one_less_in_all = refl;
    })

-- Once a client of a worker whose pool is well formed is closed, a further event for its
-- descriptor in the same run of the event loop changes nothing: the client is not counted down
-- twice.
pub on_client_event-close_client_fd :
    (on_event : Connection → WorkerState → WorkerState) (fd : ℤ) (conn : Connection)
    (w : WorkerState)
    → IsWf w.worker_connection_mgr
    → deref w.worker_connection_mgr (get_conn fd w.worker_connection_mgr) ≡ some conn
    → on_client_event on_event fd (close_client_fd fd w) ≡ close_client_fd fd w
unfolding on_client_event deref
on_client_event-close_client_fd on_event fd conn w h found =
    let closed : IsClosed fd conn w (close_client_fd fd w) =
      close_client_fd-IsClosed fd conn w h found in
    rw (closed.gone, closed.noted, on_client_event) refl
