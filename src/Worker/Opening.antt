-- ===== src/Worker/Opening.antt =====
-- A client on its way through on_new_client_fd: what the stages keep, and what closing it there leaves.
use avant.Base.Map
use avant.Base.Set
use avant.Base.{
  ℕ, ◌+◌, ◌≡◌, ◌≢◌, refl, ap, sym, ◌∙◌, subst, ℤ, true, false, none, some, List, arith, nat_eq,
  int_eq, inl, inr,
}
use avant.Balance.{sub_one}
use avant.Connection.{Connection}
use avant.ConnectionMgr.{ConnectionMgr, bind_index, get_conn, get_conn_by_gid, deref, live_count}
use avant.ConnectionMgr.Inv.{IsWf, bind_index-IsWf}
use avant.ConnectionMgr.Alloc.{opened, gid-opened, opened-flags, named, unchanged}
use avant.ConnectionMgr.At.{at_index-IsWf, deref-with_conn_self, others-with_conn}
use avant.ConnectionMgr.Release.{release_connection-IsReleased, release_connection-IsWf}
use avant.Timer.Indexed.{IsIndexed, mark_delete-IsIndexed}
use avant.Worker.{WorkerState, close_client_fd, close_conn}
use avant.Worker.Client.{at_conn}
use avant.Worker.Close.{close_client_fd_found}

-- The connection of `fd` and `gid` stands open at `index` in `w'`; else the pool is as in `w`, and the
-- counters are.
pub record IsOpening (fd : ℤ) (gid index : ℕ) (conn : Connection) (w w' : WorkerState)
    : Type 0 where
  pub wf : IsWf w'.worker_connection_mgr
  pub fd_gid : Map.find fd w'.worker_connection_mgr.fd2gid ≡ some gid
  pub gid_index : Map.find gid w'.worker_connection_mgr.gid2index ≡ some index
  pub found : deref w'.worker_connection_mgr (some index) ≡ some conn
  pub its_gid : conn.gid ≡ gid
  pub is_open : (conn.closed_flag ≡ false) × (conn.is_close ≡ false)
  pub one_more : live_count w'.worker_connection_mgr ≡ live_count w.worker_connection_mgr + 1
  pub others :
      (h : ℕ)
      → h ≢ gid
      → deref w'.worker_connection_mgr (get_conn_by_gid h w'.worker_connection_mgr)
        ≡ deref w.worker_connection_mgr (get_conn_by_gid h w.worker_connection_mgr)
  pub timers : IsIndexed w'.m_conn_timeout_timer_manager
  pub tick : w'.m_latest_tick_time_monotonic ≡ w.m_latest_tick_time_monotonic
  pub counted : w'.worker_connection_num ≡ w.worker_connection_num
  pub counted_in_all : w'.curr_connection_num ≡ w.curr_connection_num

-- The worker has not taken the client: no connection is more or less than in `w`, and the client is
-- off both counters.
pub record IsRefused (fd : ℤ) (gid : ℕ) (w w' : WorkerState) : Type 0 where
  pub wf : IsWf w'.worker_connection_mgr
  pub gone : get_conn fd w'.worker_connection_mgr ≡ none
  pub same_live : live_count w'.worker_connection_mgr ≡ live_count w.worker_connection_mgr
  pub others :
      (h : ℕ)
      → h ≢ gid
      → deref w'.worker_connection_mgr (get_conn_by_gid h w'.worker_connection_mgr)
        ≡ deref w.worker_connection_mgr (get_conn_by_gid h w.worker_connection_mgr)
  pub timers : IsIndexed w'.m_conn_timeout_timer_manager
  pub noted : Set.contains fd w'.m_closed_fd ≡ true
  pub one_less : w'.worker_connection_num ≡ sub_one w.worker_connection_num
  pub one_less_in_all : w'.curr_connection_num ≡ sub_one w.curr_connection_num

get_conn-bound :
    (fd : ℤ) (gid index : ℕ) (m : ConnectionMgr)
    → Map.find fd m.fd2gid ≡ some gid
    → Map.find gid m.gid2index ≡ some index
    → get_conn fd m ≡ some index
unfolding get_conn
get_conn-bound fd gid index m e f = ground (arith, e, f)

pub bind_index-IsOpening :
    (fd : ℤ) (gid i : ℕ) (pool : List Connection) (w : WorkerState)
    (h : IsWf w.worker_connection_mgr) (p : w.worker_connection_mgr.connection_pool ≡ some pool)
    (free : Set.contains i w.worker_connection_mgr.unused_set ≡ true)
    → IsIndexed w.m_conn_timeout_timer_manager
    → Map.find fd w.worker_connection_mgr.fd2gid ≡ none
    → Map.find gid w.worker_connection_mgr.gid2fd ≡ none
    → IsOpening fd gid i
        (opened fd gid i pool w.worker_connection_mgr h p free)
        w
        (record w { worker_connection_mgr = bind_index fd gid i pool w.worker_connection_mgr })
unfolding live_count bind_index
bind_index-IsOpening fd gid i pool w h p free t no_fd no_gid =
    let m = w.worker_connection_mgr in
    record {
      wf = bind_index-IsWf fd gid i pool m h no_fd no_gid p free;
      fd_gid = ground (arith, Map.find-assign fd fd gid m.fd2gid, int_eq.beq_iff fd fd);
      gid_index = ground (arith, Map.find-assign gid gid i m.gid2index);
      found = named fd gid i pool m h p free;
      its_gid = gid-opened fd gid i pool m h p free;
      is_open = opened-flags fd gid i pool m h p free;
      one_more = ground (arith, h.apart i, free, Set.length-insert i m.using_set);
      others = unchanged fd gid i pool m h p free;
      timers = t;
      tick = refl;
      counted = refl;
      counted_in_all = refl;
    }

-- An assignment to the connection that touches neither its gid nor the flags that close it.
pub at_conn-IsOpening :
    (f : Connection → Connection) (fd : ℤ) (gid index : ℕ) (conn : Connection) (w w' : WorkerState)
    → (f conn).gid ≡ conn.gid
    → (f conn).closed_flag ≡ conn.closed_flag
    → (f conn).is_close ≡ conn.is_close
    → IsOpening fd gid index conn w w'
    → IsOpening fd gid index (f conn) w (at_conn f index w')
unfolding at_conn live_count
at_conn-IsOpening f fd gid index conn w w' e k q h = record {
  wf = at_index-IsWf f index w'.worker_connection_mgr h.wf;
  fd_gid = h.fd_gid;
  gid_index = h.gid_index;
  found = deref-with_conn_self f index w'.worker_connection_mgr conn h.found;
  its_gid = e ∙ h.its_gid;
  is_open = (k ∙ h.is_open.0, q ∙ h.is_open.1);
  one_more = h.one_more;
  others = λ g ne.
      others-with_conn f index gid g w'.worker_connection_mgr h.wf h.gid_index ne ∙ h.others g ne;
  timers = h.timers;
  tick = h.tick;
  counted = h.counted;
  counted_in_all = h.counted_in_all;
}

-- A stage that fails closes the client.
pub close_client_fd-IsRefused :
    (fd : ℤ) (gid index : ℕ) (conn : Connection) (w w' : WorkerState)
    → IsOpening fd gid index conn w w'
    → IsRefused fd gid w (close_client_fd fd w')
close_client_fd-IsRefused fd gid index conn w w' h =
    let bound = get_conn-bound fd gid index w'.worker_connection_mgr h.fd_gid h.gid_index in
    let there : deref w'.worker_connection_mgr (get_conn fd w'.worker_connection_mgr) ≡ some conn =
      ap (deref w'.worker_connection_mgr) bound ∙ h.found in
    elim (release_connection-IsReleased fd w'.worker_connection_mgr h.wf) [
      | inl (unbound, same) ↦ absurd (ground (arith, unbound, h.fd_gid))
      | inr (g, is_bound, code, released) ↦
          let same_gid : g ≡ gid = ground (arith, is_bound, h.fd_gid) in
          subst (IsRefused fd gid w) (sym (close_client_fd_found fd conn w' there)) record {
            wf = release_connection-IsWf fd w'.worker_connection_mgr h.wf;
            gone = released.no_fd;
            same_live = omega (arith, released.freed, h.one_more);
            others = λ k ne. released.others k (λ e. ne (e ∙ same_gid)) ∙ h.others k ne;
            timers = mark_delete-IsIndexed conn.gid w'.m_conn_timeout_timer_manager h.timers;
            noted = ground (arith, Set.contains-insert fd fd w'.m_closed_fd, int_eq.beq_iff fd fd);
            one_less = ap sub_one h.counted;
            one_less_in_all = ap sub_one h.counted_in_all;
          }
    ]

-- A client that the pool has no place for is closed.
pub close_client_fd_unknown :
    (fd : ℤ) (gid : ℕ) (w : WorkerState)
    → IsWf w.worker_connection_mgr
    → IsIndexed w.m_conn_timeout_timer_manager
    → get_conn fd w.worker_connection_mgr ≡ none
    → IsRefused fd gid w (close_client_fd fd w)
unfolding close_client_fd close_conn deref
close_client_fd_unknown fd gid w h t e =
    rw (e, close_conn)
      record {
        wf = h;
        gone = e;
        same_live = refl;
        others = λ k ne. refl;
        timers = t;
        noted = ground (arith, Set.contains-insert fd fd w.m_closed_fd, int_eq.beq_iff fd fd);
        one_less = refl;
        one_less_in_all = refl;
      }
