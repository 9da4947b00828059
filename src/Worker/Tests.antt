-- ===== src/Worker/Tests.antt =====
-- A worker with one client.
use avant.Base.Map
use avant.Base.Set
use avant.Base.{
  ℕ, ◌≡◌, refl, ap, ◌∙◌, sym, pos, negsuc, Bool, true, false, Option, none, some, List, [], ◌∷◌,
  All, is_some, arith, nat_eq, int_eq,
}
use avant.Connection.{Connection, on_alloc}
use avant.ConnectionMgr.{ConnectionMgr, init, alloc_connection, bind_index, get_conn, deref}
use avant.ConnectionMgr.Inv.{IsWf}
use avant.ConnectionMgr.Init.{constructed, init-IsWf}
use avant.ConnectionMgr.Alloc.{alloc_connection-IsWf}
use avant.Timer.Indexed.{no_timers}
use avant.Worker.{WorkerState, close_client_fd, ForwardMessage}
use avant.Worker.Close.{IsClosed, close_client_fd-IsClosed}
use avant.Worker.Forward.{IsOpenClient}

abbrev pub head : List ℕ → Option ℕ
head [] = none
head (x ∷ xs) = some x

pub head-in_set : (s : List ℕ) (i : ℕ) → head s ≡ some i → Set.contains i s ≡ true
unfolding Set.contains
head-in_set [] i e = ground (arith, e)
head-in_set (x ∷ xs) i e = ground (arith, e)

pub head-at_end : (s : List ℕ) → head s ≡ none → s ≡ []
head-at_end [] e = refl
head-at_end (x ∷ xs) e = absurd (ground (arith, e))

abbrev pub fresh : Connection
fresh = record {
  fd = negsuc 0;
  gid = 0;
  recv_buffer = record { m_data = [] };
  send_buffer = record { m_data = [] };
  has_ctx = true;
  closed_flag = true;
  is_close = false;
  is_ready = false;
  app_layer_notified = false;
  socket_fd = negsuc 0;
  has_ssl = false;
  calls = [];
}

abbrev pub one_live : ConnectionMgr
one_live = (alloc_connection head (pos 7) 513 (init true fresh 2 constructed).1).1

pub one_live-IsWf : IsWf one_live
one_live-IsWf =
    alloc_connection-IsWf head (record { in_set = head-in_set; at_end = head-at_end }) (pos 7) 513
      (init true fresh 2 constructed).1 (init-IsWf fresh 2).0

abbrev pub worker : WorkerState
worker = record {
  worker_connection_mgr = one_live;
  m_conn_timeout_timer_manager = no_timers;
  m_timeout_fd = [];
  m_latest_tick_time_monotonic = 100;
  added_events = [];
  deleted_events = [];
  closed_sockets = [];
  m_closed_fd = [];
  worker_connection_num = pos 1;
  curr_connection_num = pos 4;
}

abbrev pub client : Connection
client = record fresh { fd = pos 7; gid = 513; closed_flag = false }

pub client_found : deref one_live (get_conn (pos 7) one_live) ≡ some client
unfolding alloc_connection bind_index init on_alloc deref get_conn Map.find Map.assign Map.erase
    Set.insert Set.erase
client_found = refl

close_client_fd-IsClosed_example : IsClosed (pos 7) client worker (close_client_fd (pos 7) worker)
close_client_fd-IsClosed_example =
    close_client_fd-IsClosed (pos 7) client worker one_live-IsWf client_found

-- an application that notes the connections that it is called for
abbrev Noted : Type 0
Noted = ConnectionMgr × List ℕ

abbrev pool : Noted → ConnectionMgr
pool s = s.0

abbrev note : ℕ → Bool → ℕ → Noted → Noted
note index self message s = (s.0, index ∷ s.1)

-- the pool with the client ready
abbrev ready_pool : ConnectionMgr
ready_pool = record {
  connection_pool = some (record client { is_ready = true } ∷ []);
  fd2gid = (pos 7, 513) ∷ [];
  gid2fd = (513, pos 7) ∷ [];
  gid2index = (513, 0) ∷ [];
  using_set = 0 ∷ [];
  unused_set = [];
}

abbrev AllThere : Noted → Type 0
AllThere s = (s.0 ≡ ready_pool) × All (λ (i : ℕ). is_some (deref ready_pool (some i)) ≡ true) s.1

note_keeps :
    (s : Noted) (index : ℕ) (conn : Connection)
    → IsOpenClient (pool s) index conn
    → AllThere s
    → AllThere (s.0, index ∷ s.1)
note_keeps s index conn open_client h = (
  h.0,
  (
    ap (λ (m : ConnectionMgr). is_some (deref m (some index))) (sym h.0)
        ∙ ap (λ (o : Option Connection). is_some o) open_client.found,
    h.1,
  ),
)

abbrev to_all_clients : ForwardMessage ℕ
to_all_clients = record { sourcegid = 513; targetgid = []; inner = 77 }
