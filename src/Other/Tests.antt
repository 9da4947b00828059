-- ===== src/Other/Tests.antt =====
-- The other thread with applications 1, which is its own, 2 and 3.
use avant.Base.Map
use avant.Base.Set
use avant.Base.{
  ℕ, ◌+◌, ◌≡◌, refl, pos, negsuc, true, false, Option, none, some, List, [], ◌∷◌, arith, nat_eq,
  int_eq,
}
use avant.Connection.{Connection, on_alloc}
use avant.ConnectionMgr.{init, alloc_connection, bind_index, get_conn, get_conn_by_gid, deref}
use avant.ConnectionMgr.Inv.{IsBegin}
use avant.ConnectionMgr.Init.{constructed, init-IsWf}
use avant.Gid.{other_gen_gid}
use avant.Other.{
  OtherState, Attempt, connect_all, close_ipc_client_fd, connect_one, close_with, set_up,
  at_ipc_conn, drop_socket,
}
use avant.Other.Linked.{IsLinked, close_with-IsLinked}
use avant.Other.Depth.{close_ipc_client_fd_depth}
use avant.Other.Reconnect.{close_ipc_client_fd-IsLinked, connect_all-IsLinked}

abbrev head : List ℕ → Option ℕ
head [] = none
head (x ∷ xs) = some x

head-in_set : (s : List ℕ) (i : ℕ) → head s ≡ some i → Set.contains i s ≡ true
unfolding Set.contains
head-in_set [] i e = ground (arith, e)
head-in_set (x ∷ xs) i e = ground (arith, e)

head-at_end : (s : List ℕ) → head s ≡ none → s ≡ []
head-at_end [] e = refl
head-at_end (x ∷ xs) e = absurd (ground (arith, e))

abbrev fresh : Connection
fresh = record {
  fd = negsuc 0;
  gid = 0;
  recv_buffer = record { m_data = [] };
  send_buffer = record { m_data = [] };
  has_ctx = false;
  app_layer_notified = false;
  socket_fd = negsuc 0;
  has_ssl = false;
  closed_flag = true;
  is_close = false;
  is_ready = false;
  calls = [];
}

abbrev start : OtherState ℕ
start = record {
  ipc_connection_mgr = (init true fresh 2 constructed).1;
  m_this2remote_appid2gid = [];
  m_this2remote_gid2appid = [];
  m_remote2this_gid = [];
  gids = record { m_gid_seq = 5; m_latest_tick_time = 1 };
  created = [];
  added_events = [];
  deleted_events = [];
  closed_sockets = [];
}

start-IsLinked : IsLinked start
unfolding init Set.contains Map.find get_conn_by_gid deref
start-IsLinked = record {
  named = record { wf = (init-IsWf fresh 2).0; its_gid = λ g c e. absurd (ground (arith, e)) };
  app_gid = λ a g e. absurd (ground (arith, e));
  gid_app = λ a g e. absurd (ground (arith, e));
  opened_live = λ g e. absurd (ground (arith, e));
  taken_live = λ g e. absurd (ground (arith, e));
  one_way = λ g e. refl;
}

abbrev connect : ℕ → ℕ → Attempt
connect app_id seq = record { fd = pos (app_id + seq + 10); ctx_made = true; poller_adds = true }

abbrev items : List ℕ
items = 1 ∷ 2 ∷ 3 ∷ []

abbrev linked : OtherState ℕ
linked = connect_all head 1 connect (close_ipc_client_fd head 1 connect items 0) items start

abbrev begins : IsBegin head
begins = record { in_set = head-in_set; at_end = head-at_end }

linked-IsLinked : IsLinked linked
linked-IsLinked =
    connect_all-IsLinked head begins 1 connect (close_ipc_client_fd head 1 connect items 0)
      (λ fd v l. close_with-IsLinked (λ v. v) (λ v l. l) fd v l) items start start-IsLinked

linked_twice : linked.created ≡ 4294967301 ∷ 4294967302 ∷ []
unfolding connect_one close_with set_up at_ipc_conn drop_socket other_gen_gid alloc_connection
    bind_index init on_alloc deref get_conn Map.find Map.assign Map.erase Set.insert Set.erase
linked_twice = refl

close_ipc_client_fd-IsLinked_example :
    IsLinked (close_ipc_client_fd head 1 connect items 1 (pos 17) linked)
close_ipc_client_fd-IsLinked_example =
    close_ipc_client_fd-IsLinked head begins 1 connect items 1 (pos 17) linked linked-IsLinked

close_ipc_client_fd_depth_example :
    close_ipc_client_fd head 1 connect items 1 (pos 17) linked
    ≡ close_ipc_client_fd head 1 connect items 4 (pos 17) linked
close_ipc_client_fd_depth_example =
    close_ipc_client_fd_depth head begins 1 connect items 0 3 (pos 17) linked linked-IsLinked
