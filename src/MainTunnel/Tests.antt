-- ===== src/MainTunnel/Tests.antt =====
-- Two tunnels: the worker 0 at the descriptor 7, the other thread at 8.
use avant.Base.Map
use avant.Base.{ℕ, ℤ, pos, negsuc, true, false, some, [], ◌∷◌, Bytes, refl, nat_eq, int_eq}
use avant.Connection.{Connection}
use avant.ConnectionMgr.{get_conn, deref}
use avant.Route.{TunnelPackage}
use avant.StreamCtx.{sent, send_blocked}
use avant.TunnelId.{is_tunnel_id, is_worker_tunnel_id}
use avant.MainTunnel.{MainState, main_tunnel_forward}
use avant.MainTunnel.Append.{IsForwarded, worker_end, main_tunnel_forward-IsForwarded}

abbrev tunnel : ℤ → ℕ → Connection
tunnel fd gid = record {
  fd = fd;
  gid = gid;
  recv_buffer = record { m_data = [] };
  send_buffer = record { m_data = 1 ∷ [] };
  has_ctx = false;
  closed_flag = false;
  is_close = false;
  is_ready = true;
  app_layer_notified = false;
  socket_fd = negsuc 0;
  has_ssl = false;
  calls = [];
}

abbrev main : MainState
main = record {
  m_main_connection_mgr = record {
    connection_pool = some (tunnel (pos 7) 100 ∷ tunnel (pos 8) 101 ∷ []);
    fd2gid = (pos 7, 100) ∷ (pos 8, 101) ∷ [];
    gid2fd = (100, pos 7) ∷ (101, pos 8) ∷ [];
    gid2index = (100, 0) ∷ (101, 1) ∷ [];
    using_set = 0 ∷ 1 ∷ [];
    unused_set = [];
  };
  m_main_worker_tunnel = pos 7 ∷ [];
  m_main_other_tunnel = pos 8;
  m_main_worker_tunnel_fd2index = (pos 7, 0) ∷ [];
  sends = [];
  mods = [];
  stopping = false;
}

-- a package is sent as its message
abbrev pack : TunnelPackage ℕ → Bytes
pack p = p.innerprotopackage ∷ []

main_tunnel_forward-IsForwarded_example :
    IsForwarded (77 ∷ []) (pos 7) 0 (tunnel (pos 7) 100) main (
      main_tunnel_forward
        (record { m_worker_cnt = 1 })
        pack
        (negsuc 0)
        (pos 0)
        77
        true
        (sent 1 ∷ send_blocked ∷ [])
        main)
unfolding is_tunnel_id is_worker_tunnel_id get_conn deref Map.find
main_tunnel_forward-IsForwarded_example =
    main_tunnel_forward-IsForwarded (record { m_worker_cnt = 1 }) pack (negsuc 0) (pos 0) (pos 7) 77
      true (sent 1 ∷ send_blocked ∷ []) main 0 (tunnel (pos 7) 100) refl refl
      (worker_end 0 refl refl refl refl) (record { named = refl; there = refl; its_fd = refl })
