-- ===== src/Session.antt =====
-- What a connection context shows to the application: the flags of src/connection/connection.h, the
-- identity of the connection, the interest that it registered last with the poller, and the
-- packages that the application handed to the tunnel of the other thread.
use avant.Base.{ℕ, Bool, true, Option, List, [], ◌∷◌, ◌++◌, Bytes}

-- event_poller::RE and event_poller::RWE
pub data Interest : Type 0 where
  re rwe : Interest

-- The messages of ProtoTunnelWorker2OtherLuaVM: its inner package is one of the client, or the
-- event that a client came (with its address, if that is known) or went.
pub data Inner (P : Type 0) : Type 0 where
  client_package : P → Inner P
  event_new_connection : ℕ → Option (Bytes × ℕ) → Inner P
  event_close_connection : ℕ → Inner P

pub record LuaVmMessage (P : Type 0) : Type 0 where
  pub gid : ℕ
  pub workeridx : ℕ
  pub inner : Inner P

pub record Session (P : Type 0) : Type 0 where
  pub gid : ℕ
  pub worker_idx : ℕ
  pub is_close : Bool
  pub closed_flag : Bool
  pub is_ready : Bool
  pub app_layer_notified : Bool
  pub interest : Interest
  -- tunnel_forward to the other thread, oldest first
  pub outbox : List (LuaVmMessage P)

module _ {P : Type 0} where
  -- set_conn_is_close(true); event_mod(RWE, false)
  unfoldable pub begin_close : Session P → Session P
  begin_close s = record s { is_close = true; interest = rwe }

  -- pack ProtoTunnelWorker2OtherLuaVM and tunnel_forward it to the other thread
  unfoldable pub to_other : Inner P → Session P → Session P
  to_other inner s = record s {
    outbox = s.outbox ++ (record { gid = s.gid; workeridx = s.worker_idx; inner = inner } ∷ []);
  }
