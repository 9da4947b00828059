-- ===== src/Worker.antt =====
-- src/workers/worker.cpp: how a worker closes a client, skips events of clients that are closed, and
-- hands a forwarded message to its clients. The contexts and the application are parameters.
pub mod Close
pub mod Forward
pub mod Client
pub mod Opening
pub mod Stages
pub mod Accept
pub mod Shut
pub mod Timeout
pub mod Send
pub mod Sent
mod Tests
mod ClientTests
mod SendTests
use avant.Base.Set
use avant.Base.{
  ℕ, ℤ, pos, negsuc, eq_ℤ, Bool, true, false, ◌||◌, ◌&&◌, not, ◌==◌, Option, none, some, List, [],
  ◌∷◌, ◌++◌, if◌then◌else◌, nat_eq, int_eq,
}
use avant.Balance.{sub_one}
use avant.Connection.{Connection}
use avant.ConnectionMgr.{
  ConnectionMgr, release_connection, get_conn, get_conn_by_gid, get_conn_by_idx, deref,
}
use avant.Timer.{TimerManager, mark_delete}
use avant.TunnelId.{get_worker_tunnel_id, hash_gid_2_worker_tunnel_id}

pub record WorkerState : Type 0 where
  pub worker_connection_mgr : ConnectionMgr
  -- a callback is named by the descriptor that it captures
  pub m_conn_timeout_timer_manager : TimerManager ℤ
  pub m_timeout_fd : List ℤ
  pub m_latest_tick_time_monotonic : ℕ
  -- epoller.add, epoller.del and ::close, as calls in order
  pub added_events : List ℤ
  pub deleted_events : List ℤ
  pub closed_sockets : List ℤ
  -- the descriptors closed in this run of the event loop
  pub m_closed_fd : List ℤ
  pub worker_connection_num : ℤ
  pub curr_connection_num : ℤ

-- the part of close_client_fd before the counters
unfoldable pub close_conn : ℤ → WorkerState → WorkerState
close_conn fd w = elim (deref w.worker_connection_mgr (get_conn fd w.worker_connection_mgr)) [
  | none ↦ record w { closed_sockets = w.closed_sockets ++ (fd ∷ []) }
  | some conn ↦ record w {
    m_conn_timeout_timer_manager = mark_delete conn.gid w.m_conn_timeout_timer_manager;
    deleted_events = w.deleted_events ++ (fd ∷ []);
    worker_connection_mgr = (release_connection fd w.worker_connection_mgr).1;
  }
]

unfoldable pub close_client_fd : ℤ → WorkerState → WorkerState
unfolding close_conn
close_client_fd fd w =
    let closed = close_conn fd w in
    record closed {
      m_closed_fd = Set.insert fd closed.m_closed_fd;
      worker_connection_num = sub_one closed.worker_connection_num;
      curr_connection_num = sub_one closed.curr_connection_num;
    }

-- `on_event` of the connection's context is a parameter.
unfoldable pub on_client_event :
    (Connection → WorkerState → WorkerState) → ℤ → WorkerState → WorkerState
unfolding close_client_fd
on_client_event on_event fd w =
    elim (deref w.worker_connection_mgr (get_conn fd w.worker_connection_mgr)) [
      | none ↦ if Set.contains fd w.m_closed_fd then w else close_client_fd fd w
      | some conn ↦ on_event conn w
    ]

pub data TaskType : Type 0 where
  none_task http_task stream_task websocket_task : TaskType

-- ProtoTunnelClientForwardMessage
pub record ForwardMessage (M : Type 0) : Type 0 where
  pub sourcegid : ℕ
  pub targetgid : List ℕ
  pub inner : M

-- The application's on_client_forward_message gets the connection's index, whether the message is
-- its own, and the message; S is what it changes, the pool included.
module _ {M S : Type 0} (type : TaskType) (worker_idx : ℕ) (pool : S → ConnectionMgr)
    (on_client_forward_message : ℕ → Bool → M → S → S) where
  unfoldable pub handle_tunnel_client_forward_message : ℕ → Connection → ForwardMessage M → S → S
  handle_tunnel_client_forward_message index conn message s =
      if conn.closed_flag || conn.is_close then s else elim type [
        | none_task ↦ s
        | http_task ↦ s
        | stream_task ↦
            if conn.is_ready && conn.has_ctx
            then on_client_forward_message index (conn.gid == message.sourcegid) message.inner s
            else s
        | websocket_task ↦
            if conn.is_ready && conn.has_ctx
            then on_client_forward_message index (conn.gid == message.sourcegid) message.inner s
            else s
      ]

  -- a connection that a pointer names
  unfoldable pub forward_to : Option ℕ → ForwardMessage M → S → S
  unfolding handle_tunnel_client_forward_message
  forward_to none message s = s
  forward_to (some index) message s = elim (deref (pool s) (some index)) [
    | none ↦ s
    | some conn ↦ handle_tunnel_client_forward_message index conn message s
  ]

  -- for each of gid2index, as it stands when the loop begins
  abbrev pub forward_to_all : List (ℕ × ℕ) → ForwardMessage M → S → S
  forward_to_all [] message s = s
  forward_to_all ((gid, index) ∷ rest) message s =
      forward_to_all rest message (forward_to (get_conn_by_idx index (pool s)) message s)

  -- for each target gid: only those of this worker
  unfoldable pub forward_to_targets : List ℕ → ForwardMessage M → S → S
  forward_to_targets [] message s = s
  forward_to_targets (target_gid ∷ rest) message s = forward_to_targets rest message (
      if eq_ℤ (get_worker_tunnel_id worker_idx) (hash_gid_2_worker_tunnel_id target_gid)
      then forward_to (get_conn_by_gid target_gid (pool s)) message s
      else s)

  -- on_tunnel_process, PROTO_CMD_TUNNEL_CLIENT_FORWARD_MESSAGE
  unfoldable pub client_forward : ForwardMessage M → S → S
  unfolding forward_to_targets
  client_forward message s = elim message.targetgid [
    | [] ↦ forward_to_all (pool s).gid2index message s
    | target ∷ targets ↦ forward_to_targets (target ∷ targets) message s
  ]
