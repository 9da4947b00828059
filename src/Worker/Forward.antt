-- ===== src/Worker/Forward.antt =====
-- Whom a forwarded message reaches in a worker.
use avant.Base.{
  ℕ, ◌≡◌, eq_ℤ, Bool, true, false, ◌==◌, Option, none, some, List, [], ◌∷◌, arith, Bool-cases,
  Option-cases, inl, inr, if◌then◌else◌, ◌||◌, ◌&&◌,
}
use avant.Connection.{Connection}
use avant.ConnectionMgr.{ConnectionMgr, get_conn_by_gid, get_conn_by_idx, deref}
use avant.TunnelId.{get_worker_tunnel_id, hash_gid_2_worker_tunnel_id}
use avant.Worker.{
  TaskType, none_task, http_task, stream_task, websocket_task, ForwardMessage,
  handle_tunnel_client_forward_message, forward_to, forward_to_all, forward_to_targets,
  client_forward,
}

-- the connection at `index` may be handed a message
pub record IsOpenClient (m : ConnectionMgr) (index : ℕ) (conn : Connection) : Type 0 where
  pub found : deref m (some index) ≡ some conn
  pub not_closed : conn.closed_flag ≡ false
  pub not_closing : conn.is_close ≡ false
  pub ready : conn.is_ready ≡ true
  pub with_ctx : conn.has_ctx ≡ true

module _ {M S : Type 0} (type : TaskType) (worker_idx : ℕ) (pool : S → ConnectionMgr)
    (app : ℕ → Bool → M → S → S) (message : ForwardMessage M) (Inv : S → Type 0)
    (kept : (s : S) (index : ℕ) (conn : Connection)
      → IsOpenClient (pool s) index conn
      → Inv s
      → Inv (app index (conn.gid == message.sourcegid) message.inner s)) where
  handled :
      (index : ℕ) (conn : Connection) (s : S)
      → deref (pool s) (some index) ≡ some conn
      → Inv s
      → Inv (handle_tunnel_client_forward_message type worker_idx pool app index conn message s)
  unfolding handle_tunnel_client_forward_message
  handled index conn s found h = elim (Bool-cases (conn.closed_flag || conn.is_close)) [
    | inl closed ↦ rw (closed, handle_tunnel_client_forward_message) h
    | inr open_conn ↦ elim (Bool-cases (conn.is_ready && conn.has_ctx)) [
      | inl ready ↦
          rw (open_conn, handle_tunnel_client_forward_message)
            (by_type type ready (
              kept s index conn
                (record {
                  found = found;
                  not_closed = ground arith;
                  not_closing = ground arith;
                  ready = ground arith;
                  with_ctx = ground arith;
                })
                h))
      | inr not_ready ↦
          rw (open_conn, handle_tunnel_client_forward_message) (skipped type not_ready)
    ]
  ]
    where
      next : S
      next = app index (conn.gid == message.sourcegid) message.inner s

      by_type :
          (t : TaskType)
          → conn.is_ready && conn.has_ctx ≡ true
          → Inv next
          → Inv (elim t [
            | none_task ↦ s
            | http_task ↦ s
            | stream_task ↦ if conn.is_ready && conn.has_ctx then next else s
            | websocket_task ↦ if conn.is_ready && conn.has_ctx then next else s
          ])
      by_type none_task r k = h
      by_type http_task r k = h
      by_type stream_task r k = rw r k
      by_type websocket_task r k = rw r k

      skipped :
          (t : TaskType)
          → conn.is_ready && conn.has_ctx ≡ false
          → Inv (elim t [
            | none_task ↦ s
            | http_task ↦ s
            | stream_task ↦ if conn.is_ready && conn.has_ctx then next else s
            | websocket_task ↦ if conn.is_ready && conn.has_ctx then next else s
          ])
      skipped none_task r = h
      skipped http_task r = h
      skipped stream_task r = rw r h
      skipped websocket_task r = rw r h

  forwarded : (p : Option ℕ) (s : S) → Inv s → Inv (forward_to type worker_idx pool app p message s)
  unfolding forward_to
  forwarded none s h = h
  forwarded (some index) s h = elim (Option-cases (deref (pool s) (some index))) [
    | inl missing ↦ rw (missing, forward_to) h
    | inr (conn, found) ↦ rw (found, forward_to) (handled index conn s found h)
  ]

  to_all :
      (pairs : List (ℕ × ℕ)) (s : S)
      → Inv s
      → Inv (forward_to_all type worker_idx pool app pairs message s)
  to_all [] s h = h
  to_all ((gid, index) ∷ rest) s h = to_all rest _ (forwarded (get_conn_by_idx index (pool s)) s h)

  to_targets :
      (targets : List ℕ) (s : S)
      → Inv s
      → Inv (forward_to_targets type worker_idx pool app targets message s)
  unfolding forward_to_targets
  to_targets [] s h = h
  to_targets (gid ∷ rest) s h =
      elim (Bool-cases (eq_ℤ (get_worker_tunnel_id worker_idx) (hash_gid_2_worker_tunnel_id gid))) [
        | inl mine ↦ rw mine (to_targets rest _ (forwarded (get_conn_by_gid gid (pool s)) s h))
        | inr other ↦ rw other (to_targets rest s h)
      ]

  -- A forwarded message reaches only clients that are open, not closing and ready: whatever the
  -- application keeps true for those, handling the message keeps true, to all and to named targets.
  pub client_forward_keeps :
      (s : S) → Inv s → Inv (client_forward type worker_idx pool app message s)
  unfolding client_forward
  client_forward_keeps s h = by_targets message.targetgid
    where
      by_targets :
          (targets : List ℕ)
          → Inv (elim targets [
            | [] ↦ forward_to_all type worker_idx pool app (pool s).gid2index message s
            | target ∷ rest ↦ forward_to_targets type worker_idx pool app (target ∷ rest) message s
          ])
      by_targets [] = to_all (pool s).gid2index s h
      by_targets (target ∷ rest) = to_targets (target ∷ rest) s h
