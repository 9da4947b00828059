-- ===== src/MainTunnel.antt =====
-- server::tunnel_forward in src/server/server.cpp, over the pool of the main thread: a package goes
-- to the send buffer of the tunnel of its destination, and try_send_flush_tunnel sends what it can. The
-- answers of the socket come as a list, the first call's first; the statistics are not modelled.
pub mod Flush
pub mod Append
mod Tests
use avant.Base.Map
use avant.Base.{
  ℕ, ℤ, pos, negsuc, eq_ℤ, Bool, true, false, not, Option, none, some, List, [], ◌∷◌, ◌++◌, Bytes,
  get_elem?, ◌||◌, zero, suc, take, leb, map, if◌then◌else◌, is_some, int_eq, nat_eq,
}
use avant.Buffer.{VecStrBuffer, append, size, move_read_ptr_n}
use avant.Connection.{Connection}
use avant.ConnectionMgr.{ConnectionMgr, at_index, get_conn, deref}
use avant.Route.{TunnelPackage}
use avant.Session.{Interest, re, rwe}
use avant.StreamCtx.{SendResult, sent, send_blocked, send_failed}
use avant.TunnelId.{TunnelId, is_tunnel_id, is_worker_tunnel_id, get_other_tunnel_id}

pub record MainState : Type 0 where
  pub m_main_connection_mgr : ConnectionMgr
  -- get_me() of each worker's tunnel, and of the other thread's
  pub m_main_worker_tunnel : List ℤ
  pub m_main_other_tunnel : ℤ
  pub m_main_worker_tunnel_fd2index : Map.Map ℤ ℕ
  -- what each flush sent on the socket of a tunnel, the calls of epoller.mod, both in order, and whether
  -- to_stop was called
  pub sends : List (ℤ × Bytes)
  pub mods : List (ℤ × Interest)
  pub stopping : Bool

unfoldable pub get_main2worker_tunnel : TunnelId → ℤ → MainState → Option ℕ
get_main2worker_tunnel t (negsuc n) s = none
get_main2worker_tunnel t (pos worker_idx) s =
    if not (is_worker_tunnel_id t (pos worker_idx))
    then none
    else elim (get_elem? s.m_main_worker_tunnel worker_idx) [
      | none ↦ none
      | some fd ↦ get_conn fd s.m_main_connection_mgr
    ]

unfoldable pub get_main2other_tunnel : MainState → Option ℕ
get_main2other_tunnel s = get_conn s.m_main_other_tunnel s.m_main_connection_mgr

-- the connection of the destination's tunnel
unfoldable pub dest_tunnel_conn : TunnelId → ℤ → MainState → Option ℕ
unfolding get_main2worker_tunnel get_main2other_tunnel
dest_tunnel_conn t dest_tunnel_id s =
    if is_worker_tunnel_id t dest_tunnel_id
    then get_main2worker_tunnel t dest_tunnel_id s
    else if eq_ℤ get_other_tunnel_id dest_tunnel_id
    then get_main2other_tunnel s
    else none

-- what try_send_flush_tunnel works on: the send buffer, and what it does to the socket
pub record Sending : Type 0 where
  pub send_buffer : VecStrBuffer
  pub taken : Bytes
  pub mods : List Interest
  pub stopping : Bool

-- while (!send_buffer.empty()); a socket with no answer left would block, and one that takes no byte
-- leaves oper_errno 0, which is none of the three that wait
unfoldable pub flush_tunnel_loop : List SendResult → Sending → Sending
flush_tunnel_loop [] l =
    if leb (size l.send_buffer) 0 then l else record l { mods = l.mods ++ (rwe ∷ []) }
flush_tunnel_loop (sent zero ∷ rest) l =
    if leb (size l.send_buffer) 0 then l else record l { stopping = true }
flush_tunnel_loop (sent (suc n) ∷ rest) l =
    let next = flush_tunnel_loop rest (record l {
      taken = l.taken ++ take (suc n) l.send_buffer.m_data;
      send_buffer = move_read_ptr_n (suc n) l.send_buffer;
    }) in
    if leb (size l.send_buffer) 0 then l else next
flush_tunnel_loop (send_blocked ∷ rest) l =
    if leb (size l.send_buffer) 0 then l else record l { mods = l.mods ++ (rwe ∷ []) }
flush_tunnel_loop (send_failed ∷ rest) l =
    if leb (size l.send_buffer) 0 then l else record l { stopping = true }

-- an assignment to the connection at an index of the pool
unfoldable pub at_tunnel : (Connection → Connection) → ℕ → MainState → MainState
at_tunnel f index s = record s {
  m_main_connection_mgr = record (s.m_main_connection_mgr) {
    connection_pool = elim s.m_main_connection_mgr.connection_pool [
      | none ↦ none
      | some pool ↦ some (at_index f index pool)
    ];
  };
}

-- what a flush of the tunnel at the descriptor `me` has done
unfoldable pub note_flush : ℤ → ℕ → Sending → MainState → MainState
unfolding at_tunnel
note_flush me index l s =
    record (at_tunnel (λ (c : Connection). record c { send_buffer = l.send_buffer }) index s) {
      sends = s.sends ++ ((me, l.taken) ∷ []);
      mods = s.mods ++ map (λ (i : Interest). (me, i)) l.mods;
      stopping = s.stopping || l.stopping;
    }

-- on the tunnel whose own end is `me`
unfoldable pub try_send_flush_tunnel : List SendResult → ℤ → MainState → MainState
unfolding flush_tunnel_loop note_flush
try_send_flush_tunnel results me s = elim (get_conn me s.m_main_connection_mgr) [
  | none ↦ s
  | some index ↦ elim (deref s.m_main_connection_mgr (some index)) [
    | none ↦ s
    | some conn ↦
        let begun : Sending = record {
          send_buffer = conn.send_buffer;
          taken = [];
          mods = [];
          stopping = false;
        } in
        if leb (size conn.send_buffer) 0
        then note_flush me index (record begun { mods = re ∷ [] }) s
        else note_flush me index (flush_tunnel_loop results begun) s
  ]
]

-- flush the tunnel whose end is `dest_fd`, or wait for its write event
unfoldable pub flush_dest : List SendResult → Bool → ℤ → MainState → ℤ × MainState
unfolding try_send_flush_tunnel
flush_dest results flush dest_fd s =
    if flush
    then elim (Map.find dest_fd s.m_main_worker_tunnel_fd2index) [
      | some worker_idx ↦ elim (get_elem? s.m_main_worker_tunnel worker_idx) [
        | none ↦ (pos 0, s)
        | some fd ↦ (pos 0, try_send_flush_tunnel results fd s)
      ]
      | none ↦
          if eq_ℤ s.m_main_other_tunnel dest_fd
          then (pos 0, try_send_flush_tunnel results s.m_main_other_tunnel s)
          else (negsuc 3, s)
    ]
    else (pos 0, record s { mods = s.mods ++ ((dest_fd, rwe) ∷ []) })

-- dest_tunnel_conn_ptr->get_send_buffer().append(data)
unfoldable pub append_data : Bytes → ℕ → MainState → MainState
unfolding at_tunnel
append_data bytes index s =
    at_tunnel (λ (c : Connection). record c { send_buffer = append (some bytes) c.send_buffer })
      index s

-- `pack` is proto::pack_package of a tunnel package.
unfoldable pub main_tunnel_forward :
    {P : Type 0}
    → TunnelId
    → (TunnelPackage P → Bytes)
    → ℤ
    → ℤ
    → P
    → Bool
    → List SendResult
    → MainState
    → ℤ × MainState
unfolding dest_tunnel_conn flush_dest append_data
main_tunnel_forward t pack source_tunnelid dest_tunnel_id message flush results s =
    if not (is_tunnel_id t source_tunnelid)
    then (negsuc 0, s)
    else if not (is_tunnel_id t dest_tunnel_id)
    then (negsuc 1, s)
    else elim (dest_tunnel_conn t dest_tunnel_id s) [
      | none ↦ (negsuc 2, s)
      | some index ↦ elim (deref s.m_main_connection_mgr (some index)) [
        | none ↦ (negsuc 2, s)
        | some conn ↦ flush_dest results flush conn.fd (
            append_data
              (pack (record {
                sourcetunnelsid = source_tunnelid;
                targettunnelsid = dest_tunnel_id ∷ [];
                innerprotopackage = message;
              }))
              index s)
      ]
    ]
