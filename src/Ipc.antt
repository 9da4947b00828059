-- ===== src/Ipc.antt =====
-- src/app/other_app.cpp: packages between processes, on the IPC streams of the other thread.
-- Generated protocol code and the Lua machine are parameters: how an array parses, which packages
-- are handshakes and with which app id, and which commands have a message type.
pub mod Pairs
pub mod Delivery
mod Tests
use avant.Base.Map
use avant.Base.{
  ℕ, ◌+◌, Bool, true, false, Option, none, some, List, [], ◌∷◌, ◌++◌, Bytes, length, take, drop,
  add64, ltb, leb, ◌==◌, if◌then◌else◌, is_some, Eq, nat_eq,
}
use avant.Buffer.{VecStrBuffer, size, move_read_ptr_n}
use avant.Proto.{toh64_from_buffer}
use avant.Proto.Frame.{Iter, again, done, loop}
use avant.Session.{Interest, rwe}

pub record Codec (A P M : Type 0) : Type 0 where
  -- ProtoPackage::ParseFromArray at the bytes behind a pointer, with a count that the caller gives
  pub parse_from_array : Bytes → ℕ → Option P
  -- package.cmd() == PROTO_CMD_IPC_STREAM_AUTH_HANDSHAKE
  pub is_handshake : P → Bool
  -- the app id, if the package parses as ProtoIPCStreamAuthHandshake
  pub parse_handshake : P → Option A
  -- protobuf_cmd2message and parse
  pub parse_message : P → Option M
  -- the handshake package that names this process
  pub whoami : P

-- The state that one IPC connection reads and writes: `authenticated_ipc_pair`, what reached the
-- Lua machine, what was sent back, and the flags of the connection.
pub record IpcState (A P M : Type 0) : Type 0 where
  pub gid2appid : Map.Map ℕ A
  pub appid2gid : Map.Map A ℕ
  pub lua_messages : List (M × A)
  pub sent : List P
  pub is_close : Bool
  pub interest : Interest

-- the connection that the state is read for
pub record Peer : Type 0 where
  pub gid : ℕ
  -- other::is_this2remote(gid)
  pub this2remote : Bool

module _ {A P M : Type 0} ⦃e : Eq A⦄ (codec : Codec A P M) (peer : Peer) where
  -- Neither side of the pair may be bound yet.
  unfoldable pub authenticate : A → IpcState A P M → IpcState A P M
  authenticate app_id s =
      if is_some (Map.find app_id s.appid2gid)
      then s
      else if is_some (Map.find peer.gid s.gid2appid)
      then s
      else record s {
        appid2gid = Map.assign app_id peer.gid s.appid2gid;
        gid2appid = Map.assign peer.gid app_id s.gid2appid;
      }

  -- this -- whoami --> remote, on a connection that this process opened
  answer : IpcState A P M → IpcState A P M
  answer s = if peer.this2remote then record s { sent = s.sent ++ (codec.whoami ∷ []) } else s

  recv_handshake : P → IpcState A P M → IpcState A P M
  unfolding answer authenticate
  recv_handshake p s = elim (codec.parse_handshake p) [
    | none ↦ answer s
    | some app_id ↦ authenticate app_id (answer s)
  ]

  recv_message : P → IpcState A P M → IpcState A P M
  recv_message p s = elim (Map.find peer.gid s.gid2appid) [
    | none ↦ s
    | some from_app_id ↦ elim (codec.parse_message p) [
      | none ↦ s
      | some m ↦ record s { lua_messages = s.lua_messages ++ ((m, from_app_id) ∷ []) }
    ]
  ]

  unfoldable pub on_recv_package : IpcState A P M → P → IpcState A P M
  unfolding recv_handshake recv_message
  on_recv_package s p = if codec.is_handshake p then recv_handshake p s else recv_message p s

  unfoldable pub on_close_connection : IpcState A P M → IpcState A P M
  on_close_connection s = elim (Map.find peer.gid s.gid2appid) [
    | none ↦ s
    | some app_id ↦ record s {
      gid2appid = Map.erase peer.gid s.gid2appid;
      appid2gid = Map.erase app_id s.appid2gid;
    }
  ]

  -- this <-- connect -- remote: this process names itself
  unfoldable pub on_new_connection_remote2this : IpcState A P M → IpcState A P M
  on_new_connection_remote2this s = record s { sent = s.sent ++ (codec.whoami ∷ []) }

  ipc_package : ℕ → VecStrBuffer → IpcState A P M → Iter (IpcState A P M)
  unfolding on_recv_package
  ipc_package data_size b s = elim (codec.parse_from_array (drop 8 b.m_data) data_size) [
    | none ↦ done (move_read_ptr_n (add64 8 data_size) b) s
    | some p ↦ again (move_read_ptr_n (add64 8 data_size) b) (on_recv_package s p)
  ]

  -- One run of the body of the loop. The sum is a `size_t` and nothing bounds the announced size.
  unfoldable pub ipc_step : VecStrBuffer → IpcState A P M → Iter (IpcState A P M)
  unfolding ipc_package
  ipc_step b s =
      if leb 8 (size b)
      then (let data_size = toh64_from_buffer b.m_data in
          if ltb (size b) (add64 data_size 8)
          then done b s
          else if data_size == 0
          then done (move_read_ptr_n 8 b) s
          else ipc_package data_size b s)
      else done b s

  unfoldable pub on_process_connection :
      VecStrBuffer → IpcState A P M → VecStrBuffer × IpcState A P M
  on_process_connection b s =
      if ltb 2048000 (size b)
      then (b, record s { is_close = true; interest = rwe })
      else loop ipc_step (size b) b s
