-- ===== src/StreamCtx.antt =====
-- src/connection/stream_ctx.cpp: reading and writing the socket of a client. The results of `recv`
-- and `send` come as a list, the first call's first; a socket with no result left would block.
-- Accepting a connection and its TLS handshake are not modelled: the event is one of a ready one.
pub mod Flush
pub mod Read
mod Tests
use avant.Base.{
  ℕ, ◌-◌, ℤ, pos, negsuc, Bool, true, false, ◌||◌, not, Option, none, some, List, [], ◌∷◌, ◌++◌,
  Bytes, length, take, leb, if◌then◌else◌,
}
use avant.Buffer.{VecStrBuffer, size, move_read_ptr_n, append}
use avant.Session.{Interest, re, rwe}

pub record Link : Type 0 where
  pub is_close : Bool
  pub closed_flag : Bool
  pub is_ready : Bool
  pub interest : Interest
  pub recv_buffer : VecStrBuffer
  pub send_buffer : VecStrBuffer
  -- what the socket has taken, oldest first
  pub wire : Bytes

-- send: a positive count; EAGAIN, EINTR or EWOULDBLOCK; any other failure
pub data SendResult : Type 0 where
  sent : ℕ → SendResult
  send_blocked send_failed : SendResult

-- recv: bytes; EAGAIN or EWOULDBLOCK; EINTR; the end of the stream or any other failure
pub data RecvResult : Type 0 where
  received : Bytes → RecvResult
  recv_blocked recv_interrupted recv_closed : RecvResult

-- while (!send_buffer.empty())
unfoldable pub flush_loop : List SendResult → Link → Link
flush_loop [] l = if leb (size l.send_buffer) 0 then l else record l { interest = rwe }
flush_loop (sent n ∷ rest) l =
    let next = flush_loop rest (record l {
      wire = l.wire ++ take n l.send_buffer.m_data;
      send_buffer = move_read_ptr_n n l.send_buffer;
    }) in
    if leb (size l.send_buffer) 0 then l else next
flush_loop (send_blocked ∷ rest) l =
    if leb (size l.send_buffer) 0 then l else record l { interest = rwe }
flush_loop (send_failed ∷ rest) l =
    if leb (size l.send_buffer) 0 then l else record l { is_close = true; interest = rwe }

unfoldable pub try_send_flush : List SendResult → Link → Link
unfolding flush_loop
try_send_flush results l =
    if leb (size l.send_buffer) 0 then record l { interest = re } else flush_loop results l

unfoldable pub send_data : List SendResult → Bool → Bytes → Link → ℤ × Link
unfolding try_send_flush
send_data results flush bytes l =
    if l.is_close || l.closed_flag
    then (negsuc 0, l)
    else if not l.is_ready
    then (negsuc 1, l)
    else (let appended = record l { send_buffer = append (some bytes) l.send_buffer } in
        if flush
        then (pos 0, try_send_flush results appended)
        else (pos 0, record appended { interest = rwe }))

-- while (buffer_len < buffer_size); `none` is the return after the end of the stream.
unfoldable pub recv_loop : List RecvResult → Bytes → Option Bytes
recv_loop [] buffer = some buffer
recv_loop (received bytes ∷ rest) buffer =
    let next = recv_loop rest (buffer ++ take (10240 - length buffer) bytes) in
    if leb 10240 (length buffer) then some buffer else next
recv_loop (recv_blocked ∷ rest) buffer = some buffer
recv_loop (recv_interrupted ∷ rest) buffer =
    let next = recv_loop rest buffer in if leb 10240 (length buffer) then some buffer else next
recv_loop (recv_closed ∷ rest) buffer = if leb 10240 (length buffer) then some buffer else none

-- The application's on_process_connection is a parameter; its second result is whether it threw.
module _ (on_process_connection : Link → Link × Bool) where
  -- if (recv_buffer.size() > 0) process; `none` is a return
  unfoldable pub process_received : Link → Link × Bool
  process_received l =
      if leb (size l.recv_buffer) 0
      then (l, false)
      else (let r = on_process_connection l in
          if r.1 then (record (r.0) { is_close = true; interest = rwe }, true) else (r.0, false))

  -- on_event with READ: the flag is whether on_event returns there
  unfoldable pub read_event : List RecvResult → Link → Link × Bool
  unfolding process_received recv_loop
  read_event results l = elim (recv_loop results []) [
    | none ↦ (record l { is_close = true; interest = rwe }, true)
    | some bytes ↦ process_received (record l { recv_buffer = append (some bytes) l.recv_buffer })
  ]

  -- on_event with READ and WRITE
  unfoldable pub on_event : List RecvResult → List SendResult → Link → Link
  unfolding read_event try_send_flush
  on_event recvs sends l =
      let r = read_event recvs l in if r.1 then r.0 else try_send_flush sends (r.0)
