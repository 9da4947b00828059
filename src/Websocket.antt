-- ===== src/Websocket.antt =====
-- src/app/websocket_app.cpp: the frames of a WebSocket connection, in both directions.
-- `max_size` is std::string::max_size(), beyond which a constructor throws; the exception leaves
-- on_process_connection and the context closes the connection.
pub mod Code
pub mod Header
pub mod Decode
pub mod Effect
pub mod Messages
mod Tests
use avant.Base.{
  ℕ, zero, suc, ◌+◌, ◌-◌, ◌*◌, ◌/◌, ◌%◌, ◌^◌, ℤ, pos, negsuc, Bool, true, false, not, ◌&&◌, ◌||◌,
  Option, none, some, List, [], ◌∷◌, ◌++◌, Bytes, length, take, drop, ltb, leb, ◌==◌, if◌then◌else◌,
  bit_and, bit_or, bit_xor, add64, sub64, be64,
}
use avant.Buffer.{VecStrBuffer, size, move_read_ptr_n}
use avant.Proto.Frame.{Iter, again, done, loop}
use avant.Session.{Session, begin_close, to_other, client_package}

pub data WebsocketFrameType : Type 0 where
  connection_close_frame text_frame binary_frame pong ping : WebsocketFrameType
  continuation_frame further_non_control further_control error : WebsocketFrameType

unfoldable pub n_2_websocket_frame_type : ℕ → WebsocketFrameType
n_2_websocket_frame_type byte =
    let n = bit_and byte 0x0F in
    if n == 1
    then text_frame
    else if n == 2
    then binary_frame
    else if n == 0
    then continuation_frame
    else if leb 3 n && leb n 7
    then further_non_control
    else if leb 0xB n && leb n 0xF
    then further_control
    else if n == 8
    then connection_close_frame
    else if n == 9
    then ping
    else if n == 0xA
    then pong
    else error

unfoldable pub websocket_frame_type_2_n : WebsocketFrameType → ℕ → ℕ
websocket_frame_type_2_n text_frame idx = 1
websocket_frame_type_2_n binary_frame idx = 2
websocket_frame_type_2_n continuation_frame idx = 0
websocket_frame_type_2_n further_non_control idx = if leb idx 4 then 3 + idx else 8
websocket_frame_type_2_n further_control idx = if leb idx 5 then 0xB + idx else 8
websocket_frame_type_2_n connection_close_frame idx = 8
websocket_frame_type_2_n ping idx = 9
websocket_frame_type_2_n pong idx = 0xA
websocket_frame_type_2_n error idx = 8

-- the frames that are allowed: text, binary and continuation
unfoldable pub is_allowed : WebsocketFrameType → Bool
is_allowed text_frame = true
is_allowed binary_frame = true
is_allowed continuation_frame = true
is_allowed _ = false

pub record WebsocketCtx (P : Type 0) : Type 0 where
  pub session : Session P
  pub frame_first_opcode : ℕ
  pub frame_payload_data : Bytes
  -- a std::length_error is on its way to the context
  pub thrown : Bool

-- (uint8_t)data[i]; the callers check that the byte is there
abbrev pub byte_at : Bytes → ℕ → ℕ
byte_at [] i = 0
byte_at (b ∷ bs) zero = b
byte_at (b ∷ bs) (suc i) = byte_at bs i

-- ntohl of the four bytes at `i`
abbrev pub be32_at : Bytes → ℕ → ℕ
be32_at bytes i =
    byte_at bytes i * 16777216
    + byte_at bytes (i + 1) * 65536
    + byte_at bytes (i + 2) * 256
    + byte_at bytes (i + 3)

-- The length, from index 2 on: the next index and `payload_length`; `none` where bytes are missing.
unfoldable pub read_length : Bytes → ℕ → Option (ℕ × ℕ)
read_length bytes payload_length =
    if payload_length == 126
    then (if leb (length bytes) 3 then none else some (4, byte_at bytes 2 * 256 + byte_at bytes 3))
    else if payload_length == 127
    then (if leb (length bytes) 9
        then none
        else some (10, bit_or (be32_at bytes 2 * 2 ^ 32 % 2 ^ 64) (be32_at bytes 6)))
    else some (2, payload_length)

-- The masking key; an empty key where the frame has none.
unfoldable pub read_mask : Bytes → Bool → ℕ → Option (ℕ × Bytes)
read_mask bytes mask index =
    if mask
    then (if leb (length bytes) (index + 3)
        then none
        else some (
          index + 4,
          byte_at bytes index
              ∷ byte_at bytes (index + 1)
              ∷ byte_at bytes (index + 2)
              ∷ byte_at bytes (index + 3)
              ∷ [],
        ))
    else some (index, [])

-- payload_data[i] ^= masking_key[i % 4], from the i-th byte on
unfoldable pub unmask : Bytes → ℕ → Bytes → Bytes
unmask key i [] = []
unmask key i (b ∷ bs) = bit_xor b (byte_at key (i % 4)) ∷ unmask key (suc i) bs

-- The bytes of the payload, with the key applied
unfoldable pub read_payload : Bytes → Bool → Bytes → ℕ → ℕ → Bytes
unfolding unmask
read_payload bytes mask key index payload_length =
    if mask
    then unmask key 0 (take payload_length (drop index bytes))
    else take payload_length (drop index bytes)

module _ {P : Type 0} where
  unfoldable pub close_ctx : WebsocketCtx P → WebsocketCtx P
  unfolding begin_close
  close_ctx ctx = record ctx { session = begin_close ctx.session }

  -- frame_first_opcode is kept for the frames that continue a message
  unfoldable pub first_opcode : ℕ → WebsocketCtx P → WebsocketCtx P
  first_opcode opcode ctx = elim (n_2_websocket_frame_type opcode) [
    | text_frame ↦ record ctx { frame_first_opcode = opcode }
    | binary_frame ↦ record ctx { frame_first_opcode = opcode }
    | _ ↦ ctx
  ]

module _ {P : Type 0} (max_size : ℕ) (parse : Bytes → Option P) where
  unfoldable pub on_process_frame : WebsocketCtx P → WebsocketCtx P
  unfolding close_ctx
  on_process_frame ctx = elim (parse ctx.frame_payload_data) [
    | none ↦ close_ctx (record ctx { frame_payload_data = [] })
    | some p ↦ record ctx {
      frame_payload_data = [];
      session = to_other (client_package p) ctx.session;
    }
  ]

  -- the frame is complete: its payload is appended, and a last frame ends the message
  unfoldable pub take_frame : Bool → Bytes → WebsocketCtx P → WebsocketCtx P
  take_frame fin payload_data ctx =
      let ctx' = record ctx { frame_payload_data = ctx.frame_payload_data ++ payload_data } in
      if fin then on_process_frame ctx' else ctx'

  -- once the length and the key are read: `index + payload_length - 1` is a `size_t`
  unfoldable pub complete_frame :
      VecStrBuffer → Bool → Bool → Bytes → ℕ → ℕ → WebsocketCtx P → Iter (WebsocketCtx P)
  unfolding take_frame
  complete_frame b fin mask key index payload_length ctx =
      if leb (size b) (sub64 (add64 index payload_length) 1)
      then done b ctx
      else if ltb max_size payload_length
      then done b (record ctx { thrown = true })
      else again (move_read_ptr_n (add64 index payload_length) b)
          (take_frame fin (read_payload b.m_data mask key index payload_length) ctx)

  -- the second byte and what follows
  unfoldable pub second_byte : VecStrBuffer → Bool → ℕ → WebsocketCtx P → Iter (WebsocketCtx P)
  unfolding complete_frame
  second_byte b fin byte ctx =
      let mask = not (bit_and byte 0x80 == 0) in
      elim (read_length b.m_data (bit_and byte 0x7F)) [
        | none ↦ done b ctx
        | some (index, payload_length) ↦ elim (read_mask b.m_data mask index) [
          | none ↦ done b ctx
          | some (index', key) ↦ complete_frame b fin mask key index' payload_length ctx
        ]
      ]

  -- one run of the body of the loop
  unfoldable pub websocket_step : VecStrBuffer → WebsocketCtx P → Iter (WebsocketCtx P)
  unfolding second_byte is_allowed
  websocket_step b ctx =
      let bytes = b.m_data in
      let opcode = bit_and (byte_at bytes 0) 0x0F in
      if size b == 0
      then done b ctx
      else if not (is_allowed (n_2_websocket_frame_type opcode))
      then done b (close_ctx ctx)
      else if leb (size b) 1
      then done b (first_opcode opcode ctx)
      else second_byte b (not (bit_and (byte_at bytes 0) 0x80 == 0)) (byte_at bytes 1)
          (first_opcode opcode ctx)

  -- the loop, then the limits on what waits; an exception skips the limits
  unfoldable pub websocket_process : VecStrBuffer → WebsocketCtx P → VecStrBuffer × WebsocketCtx P
  websocket_process b ctx =
      let r = loop websocket_step (size b) b ctx in
      if r.1.thrown
      then (r.0, close_ctx r.1)
      else if ltb 1024000 (size r.0)
      then (r.0, close_ctx r.1)
      else if ltb 1024000 (length r.1.frame_payload_data)
      then (r.0, close_ctx r.1)
      else r

-- the bytes that send_sync_package puts on the stream
unfoldable pub encode_frame : ℕ → Bytes → Bytes
encode_frame first_byte bytes =
    let message_length = length bytes in
    if leb message_length 125
    then first_byte ∷ message_length ∷ bytes
    else if leb message_length 0xFFFF
    then first_byte
      ∷ 126
      ∷ bit_and (message_length / 256) 0xFF
      ∷ bit_and message_length 0xFF
      ∷ bytes
    else first_byte ∷ 127 ∷ be64 message_length ++ bytes

-- `send_data` of the context is a parameter.
unfoldable pub send_sync_package :
    {P : Type 0}
    → (Bytes → WebsocketCtx P → ℤ × WebsocketCtx P)
    → ℕ
    → ℕ
    → Bytes
    → WebsocketCtx P
    → ℤ × WebsocketCtx P
send_sync_package send_data send_buffer_size first_byte bytes ctx =
    if ltb 1024000 send_buffer_size
    then (negsuc 0, close_ctx ctx)
    else send_data (encode_frame first_byte bytes) ctx
