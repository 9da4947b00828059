-- ===== src/Websocket/Code.antt =====
-- The opcodes and their names.
use avant.Base.{ℕ, ◌-◌, ◌<◌, ◌≡◌, leb, ◌&&◌, if◌then◌else◌, arith}
use avant.Base.Bits.{bit_and-0x0f}
use avant.Websocket.{n_2_websocket_frame_type, websocket_frame_type_2_n}

-- the place of an opcode among those that share its name
abbrev pub place : ℕ → ℕ
place n = if leb 0xB n then n - 0xB else if leb 3 n && leb n 7 then n - 3 else 0

-- Every opcode of four bits has a name, and the name with the place among the opcodes that share it
-- gives the opcode back.
pub websocket_frame_type_2_n-n_2_websocket_frame_type :
    (n : ℕ) → n < 16 → websocket_frame_type_2_n (n_2_websocket_frame_type n) (place n) ≡ n
unfolding websocket_frame_type_2_n n_2_websocket_frame_type
websocket_frame_type_2_n-n_2_websocket_frame_type n h = ground (arith, bit_and-0x0f n)
