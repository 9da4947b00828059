-- ===== src/Websocket/Tests.antt =====
-- Frames on concrete streams; a package is the list of the bytes of its message.
use avant.Base.{
  ℕ, zero, suc, ◌<◌, ◌≡◌, refl, true, false, Option, some, [], ◌∷◌, ◌++◌, Bytes, arith,
}
use avant.Proto.Frame.{again}
use avant.Session.{re}
use avant.Websocket.{
  WebsocketCtx, websocket_step, websocket_process, take_frame, first_opcode, encode_frame, byte_at,
  n_2_websocket_frame_type, websocket_frame_type_2_n,
}
use avant.Websocket.Decode.{ClientFrame, IsClientFrame, frame_bytes}
use avant.Websocket.Effect.{IsTaken, websocket_step-IsTaken}
use avant.Websocket.Messages.{
  stream_of, take_all, websocket_process-stream_of, websocket_step-encode_frame,
}

abbrev parse : Bytes → Option Bytes
parse bs = some bs

abbrev max_size : ℕ
max_size = 9223372036854775807

abbrev ctx : WebsocketCtx Bytes
ctx = record {
  session = record {
    gid = 5;
    worker_idx = 1;
    is_close = false;
    closed_flag = false;
    is_ready = true;
    app_layer_notified = true;
    interest = re;
    outbox = [];
  };
  frame_first_opcode = 0;
  frame_payload_data = [];
  thrown = false;
}

abbrev key : Bytes
key = 17 ∷ 34 ∷ 51 ∷ 68 ∷ []

key_bytes : (i : ℕ) → byte_at key i < 256
key_bytes zero = omega arith
key_bytes (suc zero) = omega arith
key_bytes (suc (suc zero)) = omega arith
key_bytes (suc (suc (suc zero))) = omega arith
key_bytes (suc (suc (suc (suc i)))) = omega arith

-- the first fragment of a text message
abbrev fragment : ClientFrame
fragment = record { fin = false; opcode = 1; mask = true; key = key; payload = 7 ∷ 8 ∷ [] }

-- its last one
abbrev last : ClientFrame
last = record { fin = true; opcode = 0; mask = true; key = key; payload = 9 ∷ [] }

fragment-IsClientFrame : IsClientFrame max_size fragment
fragment-IsClientFrame = record {
  allowed = omega arith;
  its_key = record { four = refl; its_bytes = key_bytes };
  its_bytes = omega arith;
  small = omega arith;
  fits = omega arith;
}

last-IsClientFrame : IsClientFrame max_size last
last-IsClientFrame = record {
  allowed = omega arith;
  its_key = record { four = refl; its_bytes = key_bytes };
  its_bytes = omega arith;
  small = omega arith;
  fits = omega arith;
}

websocket_step-IsTaken_example :
    (ctx' : WebsocketCtx Bytes) × (websocket_step max_size parse
        (record { m_data = frame_bytes fragment ++ (129 ∷ []) })
        ctx
      ≡ again (record { m_data = 129 ∷ [] }) ctx')
    × IsTaken parse fragment ctx ctx'
websocket_step-IsTaken_example =
    websocket_step-IsTaken parse max_size fragment (129 ∷ []) ctx fragment-IsClientFrame

websocket_process-stream_of_example :
    websocket_process max_size parse (record { m_data = stream_of (fragment ∷ last ∷ []) }) ctx
    ≡ (record { m_data = [] }, take_all max_size parse (fragment ∷ last ∷ []) ctx)
unfolding take_frame first_opcode n_2_websocket_frame_type avant.Websocket.on_process_frame
websocket_process-stream_of_example =
    websocket_process-stream_of max_size parse (fragment ∷ last ∷ []) ctx
      (fragment-IsClientFrame, (last-IsClientFrame, tt)) refl (omega arith)

websocket_step-encode_frame_example :
    websocket_step max_size parse (record { m_data = encode_frame 130 (7 ∷ 8 ∷ []) ++ [] }) ctx
    ≡ again
        (record { m_data = [] })
        (take_frame max_size parse true (7 ∷ 8 ∷ []) (first_opcode 2 ctx))
websocket_step-encode_frame_example =
    websocket_step-encode_frame max_size parse 2 (7 ∷ 8 ∷ []) [] ctx (omega arith) (omega arith)
      (omega arith) (omega arith)
