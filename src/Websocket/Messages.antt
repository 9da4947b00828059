-- ===== src/Websocket/Messages.antt =====
-- Whole buffers of frames, and the frames that the program sends.
use avant.Base.{
  ℕ, zero, suc, ◌+◌, ◌/◌, ◌<◌, ◌≤◌, ◌≡◌, refl, ap, ◌∙◌, true, false, Option, List, [], ◌∷◌, ◌++◌,
  Bytes, IsByte, All, length, ltb, arith, length-append,
}
use avant.Base.Bits.{bit_and-0xff}
use avant.Proto.Frame.{again, loop, loop_empty, loop_again}
use avant.Websocket.{
  WebsocketCtx, websocket_step, websocket_process, take_frame, first_opcode, encode_frame, byte_at,
}
use avant.Websocket.Header.{IsKey}
use avant.Websocket.Decode.{ClientFrame, IsClientFrame, frame_bytes, websocket_step-frame_bytes}

abbrev pub stream_of : List ClientFrame → Bytes
stream_of [] = []
stream_of (f ∷ fs) = frame_bytes f ++ stream_of fs

module _ {P : Type 0} (max_size : ℕ) (parse : Bytes → Option P) where
  -- what the frames do to a connection, one after the other
  abbrev pub take_all : List ClientFrame → WebsocketCtx P → WebsocketCtx P
  take_all [] ctx = ctx
  take_all (f ∷ fs) ctx =
      take_all fs (take_frame max_size parse f.fin f.payload (first_opcode f.opcode ctx))

  loop_frames :
      (fs : List ClientFrame) (n : ℕ) (ctx : WebsocketCtx P)
      → All (IsClientFrame max_size) fs
      → length (stream_of fs) ≤ n
      → loop (websocket_step max_size parse) n (record { m_data = stream_of fs }) ctx
        ≡ (record { m_data = [] }, take_all fs ctx)
  loop_frames [] n ctx h k =
      loop_empty (websocket_step max_size parse) n (record { m_data = [] }) ctx refl
  loop_frames (f ∷ fs) zero ctx h k = absurd (omega arith)
  loop_frames (f ∷ fs) (suc n) ctx h k =
      let total : length (frame_bytes f ++ stream_of fs)
          ≡ length (frame_bytes f) + length (stream_of fs) =
        length-append (frame_bytes f) (stream_of fs) in
      loop_again (websocket_step max_size parse) n (record { m_data = stream_of (f ∷ fs) })
        (record { m_data = stream_of fs }) ctx
        (take_frame max_size parse f.fin f.payload (first_opcode f.opcode ctx)) (omega arith)
        (websocket_step-frame_bytes max_size parse f (stream_of fs) ctx h.0)
      ∙ loop_frames fs n (take_frame max_size parse f.fin f.payload (first_opcode f.opcode ctx)) h.1
          (omega (arith, total))

  -- A buffer that holds any number of whole client frames, and nothing else, is emptied by one
  -- event, and the frames take effect one after the other, fragments of a message included,
  -- where this leaves no exception and at most 1024000 bytes of an unfinished message.
  pub websocket_process-stream_of :
      (fs : List ClientFrame) (ctx : WebsocketCtx P)
      → All (IsClientFrame max_size) fs
      → (take_all fs ctx).thrown ≡ false
      → length (take_all fs ctx).frame_payload_data ≤ 1024000
      → websocket_process max_size parse (record { m_data = stream_of fs }) ctx
        ≡ (record { m_data = [] }, take_all fs ctx)
  unfolding websocket_process
  websocket_process-stream_of fs ctx h quiet small =
      let e = loop_frames fs (length (stream_of fs)) ctx h (omega arith) in
      let enough : ltb 1024000 (length (take_all fs ctx).frame_payload_data) ≡ false =
        ground arith in
      rw (e, quiet, enough) refl

-- the frame of RFC 6455 that carries the payload without a key
abbrev pub server_frame : ℕ → Bytes → ClientFrame
server_frame opcode payload = record {
  fin = true;
  opcode = opcode;
  mask = false;
  key = 0 ∷ 0 ∷ 0 ∷ 0 ∷ [];
  payload = payload;
}

encode_frame-frame_bytes :
    (opcode : ℕ) (payload : Bytes)
    → encode_frame (128 + opcode) payload ≡ frame_bytes (server_frame opcode payload)
unfolding encode_frame
encode_frame-frame_bytes opcode payload =
    ground (arith, bit_and-0xff (length payload / 256), bit_and-0xff (length payload))

zero-IsKey : IsKey (0 ∷ 0 ∷ 0 ∷ 0 ∷ [])
zero-IsKey = record { four = refl; its_bytes = at_most }
  where
    at_most : (i : ℕ) → byte_at (0 ∷ 0 ∷ 0 ∷ 0 ∷ []) i < 256
    at_most zero = omega arith
    at_most (suc zero) = omega arith
    at_most (suc (suc zero)) = omega arith
    at_most (suc (suc (suc zero))) = omega arith
    at_most (suc (suc (suc (suc i)))) = omega arith

-- The frame that send_sync_package writes for a final text, binary or continuation opcode and a
-- payload of bytes no longer than a string may be is read back by the rules of
-- on_process_connection as one final frame with exactly that payload, at each of the three sizes
-- of the length field.
pub websocket_step-encode_frame :
    {P : Type 0}
    → (max_size : ℕ) (parse : Bytes → Option P) (opcode : ℕ) (payload rest : Bytes)
      (ctx : WebsocketCtx P)
    → opcode < 3
    → All IsByte payload
    → length payload ≤ max_size
    → length payload < 9223372036854775808
    → websocket_step max_size parse
        (record { m_data = encode_frame (128 + opcode) payload ++ rest })
        ctx
      ≡ again
          (record { m_data = rest })
          (take_frame max_size parse true payload (first_opcode opcode ctx))
websocket_step-encode_frame max_size parse opcode payload rest ctx allowed bytes small fits =
    ap (λ (t : Bytes). websocket_step max_size parse (record { m_data = t ++ rest }) ctx)
      (encode_frame-frame_bytes opcode payload)
    ∙ websocket_step-frame_bytes max_size parse (server_frame opcode payload) rest ctx (record {
      allowed = allowed;
      its_key = zero-IsKey;
      its_bytes = bytes;
      small = small;
      fits = fits;
    })
