-- ===== src/Websocket/Decode.antt =====
-- How a client's frame is taken off the buffer.
use avant.Base.{
  subst, ℕ, ◌+◌, ◌<◌, ◌≤◌, ◌≡◌, refl, ap, ap₂, sym, ◌∙◌, Bool, true, false, not, Option, some, [],
  ◌∷◌, ◌++◌, Bytes, IsByte, All, length, take, drop, ltb, leb, ◌==◌, if◌then◌else◌, bit_and, arith,
  length-append, Bool-cases, inl, inr, append_assoc, drop-append_self, take-append_self, add64,
  sub64,
}
use avant.Base.Bits.{bit_and-0x0f, bit_and-0x7f, bit_and-0x80}
use avant.Buffer.{VecStrBuffer, size, move_read_ptr_n}
use avant.Buffer.Laws.{m_data-move}
use avant.Proto.Frame.{again}
use avant.Websocket.{
  WebsocketCtx, read_length, read_mask, read_payload, unmask, complete_frame, second_byte,
  websocket_step, take_frame, first_opcode, n_2_websocket_frame_type, is_allowed,
}
use avant.Websocket.Header.{
  len7, extension, read_length-extension, read_mask-key, unmask_twice, length-unmask, IsKey,
}

-- the fields of RFC 6455 that the program reads
pub record ClientFrame : Type 0 where
  pub fin : Bool
  pub opcode : ℕ
  pub mask : Bool
  pub key : Bytes
  pub payload : Bytes

abbrev pub masked : ClientFrame → Bytes
masked f = if f.mask then unmask f.key 0 f.payload else f.payload

-- the frame on the stream
abbrev pub frame_bytes : ClientFrame → Bytes
frame_bytes f =
    (if f.fin then 128 + f.opcode else f.opcode)
    ∷ (if f.mask then 128 + len7 (length f.payload) else len7 (length f.payload))
    ∷ (extension (length f.payload) ++ ((if f.mask then f.key else []) ++ masked f))

-- a text, binary or continuation frame of bytes, with a key of four bytes
pub record IsClientFrame (max_size : ℕ) (f : ClientFrame) : Type 0 where
  pub allowed : f.opcode < 3
  pub its_key : IsKey f.key
  pub its_bytes : All IsByte f.payload
  pub small : length f.payload ≤ max_size
  pub fits : length f.payload < 9223372036854775808

three_codes : (n : ℕ) → n < 3 → is_allowed (n_2_websocket_frame_type n) ≡ true
unfolding is_allowed n_2_websocket_frame_type
three_codes n h = ground (arith, bit_and-0x0f n)

module _ {P : Type 0} (max_size : ℕ) (parse : Bytes → Option P) where
  complete_frame_lem :
      (b : VecStrBuffer) (fin mask : Bool) (key pre p rest : Bytes) (index n : ℕ)
      (ctx : WebsocketCtx P)
      → b.m_data ≡ pre ++ (p ++ rest)
      → index ≡ length pre
      → n ≡ length p
      → 0 < index
      → index ≤ 14
      → n < 9223372036854775808
      → n ≤ max_size
      → complete_frame max_size parse b fin mask key index n ctx
        ≡ again
            (record { m_data = rest })
            (take_frame max_size parse fin (if mask then unmask key 0 p else p) ctx)
  unfolding complete_frame read_payload
  complete_frame_lem b fin mask key pre p rest index n ctx e hi hn h0 h14 h63 hmax =
      let len : size b ≡ index + (n + length rest) =
        ap (λ (t : Bytes). length t) e
        ∙ omega (arith, length-append pre (p ++ rest), length-append p rest) in
      let behind : drop index b.m_data ≡ p ++ rest =
        ap (drop index) e ∙ drop-append_self index pre (p ++ rest) hi in
      let payload : take n (drop index b.m_data) ≡ p =
        ap (take n) behind ∙ take-append_self n p rest hn in
      let sum : add64 index n ≡ index + n = omega arith in
      let taken : drop (index + n) b.m_data ≡ rest =
        ap (drop (index + n)) (e ∙ sym (append_assoc pre p rest))
        ∙ drop-append_self (index + n) (pre ++ p) rest (omega (arith, length-append pre p)) in
      let enough : leb (size b) (sub64 (add64 index n) 1) ≡ false = ground (arith, len) in
      let not_over : ltb max_size n ≡ false = ground arith in
      let moved : move_read_ptr_n (add64 index n) b ≡ record { m_data = rest } =
        ap (λ (t : Bytes). record { m_data = t })
          (m_data-move (add64 index n) b ∙ ap (λ (k : ℕ). drop k b.m_data) sum ∙ taken) in
      let read : read_payload b.m_data mask key index n ≡ (if mask then unmask key 0 p else p) =
        ap (λ (t : Bytes). if mask then unmask key 0 t else t) payload in
      rw (enough, not_over, complete_frame)
        (ap₂ again moved (ap (λ (t : Bytes). take_frame max_size parse fin t ctx) read))

  module _ (fin : Bool) (key payload : Bytes) (first : ℕ) (rest : Bytes) (ctx : WebsocketCtx P)
      (small : length payload ≤ max_size) (fits : length payload < 9223372036854775808) where
    len7-lt : len7 (length payload) < 128
    len7-lt = ground arith

    length-extension : length (extension (length payload)) ≤ 8
    length-extension = ground arith

    -- the rest of a masked frame, once its first byte is read
    second_byte_masked :
        IsKey key
        → All IsByte payload
        → second_byte max_size parse
            (record {
              m_data =
                  first
                  ∷ (128 + len7 (length payload))
                  ∷ (extension (length payload) ++ (key ++ (unmask key 0 payload ++ rest)));
            })
            fin
            (128 + len7 (length payload))
            ctx
          ≡ again (record { m_data = rest }) (take_frame max_size parse fin payload ctx)
    unfolding second_byte
    second_byte_masked k its_bytes =
        let c : ℕ = 128 + len7 (length payload) in
        let pre : Bytes = first ∷ c ∷ extension (length payload) in
        let behind : Bytes = unmask key 0 payload ++ rest in
        let top : (bit_and c 0x80 == 0) ≡ false = ground (arith, len7-lt, bit_and-0x80 c) in
        let seven : bit_and c 0x7F ≡ len7 (length payload) =
          omega (arith, len7-lt, bit_and-0x7f c) in
        let announced : read_length (pre ++ (key ++ behind)) (len7 (length payload))
            ≡ some (2 + length (extension (length payload)), length payload) =
          read_length-extension (length payload) first c (key ++ behind) fits in
        let its_key : read_mask (pre ++ (key ++ behind)) true
              (2 + length (extension (length payload)))
            ≡ some (2 + length (extension (length payload)) + 4, key) =
          subst (λ (i : ℕ). read_mask (pre ++ (key ++ behind)) true i ≡ some (i + 4, key))
            (omega arith) (read_mask-key pre key behind k.four) in
        rw (seven, announced, top, its_key, top, second_byte)
          (complete_frame_lem (record { m_data = pre ++ (key ++ behind) }) fin true key (pre ++ key)
              (unmask key 0 payload) rest (2 + length (extension (length payload)) + 4)
              (length payload) ctx (sym (append_assoc pre key behind))
              (omega (arith, length-append pre key, k.four)) (sym (length-unmask key payload 0))
              (omega arith) (omega (arith, length-extension)) fits small
            ∙ ap
                (λ (t : Bytes).
                  again (record { m_data = rest }) (take_frame max_size parse fin t ctx))
                (unmask_twice key payload 0 k.its_bytes its_bytes))

    second_byte_plain :
        second_byte max_size parse
          (record {
            m_data =
                first ∷ len7 (length payload) ∷ (extension (length payload) ++ (payload ++ rest));
          })
          fin
          (len7 (length payload))
          ctx
        ≡ again (record { m_data = rest }) (take_frame max_size parse fin payload ctx)
    unfolding second_byte read_mask
    second_byte_plain =
        let c : ℕ = len7 (length payload) in
        let pre : Bytes = first ∷ c ∷ extension (length payload) in
        let top : (bit_and c 0x80 == 0) ≡ true = ground (arith, len7-lt, bit_and-0x80 c) in
        let seven : bit_and c 0x7F ≡ c = omega (arith, len7-lt, bit_and-0x7f c) in
        let announced : read_length (pre ++ (payload ++ rest)) c
            ≡ some (2 + length (extension (length payload)), length payload) =
          read_length-extension (length payload) first c (payload ++ rest) fits in
        rw (seven, announced, top, top, second_byte)
          (complete_frame_lem (record { m_data = pre ++ (payload ++ rest) }) fin false [] pre
            payload rest (2 + length (extension (length payload))) (length payload) ctx refl
            (omega arith) refl (omega arith) (omega (arith, length-extension)) fits small)

  -- the same, for either kind
  after_first :
      (f : ClientFrame) (first : ℕ) (rest : Bytes) (ctx : WebsocketCtx P)
      → IsClientFrame max_size f
      → second_byte max_size parse
          (record {
            m_data =
                first
                ∷ (if f.mask then 128 + len7 (length f.payload) else len7 (length f.payload))
                ∷ ((extension (length f.payload) ++ ((if f.mask then f.key else []) ++ masked f))
                    ++ rest);
          })
          f.fin
          (if f.mask then 128 + len7 (length f.payload) else len7 (length f.payload))
          ctx
        ≡ again (record { m_data = rest }) (take_frame max_size parse f.fin f.payload ctx)
  after_first f first rest ctx h = elim (Bool-cases f.mask) [
    | inl m ↦
        rw
          (
            m,
            append_assoc (extension (length f.payload)) (f.key ++ unmask f.key 0 f.payload) rest,
            append_assoc f.key (unmask f.key 0 f.payload) rest,
          )
          (second_byte_masked f.fin f.key f.payload first rest ctx h.small h.fits h.its_key
            h.its_bytes)
    | inr m ↦
        rw (m, append_assoc (extension (length f.payload)) f.payload rest)
          (second_byte_plain f.fin f.key f.payload first rest ctx h.small h.fits)
  ]

  -- The frame is decoded whole, and its payload, unmasked, is what take_frame gets.
  pub websocket_step-frame_bytes :
      (f : ClientFrame) (rest : Bytes) (ctx : WebsocketCtx P)
      → IsClientFrame max_size f
      → websocket_step max_size parse (record { m_data = frame_bytes f ++ rest }) ctx
        ≡ again
            (record { m_data = rest })
            (take_frame max_size parse f.fin f.payload (first_opcode f.opcode ctx))
  unfolding websocket_step
  websocket_step-frame_bytes f rest ctx h =
      let first : ℕ = if f.fin then 128 + f.opcode else f.opcode in
      let low : bit_and first 0x0F ≡ f.opcode = ground (arith, h.allowed, bit_and-0x0f first) in
      let top : not (bit_and first 0x80 == 0) ≡ f.fin =
        ground (arith, h.allowed, bit_and-0x80 first) in
      let kind : is_allowed (n_2_websocket_frame_type f.opcode) ≡ true =
        three_codes f.opcode h.allowed in
      let b : VecStrBuffer = record { m_data = frame_bytes f ++ rest } in
      let some_bytes : (size b == 0) ≡ false = ground arith in
      let two_bytes : leb (size b) 1 ≡ false = ground arith in
      rw (low, some_bytes, kind, two_bytes, top, websocket_step)
        (after_first f first rest (first_opcode f.opcode ctx) h)
