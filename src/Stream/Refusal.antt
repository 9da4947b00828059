-- ===== src/Stream/Refusal.antt =====
-- When `stream_app` gives a connection up, and what it leaves undone.
use avant.Base.{
  ℕ, zero, suc, ◌+◌, ◌≤◌, ◌<◌, ◌≡◌, ◌⊎◌, inl, inr, dec_lt, refl, ap, ◌∙◌, true, none, Option, [],
  ◌++◌, Bytes, length, of_be64, be64, arith, of_be64-be64, drop-append_self, take-append_self,
  length-append,
}
use avant.Buffer.{VecStrBuffer, size, move_read_ptr_n}
use avant.Buffer.Laws.{m_data-move}
use avant.Proto.Frame.{done, loop}
use avant.Session.{Session, begin_close, rwe}
use avant.Stream.{max_packsize, max_recv_buffer, int32_max, parse_step, on_process_connection}

module _ {P : Type 0} (parse : Bytes → Option P) where
  -- a run of the body that stops ends the loop where it stops
  stops_at :
      (n : ℕ) (b b' : VecStrBuffer) (s s' : Session P)
      → 0 < size b
      → parse_step parse b s ≡ done b' s'
      → loop (parse_step parse) (suc n) b s ≡ (b', s')
  unfolding loop
  stops_at n b b' s s' h e = ground arith

  loop_stops_at :
      (n : ℕ) (b b' : VecStrBuffer) (s s' : Session P)
      → 0 < n
      → 0 < size b
      → parse_step parse b s ≡ done b' s'
      → loop (parse_step parse) n b s ≡ (b', s')
  loop_stops_at zero b b' s s' h k e = absurd (omega arith)
  loop_stops_at (suc n) b b' s s' h k e = stops_at n b b' s s' k e

  process_stops_at :
      (b b' : VecStrBuffer) (s s' : Session P)
      → size b ≤ max_recv_buffer
      → 0 < size b
      → parse_step parse b s ≡ done b' s'
      → on_process_connection parse b s ≡ (b', s')
  unfolding on_process_connection
  process_stops_at b b' s s' h k e =
      ground (arith, loop_stops_at int32_max b b' s s' (omega arith) k e)

  oversized :
      (b : VecStrBuffer) (s : Session P)
      → 8 ≤ size b
      → max_packsize < of_be64 b.m_data
      → parse_step parse b s ≡ done b (begin_close s)
  unfolding parse_step
  oversized b s h k = ground arith

  abbrev framed : Bytes → Bytes → VecStrBuffer
  framed d rest = record { m_data = be64 (length d) ++ (d ++ rest) }

  length-framed : (d rest : Bytes) → size (framed d rest) ≡ 8 + length d + length rest
  length-framed d rest = omega (arith, length-append d rest)

  behind :
      (d rest : Bytes) → move_read_ptr_n (8 + length d) (framed d rest) ≡ record { m_data = rest }
  behind d rest =
      ap (λ (t : Bytes). record { m_data = t })
        (m_data-move (8 + length d) (framed d rest)
          ∙ drop-append_self (8 + length d) (be64 (length d) ++ d) rest (omega arith))

  stalled :
      (d rest : Bytes) (s : Session P)
      → (d ≡ []) ⊎ (parse d ≡ none)
      → length d ≤ max_packsize
      → parse_step parse (framed d rest) s ≡ done (record { m_data = rest }) s
  unfolding parse_step
  stalled d rest s (inl e) h = ground (
    arith,
    ap length e,
    behind d rest,
    length-framed d rest,
    of_be64-be64 (length d) (d ++ rest) (omega arith),
  )
  stalled d rest s (inr e) h = ground (
    arith,
    behind d rest,
    length-framed d rest,
    of_be64-be64 (length d) (d ++ rest) (omega arith),
    take-append_self (length d) d rest refl,
  )

  -- A receive buffer of more than 2048000 bytes, or a header that announces a package of more than
  -- 10240 bytes, marks the connection for closing and registers it for both events; no package is
  -- handed on and no byte is consumed.
  pub stream_refusal :
      (b : VecStrBuffer) (s : Session P)
      → (max_recv_buffer < size b) ⊎ ((8 ≤ size b) × (max_packsize < of_be64 b.m_data))
      → on_process_connection parse b s ≡ (b, record s { is_close = true; interest = rwe })
  unfolding on_process_connection begin_close
  stream_refusal b s (inl long) = ground arith
  stream_refusal b s (inr (header, large)) = elim (dec_lt max_recv_buffer (size b)) [
    | yes long ↦ ground arith
    | no short ↦ process_stops_at b b s _ (omega arith) (omega arith) (oversized b s header large)
  ]

  -- A zero-length package, or one of at most 10240 bytes that does not parse, with at most 1000000
  -- bytes behind it in the buffer, is taken off the buffer and nothing is handed on; the connection
  -- stays as it was. What follows it, complete packages included, stays in the buffer: the event is
  -- over.
  pub stream_stall :
      (d rest : Bytes) (s : Session P)
      → (d ≡ []) ⊎ (parse d ≡ none)
      → length d ≤ max_packsize
      → length rest ≤ 1000000
      → on_process_connection parse (record { m_data = be64 (length d) ++ (d ++ rest) }) s
        ≡ (record { m_data = rest }, s)
  stream_stall d rest s bad h k =
      process_stops_at (framed d rest) (record { m_data = rest }) s s
        (omega (arith, length-framed d rest)) (omega (arith, length-framed d rest))
        (stalled d rest s bad h)
