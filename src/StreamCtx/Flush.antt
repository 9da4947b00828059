-- ===== src/StreamCtx/Flush.antt =====
-- The bytes on their way out.
use avant.Base.{
  ℕ, ◌≡◌, ◌⊎◌, inl, inr, refl, ap, sym, ◌∙◌, ℤ, pos, negsuc, Bool, true, false, ◌||◌, List, [], ◌∷◌,
  ◌++◌, Bytes, length, take, drop, leb, arith, append_assoc, take-append-drop, Bool-cases,
}
use avant.Buffer.{size, move_read_ptr_n, append}
use avant.Buffer.Laws.{m_data-move}
use avant.Session.{rwe}
use avant.StreamCtx.{
  Link, SendResult, sent, send_blocked, send_failed, flush_loop, try_send_flush, send_data,
}

-- what the socket took, and what waits behind it
abbrev pub outgoing : Link → Bytes
outgoing l = l.wire ++ l.send_buffer.m_data

-- the bytes are the same, and if some wait, the connection closes or waits for the write event
pub record IsFlushed (l l' : Link) : Type 0 where
  pub same_bytes : outgoing l' ≡ outgoing l
  pub waits : (l'.send_buffer.m_data ≡ []) ⊎ (l'.interest ≡ rwe)
  pub same_input : l'.recv_buffer ≡ l.recv_buffer

moved :
    (n : ℕ) (l : Link)
    → (l.wire ++ take n l.send_buffer.m_data) ++ (move_read_ptr_n n l.send_buffer).m_data
      ≡ outgoing l
moved n l =
    ap (λ (t : Bytes). (l.wire ++ take n l.send_buffer.m_data) ++ t) (m_data-move n l.send_buffer)
    ∙ append_assoc l.wire (take n l.send_buffer.m_data) (drop n l.send_buffer.m_data)
    ∙ ap (λ (t : Bytes). l.wire ++ t) (take-append-drop n l.send_buffer.m_data)

empty_lem : (bs : Bytes) → leb (length bs) 0 ≡ true → bs ≡ []
empty_lem [] h = refl
empty_lem (b ∷ bs) h = absurd (ground (arith, h))

-- nothing to send
idle : (l : Link) → leb (size l.send_buffer) 0 ≡ true → IsFlushed l l
idle l q = record {
  same_bytes = refl;
  waits = inl (empty_lem l.send_buffer.m_data q);
  same_input = refl;
}

-- the socket takes no more now
blocked :
    (l : Link) (closing : Bool) → IsFlushed l (record l { is_close = closing; interest = rwe })
blocked l closing = record { same_bytes = refl; waits = inr refl; same_input = refl }

flush_loop-IsFlushed : (results : List SendResult) (l : Link) → IsFlushed l (flush_loop results l)
unfolding flush_loop
flush_loop-IsFlushed [] l = elim (Bool-cases (leb (size l.send_buffer) 0)) [
  | inl q ↦ rw (q, flush_loop) (idle l q)
  | inr q ↦ rw (q, flush_loop) (blocked l l.is_close)
]
flush_loop-IsFlushed (sent n ∷ rest) l =
    let l' : Link = record l {
      wire = l.wire ++ take n l.send_buffer.m_data;
      send_buffer = move_read_ptr_n n l.send_buffer;
    } in
    let h : IsFlushed l' (flush_loop rest l') = flush_loop-IsFlushed rest l' in
    elim (Bool-cases (leb (size l.send_buffer) 0)) [
      | inl q ↦ rw (q, flush_loop) (idle l q)
      | inr q ↦
          rw (q, flush_loop)
            (record {
              same_bytes = h.same_bytes ∙ moved n l;
              waits = h.waits;
              same_input = h.same_input;
            })
    ]
flush_loop-IsFlushed (send_blocked ∷ rest) l = elim (Bool-cases (leb (size l.send_buffer) 0)) [
  | inl q ↦ rw (q, flush_loop) (idle l q)
  | inr q ↦ rw (q, flush_loop) (blocked l l.is_close)
]
flush_loop-IsFlushed (send_failed ∷ rest) l = elim (Bool-cases (leb (size l.send_buffer) 0)) [
  | inl q ↦ rw (q, flush_loop) (idle l q)
  | inr q ↦ rw (q, flush_loop) (blocked l true)
]

-- Whatever the socket answers, a flush sends a beginning of the bytes that wait, in order, and
-- keeps the rest; where bytes are left, the connection is registered for the write event.
pub try_send_flush-IsFlushed :
    (results : List SendResult) (l : Link) → IsFlushed l (try_send_flush results l)
unfolding try_send_flush
try_send_flush-IsFlushed results l = elim (Bool-cases (leb (size l.send_buffer) 0)) [
  | inl q ↦
      rw (q, try_send_flush)
        (record {
          same_bytes = refl;
          waits = inl (empty_lem l.send_buffer.m_data q);
          same_input = refl;
        })
  | inr q ↦ rw (q, try_send_flush) (flush_loop-IsFlushed results l)
]

abbrev appended : Bytes → Link → Link
appended bytes l = record l { send_buffer = record { m_data = l.send_buffer.m_data ++ bytes } }

-- send_data takes all the bytes or none: on a connection that is ready and not closing it answers 0
-- and they stand behind all that was sent before; on a closing one it answers -1, ready or not, on
-- one that is neither closing nor ready -2, and nothing changes.
pub send_data-outgoing :
    (results : List SendResult) (flush : Bool) (bytes : Bytes) (l : Link)
    → (((send_data results flush bytes l).0 ≡ pos 0)
        × (outgoing (send_data results flush bytes l).1 ≡ outgoing l ++ bytes)
        × ((l.is_close || l.closed_flag) ≡ false)
        × (l.is_ready ≡ true))
      ⊎ ((send_data results flush bytes l ≡ (negsuc 0, l)) × ((l.is_close || l.closed_flag) ≡ true))
      ⊎ ((send_data results flush bytes l ≡ (negsuc 1, l))
          × ((l.is_close || l.closed_flag) ≡ false)
          × (l.is_ready ≡ false))
unfolding send_data append
send_data-outgoing results flush bytes l = elim (Bool-cases (l.is_close || l.closed_flag)) [
  | inl q ↦ inr (inl (ground arith, q))
  | inr q ↦ elim (Bool-cases l.is_ready) [
    | inr r ↦ inr (inr (ground arith, q, r))
    | inl r ↦ elim (Bool-cases flush) [
      | inl f ↦
          let e : send_data results flush bytes l
              ≡ (pos 0, try_send_flush results (appended bytes l)) =
            ground arith in
          inl (
            ap (λ (t : ℤ × Link). t.0) e,
            ap (λ (t : ℤ × Link). outgoing t.1) e
                ∙ (try_send_flush-IsFlushed results (appended bytes l)).same_bytes
                ∙ sym (append_assoc l.wire l.send_buffer.m_data bytes),
            q,
            r,
          )
      | inr f ↦
          let e : send_data results flush bytes l
              ≡ (pos 0, record (appended bytes l) { interest = rwe }) =
            ground arith in
          inl (
            ap (λ (t : ℤ × Link). t.0) e,
            ap (λ (t : ℤ × Link). outgoing t.1) e
                ∙ sym (append_assoc l.wire l.send_buffer.m_data bytes),
            q,
            r,
          )
    ]
  ]
]
