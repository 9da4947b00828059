-- ===== src/Http/Write.antt =====
-- The bytes of a response on their way to the socket.
use avant.Base.{
  ℕ, ◌-◌, ◌≡◌, ◌⊎◌, refl, sym, ap, ap₂, subst, ◌∙◌, Bool, true, false, ◌||◌, List, [], ◌∷◌, ◌++◌,
  Bytes, length, take, drop, leb, suc, zero, arith, append_assoc, append-nil, take-append-drop,
  length-drop, if_case,
}
use avant.Buffer.{move_read_ptr_n, size}
use avant.Buffer.Laws.{m_data-move}
use avant.Http.{HttpCtx}
use avant.Http.Body.{no_bytes}
use avant.Http.Event.{write_loop}
use avant.Http.Site.{SendAnswer, sent, send_blocked, send_interrupted, send_failed, sends_nothing}

-- what the socket took, and what waits behind it
abbrev pub outgoing_bytes : HttpCtx → Bytes
outgoing_bytes c = c.wire ++ c.conn.send_buffer.m_data

-- an answer that the code takes for the end of the connection
abbrev pub breaks : List SendAnswer → Bool
breaks [] = false
breaks (sent zero ∷ rest) = true
breaks (sent (suc n) ∷ rest) = breaks rest
breaks (send_blocked ∷ rest) = false
breaks (send_interrupted ∷ rest) = breaks rest
breaks (send_failed ∷ rest) = true

-- no byte is lost or doubled, and the request ends only where the socket breaks
pub record IsSent (answers : List SendAnswer) (c d : HttpCtx) : Type 0 where
  pub same_bytes : outgoing_bytes d ≡ outgoing_bytes c
  pub same_end :
      ((d.everything_end ≡ c.everything_end) × (d.response_end ≡ c.response_end))
      ⊎ (breaks answers ≡ true)

-- what one send moves
abbrev pub moved_on : ℕ → HttpCtx → HttpCtx
moved_on n c = record c {
  wire = c.wire ++ take n c.conn.send_buffer.m_data;
  conn = record (c.conn) { send_buffer = move_read_ptr_n n c.conn.send_buffer };
}

moved_on_bytes : (n : ℕ) (c : HttpCtx) → outgoing_bytes (moved_on n c) ≡ outgoing_bytes c
moved_on_bytes n c =
    let bs : Bytes = c.conn.send_buffer.m_data in
    ap (λ (t : Bytes). (c.wire ++ take n bs) ++ t) (m_data-move n c.conn.send_buffer)
    ∙ append_assoc c.wire (take n bs) (drop n bs)
    ∙ ap (λ (t : Bytes). c.wire ++ t) (take-append-drop n bs)

-- Whatever the socket answers, what it took and what still waits are together the bytes that there
-- were, in order; and unless an answer is an error or takes no byte, the request does not end here.
pub write_loop-IsSent :
    (answers : List SendAnswer) (c : HttpCtx) → IsSent answers c (write_loop answers c)
unfolding write_loop
write_loop-IsSent [] c = ground arith
write_loop-IsSent (sent zero ∷ rest) c = ground arith
write_loop-IsSent (sent (suc n) ∷ rest) c =
    ground (arith, write_loop-IsSent rest (moved_on (suc n) c), moved_on_bytes (suc n) c)
write_loop-IsSent (send_blocked ∷ rest) c = ground arith
write_loop-IsSent (send_interrupted ∷ rest) c = ground (arith, write_loop-IsSent rest c)
write_loop-IsSent (send_failed ∷ rest) c = ground arith

-- the answers take `n` bytes before one of them blocks
abbrev pub takes : List SendAnswer → ℕ → Bool
takes [] n = leb n 0
takes (sent zero ∷ rest) n = leb n 0
takes (sent (suc k) ∷ rest) n = leb n 0 || takes rest (n - suc k)
takes (send_blocked ∷ rest) n = leb n 0
takes (send_interrupted ∷ rest) n = leb n 0 || takes rest n
takes (send_failed ∷ rest) n = leb n 0

-- the context whose bytes have all gone
abbrev pub all_sent : HttpCtx → HttpCtx
all_sent c = record c { wire = outgoing_bytes c; conn = record (c.conn) { send_buffer = no_bytes } }

-- a context with given bytes sent and waiting
abbrev with_bytes : HttpCtx → Bytes → Bytes → HttpCtx
with_bytes c out waiting = record c {
  wire = out;
  conn = record (c.conn) { send_buffer = record { m_data = waiting } };
}

empty_bytes : (bs : Bytes) → leb (length bs) 0 ≡ true → bs ≡ []
empty_bytes [] h = refl
empty_bytes (b ∷ bs) h = absurd (ground (arith, h))

idle : (c : HttpCtx) → leb (size c.conn.send_buffer) 0 ≡ true → c ≡ all_sent c
idle c h =
    let e : c.conn.send_buffer.m_data ≡ [] = empty_bytes c.conn.send_buffer.m_data h in
    let w : c.wire ≡ outgoing_bytes c =
      sym (ap (λ (bs : Bytes). c.wire ++ bs) e ∙ append-nil c.wire) in
    ap₂ (with_bytes c) w e

size-moved_on :
    (n : ℕ) (c : HttpCtx) → size (moved_on n c).conn.send_buffer ≡ size c.conn.send_buffer - n
size-moved_on n c =
    ap length (m_data-move n c.conn.send_buffer) ∙ length-drop n c.conn.send_buffer.m_data

-- Answers that take all the bytes leave none waiting.
pub write_loop-all_sent :
    (answers : List SendAnswer) (c : HttpCtx)
    → takes answers (size c.conn.send_buffer) ≡ true
    → write_loop answers c ≡ all_sent c
unfolding write_loop
write_loop-all_sent [] c h = idle c h
write_loop-all_sent (sent zero ∷ rest) c h = rw h (idle c h)
write_loop-all_sent (sent (suc n) ∷ rest) c h =
    if_case (λ (d : HttpCtx). d ≡ all_sent c) (sends_nothing c) c
      (write_loop rest (moved_on (suc n) c)) (λ q. idle c q)
      (λ q.
        let left : takes rest (size c.conn.send_buffer - suc n) ≡ true = ground (arith, h, q) in
        write_loop-all_sent rest (moved_on (suc n) c)
          (subst (λ k. takes rest k ≡ true) (sym (size-moved_on (suc n) c)) left)
        ∙ ap (λ (bs : Bytes). with_bytes c bs []) (moved_on_bytes (suc n) c))
write_loop-all_sent (send_blocked ∷ rest) c h = idle c h
write_loop-all_sent (send_interrupted ∷ rest) c h =
    if_case (λ (d : HttpCtx). d ≡ all_sent c) (sends_nothing c) c (write_loop rest c)
      (λ q. idle c q) (λ q. write_loop-all_sent rest c (ground (arith, h, q)))
write_loop-all_sent (send_failed ∷ rest) c h = rw h (idle c h)
