-- ===== src/Http/Body.antt =====
-- The limit of a body that comes in pieces.
use avant.Base.{
  ℕ, ◌+◌, ◌≤◌, ◌<◌, ◌≡◌, inl, inr, refl, ap, ◌∙◌, pos, true, false, List, [], ◌∷◌, Bytes, length,
  map, ltb, arith, All, Bool-cases,
}
use avant.Buffer.{VecStrBuffer, clear}
use avant.Http.{HttpCtx}
use avant.Http.Parser.{
  on_body, on_event_of, body_piece, on_body_before, app_on_body, is_zero, run_events,
}

abbrev pub total : List Bytes → ℕ
total [] = 0
total (at ∷ rest) = length at + total rest

-- some bytes, and no more than one read gives
abbrev pub IsPiece : Bytes → Type 0
IsPiece at = (0 < length at) × (length at ≤ 10240)

body_piece_lem :
    (at : Bytes) (c : HttpCtx)
    → IsPiece at
    → c.recv_body_size ≤ 2048000
    → (c.recv_body_size + length at + length at ≤ 2048000
        → body_piece c at ≡ (
          record c {
            conn = record (c.conn) { recv_buffer = record { m_data = [] } };
            recv_body_size = c.recv_body_size + length at;
          },
          pos 0,
        ))
      × (2048000 < c.recv_body_size + length at + length at → is_zero (body_piece c at).1 ≡ false)
unfolding body_piece on_body_before app_on_body clear
body_piece_lem at c p h = ground (arith, p, h)

abbrev pub no_bytes : VecStrBuffer
no_bytes = record { m_data = [] }

-- the context behind some bytes of a body, which are not kept
abbrev pub with_body : ℕ → HttpCtx → HttpCtx
with_body n c = record c {
  conn = record (c.conn) { recv_buffer = no_bytes };
  recv_body_size = c.recv_body_size + n;
}

-- A body that a fresh context, or one that has kept none of its bytes, gets in pieces of 1 to 10240
-- bytes is accepted if it ends at least 10240 bytes before the limit of 2048000: its size is counted
-- and none of its bytes stays.
pub run_body_accepted :
    (ps : List Bytes) (c : HttpCtx)
    → All IsPiece ps
    → c.recv_body_size + total ps + 10240 ≤ 2048000
    → c.conn.recv_buffer ≡ no_bytes
    → run_events (map on_body ps) c ≡ (with_body (total ps) c, true)
unfolding run_events on_event_of
run_body_accepted [] c p h e = ground (arith, e)
run_body_accepted (at ∷ ps) c p h e =
    let one : body_piece c at ≡ (with_body (length at) c, pos 0) =
      (body_piece_lem at c p.0 (omega (arith, h))).0 (omega (arith, h, p.0.1)) in
    let rest = run_body_accepted ps (with_body (length at) c) p.1 (omega (arith, h)) refl in
    let sum : c.recv_body_size + length at + total ps ≡ c.recv_body_size + (length at + total ps) =
      omega arith in
    rw one
      (rest ∙ ap (λ (n : ℕ). (record (with_body (length at) c) { recv_body_size = n }, true)) sum)

-- Where a context has counted at most 2048000 bytes of a body, pieces of 1 to 10240 bytes come, at
-- least one of them, and the bytes counted and those of the pieces are together 2048000 or more, one
-- of the callbacks fails: also a body of exactly the limit is refused, as the last piece counts twice.
pub run_body_refused :
    (ps : List Bytes) (c : HttpCtx)
    → All IsPiece ps
    → c.recv_body_size ≤ 2048000
    → 0 < total ps
    → 2048000 ≤ c.recv_body_size + total ps
    → (run_events (map on_body ps) c).1 ≡ false
unfolding run_events on_event_of
run_body_refused [] c p g z h = absurd (omega (arith, z))
run_body_refused (at ∷ ps) c p g z h =
    elim (Bool-cases (ltb 2048000 (c.recv_body_size + length at + length at))) [
      | inl q ↦ let bad = (body_piece_lem at c p.0 g).1 (ground (arith, q)) in rw bad refl
      | inr q ↦
          let one : body_piece c at ≡ (with_body (length at) c, pos 0) =
            (body_piece_lem at c p.0 g).0 (ground (arith, q)) in
          let k : c.recv_body_size + length at + length at ≤ 2048000 = ground (arith, q) in
          rw one (
            run_body_refused ps (with_body (length at) c) p.1 (omega (arith, k))
              (omega (arith, k, h, p.0.0)) (omega (arith, h)))
    ]
