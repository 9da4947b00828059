-- ===== src/Buffer/Laws.antt =====
-- The byte queue, as a queue.
use avant.Base.{
  ℕ, zero, suc, ◌+◌, ◌-◌, ◌≤◌, ◌≡◌, refl, ap, [], ◌∷◌, ◌++◌, Bytes, some, arith, length, drop,
  drop-drop, drop_all, length-drop,
}
use avant.Buffer.{VecStrBuffer, size, move_read_ptr_n, append}

-- The clamp of `move_read_ptr_n` is that of `drop`: a count past the end empties the queue.
pub m_data-move : (n : ℕ) (b : VecStrBuffer) → (move_read_ptr_n n b).m_data ≡ drop n b.m_data
unfolding move_read_ptr_n
m_data-move n b = ground (arith, drop_all (length b.m_data) b.m_data, drop_all n b.m_data)

pub size-move : (n : ℕ) (b : VecStrBuffer) → size (move_read_ptr_n n b) ≡ size b - n
size-move n b = omega (arith, ap length (m_data-move n b), length-drop n b.m_data)

-- Two consecutive reads of `m` and `n` bytes are one read of `m + n`, whatever is in the queue.
pub move-move :
    (m n : ℕ) (b : VecStrBuffer)
    → move_read_ptr_n n (move_read_ptr_n m b) ≡ move_read_ptr_n (m + n) b
move-move m n b = ground (
  arith,
  m_data-move n (move_read_ptr_n m b),
  m_data-move m b,
  m_data-move (m + n) b,
  drop-drop n m b.m_data,
)

drop-append : (n : ℕ) (xs ys : Bytes) → n ≤ length xs → drop n (xs ++ ys) ≡ drop n xs ++ ys
drop-append zero xs ys h = refl
drop-append (suc n) [] ys h = absurd (omega arith)
drop-append (suc n) (x ∷ xs) ys h = drop-append n xs ys (omega arith)

-- Bytes that arrive while earlier ones wait do not disturb the read of those: appending and then
-- consuming `n` waiting bytes is consuming them and then appending.
pub move-append :
    (n : ℕ) (bytes : Bytes) (b : VecStrBuffer)
    → n ≤ size b
    → move_read_ptr_n n (append (some bytes) b) ≡ append (some bytes) (move_read_ptr_n n b)
unfolding append
move-append n bytes b h =
    ground (
      arith,
      m_data-move n (append (some bytes) b),
      m_data-move n b,
      drop-append n b.m_data bytes h,
    )
