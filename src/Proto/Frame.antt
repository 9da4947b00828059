-- ===== src/Proto/Frame.antt =====
-- The loop that takes packages off the receive buffer. `stream_app`, `other_app` and the three
-- tunnel ends run it, each with a body of its own.
use avant.Base.{ℕ, zero, suc, ◌<◌, ◌≡◌, refl, arith, ◌==◌, if◌then◌else◌}
use avant.Buffer.{VecStrBuffer, size}

-- what one run of a loop body does: the next run, or `break` and `return`
pub data Iter (W : Type 0) : Type 0 where
  again done : VecStrBuffer → W → Iter W

module _ {W : Type 0} (body : VecStrBuffer → W → Iter W) where
  -- while (recv_buffer.size() > 0) body
  unfoldable pub loop : ℕ → VecStrBuffer → W → VecStrBuffer × W
  loop zero b w = (b, w)
  loop (suc n) b w =
      let rest : VecStrBuffer × W = elim (body b w) [
        | again b' w' ↦ loop n b' w'
        | done b' w' ↦ (b', w')
      ] in
      if size b == 0 then (b, w) else rest

  pub loop_empty : (n : ℕ) (b : VecStrBuffer) (w : W) → size b ≡ 0 → loop n b w ≡ (b, w)
  unfolding loop
  loop_empty zero b w h = refl
  loop_empty (suc n) b w h = ground arith

  -- a body that breaks without a change ends the loop
  pub loop_done : (n : ℕ) (b : VecStrBuffer) (w : W) → body b w ≡ done b w → loop n b w ≡ (b, w)
  unfolding loop
  loop_done zero b w h = refl
  loop_done (suc n) b w h = ground arith

  pub loop_again :
      (n : ℕ) (b b' : VecStrBuffer) (w w' : W)
      → 0 < size b
      → body b w ≡ again b' w'
      → loop (suc n) b w ≡ loop n b' w'
  unfolding loop
  loop_again n b b' w w' h e = ground arith
