-- ===== src/Proto/Fuel.antt =====
-- A body that takes bytes off the buffer whenever it goes on: fuel for each byte waiting is enough.
use avant.Base.{ℕ, zero, suc, ◌≤◌, ◌<◌, ◌≡◌, refl, sym, ◌∙◌, arith}
use avant.Buffer.{VecStrBuffer, size}
use avant.Proto.Frame.{Iter, again, done, loop, loop_empty}

module _ {W : Type 0} (body : VecStrBuffer → W → Iter W)
    (shrinks : (b b' : VecStrBuffer) (w w' : W) → body b w ≡ again b' w' → size b' < size b) where
  fuel_step :
      (n m : ℕ) (b : VecStrBuffer) (w : W) (next : Iter W)
      → body b w ≡ next
      → ((b' : VecStrBuffer) (w' : W) → size b' < size b → loop body n b' w' ≡ loop body m b' w')
      → loop body (suc n) b w ≡ loop body (suc m) b w
  unfolding loop
  fuel_step n m b w (again b' w') e ih =
      ground (arith, shrinks b b' w w' e, ih b' w' (shrinks b b' w w' e))
  fuel_step n m b w (done b' w') e ih = ground arith

  pub fuel_enough :
      (n m : ℕ) (b : VecStrBuffer) (w : W)
      → size b ≤ n
      → size b ≤ m
      → loop body n b w ≡ loop body m b w
  fuel_enough zero m b w h k =
      loop_empty body zero b w (omega arith) ∙ sym (loop_empty body m b w (omega arith))
  fuel_enough (suc n) zero b w h k =
      loop_empty body (suc n) b w (omega arith) ∙ sym (loop_empty body zero b w (omega arith))
  fuel_enough (suc n) (suc m) b w h k =
      fuel_step n m b w (body b w) refl
        (λ b' w' l. fuel_enough n m b' w' (omega arith) (omega arith))
