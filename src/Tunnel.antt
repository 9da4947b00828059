-- ===== src/Tunnel.antt =====
-- The receiving half of the three tunnel ends: the parse loop of `on_tunnel_event` in
-- src/workers/worker.cpp, src/workers/other.cpp and src/server/server.cpp. What an end does with a
-- package, its `on_tunnel_process`, is a parameter here.
pub mod Reader
mod Tests
use avant.Base.{
  ℕ, ◌+◌, ◌-◌, ◌||◌, Option, none, some, Bytes, take, drop, ltb, leb, ◌==◌, if◌then◌else◌,
}
use avant.Buffer.{VecStrBuffer, size, move_read_ptr_n, append}
use avant.Proto.{toh64_from_buffer}
use avant.Proto.Frame.{Iter, again, done, loop}

module _ {P W : Type 0} (parse : Bytes → Option P) (on_tunnel_process : W → P → W) where
  tunnel_package : ℕ → VecStrBuffer → W → Iter W
  tunnel_package data_size b w = elim (parse (take data_size (drop 8 b.m_data))) [
    | none ↦ done (move_read_ptr_n (8 + data_size) b) w
    | some p ↦ again (move_read_ptr_n (8 + data_size) b) (on_tunnel_process w p)
  ]

  -- One run of the body of the loop. `size() - 8` is computed only at eight bytes or more.
  unfoldable pub tunnel_step : VecStrBuffer → W → Iter W
  unfolding tunnel_package
  tunnel_step b w =
      if leb 8 (size b)
      then (let data_size = toh64_from_buffer b.m_data in
          if ltb (size b) data_size || ltb (size b - 8) data_size
          then done b w
          else if data_size == 0
          then done (move_read_ptr_n 8 b) w
          else tunnel_package data_size b w)
      else done b w

  -- The loop takes at least nine bytes for each package, so the bytes there are enough fuel.
  unfoldable pub tunnel_read : VecStrBuffer → W → VecStrBuffer × W
  tunnel_read b w = loop tunnel_step (size b) b w
