-- ===== src/Tunnel/Reader.antt =====
-- How a tunnel end reads frames, and the fuel of its loop.
use avant.Base.{
  ℕ, ◌+◌, ◌≤◌, ◌<◌, ◌≡◌, refl, inl, inr, Option, some, List, ◌++◌, Bytes, length, take, drop,
  of_be64, arith, All,
}
use avant.Buffer.{VecStrBuffer, size, move_read_ptr_n}
use avant.Buffer.Laws.{size-move}
use avant.Proto.{IsCodec}
use avant.Proto.Frame.{again, done, loop}
use avant.Proto.Fuel.{fuel_enough}
use avant.Proto.Reader.{IsWaiting, IsFrameReader, IsSendable, wire, deliver_all}
use avant.Proto.Chunks.{concat_all, feed, feed_delivers}
use avant.Tunnel.{tunnel_step, tunnel_read}

-- the largest payload whose frame is a `size_t`
abbrev pub max_payload : ℕ
max_payload = 18446744073709551607

module _ {P W : Type 0} (parse : Bytes → Option P) (on_tunnel_process : W → P → W) where
  waits :
      (b : VecStrBuffer) (w : W)
      → IsWaiting max_payload b.m_data
      → tunnel_step parse on_tunnel_process b w ≡ done b w
  unfolding tunnel_step
  waits b w (inl short) = ground arith
  waits b w (inr (fits, short)) = ground arith

  takes :
      (b : VecStrBuffer) (w : W) (p : P) (n : ℕ)
      → of_be64 b.m_data ≡ n
      → 0 < n
      → n ≤ max_payload
      → 8 + n ≤ size b
      → parse (take n (drop 8 b.m_data)) ≡ some p
      → tunnel_step parse on_tunnel_process b w
        ≡ again (move_read_ptr_n (8 + n) b) (on_tunnel_process w p)
  unfolding tunnel_step
  takes b w p n header h0 h1 h2 e = ground arith

  pub tunnel_reader :
      IsFrameReader parse max_payload on_tunnel_process (tunnel_step parse on_tunnel_process)
  tunnel_reader = record { waits = waits; takes = takes }

  -- a run that goes on has taken at least nine bytes
  shrinks :
      (b b' : VecStrBuffer) (w w' : W)
      → tunnel_step parse on_tunnel_process b w ≡ again b' w'
      → size b' < size b
  unfolding tunnel_step
  shrinks b b' w w' e = ground (arith, size-move (8 + of_be64 b.m_data) b)

  -- The fuel of `tunnel_read` decides nothing: with any fuel that is at least the number of bytes
  -- waiting, the loop ends in the same buffer and the same state.
  pub tunnel_fuel :
      (n : ℕ) (b : VecStrBuffer) (w : W)
      → size b ≤ n
      → loop (tunnel_step parse on_tunnel_process) n b w ≡ tunnel_read parse on_tunnel_process b w
  unfolding tunnel_read
  tunnel_fuel n b w h =
      fuel_enough (tunnel_step parse on_tunnel_process) shrinks n (size b) b w h (omega arith)

module _ {P W : Type 0} (serialize : P → Option Bytes) (parse : Bytes → Option P)
    (codec : IsCodec serialize parse) (on_tunnel_process : W → P → W) where
  -- Where parsing undoes serialising: the packages that one end of a tunnel writes, none of them
  -- empty, are processed at the other end, each once and in the order in which they were
  -- written, however the socket cuts the bytes into reads of at most 1024000 bytes; the receive
  -- buffer then holds exactly the beginning of the package to come.
  pub tunnel_delivery :
      (chunks : List Bytes) (ps : List P) (rest : Bytes) (b : VecStrBuffer) (w : W)
      → All (λ c. length c ≤ 1024000) chunks
      → All (IsSendable serialize max_payload) ps
      → IsWaiting max_payload b.m_data
      → IsWaiting max_payload rest
      → b.m_data ++ concat_all chunks ≡ wire serialize ps ++ rest
      → ((feed (tunnel_read parse on_tunnel_process) chunks b w).0.m_data ≡ rest)
        × ((feed (tunnel_read parse on_tunnel_process) chunks b w).1
            ≡ deliver_all on_tunnel_process w ps)
  tunnel_delivery chunks ps rest b w hc ok hb hr e =
      feed_delivers serialize max_payload 1024000 (omega arith) parse codec on_tunnel_process
        (tunnel_step parse on_tunnel_process) (tunnel_reader parse on_tunnel_process)
        (tunnel_read parse on_tunnel_process) size
        (λ b w _. (unfold tunnel_read in refl, omega arith)) chunks ps rest b w hc ok hb hr e
