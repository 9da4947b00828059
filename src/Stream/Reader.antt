-- ===== src/Stream/Reader.antt =====
-- The loop body of `stream_app` reads frames of up to 10240 bytes.
use avant.Base.{ℕ, ◌+◌, ◌≤◌, ◌<◌, ◌≡◌, inl, inr, Option, some, Bytes, take, drop, of_be64, arith}
use avant.Buffer.{VecStrBuffer, size, move_read_ptr_n}
use avant.Proto.Frame.{again, done}
use avant.Proto.Reader.{IsWaiting, IsFrameReader}
use avant.Session.{Session}
use avant.Stream.{max_packsize, parse_step, on_recv_package}

module _ {P : Type 0} (parse : Bytes → Option P) where
  waits :
      (b : VecStrBuffer) (s : Session P)
      → IsWaiting max_packsize b.m_data
      → parse_step parse b s ≡ done b s
  unfolding parse_step
  waits b s (inl short) = ground arith
  waits b s (inr (fits, short)) = ground arith

  takes :
      (b : VecStrBuffer) (s : Session P) (p : P) (n : ℕ)
      → of_be64 b.m_data ≡ n
      → 0 < n
      → n ≤ max_packsize
      → 8 + n ≤ size b
      → parse (take n (drop 8 b.m_data)) ≡ some p
      → parse_step parse b s ≡ again (move_read_ptr_n (8 + n) b) (on_recv_package s p)
  unfolding parse_step
  takes b s p n header h0 h1 h2 e = ground arith

  pub stream_reader : IsFrameReader parse max_packsize on_recv_package (parse_step parse)
  stream_reader = record { waits = waits; takes = takes }
