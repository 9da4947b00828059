-- ===== src/Stream.antt =====
-- src/app/stream_app.cpp: packages on a TCP stream, each behind its length.
pub mod Reader
pub mod Delivery
pub mod Refusal
mod Tests
use avant.Base.{
  ℕ, ◌+◌, ◌≡◌, Bool, true, false, not, Option, none, some, List, [], ◌∷◌, Bytes, length, take, drop,
  of_be64, add64, ltb, leb, ◌==◌, if◌then◌else◌,
}
use avant.Buffer.{VecStrBuffer, size, move_read_ptr_n}
use avant.Proto.{toh64_from_buffer}
use avant.Proto.Frame.{Iter, again, done, loop}
use avant.Session.{
  Session, Inner, client_package, event_new_connection, event_close_connection, begin_close,
  to_other,
}

-- the largest payload, and the size at which a receive buffer is given up
abbrev pub max_packsize : ℕ
max_packsize = 10240

abbrev pub max_recv_buffer : ℕ
max_recv_buffer = 2048000

-- max_package_num_per_loop
abbrev pub int32_max : ℕ
int32_max = 2147483647

abbrev pub on_recved_packsize : ℕ → Bool
on_recved_packsize n = leb n max_packsize

module _ {P : Type 0} where
  unfoldable pub on_recv_package : Session P → P → Session P
  unfolding to_other
  on_recv_package s p = to_other (client_package p) s

  unfoldable pub on_new_connection : Option (Bytes × ℕ) → Session P → Session P
  unfolding to_other
  on_new_connection ip_port s = to_other (event_new_connection s.gid ip_port) s

  unfoldable pub on_close_connection : Session P → Session P
  unfolding to_other
  on_close_connection s = to_other (event_close_connection s.gid) s

  -- the package of `data_size` bytes behind the header is there
  take_package : (Bytes → Option P) → ℕ → VecStrBuffer → Session P → Iter (Session P)
  unfolding on_recv_package
  take_package parse data_size b s = elim (parse (take data_size (drop 8 b.m_data))) [
    | none ↦ done (move_read_ptr_n (8 + data_size) b) s
    | some p ↦ again (move_read_ptr_n (8 + data_size) b) (on_recv_package s p)
  ]

  -- one run of the body of the loop
  unfoldable pub parse_step : (Bytes → Option P) → VecStrBuffer → Session P → Iter (Session P)
  unfolding take_package begin_close
  parse_step parse b s =
      if leb 8 (size b)
      then (let data_size = toh64_from_buffer b.m_data in
          if not (on_recved_packsize data_size)
          then done b (begin_close s)
          else if ltb (size b) (add64 data_size 8)
          then done b s
          else if data_size == 0
          then done (move_read_ptr_n 8 b) s
          else take_package parse data_size b s)
      else done b s

  -- The loop stops after `int32_max` packages: that is its count of runs.
  unfoldable pub on_process_connection :
      (Bytes → Option P) → VecStrBuffer → Session P → VecStrBuffer × Session P
  unfolding begin_close
  on_process_connection parse b s =
      if ltb max_recv_buffer (size b)
      then (b, begin_close s)
      else loop (parse_step parse) int32_max b s
