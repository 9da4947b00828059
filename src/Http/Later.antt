-- ===== src/Http/Later.antt =====
-- How far a request is: what the phases of on_event do to the four flags.
use avant.Base.{
  ℕ, ◌+◌, ◌-◌, ◌≡◌, ◌⊎◌, refl, ◌∙◌, Bool, true, false, ◌&&◌, not, Option, none, some, List, [], ◌∷◌,
  ◌++◌, Bytes, length, take, suc, zero, arith, Bool-cases, if_case, if◌then◌else◌,
}
use avant.Buffer.{move_read_ptr_n}
use avant.Http.{HttpCtx, Callback}
use avant.Http.Parser.{ParserEvent, run_events, on_event_of, body_piece, app_on_body, add_header}
use avant.Http.Event.{
  write_loop, call_or_end, execute, read_loop, read_phase, process_phase, write_end, write_phase,
  process_connection,
}
use avant.Http.Site.{
  Site, RecvAnswer, received, recv_blocked, recv_interrupted, recv_failed, SendAnswer, sent,
  send_blocked, send_interrupted, send_failed, IoEvent,
}

-- the same request, at the same place, or ended
pub record IsLater (c d : HttpCtx) : Type 0 where
  pub same_recv : d.recv_end ≡ c.recv_end
  pub same_process : d.process_end ≡ c.process_end
  pub same_socket : d.conn.socket_fd ≡ c.conn.socket_fd
  pub still_ended : c.everything_end ≡ true → d.everything_end ≡ true

-- The application's closures leave recv_end and process_end alone, and end no request twice.
pub record IsLaterSite (site : Site) : Type 0 where
  pub call_later : (f : Callback) (c : HttpCtx) → IsLater c (site.call f c).0
  pub new_later : (again : Bool) (c : HttpCtx) → IsLater c (site.hook_new_connection again c).0

-- while a request goes on, it is processed exactly if it is complete
abbrev pub IsOrdered : HttpCtx → Type 0
IsOrdered c = (c.everything_end ≡ true) ⊎ (c.process_end ≡ c.recv_end)

pub going_ordered :
    (c : HttpCtx) → IsOrdered c → c.everything_end ≡ false → c.process_end ≡ c.recv_end
going_ordered c h e = ground (arith, h, e)

pub IsLater-refl : (c : HttpCtx) → IsLater c c
IsLater-refl c = record {
  same_recv = refl;
  same_process = refl;
  same_socket = refl;
  still_ended = λ q. q;
}

pub IsLater-trans : (c d f : HttpCtx) → IsLater c d → IsLater d f → IsLater c f
IsLater-trans c d f h k = record {
  same_recv = k.same_recv ∙ h.same_recv;
  same_process = k.same_process ∙ h.same_process;
  same_socket = k.same_socket ∙ h.same_socket;
  still_ended = λ q. k.still_ended (h.still_ended q);
}

pub IsOrdered-later : (c d : HttpCtx) → IsLater c d → IsOrdered c → IsOrdered d
IsOrdered-later c d h k = ground (arith, h, k)

-- the parser's callbacks do not process
on_event_of_keeps :
    (e : ParserEvent) (c : HttpCtx)
    → ((on_event_of e c).0.process_end ≡ c.process_end)
      × ((on_event_of e c).0.everything_end ≡ c.everything_end)
      × ((on_event_of e c).0.conn.socket_fd ≡ c.conn.socket_fd)
unfolding on_event_of body_piece app_on_body add_header
on_event_of_keeps e c = ground (arith, e)

run_events_keeps :
    (es : List ParserEvent) (c : HttpCtx)
    → ((run_events es c).0.process_end ≡ c.process_end)
      × ((run_events es c).0.everything_end ≡ c.everything_end)
      × ((run_events es c).0.conn.socket_fd ≡ c.conn.socket_fd)
unfolding run_events
run_events_keeps [] c = (refl, refl, refl)
run_events_keeps (e ∷ es) c =
    ground (arith, on_event_of_keeps e c, run_events_keeps es (on_event_of e c).0)

-- reading processes nothing and does not take back an end
record IsReadOf (c d : HttpCtx) : Type 0 where
  same_process : d.process_end ≡ c.process_end
  same_socket : d.conn.socket_fd ≡ c.conn.socket_fd
  still_ended : c.everything_end ≡ true → d.everything_end ≡ true

module _ (site : Site) (ok : IsLaterSite site) where
  read_loop-IsReadOf :
      (answers : List RecvAnswer) (n : ℕ) (c : HttpCtx) → IsReadOf c (read_loop site answers n c)
  unfolding read_loop execute
  read_loop-IsReadOf [] n c = ground arith
  read_loop-IsReadOf (received [] ∷ rest) n c = ground arith
  read_loop-IsReadOf (received (b ∷ bs) ∷ rest) n c =
      let at : Bytes = take (10240 - n) (b ∷ bs) in
      ground (
        arith,
        run_events_keeps (site.parse c.parsed at).0 c,
        read_loop-IsReadOf rest (n + length at) (execute site at c).0,
      )
  read_loop-IsReadOf (recv_blocked ∷ rest) n c = ground arith
  read_loop-IsReadOf (recv_interrupted ∷ rest) n c = ground (arith, read_loop-IsReadOf rest n c)
  read_loop-IsReadOf (recv_failed ∷ rest) n c = ground arith

  -- behind the read, what is processed is complete
  pub read_phase_ordered :
      (e : IoEvent) (c : HttpCtx)
      → IsOrdered c
      → (read_phase site e c).everything_end ≡ false
      → (read_phase site e c).process_end ≡ true
      → (read_phase site e c).recv_end ≡ true
  unfolding read_phase
  read_phase_ordered e c h q r =
      ground (arith, h, q, r, read_loop-IsReadOf e.recvs 0 c, Bool-cases c.everything_end)

  pub call_or_end-IsLater :
      (callback : Option Callback) (c : HttpCtx) → IsLater c (call_or_end site callback c)
  unfolding call_or_end
  call_or_end-IsLater none c = ground arith
  call_or_end-IsLater (some f) c = ground (arith, ok.call_later f c)

  pub process_phase-IsOrdered :
      (c : HttpCtx)
      → (c.everything_end ≡ false → c.process_end ≡ true → c.recv_end ≡ true)
      → IsOrdered (process_phase site c)
  unfolding process_phase process_connection
  process_phase-IsOrdered c h =
      let begun : HttpCtx = process_connection (record c { process_end = true }) in
      ground (arith, h, call_or_end-IsLater begun.process_callback begun)

  pub write_loop-IsLater :
      (answers : List SendAnswer) (c : HttpCtx) → IsLater c (write_loop answers c)
  unfolding write_loop
  write_loop-IsLater [] c = ground arith
  write_loop-IsLater (sent zero ∷ rest) c = ground arith
  write_loop-IsLater (sent (suc n) ∷ rest) c = ground (
    arith,
    write_loop-IsLater rest (record c {
      wire = c.wire ++ take (suc n) c.conn.send_buffer.m_data;
      conn = record (c.conn) { send_buffer = move_read_ptr_n (suc n) c.conn.send_buffer };
    }),
  )
  write_loop-IsLater (send_blocked ∷ rest) c = ground arith
  write_loop-IsLater (send_interrupted ∷ rest) c = ground (arith, write_loop-IsLater rest c)
  write_loop-IsLater (send_failed ∷ rest) c = ground arith

  pub write_end-IsLater : (c : HttpCtx) → IsLater c (write_end site c)
  unfolding write_end
  write_end-IsLater c = ground (arith, call_or_end-IsLater c.write_end_callback c)

  pub write_phase-IsLater : (e : IoEvent) (c : HttpCtx) → IsLater c (write_phase site e c)
  unfolding write_phase
  write_phase-IsLater e c =
      let written : HttpCtx = if e.writable then write_loop e.sends c else c in
      let h : IsLater c written =
        if_case (λ d. IsLater c d) e.writable (write_loop e.sends c) c
          (λ q. write_loop-IsLater e.sends c) (λ q. IsLater-refl c) in
      if_case (λ d. IsLater c d) (not c.everything_end && c.process_end) (write_end site written) c
        (λ q. IsLater-trans c written (write_end site written) h (write_end-IsLater written))
        (λ q. IsLater-refl c)

  -- what the phases before the end keep of the socket
  pub read_phase_socket :
      (e : IoEvent) (c : HttpCtx) → (read_phase site e c).conn.socket_fd ≡ c.conn.socket_fd
  unfolding read_phase
  read_phase_socket e c = ground (arith, read_loop-IsReadOf e.recvs 0 c)

  pub process_phase_socket :
      (c : HttpCtx) → (process_phase site c).conn.socket_fd ≡ c.conn.socket_fd
  unfolding process_phase process_connection
  process_phase_socket c =
      let begun : HttpCtx = process_connection (record c { process_end = true }) in
      ground (arith, call_or_end-IsLater begun.process_callback begun)
