-- ===== src/Http/Bounded.antt =====
-- The limits of a request through all of on_event.
use avant.Base.{Bool, true, false, ◌&&◌, ◌||◌, not, arith, if_case, if◌then◌else◌}
use avant.Connection.{on_alloc}
use avant.Http.{HttpCtx}
use avant.Http.Event.{
  write_loop, on_create, destory, call_or_end, handshake_step, read_loop, read_phase, process_phase,
  write_end, write_phase, reuse, end_phase, on_ready_event, close_event, on_event,
  process_connection,
}
use avant.Http.Site.{
  Site, Handshake, accepted, incomplete, want_read, want_write, handshake_failed, IoEvent,
  sends_nothing, with_conn,
}
use avant.Http.Steps.{
  IsSized, IsSizedSite, going_size, continue_wait-IsSized, read_loop-IsSized, ended_size,
  call_or_end-IsSized, write_loop-IsSized, notify_new-IsSized, on_create-IsSized, destory-IsSized,
}

module _ (site : Site) (ok : IsSizedSite site) where
  read_phase-IsSized : (e : IoEvent) (c : HttpCtx) → IsSized c → IsSized (read_phase site e c)
  unfolding read_phase
  read_phase-IsSized e c h =
      if_case IsSized (not c.recv_end && not c.everything_end && e.readable)
        (read_loop site e.recvs 0 c) c
        (λ q. read_loop-IsSized site ok e.recvs 0 c (going_size c h (ground (arith, q))) h) (λ q. h)

  process_phase-IsSized : (c : HttpCtx) → IsSized c → IsSized (process_phase site c)
  unfolding process_phase process_connection
  process_phase-IsSized c h =
      let begun : HttpCtx = process_connection (record c { process_end = true }) in
      if_case IsSized (not c.everything_end && c.recv_end && not c.process_end)
        (call_or_end site begun.process_callback begun) c
        (λ q. call_or_end-IsSized site ok begun.process_callback begun (ground (arith, h))) (λ q. h)

  write_end-IsSized : (c : HttpCtx) → IsSized c → IsSized (write_end site c)
  unfolding write_end
  write_end-IsSized c h =
      let called : HttpCtx = call_or_end site c.write_end_callback c in
      let g : IsSized called = call_or_end-IsSized site ok c.write_end_callback c h in
      if_case IsSized (sends_nothing c && not c.response_end) _ c
        (λ q.
          if_case IsSized (sends_nothing called && called.response_end)
            (record called { everything_end = true }) called
            (λ q. ended_size site ok called g.within_read) (λ q. g))
        (λ q. h)

  write_phase-IsSized : (e : IoEvent) (c : HttpCtx) → IsSized c → IsSized (write_phase site e c)
  unfolding write_phase
  write_phase-IsSized e c h =
      let written : HttpCtx = if e.writable then write_loop e.sends c else c in
      if_case IsSized (not c.everything_end && c.process_end) (write_end site written) c
        (λ q. write_end-IsSized written (
          if_case IsSized e.writable (write_loop e.sends c) c
            (λ r. write_loop-IsSized site ok e.sends c h) (λ r. h)))
        (λ q. h)

  end_phase-IsSized : (c : HttpCtx) → IsSized c → IsSized (end_phase site c)
  unfolding end_phase reuse
  end_phase-IsSized c h =
      let ended : HttpCtx = record c { everything_end = true } in
      let d : HttpCtx = destory site ended in
      if_case IsSized (c.everything_end || (sends_nothing c && c.response_end)) (reuse site ended) c
        (λ q.
          if_case IsSized d.keep_alive
            (on_create site true (with_conn (on_alloc d.conn.fd d.conn.gid d.conn) d)) d
            (λ q.
              on_create-IsSized site ok true (with_conn (on_alloc d.conn.fd d.conn.gid d.conn) d))
            (λ q. destory-IsSized site ok ended (ended_size site ok c h.within_read)))
        (λ q. h)

  on_ready_event-IsSized :
      (e : IoEvent) (c : HttpCtx) → IsSized c → IsSized (on_ready_event site e c)
  unfolding on_ready_event
  on_ready_event-IsSized e c h =
      let written : HttpCtx = write_phase site e (process_phase site (read_phase site e c)) in
      continue_wait-IsSized (end_phase site written) (
        end_phase-IsSized written (
          write_phase-IsSized e (process_phase site (read_phase site e c))
            (process_phase-IsSized (read_phase site e c) (read_phase-IsSized e c h))))

  handshake_step-IsSized :
      (a : Handshake) (c : HttpCtx) → IsSized c → IsSized (handshake_step site a c).0
  unfolding handshake_step
  handshake_step-IsSized accepted c h =
      let ready : HttpCtx =
        with_conn (record (c.conn) { is_ready = true }) (record c { ssl_accepted = true }) in
      notify_new-IsSized site ok false c.conn.socket_fd ready (ground (arith, h))
  handshake_step-IsSized incomplete c h = ground (arith, h)
  handshake_step-IsSized want_read c h = ground (arith, h)
  handshake_step-IsSized want_write c h = ground (arith, h)
  handshake_step-IsSized handshake_failed c h = ground (arith, h)

  -- No event grows a request beyond its limits, if it was within them: 10240 bytes of url, 10 of the
  -- method, of the protocol and of the version, 1024 of the name of the header that is being read and
  -- 20480 of its value, and a body of 2048000. A request that has ended holds at most 10240 bytes more
  -- of each text, and its body is within the limit still. The conditions are that llhttp gives the
  -- callbacks pieces of at most the bytes it was given, and that the application's closures keep the
  -- sizes.
  pub on_event-IsSized : (e : IoEvent) (c : HttpCtx) → IsSized c → IsSized (on_event site e c)
  unfolding on_event close_event
  on_event-IsSized e c h =
      let closing : HttpCtx = with_conn (record (c.conn) { is_close = true }) c in
      let shaken : HttpCtx × Bool =
        if site.use_ssl && not c.ssl_accepted
        then handshake_step site e.handshake c
        else (c, false) in
      let g : IsSized shaken.0 =
        if_case (λ (r : HttpCtx × Bool). IsSized r.0) (site.use_ssl && not c.ssl_accepted)
          (handshake_step site e.handshake c) (c, false)
          (λ q. handshake_step-IsSized e.handshake c h) (λ q. h) in
      if_case IsSized (not c.attached) c _ (λ q. h)
        (λ q.
          if_case IsSized (e.error || c.conn.is_close) (close_event site closing) _
            (λ q. ground (arith, destory-IsSized site ok closing (ground (arith, h))))
            (λ q.
              if_case IsSized shaken.1 shaken.0 (on_ready_event site e shaken.0) (λ q. g)
                (λ q. on_ready_event-IsSized e shaken.0 g)))
