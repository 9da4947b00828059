-- ===== src/Http/Event.antt =====
-- on_create, on_close and on_event of src/connection/http_ctx.cpp. The answers of the socket come as
-- a list, the first call's first; a socket with no answer left would block. The statistics of bytes
-- and the socket's close_callback, which only logs, are not modelled.
use avant.Base.{
  ℕ, ◌+◌, ◌-◌, ℤ, Bool, true, false, ◌&&◌, ◌||◌, not, Option, none, some, List, [], ◌∷◌, ◌++◌,
  Bytes, length, take, leb, suc, zero, if◌then◌else◌,
}
use avant.Buffer.{move_read_ptr_n}
use avant.Connection.{on_alloc}
use avant.Session.{re, rwe}
use avant.Http.{
  HttpCtx, Callback, mark_delete_timeout_timer, epoller_mod, call_close_client_fd, destory_response,
  process_request,
}
use avant.Http.Parser.{run_events}
use avant.Http.Site.{
  Site, Handshake, accepted, incomplete, want_read, want_write, handshake_failed, RecvAnswer,
  received, recv_blocked, recv_interrupted, recv_failed, SendAnswer, sent, send_blocked,
  send_interrupted, send_failed, IoEvent, with_conn, to_worker, to_close, sends_nothing,
}

-- http_app::process_connection
unfoldable pub process_connection : HttpCtx → HttpCtx
process_connection c = record c {
  destory_callback = some destory_response;
  process_callback = some process_request;
}

-- the assignments of on_create, with llhttp_init
unfoldable pub reset : Bool → HttpCtx → HttpCtx
reset keep_alive c = record c {
  attached = true;
  conn = record (c.conn) { app_layer_notified = false };
  url = [];
  method = [];
  protocol = [];
  version = [];
  headers = [];
  head_field_tmp = [];
  head_value_tmp = [];
  process_callback = none;
  write_end_callback = none;
  destory_callback = none;
  ptr = none;
  parsed = [];
  recv_end = false;
  process_end = false;
  response_end = false;
  everything_end = false;
  keep_alive = keep_alive;
  recv_body_size = 0;
}

-- while (!send_buffer.empty()), where the event has WRITE
unfoldable pub write_loop : List SendAnswer → HttpCtx → HttpCtx
write_loop [] c = c
write_loop (sent zero ∷ rest) c = if sends_nothing c then c else record c { everything_end = true }
write_loop (sent (suc n) ∷ rest) c =
    let next = write_loop rest (record c {
      wire = c.wire ++ take (suc n) c.conn.send_buffer.m_data;
      conn = record (c.conn) { send_buffer = move_read_ptr_n (suc n) c.conn.send_buffer };
    }) in
    if sends_nothing c then c else next
write_loop (send_blocked ∷ rest) c = c
write_loop (send_interrupted ∷ rest) c =
    let next = write_loop rest c in if sends_nothing c then c else next
write_loop (send_failed ∷ rest) c =
    if sends_nothing c then c else record c { response_end = true; everything_end = true }

-- the last lines of on_event: what to wait for
unfoldable pub continue_wait : HttpCtx → HttpCtx
continue_wait c =
    if not c.everything_end && not c.recv_end
    then to_worker (epoller_mod c.conn.socket_fd re) c
    else if not c.everything_end
    then to_worker (epoller_mod c.conn.socket_fd rwe) c
    else to_close c.conn.socket_fd c

module _ (site : Site) where
  -- the hook of a new connection, with its catch; the flag is err
  unfoldable pub notify_new : Bool → ℤ → HttpCtx → HttpCtx × Bool
  notify_new again fd c =
      let r = site.hook_new_connection again (
        to_worker (mark_delete_timeout_timer c.conn.gid)
          (with_conn (record (c.conn) { app_layer_notified = true }) c)) in
      if r.1 then (to_close fd r.0, true) else (r.0, false)

  unfoldable pub on_create : Bool → HttpCtx → HttpCtx
  unfolding reset notify_new
  on_create keep_alive c =
      let fresh = reset keep_alive c in
      if not site.use_ssl || keep_alive
      then (notify_new keep_alive fresh.conn.fd
          (with_conn (record (fresh.conn) { is_ready = true }) fresh)).0
      else fresh

  -- if (destory_callback), with its catch
  unfoldable pub destory : HttpCtx → HttpCtx
  destory c = elim c.destory_callback [
    | none ↦ c
    | some f ↦ record ((site.call f c).0) { destory_callback = none }
  ]

  unfoldable pub on_close : HttpCtx → HttpCtx
  unfolding destory
  on_close c = record (destory c) { attached = false }

  -- a call of a stored closure, with its else and its catch
  unfoldable pub call_or_end : Option Callback → HttpCtx → HttpCtx
  call_or_end callback c = elim callback [
    | none ↦ record c { everything_end = true }
    | some f ↦ let r = site.call f c in if r.1 then record (r.0) { everything_end = true } else r.0
  ]

  -- the TLS handshake; the flag is whether on_event returns there
  unfoldable pub handshake_step : Handshake → HttpCtx → HttpCtx × Bool
  unfolding notify_new
  handshake_step accepted c =
      notify_new false c.conn.socket_fd
        (with_conn (record (c.conn) { is_ready = true }) (record c { ssl_accepted = true }))
  handshake_step incomplete c = (to_worker (epoller_mod c.conn.socket_fd rwe) c, true)
  handshake_step want_read c = (to_worker (epoller_mod c.conn.socket_fd re) c, true)
  handshake_step want_write c = (to_worker (epoller_mod c.conn.socket_fd rwe) c, true)
  handshake_step handshake_failed c = (to_close c.conn.socket_fd c, true)

  -- llhttp_execute; the flag is HPE_OK
  unfoldable pub execute : Bytes → HttpCtx → HttpCtx × Bool
  unfolding run_events
  execute at c =
      let p = site.parse c.parsed at in
      let r = run_events p.0 c in (record (r.0) { parsed = c.parsed ++ at }, r.1 && p.1)

  -- while (buffer_len < buffer_size)
  unfoldable pub read_loop : List RecvAnswer → ℕ → HttpCtx → HttpCtx
  unfolding execute
  read_loop [] buffer_len c = c
  read_loop (received [] ∷ rest) buffer_len c =
      if leb 10240 buffer_len then c else record c { everything_end = true }
  read_loop (received (b ∷ bs) ∷ rest) buffer_len c =
      let at = take (10240 - buffer_len) (b ∷ bs) in
      let r = execute at c in
      let next = read_loop rest (buffer_len + length at) r.0 in
      if leb 10240 buffer_len
      then c
      else if r.1
      then next
      else record (r.0) { everything_end = true }
  read_loop (recv_blocked ∷ rest) buffer_len c = c
  read_loop (recv_interrupted ∷ rest) buffer_len c =
      let next = read_loop rest buffer_len c in if leb 10240 buffer_len then c else next
  read_loop (recv_failed ∷ rest) buffer_len c =
      if leb 10240 buffer_len then c else record c { everything_end = true }

  -- read from socket
  unfoldable pub read_phase : IoEvent → HttpCtx → HttpCtx
  unfolding read_loop
  read_phase e c =
      if not c.recv_end && not c.everything_end && e.readable then read_loop e.recvs 0 c else c

  -- process http connection
  unfoldable pub process_phase : HttpCtx → HttpCtx
  unfolding process_connection call_or_end
  process_phase c =
      let begun = process_connection (record c { process_end = true }) in
      if not c.everything_end && c.recv_end && not c.process_end
      then call_or_end begun.process_callback begun
      else c

  -- write, behind the loop
  unfoldable pub write_end : HttpCtx → HttpCtx
  unfolding call_or_end
  write_end c =
      let called = call_or_end c.write_end_callback c in
      if sends_nothing c && not c.response_end
      then (if sends_nothing called && called.response_end
          then record called { everything_end = true }
          else called)
      else c

  -- write
  unfoldable pub write_phase : IoEvent → HttpCtx → HttpCtx
  unfolding write_loop write_end
  write_phase e c =
      if not c.everything_end && c.process_end
      then write_end (if e.writable then write_loop e.sends c else c)
      else c

  -- the keep-alive part
  unfoldable pub reuse : HttpCtx → HttpCtx
  unfolding destory on_create on_alloc
  reuse c =
      let d = destory c in
      if d.keep_alive
      then on_create true (with_conn (on_alloc d.conn.fd d.conn.gid d.conn) d)
      else d

  unfoldable pub end_phase : HttpCtx → HttpCtx
  unfolding reuse
  end_phase c =
      let ended = c.everything_end || (sends_nothing c && c.response_end) in
      if ended then reuse (record c { everything_end = true }) else c

  -- on_event for a connection that is open and whose handshake is done
  unfoldable pub on_ready_event : IoEvent → HttpCtx → HttpCtx
  unfolding read_phase process_phase write_phase end_phase continue_wait
  on_ready_event e c = continue_wait (end_phase (write_phase e (process_phase (read_phase e c))))

  -- if (conn_ptr->get_is_close())
  unfoldable pub close_event : HttpCtx → HttpCtx
  unfolding destory
  close_event c = let d = destory c in to_worker (call_close_client_fd d.conn.socket_fd) d

  unfoldable pub on_event : IoEvent → HttpCtx → HttpCtx
  unfolding on_ready_event close_event handshake_step
  on_event e c =
      let shaken =
        if site.use_ssl && not c.ssl_accepted then handshake_step e.handshake c else (c, false) in
      if not c.attached
      then c
      else if e.error || c.conn.is_close
      then close_event (with_conn (record (c.conn) { is_close = true }) c)
      else if shaken.1
      then shaken.0
      else on_ready_event e shaken.0
