-- ===== src/Http/Serve.antt =====
-- One request from the bytes on the socket to the bytes of its response.
use avant.Base.{
  ℕ, ◌≤◌, ◌<◌, ◌≡◌, refl, sym, ap, ap₂, subst, ◌∙◌, ℤ, Bool, true, false, ◌&&◌, ◌||◌, not, List, [],
  ◌∷◌, ◌++◌, Bytes, length, map, arith, All, if◌then◌else◌, if_true, if_false,
}
use avant.Connection.{Connection}
use avant.Buffer.{VecStrBuffer, append}
use avant.Session.{rwe}
use avant.Http.{HttpCtx, epoller_mod}
use avant.Http.Event.{
  read_loop, read_phase, process_phase, write_phase, handshake_step, close_event, end_phase,
  continue_wait, on_ready_event, on_event, process_connection,
}
use avant.Http.Site.{Site, IoEvent, received, recv_blocked, with_conn, to_worker}
use avant.Http.Body.{total, no_bytes}
use avant.Http.Span.{join}
use avant.Http.Request.{
  Request, Line, events_of, with_request, IsShort, IsFresh, IsBeside, add_lines, add_lines-IsBeside,
  run_events-events_of,
}
use avant.Http.Wait.{IsAnswering}
use avant.Http.Parser.{add_header}
use avant.Http.Read.{IsParsed, with_parsed, read_loop_chunks}
use avant.Http.Write.{takes}
use avant.Http.Answer.{
  IsServed, IsResponder, answered, process_phase-answered, waiting_phases, sent_phases,
}

-- a context that waits for a request: its handshake is done and nothing of a request has come
pub record IsWaiting (site : Site) (c : HttpCtx) : Type 0 where
  pub in_use : c.attached ≡ true
  pub stays_open : c.conn.is_close ≡ false
  pub shaken : (site.use_ssl && not c.ssl_accepted) ≡ false
  pub going_on : c.everything_end ≡ false
  pub incomplete_request : c.recv_end ≡ false
  pub unprocessed : c.process_end ≡ false
  pub fresh : IsFresh c
  pub nothing_to_send : c.conn.send_buffer ≡ no_bytes

-- an event that brings all of a request, in chunks, to a socket registered for reading
pub record IsBringing (site : Site) (q : Request) (chunks : List Bytes) (e : IoEvent) (c : HttpCtx)
    : Type 0 where
  pub no_error : e.error ≡ false
  pub can_read : e.readable ≡ true
  pub only_read : e.writable ≡ false
  pub brings : e.recvs ≡ map received chunks ++ (recv_blocked ∷ [])
  pub some_bytes : All (λ at. 0 < length at) chunks
  pub one_read : total chunks ≤ 10240
  pub whole_request : IsParsed site c.parsed chunks (events_of q)

-- an event in which the socket takes `n` bytes
pub record IsTaking (n : ℕ) (e : IoEvent) : Type 0 where
  pub no_error : e.error ≡ false
  pub can_write : e.writable ≡ true
  pub takes_all : takes e.sends n ≡ true

-- a context that has answered: the bytes wait, and the socket is registered for writing also
pub record IsReady (fd : ℤ) (bytes : Bytes) (c d : HttpCtx) : Type 0 where
  pub registered : IsAnswering fd d
  pub nothing_sent : d.wire ≡ c.wire
  pub waiting : d.conn.send_buffer.m_data ≡ bytes

-- the context with the request's texts
abbrev texts : Request → HttpCtx → HttpCtx
texts q c = record c {
  method = join q.method;
  url = join q.url;
  protocol = join q.protocol;
  version = join q.version;
}

method-add_lines : (ls : List Line) (c : HttpCtx) → (add_lines ls c).method ≡ c.method
unfolding add_header
method-add_lines [] c = refl
method-add_lines (l ∷ ls) c = method-add_lines ls (add_lines (l ∷ []) c)

url-add_lines : (ls : List Line) (c : HttpCtx) → (add_lines ls c).url ≡ c.url
unfolding add_header
url-add_lines [] c = refl
url-add_lines (l ∷ ls) c = url-add_lines ls (add_lines (l ∷ []) c)

module _ (site : Site) where
  -- an event on an open context behind its handshake
  on_event_ready :
      (e : IoEvent) (c : HttpCtx)
      → e.error ≡ false
      → c.attached ≡ true
      → c.conn.is_close ≡ false
      → (site.use_ssl && not c.ssl_accepted) ≡ false
      → on_event site e c ≡ on_ready_event site e c
  unfolding on_event
  on_event_ready e c n used opened shaken =
      let no_shake =
        if_false (site.use_ssl && not c.ssl_accepted) (handshake_step site e.handshake c) (c, false)
          shaken in
      if_false (not c.attached) c _ (ground (arith, used))
      ∙ if_false (e.error || c.conn.is_close)
          (close_event site (with_conn (record (c.conn) { is_close = true }) c)) _
          (ground (arith, n, opened))
      ∙ ap (λ (r : HttpCtx × Bool). if r.1 then r.0 else on_ready_event site e r.0) no_shake

  read_phase_brings :
      (q : Request) (chunks : List Bytes) (e : IoEvent) (c : HttpCtx)
      → IsWaiting site c
      → IsShort q
      → IsBringing site q chunks e c
      → read_phase site e c ≡ with_parsed (c.parsed ++ join chunks) (with_request q c)
  unfolding read_phase
  read_phase_brings q chunks e c w short b =
      if_true (not c.recv_end && not c.everything_end && e.readable) (read_loop site e.recvs 0 c) c
        (ground (arith, w.incomplete_request, w.going_on, b.can_read))
      ∙ ap (λ rs. read_loop site rs 0 c) b.brings
      ∙ read_loop_chunks site chunks 0 (events_of q) c (with_request q c) b.whole_request
          b.some_bytes (omega (arith, b.one_read)) (run_events-events_of q c short w.fresh)

  -- the context in which the request is answered, and then registered for writing
  abbrev answering : Request → Bytes → Bool → Bytes → HttpCtx → HttpCtx
  answering q bytes keep at c =
      to_worker (epoller_mod (with_request q c).conn.socket_fd rwe)
        (answered bytes keep (with_parsed at (with_request q c)))

  texts-IsBeside : (q : Request) (c : HttpCtx) → IsBeside c (add_lines q.lines (texts q c))
  texts-IsBeside q c =
      let h : IsBeside (texts q c) (add_lines q.lines (texts q c)) =
        add_lines-IsBeside q.lines (texts q c) in
      record {
        same_body_size = h.same_body_size;
        same_conn = h.same_conn;
        same_ended = h.same_ended;
        same_processed = h.same_processed;
        same_wire = h.same_wire;
        same_keep = h.same_keep;
        same_use = h.same_use;
        same_accepted = h.same_accepted;
      }

  -- the event that brings the request
  on_event-answering :
      (q : Request) (bytes : Bytes) (keep : Bool) (chunks : List Bytes) (e : IoEvent) (c : HttpCtx)
      → IsResponder site q c bytes keep
      → IsWaiting site c
      → IsShort q
      → 0 < length bytes
      → IsBringing site q chunks e c
      → on_event site e c ≡ answering q bytes keep (c.parsed ++ join chunks) c
  unfolding on_ready_event process_connection append
  on_event-answering q bytes keep chunks e c ok w short some_answer b =
      let d : HttpCtx = with_parsed (c.parsed ++ join chunks) (with_request q c) in
      let kept : IsBeside c (add_lines q.lines (texts q c)) = texts-IsBeside q c in
      let a : HttpCtx = answered bytes keep d in
      let waiting : a.conn.send_buffer.m_data ≡ bytes =
        ap (λ (k : Connection). k.send_buffer.m_data ++ bytes) kept.same_conn
        ∙ ap (λ (s : VecStrBuffer). s.m_data ++ bytes) w.nothing_to_send in
      let going : d.everything_end ≡ false = kept.same_ended ∙ w.going_on in
      on_event_ready e c b.no_error w.in_use w.stays_open w.shaken
      ∙ ap (λ f. continue_wait (end_phase site (write_phase site e (process_phase site f))))
          (read_phase_brings q chunks e c w short b)
      ∙ ap (λ f. continue_wait (end_phase site (write_phase site e f)))
          (process_phase-answered site bytes keep d
            (ok.responds (process_connection (record d { process_end = true })) (record {
              asked_method = method-add_lines q.lines (texts q c);
              asked_url = url-add_lines q.lines (texts q c);
              asked_headers = refl;
              same_keep = kept.same_keep;
            }))
            going refl (kept.same_processed ∙ w.unprocessed))
      ∙ waiting_phases site e a b.only_read (ground (arith, ap length waiting, some_answer)) going
          refl refl

  -- An event neither reads nor processes a request that was processed.
  resumed :
      (e : IoEvent) (c : HttpCtx)
      → c.recv_end ≡ true
      → c.process_end ≡ true
      → on_ready_event site e c ≡ continue_wait (end_phase site (write_phase site e c))
  unfolding on_ready_event read_phase process_phase
  resumed e c r p =
      let unread : read_phase site e c ≡ c =
        if_false (not c.recv_end && not c.everything_end && e.readable) (read_loop site e.recvs 0 c)
          c (ground (arith, r)) in
      let same : process_phase site c ≡ c =
        if_false (not c.everything_end && c.recv_end && not c.process_end) _ c
          (ground (arith, p)) in
      ap (λ d. continue_wait (end_phase site (write_phase site e (process_phase site d)))) unread
      ∙ ap (λ d. continue_wait (end_phase site (write_phase site e d))) same

  -- A request is answered, in two events. Where a context waits for a request, an event of a socket that
  -- is registered for reading brings one within its limits, in any number of chunks of together at most
  -- 10240 bytes, and the application answers this request with some bytes: then these bytes wait in the
  -- send buffer, nothing is sent yet, and the socket is registered for writing also. In the next event,
  -- if the socket takes the response, it has taken exactly the response's bytes behind what it had; and
  -- if the application keeps the connection, the context waits to read the next request, else the
  -- connection is marked to be closed and the next event closes it. The application may look at the
  -- method, the url, the headers and whether the connection is to be kept; its closure that frees and
  -- its hook of a new connection do nothing more.
  pub on_event-IsServed :
      (q : Request) (bytes : Bytes) (keep : Bool) (chunks : List Bytes) (e e' : IoEvent)
      (c : HttpCtx)
      → IsResponder site q c bytes keep
      → IsWaiting site c
      → IsShort q
      → 0 < length bytes
      → IsBringing site q chunks e c
      → IsTaking (length bytes) e'
      → IsReady c.conn.socket_fd bytes c (on_event site e c)
        × IsServed keep c.conn.socket_fd (c.wire ++ bytes) (on_event site e' (on_event site e c))
  unfolding process_connection append
  on_event-IsServed q bytes keep chunks e e' c ok w short some_answer b t =
      let a : HttpCtx = answering q bytes keep (c.parsed ++ join chunks) c in
      let kept : IsBeside c (add_lines q.lines (texts q c)) = texts-IsBeside q c in
      let first : on_event site e c ≡ a =
        on_event-answering q bytes keep chunks e c ok w short some_answer b in
      let waiting : a.conn.send_buffer.m_data ≡ bytes =
        ap (λ (k : Connection). k.send_buffer.m_data ++ bytes) kept.same_conn
        ∙ ap (λ (s : VecStrBuffer). s.m_data ++ bytes) w.nothing_to_send in
      let going : a.everything_end ≡ false = kept.same_ended ∙ w.going_on in
      let fd : a.conn.socket_fd ≡ c.conn.socket_fd =
        ap (λ (k : Connection). k.socket_fd) kept.same_conn in
      let second : on_event site e' a ≡ continue_wait (end_phase site (write_phase site e' a)) =
        on_event_ready e' a t.no_error (kept.same_use ∙ w.in_use)
          (ap (λ (k : Connection). k.is_close) kept.same_conn ∙ w.stays_open)
          (ap (λ (s : Bool). site.use_ssl && not s) kept.same_accepted ∙ w.shaken)
        ∙ resumed e' a refl refl in
      let served : IsServed keep a.conn.socket_fd (a.wire ++ a.conn.send_buffer.m_data)
          (continue_wait (end_phase site (write_phase site e' a))) =
        sent_phases site keep e' a ok.quiet ok.frees t.can_write
          (subst (λ (bs : Bytes). takes e'.sends (length bs) ≡ true) (sym waiting) t.takes_all)
          going refl refl refl refl in
      let out : a.wire ++ a.conn.send_buffer.m_data ≡ c.wire ++ bytes =
        ap₂ (λ (x y : Bytes). x ++ y) kept.same_wire waiting in
      subst
        (λ d.
          IsReady c.conn.socket_fd bytes c d
          × IsServed keep c.conn.socket_fd (c.wire ++ bytes) (on_event site e' d))
        (sym first)
        (
          record {
            registered =
                subst (λ k. IsAnswering k a) fd
                  (record {
                    going_on = going;
                    complete_request = refl;
                    processed = refl;
                    waits_write = (
                      (answered bytes keep
                          (with_parsed (c.parsed ++ join chunks) (with_request q c))).worker_calls,
                      refl,
                    );
                  });
            nothing_sent = kept.same_wire;
            waiting = waiting;
          },
          subst (λ d. IsServed keep c.conn.socket_fd (c.wire ++ bytes) d) (sym second)
              (subst
                (λ k.
                  IsServed keep k (c.wire ++ bytes)
                    (continue_wait (end_phase site (write_phase site e' a))))
                fd
                (subst
                  (λ o.
                    IsServed keep a.conn.socket_fd o
                      (continue_wait (end_phase site (write_phase site e' a))))
                  out served)),
        )
