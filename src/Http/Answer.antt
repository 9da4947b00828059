-- ===== src/Http/Answer.antt =====
-- A complete request in an event: the application's answer, the response's bytes and the end.
use avant.Base.{
  ◌≡◌, ◌<◌, ◌⊎◌, inl, inr, refl, sym, ap, subst, ◌∙◌, ℤ, Bool, true, false, Option, some, none,
  ◌++◌, Bytes, arith,
}
use avant.Buffer.{append, size}
use avant.Session.{rwe}
use avant.Http.{HttpCtx, Callback, process_request, destory_response, epoller_mod}
use avant.Http.Event.{
  process_connection, call_or_end, process_phase, write_end, write_phase, destory, reuse, end_phase,
  continue_wait,
}
use avant.Http.Site.{Site, IoEvent, to_worker}
use avant.Http.Span.{join}
use avant.Http.Request.{Request, with_request}
use avant.Http.Wait.{IsReading, IsClosing}
use avant.Http.Reuse.{told, cleared, reuse-told}
use avant.Http.Write.{takes, all_sent, write_loop-all_sent}

-- an answer such as return_404: bytes for the client, the end of the response and whether to stay
abbrev pub with_response : Bytes → Bool → HttpCtx → HttpCtx
with_response bytes keep c = record c {
  conn = record (c.conn) { send_buffer = append (some bytes) c.conn.send_buffer };
  response_end = true;
  keep_alive = keep;
}

abbrev pub answered : Bytes → Bool → HttpCtx → HttpCtx
answered bytes keep c =
    with_response bytes keep (process_connection (record c { process_end = true }))

-- the bytes are out, and the socket waits for the next request or to be closed
pub record IsServed (keep : Bool) (fd : ℤ) (out : Bytes) (c : HttpCtx) : Type 0 where
  pub sent_all : c.wire ≡ out
  pub waits_on : ((keep ≡ true) × IsReading fd c) ⊎ ((keep ≡ false) × IsClosing fd c)

-- a context that holds the request and nothing else that the application looks at but what `c` has
pub record IsAsked (q : Request) (c d : HttpCtx) : Type 0 where
  pub asked_method : d.method ≡ join q.method
  pub asked_url : d.url ≡ join q.url
  pub asked_headers : d.headers ≡ (with_request q c).headers
  pub same_keep : d.keep_alive ≡ c.keep_alive

-- The application answers this request with these bytes, frees what it keeps, and does nothing for a
-- new connection, as http_app::on_new_connection.
pub record IsResponder (site : Site) (q : Request) (c : HttpCtx) (bytes : Bytes) (keep : Bool)
    : Type 0 where
  pub responds :
      (d : HttpCtx)
      → IsAsked q c d
      → site.call process_request d ≡ (with_response bytes keep d, false)
  pub quiet : (again : Bool) (d : HttpCtx) → site.hook_new_connection again d ≡ (d, false)
  pub frees : (d : HttpCtx) → site.call destory_response d ≡ (record d { ptr = none }, false)

module _ (site : Site) where
  pub process_phase-answered :
      (bytes : Bytes) (keep : Bool) (c : HttpCtx)
      → site.call process_request (process_connection (record c { process_end = true }))
        ≡ (answered bytes keep c, false)
      → c.everything_end ≡ false
      → c.recv_end ≡ true
      → c.process_end ≡ false
      → process_phase site c ≡ answered bytes keep c
  unfolding process_phase process_connection call_or_end
  process_phase-answered bytes keep c f e r p = ground (arith, e, r, p, f)

  write_phase-all_sent :
      (e : IoEvent) (c : HttpCtx)
      → e.writable ≡ true
      → takes e.sends (size c.conn.send_buffer) ≡ true
      → c.everything_end ≡ false
      → c.process_end ≡ true
      → c.response_end ≡ true
      → write_phase site e c ≡ all_sent c
  unfolding write_phase write_end
  write_phase-all_sent e c w t g p r = ground (arith, w, g, p, r, write_loop-all_sent e.sends c t)

  end_phase-reuse :
      (c : HttpCtx)
      → c.response_end ≡ true
      → end_phase site (all_sent c) ≡ reuse site (record (all_sent c) { everything_end = true })
  unfolding end_phase
  end_phase-reuse c r = ground (arith, r)

  destory_free :
      (c : HttpCtx)
      → ((d : HttpCtx) → site.call destory_response d ≡ (record d { ptr = none }, false))
      → c.destory_callback ≡ some destory_response
      → destory site c ≡ record c { ptr = none; destory_callback = none }
  unfolding destory
  destory_free c free s =
      let run : Option Callback → HttpCtx = λ o. elim o [
        | none ↦ c
        | some f ↦ record ((site.call f c).0) { destory_callback = none }
      ] in
      ap run s ∙ ap (λ (r : HttpCtx × Bool). record (r.0) { destory_callback = none }) (free c)

  -- the end of a request that was answered, where the closure of process_connection frees and the
  -- hook of a new connection does nothing
  finish :
      (keep : Bool) (c : HttpCtx)
      → ((again : Bool) (d : HttpCtx) → site.hook_new_connection again d ≡ (d, false))
      → ((d : HttpCtx) → site.call destory_response d ≡ (record d { ptr = none }, false))
      → c.destory_callback ≡ some destory_response
      → c.keep_alive ≡ keep
      → c.everything_end ≡ true
      → IsServed keep c.conn.socket_fd c.wire (continue_wait (reuse site c))
  unfolding continue_wait reuse cleared
  finish true c quiet free s k e =
      let d : HttpCtx = record c { ptr = none; destory_callback = none } in
      let gone : destory site c ≡ d = destory_free c free s in
      let next : reuse site c ≡ told (cleared d) =
        reuse-told site c quiet (ap (λ (f : HttpCtx). f.keep_alive) gone ∙ k)
        ∙ ap (λ (f : HttpCtx). told (cleared f)) gone in
      subst (λ f. IsServed true c.conn.socket_fd c.wire (continue_wait f)) (sym next)
        (record {
          sent_all = refl;
          waits_on = inl (
            refl,
            record {
              going_on = refl;
              incomplete_request = refl;
              unprocessed = refl;
              waits_read = ((told (cleared d)).worker_calls, refl);
            },
          );
        })
  finish false c quiet free s k e =
      let d : HttpCtx = record c { ptr = none; destory_callback = none } in
      let gone : destory site c ≡ d = destory_free c free s in
      let next : reuse site c ≡ d = ground (arith, gone, k) in
      subst (λ f. IsServed false c.conn.socket_fd c.wire (continue_wait f)) (sym next)
        (rw e (record {
          sent_all = refl;
          waits_on = inr (refl, record { marked = refl; waits_any = (c.worker_calls, refl) });
        }))

  -- the phases behind the processing, where the socket can take nothing yet
  pub waiting_phases :
      (e : IoEvent) (c : HttpCtx)
      → e.writable ≡ false
      → 0 < size c.conn.send_buffer
      → c.everything_end ≡ false
      → c.recv_end ≡ true
      → c.process_end ≡ true
      → continue_wait (end_phase site (write_phase site e c))
        ≡ to_worker (epoller_mod c.conn.socket_fd rwe) c
  unfolding write_phase write_end end_phase continue_wait
  waiting_phases e c w s g r p = ground (arith, w, s, g, r, p)

  -- the same, where the socket takes the response
  pub sent_phases :
      (keep : Bool) (e : IoEvent) (c : HttpCtx)
      → ((again : Bool) (d : HttpCtx) → site.hook_new_connection again d ≡ (d, false))
      → ((d : HttpCtx) → site.call destory_response d ≡ (record d { ptr = none }, false))
      → e.writable ≡ true
      → takes e.sends (size c.conn.send_buffer) ≡ true
      → c.everything_end ≡ false
      → c.process_end ≡ true
      → c.response_end ≡ true
      → c.destory_callback ≡ some destory_response
      → c.keep_alive ≡ keep
      → IsServed keep c.conn.socket_fd
          (c.wire ++ c.conn.send_buffer.m_data)
          (continue_wait (end_phase site (write_phase site e c)))
  sent_phases keep e c quiet frees w t g p r k a =
      let through : end_phase site (write_phase site e c)
          ≡ reuse site (record (all_sent c) { everything_end = true }) =
        ap (end_phase site) (write_phase-all_sent e c w t g p r) ∙ end_phase-reuse c r in
      subst
        (λ d.
          IsServed keep c.conn.socket_fd (c.wire ++ c.conn.send_buffer.m_data) (continue_wait d))
        (sym through)
        (finish keep (record (all_sent c) { everything_end = true }) quiet frees k a refl)
