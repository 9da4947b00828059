-- ===== src/Http/Outcome.antt =====
-- What on_event leaves a connection waiting for.
use avant.Base.{
  ◌≡◌, ◌⊎◌, inl, inr, refl, ap, ◌∙◌, ℤ, Bool, true, false, ◌&&◌, ◌||◌, not, Option, none, some,
  arith, Bool-cases, Option-cases, subst, if_case, if◌then◌else◌,
}
use avant.Connection.{on_alloc}
use avant.Session.{Interest, re, rwe}
use avant.Http.{HttpCtx, Callback, epoller_mod, call_close_client_fd, mark_delete_timeout_timer}
use avant.Http.Later.{
  IsLater, IsLaterSite, IsOrdered, IsOrdered-later, read_phase_ordered, process_phase-IsOrdered,
  write_phase-IsLater, read_phase_socket, process_phase_socket,
}
use avant.Http.Event.{
  reset, continue_wait, notify_new, on_create, destory, handshake_step, read_phase, process_phase,
  write_phase, reuse, end_phase, on_ready_event, close_event, on_event,
}
use avant.Http.Site.{
  Site, Handshake, accepted, incomplete, want_read, want_write, handshake_failed, IoEvent,
  sends_nothing, to_worker, with_conn,
}
use avant.Http.Wait.{
  Waits, IsClosing, IsClosed, IsLeft, IsLeftReady, continue_wait-IsLeft, continue_wait-IsOrdered,
  IsLeft-ready,
}

module _ (site : Site) (ok : IsLaterSite site) where
  notify_new-IsLater :
      (again : Bool) (fd : ℤ) (c : HttpCtx) → IsLater c (notify_new site again fd c).0
  unfolding notify_new
  notify_new-IsLater again fd c =
      let told : HttpCtx =
        to_worker (mark_delete_timeout_timer c.conn.gid)
          (with_conn (record (c.conn) { app_layer_notified = true }) c) in
      ground (arith, ok.new_later again told)

  on_create-IsOrdered :
      (again : Bool) (c : HttpCtx)
      → IsOrdered (on_create site again c)
        × ((on_create site again c).conn.socket_fd ≡ c.conn.socket_fd)
  unfolding on_create reset
  on_create-IsOrdered again c =
      let fresh : HttpCtx = reset again c in
      let ready : HttpCtx = with_conn (record (fresh.conn) { is_ready = true }) fresh in
      ground (arith, notify_new-IsLater again fresh.conn.fd ready)

  destory-IsLater : (c : HttpCtx) → IsLater c (destory site c)
  unfolding destory
  destory-IsLater c = go c.destory_callback
    where
      go :
          (callback : Option Callback)
          → IsLater c (elim callback [
            | none ↦ c
            | some f ↦ record ((site.call f c).0) { destory_callback = none }
          ])
      go none = ground arith
      go (some f) = ground (arith, ok.call_later f c)

  end_phase-IsOrdered :
      (c : HttpCtx)
      → IsOrdered c
      → IsOrdered (end_phase site c) × ((end_phase site c).conn.socket_fd ≡ c.conn.socket_fd)
  unfolding end_phase reuse on_alloc
  end_phase-IsOrdered c h =
      let ended : HttpCtx = record c { everything_end = true } in
      let d : HttpCtx = destory site ended in
      let again : HttpCtx = with_conn (on_alloc d.conn.fd d.conn.gid d.conn) d in
      let Goal : HttpCtx → Type 0 = λ f. IsOrdered f × (f.conn.socket_fd ≡ c.conn.socket_fd) in
      let late : IsLater ended d = destory-IsLater ended in
      if_case Goal (c.everything_end || (sends_nothing c && c.response_end)) (reuse site ended) c
        (λ q.
          if_case Goal d.keep_alive (on_create site true again) d
            (λ r. (
              (on_create-IsOrdered true again).0,
              (on_create-IsOrdered true again).1 ∙ late.same_socket,
            ))
            (λ r. (IsOrdered-later ended d late (inl refl), late.same_socket)))
        (λ q. (h, refl))

  on_ready_event-IsLeft :
      (e : IoEvent) (c : HttpCtx)
      → IsOrdered c
      → IsLeftReady c.conn.socket_fd (on_ready_event site e c) × IsOrdered (on_ready_event site e c)
  unfolding on_ready_event
  on_ready_event-IsLeft e c h =
      let read : HttpCtx = read_phase site e c in
      let processed : HttpCtx = process_phase site read in
      let written : HttpCtx = write_phase site e processed in
      let done : HttpCtx = end_phase site written in
      let late : IsLater processed written = write_phase-IsLater site ok e processed in
      let ended = end_phase-IsOrdered written (
        IsOrdered-later processed written late
          (process_phase-IsOrdered site ok read (read_phase_ordered site ok e c h))) in
      let same : done.conn.socket_fd ≡ c.conn.socket_fd =
        ended.1
        ∙ late.same_socket
        ∙ process_phase_socket site ok read
        ∙ read_phase_socket site ok e c in
      (
        subst (λ fd. IsLeftReady fd (continue_wait done)) same (continue_wait-IsLeft done ended.0),
        continue_wait-IsOrdered done ended.0,
      )

  -- destory by the stored closure
  destory_by :
      (c : HttpCtx) (o : Option Callback)
      → c.destory_callback ≡ o
      → destory site c
        ≡ (elim o [ none ↦ c | some f ↦ record ((site.call f c).0) { destory_callback = none } ])
  unfolding destory
  destory_by c o q =
      ap
        (λ (o : Option Callback). elim o as (λ o. HttpCtx) [
          | none ↦ c
          | some f ↦ record ((site.call f c).0) { destory_callback = none }
        ])
        q

  close_event-IsClosed :
      (e : IoEvent) (c : HttpCtx)
      → e.error || c.conn.is_close ≡ true
      → IsClosed site e c (close_event site (with_conn (record (c.conn) { is_close = true }) c))
  unfolding close_event
  close_event-IsClosed e c cause =
      let closing : HttpCtx = with_conn (record (c.conn) { is_close = true }) c in
      let told : HttpCtx → HttpCtx = λ d. to_worker (call_close_client_fd d.conn.socket_fd) d in
      elim (Option-cases c.destory_callback) [
        | inl q ↦ record { cause = cause; closed = inl (q, ap told (destory_by closing none q)) }
        | inr (f, q) ↦
            let freed : HttpCtx = record ((site.call f closing).0) { destory_callback = none } in
            record {
              cause = cause;
              closed = inr (
                f,
                q,
                ap told (destory_by closing (some f) q)
                    ∙ ap (λ (fd : ℤ). to_worker (call_close_client_fd fd) freed)
                        (ok.call_later f closing).same_socket,
              );
            }
      ]

  notify_new-IsClosing :
      (again : Bool) (fd : ℤ) (c : HttpCtx)
      → (notify_new site again fd c).1 ≡ true
      → IsClosing fd (notify_new site again fd c).0
  unfolding notify_new
  notify_new-IsClosing again fd c q =
      let told : HttpCtx =
        to_worker (mark_delete_timeout_timer c.conn.gid)
          (with_conn (record (c.conn) { app_layer_notified = true }) c) in
      let r : HttpCtx × Bool = site.hook_new_connection again told in
      let e : r.1 ≡ true = ground (arith, q, Bool-cases r.1) in
      rw (e, notify_new) (record { marked = refl; waits_any = (r.0.worker_calls, refl) })

  shaking :
      (e : IoEvent) (c : HttpCtx) (i : Interest)
      → c.ssl_accepted ≡ false
      → (let d : HttpCtx = to_worker (epoller_mod c.conn.socket_fd i) c in
          Waits c.conn.socket_fd re d ⊎ Waits c.conn.socket_fd rwe d)
      → IsLeft site e c (to_worker (epoller_mod c.conn.socket_fd i) c)
  shaking e c i q w = inr (inl (record { not_accepted = q; waits_more = w }))

  handshake_step-IsLeft :
      (a : Handshake) (e : IoEvent) (c : HttpCtx)
      → IsOrdered c
      → c.ssl_accepted ≡ false
      → IsOrdered (handshake_step site a c).0
        × ((handshake_step site a c).0.conn.socket_fd ≡ c.conn.socket_fd)
        × ((handshake_step site a c).1 ≡ true → IsLeft site e c (handshake_step site a c).0)
  unfolding handshake_step
  handshake_step-IsLeft accepted e c h q =
      let ready : HttpCtx =
        with_conn (record (c.conn) { is_ready = true }) (record c { ssl_accepted = true }) in
      let late : IsLater ready (notify_new site false c.conn.socket_fd ready).0 =
        notify_new-IsLater false c.conn.socket_fd ready in
      (
        IsOrdered-later ready (notify_new site false c.conn.socket_fd ready).0 late h,
        late.same_socket,
        λ r. inr (inr (inr (inr (notify_new-IsClosing false c.conn.socket_fd ready r)))),
      )
  handshake_step-IsLeft incomplete e c h q =
      (h, refl, λ r. shaking e c rwe q (inr (c.worker_calls, refl)))
  handshake_step-IsLeft want_read e c h q =
      (h, refl, λ r. shaking e c re q (inl (c.worker_calls, refl)))
  handshake_step-IsLeft want_write e c h q =
      (h, refl, λ r. shaking e c rwe q (inr (c.worker_calls, refl)))
  handshake_step-IsLeft handshake_failed e c h q = (
    h,
    refl,
    λ r. inr (inr (inr (inr (record { marked = refl; waits_any = (c.worker_calls, refl) })))),
  )

  -- An event on a context in use never leaves its socket forgotten. Either the event is an error or
  -- finds the connection marked to be closed: then the connection is marked, the stored closure that
  -- frees the application's data, if there is one, is run once on the marked context and forgotten,
  -- the last call of the worker closes the socket, and nothing else of the context changes but by that closure. Or the
  -- handshake goes on and the socket is registered; or the request goes on, is incomplete and
  -- unprocessed, and is registered for reading; or it goes on, is complete and processed, and is
  -- registered for writing also; or the connection is marked to be closed and registered for both, so
  -- that the next event closes it. A going request is again processed exactly if it is complete. The
  -- conditions are that this held before the event, and that the application's closures change
  -- neither recv_end nor process_end nor the socket, and take back no end.
  pub on_event-IsLeft :
      (e : IoEvent) (c : HttpCtx)
      → c.attached ≡ true
      → IsOrdered c
      → IsLeft site e c (on_event site e c) × IsOrdered (on_event site e c)
  unfolding on_event close_event
  on_event-IsLeft e c a h =
      let closing : HttpCtx = with_conn (record (c.conn) { is_close = true }) c in
      let d : HttpCtx = destory site closing in
      let late : IsLater closing d = destory-IsLater closing in
      let fd : ℤ = c.conn.socket_fd in
      let Goal : HttpCtx → Type 0 = λ f. IsLeft site e c f × IsOrdered f in
      let shaken : HttpCtx × Bool =
        if site.use_ssl && not c.ssl_accepted
        then handshake_step site e.handshake c
        else (c, false) in
      let Step : HttpCtx × Bool → Type 0 =
        λ r. IsOrdered r.0 × (r.0.conn.socket_fd ≡ fd) × (r.1 ≡ true → IsLeft site e c r.0) in
      let step : Step shaken =
        if_case Step (site.use_ssl && not c.ssl_accepted) (handshake_step site e.handshake c)
          (c, false) (λ q. handshake_step-IsLeft e.handshake e c h (ground (arith, q)))
          (λ q. (h, refl, λ r. absurd (ground (arith, r)))) in
      let ready = on_ready_event-IsLeft e shaken.0 step.0 in
      if_case Goal (not c.attached) c _ (λ q. absurd (ground (arith, a, q)))
        (λ q.
          if_case Goal (e.error || c.conn.is_close) (close_event site closing) _
            (λ q. (inl (close_event-IsClosed e c q), IsOrdered-later closing d late h))
            (λ q.
              if_case Goal shaken.1 shaken.0 (on_ready_event site e shaken.0)
                (λ r. (step.2 r, step.0))
                (λ r. (
                  IsLeft-ready site e c (on_ready_event site e shaken.0)
                      (subst (λ k. IsLeftReady k (on_ready_event site e shaken.0)) step.1 ready.0),
                  ready.1,
                ))))
