-- ===== src/Upgrade/Kept.antt =====
-- Through all of on_event: nothing but a handshake with a key gets a client in.
use avant.Base.{
  ◌≡◌, inl, inr, refl, sym, ◌∙◌, Bool, true, false, ◌&&◌, ◌||◌, not, Option, none, some, List, [],
  Bytes, leb, arith, append-nil, if_case, if◌then◌else◌,
}
use avant.Buffer.{append, size}
use avant.StreamCtx.{SendResult, try_send_flush, recv_loop}
use avant.StreamCtx.Flush.{outgoing, try_send_flush-IsFlushed}
use avant.Http.Site.{Handshake, accepted, incomplete, want_read, want_write, handshake_failed}
use avant.Upgrade.{UpgradeCtx}
use avant.Upgrade.Event.{
  UpgradeSite, UpgradeEvent, with_link, closing, wait_read, wait_both, tls_step, head_loop,
  answer_head, handshake, connected_event, drop_connection, on_upgrade_event,
}
use avant.Upgrade.Trusted.{
  IsStranger, IsTrusted, IsKnown, IsHonest, IsTrusted-extended, try_send_flush_ready,
}
use avant.Upgrade.Known.{
  closing-IsKnown, closing-IsStranger, head_loop-IsStranger, answer_head-IsKnown,
}

IsKnown-IsStranger :
    (site : UpgradeSite) (c : UpgradeCtx) → IsKnown site c → c.is_connected ≡ false → IsStranger c
IsKnown-IsStranger site c (inl h) e = h
IsKnown-IsStranger site c (inr h) e = absurd (ground (arith, h.connected, e))

IsKnown-IsTrusted :
    (site : UpgradeSite) (c : UpgradeCtx)
    → IsKnown site c
    → c.is_connected ≡ true
    → IsTrusted site c
IsKnown-IsTrusted site c (inl h) e = absurd (ground (arith, h.not_connected, e))
IsKnown-IsTrusted site c (inr h) e = h

-- a registration, and the flags that are not the handshake's
wait_both-IsKnown :
    (site : UpgradeSite) (c : UpgradeCtx) → IsKnown site c → IsKnown site (wait_both c)
wait_both-IsKnown site c h = ground (arith, h)

wait_read-IsKnown :
    (site : UpgradeSite) (c : UpgradeCtx) → IsKnown site c → IsKnown site (wait_read c)
wait_read-IsKnown site c h = ground (arith, h)

marked-IsKnown :
    (site : UpgradeSite) (c : UpgradeCtx)
    → IsKnown site c
    → IsKnown site (with_link (record (c.link) { is_close = true }) c)
marked-IsKnown site c h = ground (arith, h)

tls_step-IsKnown :
    (site : UpgradeSite) (a : Handshake) (c : UpgradeCtx)
    → IsKnown site c
    → IsKnown site (tls_step a c).0
unfolding tls_step
tls_step-IsKnown site accepted c h = ground (arith, h)
tls_step-IsKnown site incomplete c h = wait_both-IsKnown site c h
tls_step-IsKnown site want_read c h = wait_read-IsKnown site c h
tls_step-IsKnown site want_write c h = wait_both-IsKnown site c h
tls_step-IsKnown site handshake_failed c h = closing-IsKnown site c h

module _ (site : UpgradeSite) (ok : IsHonest site) where
  handshake-IsKnown :
      (e : UpgradeEvent) (c : UpgradeCtx) → IsStranger c → IsKnown site (handshake site e c).0
  unfolding handshake
  handshake-IsKnown e c h =
      let read : UpgradeCtx × Bool =
        if e.readable then head_loop site e.head_recvs 0 c else (c, false) in
      let d : UpgradeCtx = read.0 in
      let g : IsStranger d =
        if_case (λ (q : UpgradeCtx × Bool). IsStranger q.0) e.readable
          (head_loop site e.head_recvs 0 c) (c, false)
          (λ q. head_loop-IsStranger site ok e.head_recvs 0 c h) (λ q. h) in
      let P : UpgradeCtx × Bool → Type 0 = λ q. IsKnown site q.0 in
      if_case P c.http_processed (closing c, true) _ (λ q. inl (closing-IsStranger c h))
        (λ q.
          if_case P read.1 read _ (λ q. inl g)
            (λ q.
              if_case P (not d.link.is_close && not d.http_processed) (wait_read d, true) _
                (λ q. wait_read-IsKnown site d (inl g))
                (λ q.
                  if_case P (d.http_processed && not d.is_upgrade) (closing d, true) _
                    (λ q. inl (closing-IsStranger d g))
                    (λ q.
                      if_case P (not d.is_connected && d.is_upgrade && d.http_processed)
                        (answer_head site e.greeting_sends d) (d, false)
                        (λ q.
                          answer_head-IsKnown site ok e.greeting_sends d g (ground (arith, q))
                            (ground (arith, q)))
                        (λ q. inl g)))))

  filled-IsTrusted :
      (bytes : Bytes) (c : UpgradeCtx)
      → IsTrusted site c
      → IsTrusted site
          (with_link (record (c.link) { recv_buffer = append (some bytes) c.link.recv_buffer }) c)
  filled-IsTrusted bytes c h = ground (arith, h)

  flushed-IsTrusted :
      (sends : List SendResult) (c : UpgradeCtx)
      → IsTrusted site c
      → IsTrusted site (with_link (try_send_flush sends c.link) c)
  flushed-IsTrusted sends c h =
      let f : UpgradeCtx = with_link (try_send_flush sends c.link) c in
      IsTrusted-extended site c f
        (record {
          same_connected = refl;
          same_ready = try_send_flush_ready sends c.link;
          same_processed = refl;
          same_upgrade = refl;
          same_version = refl;
          same_key = refl;
          more_out = (
            [],
            (try_send_flush-IsFlushed sends c.link).same_bytes ∙ sym (append-nil (outgoing c.link)),
          );
        })
        h

  -- behind the application's turn
  served-IsTrusted :
      (e : UpgradeEvent) (r : UpgradeCtx × Bool)
      → IsTrusted site r.0
      → IsTrusted site (
          if r.1
          then closing r.0
          else if e.writable
          then with_link (try_send_flush e.sends r.0.link) r.0
          else r.0)
  served-IsTrusted e r h =
      if_case (λ d. IsTrusted site d) r.1 (closing r.0) _ (λ q. ground (arith, h))
        (λ q.
          if_case (λ d. IsTrusted site d) e.writable
            (with_link (try_send_flush e.sends r.0.link) r.0) r.0
            (λ q. flushed-IsTrusted e.sends r.0 h) (λ q. h))

  connected_event-IsTrusted :
      (e : UpgradeEvent) (c : UpgradeCtx)
      → IsTrusted site c
      → IsTrusted site (connected_event site e c)
  unfolding connected_event
  connected_event-IsTrusted e c h = go (if e.readable then recv_loop e.recvs [] else some [])
    where
      go :
          (got : Option Bytes)
          → IsTrusted site (elim got [
            | none ↦ closing c
            | some bytes ↦
                let filled =
                  with_link
                    (record (c.link) { recv_buffer = append (some bytes) c.link.recv_buffer })
                    c in
                let r =
                  if leb (size filled.link.recv_buffer) 0
                  then (filled, false)
                  else site.process filled in
                if r.1
                then closing r.0
                else if e.writable
                then with_link (try_send_flush e.sends r.0.link) r.0
                else r.0
          ])
      go none = ground (arith, h)
      go (some bytes) =
          let filled : UpgradeCtx =
            with_link (record (c.link) { recv_buffer = append (some bytes) c.link.recv_buffer })
              c in
          let r : UpgradeCtx × Bool =
            if leb (size filled.link.recv_buffer) 0 then (filled, false) else site.process filled in
          let t : IsTrusted site filled = filled-IsTrusted bytes c h in
          served-IsTrusted e r (
            if_case (λ (q : UpgradeCtx × Bool). IsTrusted site q.0)
              (leb (size filled.link.recv_buffer) 0) (filled, false) (site.process filled) (λ q. t)
              (λ q.
                IsTrusted-extended site filled (site.process filled).0 (ok.process_extends filled)
                  t))

  drop_connection-IsKnown :
      (c : UpgradeCtx) → IsKnown site c → IsKnown site (drop_connection site c)
  unfolding drop_connection
  drop_connection-IsKnown c (inl h) = inl (ground (arith, h))
  drop_connection-IsKnown c (inr h) =
      let d : UpgradeCtx = site.close_connection c in
      let t : IsTrusted site d = IsTrusted-extended site c d (ok.close_extends c) h in
      inr (ground (arith, h.ready, t))

  -- No client gets in without the handshake. Whatever events come, a context is either a stranger,
  -- not connected and not ready, of which no byte has reached the buffer of the frames and to which
  -- no byte is on the way; or it is connected and ready, its request was complete and an upgrade, with
  -- a key and the version 13, and the bytes to the client begin with the response to just this key.
  -- The condition is that the application's functions leave the handshake's fields alone and only
  -- add bytes.
  pub on_upgrade_event-IsKnown :
      (e : UpgradeEvent) (c : UpgradeCtx)
      → IsKnown site c
      → IsKnown site (on_upgrade_event site e c)
  unfolding on_upgrade_event
  on_upgrade_event-IsKnown e c h =
      let P : UpgradeCtx × Bool → Type 0 = λ q. IsKnown site q.0 in
      let marked : UpgradeCtx = with_link (record (c.link) { is_close = true }) c in
      let secured : UpgradeCtx × Bool =
        if site.use_ssl && not c.ssl_accepted then tls_step e.tls c else (c, false) in
      let g : P secured =
        if_case P (site.use_ssl && not c.ssl_accepted) (tls_step e.tls c) (c, false)
          (λ q. tls_step-IsKnown site e.tls c h) (λ q. h) in
      let shaken : UpgradeCtx × Bool =
        if secured.0.is_connected then (secured.0, false) else handshake site e secured.0 in
      let k : P shaken =
        if_case P secured.0.is_connected (secured.0, false) (handshake site e secured.0) (λ q. g)
          (λ q. handshake-IsKnown e secured.0 (IsKnown-IsStranger site secured.0 g q)) in
      let Q : UpgradeCtx → Type 0 = λ d. IsKnown site d in
      if_case Q (not c.attached) c _ (λ q. h)
        (λ q.
          if_case Q (e.error || c.link.is_close) (drop_connection site marked) _
            (λ q. drop_connection-IsKnown marked (marked-IsKnown site c h))
            (λ q.
              if_case Q secured.1 secured.0 _ (λ q. g)
                (λ q.
                  if_case Q shaken.1 shaken.0 _ (λ q. k)
                    (λ q.
                      if_case Q (not shaken.0.is_connected) (wait_both shaken.0)
                        (connected_event site e shaken.0) (λ q. wait_both-IsKnown site shaken.0 k)
                        (λ q. inr (
                          connected_event-IsTrusted e shaken.0
                            (IsKnown-IsTrusted site shaken.0 k (ground (arith, q)))))))))
