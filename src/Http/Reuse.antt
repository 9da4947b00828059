-- ===== src/Http/Reuse.antt =====
-- A connection that is kept alive: the context behind one request and before the next.
use avant.Base.{
  ◌≡◌, refl, sym, ap, subst, ◌∙◌, Bool, true, false, ◌||◌, not, [], ◌++◌, Bytes, if◌then◌else◌,
}
use avant.Base.Map.{find, find-nil}
use avant.Connection.{on_alloc}
use avant.Http.{HttpCtx, mark_delete_timeout_timer}
use avant.Http.Parser.{run_events, values_of, bytes_eq}
use avant.Http.Event.{reset, notify_new, on_create, destory, reuse}
use avant.Http.Site.{Site, with_conn, to_worker, to_close}
use avant.Http.Headers.{values_named, find-run_events}
use avant.Http.Request.{Request, events_of, with_request, IsShort, IsFresh, run_events-events_of}

-- the same socket and the same history of it, whatever the requests were
pub record IsSameSocket (c d : HttpCtx) : Type 0 where
  pub same_fd : d.conn.fd ≡ c.conn.fd
  pub same_gid : d.conn.gid ≡ c.conn.gid
  pub same_has_ctx : d.conn.has_ctx ≡ c.conn.has_ctx
  pub same_socket_fd : d.conn.socket_fd ≡ c.conn.socket_fd
  pub same_has_ssl : d.conn.has_ssl ≡ c.conn.has_ssl
  pub same_calls : d.conn.calls ≡ c.conn.calls
  pub same_ssl_accepted : d.ssl_accepted ≡ c.ssl_accepted
  pub same_worker_calls : d.worker_calls ≡ c.worker_calls
  pub same_wire : d.wire ≡ c.wire

-- the context that the hook of the new request is called on
unfoldable pub cleared : HttpCtx → HttpCtx
unfolding reset on_alloc
cleared c = reset true (with_conn (on_alloc c.conn.fd c.conn.gid c.conn) c)

cleared_same : (c d : HttpCtx) → IsSameSocket c d → cleared d ≡ cleared c
unfolding cleared
cleared_same c d h =
    rw
      (
        h.same_fd, h.same_gid, h.same_has_ctx, h.same_socket_fd, h.same_has_ssl, h.same_calls,
        h.same_ssl_accepted, h.same_worker_calls, h.same_wire,
      )
      refl

-- the hook of the new request on a cleared context
greeted : Site → HttpCtx → HttpCtx
greeted site f =
    (notify_new site true f.conn.fd (with_conn (record (f.conn) { is_ready = true }) f)).0

reuse-greeted :
    (site : Site) (c : HttpCtx)
    → (destory site c).keep_alive ≡ true
    → reuse site c ≡ greeted site (cleared (destory site c))
unfolding reuse on_create greeted cleared
reuse-greeted site c h = rw h (go site.use_ssl)
  where
    go :
        (ssl : Bool)
        → (if not ssl || true
            then greeted site (cleared (destory site c))
            else cleared (destory site c))
          ≡ greeted site (cleared (destory site c))
    go true = refl
    go false = refl

-- what the hook is told of a cleared context
abbrev pub told : HttpCtx → HttpCtx
told f =
    to_worker (mark_delete_timeout_timer f.conn.gid)
      (with_conn (record (f.conn) { is_ready = true; app_layer_notified = true }) f)

greeted_quiet :
    (site : Site) (f : HttpCtx)
    → ((again : Bool) (d : HttpCtx) → site.hook_new_connection again d ≡ (d, false))
    → greeted site f ≡ told f
unfolding greeted notify_new
greeted_quiet site f quiet =
    ap
      (λ (r : HttpCtx × Bool).
        let caught : HttpCtx × Bool =
          if r.1 then (to_close f.conn.fd r.0, true) else (r.0, false) in
        caught.0)
      (quiet true (told f))

told-IsFresh : (c : HttpCtx) → IsFresh (told (cleared c)) × ((told (cleared c)).headers ≡ [])
unfolding cleared
told-IsFresh c = (
  record {
    no_url = refl;
    no_method = refl;
    no_protocol = refl;
    no_version = refl;
    no_field = refl;
    no_body = refl;
    nothing_received = refl;
  },
  refl,
)

pub reuse-told :
    (site : Site) (c : HttpCtx)
    → ((again : Bool) (d : HttpCtx) → site.hook_new_connection again d ≡ (d, false))
    → (destory site c).keep_alive ≡ true
    → reuse site c ≡ told (cleared (destory site c))
reuse-told site c quiet h =
    reuse-greeted site c h ∙ greeted_quiet site (cleared (destory site c)) quiet

reuse-IsFresh :
    (site : Site) (c : HttpCtx)
    → ((again : Bool) (d : HttpCtx) → site.hook_new_connection again d ≡ (d, false))
    → (destory site c).keep_alive ≡ true
    → IsFresh (reuse site c) × ((reuse site c).headers ≡ [])
reuse-IsFresh site c quiet h =
    subst (λ d. IsFresh d × (d.headers ≡ [])) (sym (reuse-told site c quiet h))
      (told-IsFresh (destory site c))

-- Nothing of an earlier request reaches the next one: if the application's closures leave two
-- contexts that are both to be kept alive and agree on the socket, its handle and ids, the calls made
-- and the bytes sent, the contexts for the next request are equal, whatever the requests before were.
pub reuse_same :
    (site : Site) (c d : HttpCtx)
    → (destory site c).keep_alive ≡ true
    → (destory site d).keep_alive ≡ true
    → IsSameSocket (destory site c) (destory site d)
    → reuse site d ≡ reuse site c
reuse_same site c d h k s =
    reuse-greeted site d k
    ∙ ap (greeted site) (cleared_same (destory site c) (destory site d) s)
    ∙ sym (reuse-greeted site c h)

-- A context that is kept alive serves the next request as a new one would, where the hook of a new
-- connection does nothing: a request whose texts are within their limits goes through, and behind it
-- every name has the values of this request's headers alone.
pub reuse_next :
    (site : Site) (c : HttpCtx) (q : Request) (k : Bytes)
    → ((again : Bool) (d : HttpCtx) → site.hook_new_connection again d ≡ (d, false))
    → (destory site c).keep_alive ≡ true
    → IsShort q
    → (run_events (events_of q) (reuse site c) ≡ (with_request q (reuse site c), true))
      × (values_of (find k (run_events (events_of q) (reuse site c)).0.headers)
          ≡ values_named k q.lines)
reuse_next site c q k quiet h short =
    let fresh = reuse-IsFresh site c quiet h in
    (
      run_events-events_of q (reuse site c) short fresh.0,
      find-run_events k q (reuse site c) short fresh.0
          ∙ ap (λ m. values_of (find k m) ++ values_named k q.lines) fresh.1
          ∙ ap (λ o. values_of o ++ values_named k q.lines) (find-nil k),
    )
