-- ===== src/Http/Wait.antt =====
-- The ways in which on_event leaves a connection.
use avant.Base.{
  ◌≡◌, ◌⊎◌, inl, inr, refl, ℤ, true, false, ◌&&◌, ◌||◌, not, none, some, List, [], ◌∷◌, ◌++◌, arith,
  if_case, if◌then◌else◌,
}
use avant.Session.{Interest, re, rwe}
use avant.Http.{HttpCtx, Callback, WorkerCall, epoller_mod, call_close_client_fd}
use avant.Http.Later.{IsOrdered, going_ordered}
use avant.Http.Event.{continue_wait}
use avant.Http.Site.{Site, IoEvent, to_close, to_worker, with_conn}

-- the last call of the worker registers the socket
abbrev pub Waits : ℤ → Interest → HttpCtx → Type 0
Waits fd i c = (before : List WorkerCall) × (c.worker_calls ≡ before ++ (epoller_mod fd i ∷ []))

-- waiting for more of the request
pub record IsReading (fd : ℤ) (c : HttpCtx) : Type 0 where
  pub going_on : c.everything_end ≡ false
  pub incomplete_request : c.recv_end ≡ false
  pub unprocessed : c.process_end ≡ false
  pub waits_read : Waits fd re c

-- waiting to send more of the response
pub record IsAnswering (fd : ℤ) (c : HttpCtx) : Type 0 where
  pub going_on : c.everything_end ≡ false
  pub complete_request : c.recv_end ≡ true
  pub processed : c.process_end ≡ true
  pub waits_write : Waits fd rwe c

-- the next event closes the connection
pub record IsClosing (fd : ℤ) (c : HttpCtx) : Type 0 where
  pub marked : c.conn.is_close ≡ true
  pub waits_any : Waits fd rwe c

-- the handshake goes on
pub record IsShaking (fd : ℤ) (c : HttpCtx) : Type 0 where
  pub not_accepted : c.ssl_accepted ≡ false
  pub waits_more : Waits fd re c ⊎ Waits fd rwe c

-- The event is an error or finds the connection marked. If the context has a closure to free its data,
-- that was run on the marked context and forgotten, and behind it the worker is told to close the socket.
pub record IsClosed (site : Site) (e : IoEvent) (c c' : HttpCtx) : Type 0 where
  pub cause : e.error || c.conn.is_close ≡ true
  pub closed :
      ((c.destory_callback ≡ none)
        × (c'
            ≡ to_worker
                (call_close_client_fd c.conn.socket_fd)
                (with_conn (record (c.conn) { is_close = true }) c)))
      ⊎ ((f : Callback) × (c.destory_callback ≡ some f)
          × (c'
              ≡ to_worker
                  (call_close_client_fd c.conn.socket_fd)
                  (record ((site.call f (with_conn (record (c.conn) { is_close = true }) c)).0) {
                    destory_callback = none;
                  })))

abbrev pub IsLeft : Site → IoEvent → HttpCtx → HttpCtx → Type 0
IsLeft site e c c' =
    IsClosed site e c c'
    ⊎ IsShaking c.conn.socket_fd c'
    ⊎ IsReading c.conn.socket_fd c'
    ⊎ IsAnswering c.conn.socket_fd c'
    ⊎ IsClosing c.conn.socket_fd c'

abbrev pub IsLeftReady : ℤ → HttpCtx → Type 0
IsLeftReady fd c = IsReading fd c ⊎ IsAnswering fd c ⊎ IsClosing fd c

pub continue_wait-IsLeft :
    (c : HttpCtx) → IsOrdered c → IsLeftReady c.conn.socket_fd (continue_wait c)
unfolding continue_wait
continue_wait-IsLeft c h =
    let reading : HttpCtx = to_worker (epoller_mod c.conn.socket_fd re) c in
    let answering : HttpCtx = to_worker (epoller_mod c.conn.socket_fd rwe) c in
    let closing : HttpCtx = to_close c.conn.socket_fd c in
    if_case (IsLeftReady c.conn.socket_fd) (not c.everything_end && not c.recv_end) reading
      (if not c.everything_end then answering else closing)
      (λ q. inl (record {
        going_on = ground (arith, q);
        incomplete_request = ground (arith, q);
        unprocessed = ground (arith, q, going_ordered c h (ground (arith, q)));
        waits_read = (c.worker_calls, refl);
      }))
      (λ q.
        if_case (IsLeftReady c.conn.socket_fd) (not c.everything_end) answering closing
          (λ r. inr (
            inl (record {
              going_on = ground (arith, r);
              complete_request = ground (arith, q, r);
              processed = ground (arith, q, r, going_ordered c h (ground (arith, r)));
              waits_write = (c.worker_calls, refl);
            })))
          (λ r. inr (inr (record { marked = refl; waits_any = (c.worker_calls, refl) }))))

pub continue_wait-IsOrdered : (c : HttpCtx) → IsOrdered c → IsOrdered (continue_wait c)
unfolding continue_wait
continue_wait-IsOrdered c h = ground (arith, h)

pub IsLeft-ready :
    (site : Site) (e : IoEvent) (c c' : HttpCtx)
    → IsLeftReady c.conn.socket_fd c'
    → IsLeft site e c c'
IsLeft-ready site e c c' h = inr (inr h)
