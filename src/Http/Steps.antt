-- ===== src/Http/Steps.antt =====
-- The limits of a request through the loops and the calls of on_event.
use avant.Base.{
  ℕ, ◌+◌, ◌-◌, ◌≤◌, ◌≡◌, ◌⊎◌, inr, ℤ, Bool, true, false, ◌||◌, not, Option, none, some, List, [],
  ◌∷◌, ◌++◌, Bytes, length, take, leb, suc, zero, arith, All, length-take, if_case,
}
use avant.Buffer.{move_read_ptr_n}
use avant.Http.{HttpCtx, Callback, mark_delete_timeout_timer}
use avant.Http.Parser.{ParserEvent}
use avant.Http.Event.{
  reset, write_loop, continue_wait, notify_new, on_create, destory, call_or_end, execute, read_loop,
}
use avant.Http.Site.{
  Site, RecvAnswer, received, recv_blocked, recv_interrupted, recv_failed, SendAnswer, sent,
  send_blocked, send_interrupted, send_failed, sends_nothing, to_worker, with_conn,
}
use avant.Http.Size.{piece, IsWithin, run_events-IsWithin}

-- within the limits while the request goes on, and one read beyond them at most when it has ended
pub record IsSized (c : HttpCtx) : Type 0 where
  pub within_read : IsWithin 10240 c
  pub within : (c.everything_end ≡ true) ⊎ IsWithin 0 c

-- llhttp gives the callbacks pieces of the bytes it was given, and the application adds nothing to
-- the request.
pub record IsSizedSite (site : Site) : Type 0 where
  pub pieces :
      (before at : Bytes) → All (λ e. length (piece e) ≤ length at) (site.parse before at).0
  pub call_size : (f : Callback) (c : HttpCtx) → IsSized c → IsSized (site.call f c).0
  pub new_size :
      (again : Bool) (c : HttpCtx) → IsSized c → IsSized (site.hook_new_connection again c).0

All-le :
    (es : List ParserEvent) (n k : ℕ)
    → n ≤ k
    → All (λ e. length (piece e) ≤ n) es
    → All (λ e. length (piece e) ≤ k) es
All-le [] n k h g = g
All-le (e ∷ es) n k h g = (omega arith, All-le es n k h g.1)

pub continue_wait-IsSized : (c : HttpCtx) → IsSized c → IsSized (continue_wait c)
unfolding continue_wait
continue_wait-IsSized c h = ground (arith, h)

pub going_size : (c : HttpCtx) → IsSized c → c.everything_end ≡ false → IsWithin 0 c
going_size c h e = ground (arith, h.within, e)

module _ (site : Site) (ok : IsSizedSite site) where
  execute_size :
      (at : Bytes) (c : HttpCtx)
      → length at ≤ 10240
      → IsWithin 0 c
      → IsWithin 10240 (execute site at c).0
        × ((execute site at c).1 ≡ true → IsWithin 0 (execute site at c).0)
  unfolding execute
  execute_size at c g h = ground (
    arith,
    run_events-IsWithin 10240 (site.parse c.parsed at).0 c
        (All-le (site.parse c.parsed at).0 (length at) 10240 g (ok.pieces c.parsed at)) h,
  )

  pub ended_size : (c : HttpCtx) → IsWithin 10240 c → IsSized (record c { everything_end = true })
  ended_size c h = ground arith

  pub read_loop-IsSized :
      (answers : List RecvAnswer) (buffer_len : ℕ) (c : HttpCtx)
      → IsWithin 0 c
      → IsSized c
      → IsSized (read_loop site answers buffer_len c)
  unfolding read_loop
  read_loop-IsSized [] n c h g = g
  read_loop-IsSized (received [] ∷ rest) n c h g = ground (arith, ended_size c g.within_read)
  read_loop-IsSized (received (b ∷ bs) ∷ rest) n c h g =
      let at : Bytes = take (10240 - n) (b ∷ bs) in
      let done = execute_size at c (omega (arith, length-take (10240 - n) (b ∷ bs))) h in
      let r : HttpCtx = (execute site at c).0 in
      if_case IsSized (leb 10240 n) c _ (λ q. g)
        (λ q.
          if_case IsSized (execute site at c).1 (read_loop site rest (n + length at) r)
            (record r { everything_end = true })
            (λ q.
              read_loop-IsSized rest (n + length at) r (done.1 q)
                (record { within_read = done.0; within = inr (done.1 q) }))
            (λ q. ended_size r done.0))
  read_loop-IsSized (recv_blocked ∷ rest) n c h g = g
  read_loop-IsSized (recv_interrupted ∷ rest) n c h g =
      ground (arith, read_loop-IsSized rest n c h g)
  read_loop-IsSized (recv_failed ∷ rest) n c h g = ground (arith, ended_size c g.within_read)

  pub call_or_end-IsSized :
      (callback : Option Callback) (c : HttpCtx) → IsSized c → IsSized (call_or_end site callback c)
  unfolding call_or_end
  call_or_end-IsSized none c h = ended_size c h.within_read
  call_or_end-IsSized (some f) c h =
      ground (arith, ok.call_size f c h, ended_size (site.call f c).0)

  pub write_loop-IsSized :
      (answers : List SendAnswer) (c : HttpCtx) → IsSized c → IsSized (write_loop answers c)
  unfolding write_loop
  write_loop-IsSized [] c h = h
  write_loop-IsSized (sent zero ∷ rest) c h = ground (arith, ended_size c h.within_read)
  write_loop-IsSized (sent (suc n) ∷ rest) c h =
      if_case IsSized (sends_nothing c) c _ (λ q. h)
        (λ q.
          write_loop-IsSized rest
            (record c {
              wire = c.wire ++ take (suc n) c.conn.send_buffer.m_data;
              conn = record (c.conn) { send_buffer = move_read_ptr_n (suc n) c.conn.send_buffer };
            })
            (record {
              within_read = ground (arith, h.within_read);
              within = ground (arith, h.within);
            }))
  write_loop-IsSized (send_blocked ∷ rest) c h = h
  write_loop-IsSized (send_interrupted ∷ rest) c h = ground (arith, write_loop-IsSized rest c h)
  write_loop-IsSized (send_failed ∷ rest) c h = ground (arith, h)

  pub notify_new-IsSized :
      (again : Bool) (fd : ℤ) (c : HttpCtx) → IsSized c → IsSized (notify_new site again fd c).0
  unfolding notify_new
  notify_new-IsSized again fd c h =
      let told : HttpCtx =
        to_worker (mark_delete_timeout_timer c.conn.gid)
          (with_conn (record (c.conn) { app_layer_notified = true }) c) in
      let g : IsSized (site.hook_new_connection again told).0 =
        ok.new_size again told (ground (arith, h)) in
      if_case (λ (r : HttpCtx × Bool). IsSized r.0) (site.hook_new_connection again told).1 _ _
        (λ q. ground (arith, g)) (λ q. g)

  pub on_create-IsSized : (again : Bool) (c : HttpCtx) → IsSized (on_create site again c)
  unfolding on_create reset
  on_create-IsSized again c =
      let fresh : HttpCtx = reset again c in
      let ready : HttpCtx = with_conn (record (fresh.conn) { is_ready = true }) fresh in
      if_case IsSized (not site.use_ssl || again) (notify_new site again fresh.conn.fd ready).0
        fresh (λ q. notify_new-IsSized again fresh.conn.fd ready (ground arith)) (λ q. ground arith)

  pub destory-IsSized : (c : HttpCtx) → IsSized c → IsSized (destory site c)
  unfolding destory
  destory-IsSized c h = go c.destory_callback
    where
      go :
          (callback : Option Callback)
          → IsSized (elim callback [
            | none ↦ c
            | some f ↦ record ((site.call f c).0) { destory_callback = none }
          ])
      go none = h
      go (some f) = ground (arith, ok.call_size f c h)
