-- ===== src/Http/Tests.antt =====
-- A request for / with a header, in two chunks, and a site that answers every request with 404.
use avant.Base.{
  ◌≡◌, inr, refl, pos, Bool, true, false, none, [], ◌∷◌, ◌++◌, length, suc, zero, take, drop,
  replicate, map, arith, ◌==◌, ◌&&◌, ap, ◌∙◌, if_true, if◌then◌else◌, length-replicate,
}
use avant.Base.Map.{find}
use avant.Connection.{Connection}
use avant.Http.{HttpCtx, Callback, destory_response, process_request, write_file, write_folder}
use avant.Http.Parser.{on_body, run_events, values_of, bytes_eq}
use avant.Http.Event.{destory, reuse, write_loop, on_event}
use avant.Http.Site.{
  Site, IoEvent, accepted, received, recv_blocked, sent, send_blocked, send_interrupted,
}
use avant.Http.Steps.{IsSized}
use avant.Http.Bounded.{on_event-IsSized}
use avant.Http.Later.{IsLater, IsOrdered}
use avant.Http.Wait.{IsLeft}
use avant.Http.Outcome.{on_event-IsLeft}
use avant.Http.Body.{run_body_refused}
use avant.Http.Headers.{values_named}
use avant.Http.Request.{Request, events_of, with_request, IsShort, IsFresh, run_events-events_of}
use avant.Http.Reuse.{reuse_same, reuse_next}
use avant.Http.Write.{IsSent, write_loop-IsSent}
use avant.Http.Answer.{with_response, IsServed}
use avant.Http.Serve.{IsReady, on_event-IsServed}

abbrev idle_conn : Connection
idle_conn = record {
  fd = pos 7;
  gid = 70;
  recv_buffer = record { m_data = [] };
  send_buffer = record { m_data = [] };
  has_ctx = true;
  app_layer_notified = true;
  socket_fd = pos 7;
  has_ssl = false;
  closed_flag = false;
  is_close = false;
  is_ready = true;
  calls = [];
}

abbrev new_ctx : HttpCtx
new_ctx = record {
  attached = true;
  conn = idle_conn;
  ssl_accepted = false;
  url = [];
  method = [];
  protocol = [];
  version = [];
  headers = [];
  head_field_tmp = [];
  head_value_tmp = [];
  process_callback = none;
  write_end_callback = none;
  destory_callback = none;
  ptr = none;
  keep_alive = false;
  parsed = [];
  recv_end = false;
  process_end = false;
  response_end = false;
  everything_end = false;
  recv_body_size = 0;
  worker_calls = [];
  wire = [];
}

-- GET / HTTP/1.1, a: b
abbrev get_root : Request
get_root = record {
  method = (71 ∷ 69 ∷ []) ∷ (84 ∷ []) ∷ [];
  url = (47 ∷ []) ∷ [];
  protocol = (72 ∷ 84 ∷ 84 ∷ 80 ∷ []) ∷ [];
  version = (49 ∷ 46 ∷ 49 ∷ []) ∷ [];
  lines = record { field = (97 ∷ []) ∷ []; value = (98 ∷ []) ∷ [] } ∷ [];
  body = (1 ∷ 2 ∷ []) ∷ [];
}

abbrev answer_404 : Callback → HttpCtx → HttpCtx × Bool
answer_404 process_request c = (with_response (52 ∷ 48 ∷ 52 ∷ []) true c, false)
answer_404 destory_response c = (record c { ptr = none }, false)
answer_404 write_file c = (c, false)
answer_404 write_folder c = (c, false)

-- the first two bytes are GE, all else comes behind them
abbrev get_site : Site
get_site = record {
  use_ssl = false;
  hook_new_connection = λ again c. (c, false);
  call = answer_404;
  parse = λ before at.
      if length before == 0
      then (take 2 (events_of get_root), true)
      else (drop 2 (events_of get_root), true);
}

get_root-IsShort : IsShort get_root
get_root-IsShort = record {
  short_method = omega arith;
  short_url = omega arith;
  short_protocol = omega arith;
  short_version = omega arith;
  short_lines = ((omega arith, omega arith), tt);
  body_pieces = ((omega arith, omega arith), tt);
  short_body = omega arith;
}

new_ctx-IsFresh : IsFresh new_ctx
new_ctx-IsFresh = record {
  no_url = refl;
  no_method = refl;
  no_protocol = refl;
  no_version = refl;
  no_field = refl;
  no_body = refl;
  nothing_received = refl;
}

run_events-events_of_example :
    run_events (events_of get_root) new_ctx ≡ (with_request get_root new_ctx, true)
run_events-events_of_example =
    run_events-events_of get_root new_ctx get_root-IsShort new_ctx-IsFresh

abbrev get_event : IoEvent
get_event = record {
  error = false;
  readable = true;
  writable = true;
  handshake = accepted;
  recvs = received (71 ∷ 69 ∷ []) ∷ received (84 ∷ 32 ∷ 47 ∷ []) ∷ recv_blocked ∷ [];
  sends = sent 1 ∷ send_interrupted ∷ sent 2 ∷ [];
}

-- an application that answers a GET of / with 404, and ends every other request
abbrev answer_root : Callback → HttpCtx → HttpCtx × Bool
answer_root process_request c =
    if bytes_eq.beq c.method (71 ∷ 69 ∷ 84 ∷ []) && bytes_eq.beq c.url (47 ∷ [])
    then (with_response (52 ∷ 48 ∷ 52 ∷ []) true c, false)
    else (record c { everything_end = true }, false)
answer_root destory_response c = (record c { ptr = none }, false)
answer_root write_file c = (c, false)
answer_root write_folder c = (c, false)

abbrev root_site : Site
root_site = record get_site { call = answer_root }

answer_root_lem :
    (c : HttpCtx)
    → c.method ≡ 71 ∷ 69 ∷ 84 ∷ []
    → c.url ≡ 47 ∷ []
    → answer_root process_request c ≡ (with_response (52 ∷ 48 ∷ 52 ∷ []) true c, false)
answer_root_lem c m u =
    if_true (bytes_eq.beq c.method (71 ∷ 69 ∷ 84 ∷ []) && bytes_eq.beq c.url (47 ∷ []))
      (with_response (52 ∷ 48 ∷ 52 ∷ []) true c, false) (record c { everything_end = true }, false)
      (ap (λ t. bytes_eq.beq t (71 ∷ 69 ∷ 84 ∷ []) && bytes_eq.beq c.url (47 ∷ [])) m
        ∙ ap (λ t. bytes_eq.beq t (47 ∷ [])) u)

-- the request comes, and then the socket takes the response
abbrev read_only : IoEvent
read_only = record get_event { writable = false; sends = [] }

abbrev write_only : IoEvent
write_only = record get_event { readable = false; recvs = [] }

on_event-IsServed_example :
    IsReady (pos 7) (52 ∷ 48 ∷ 52 ∷ []) new_ctx (on_event root_site read_only new_ctx)
    × IsServed true
        (pos 7)
        ([] ++ (52 ∷ 48 ∷ 52 ∷ []))
        (on_event root_site write_only (on_event root_site read_only new_ctx))
on_event-IsServed_example =
    on_event-IsServed root_site get_root (52 ∷ 48 ∷ 52 ∷ []) true
      ((71 ∷ 69 ∷ []) ∷ (84 ∷ 32 ∷ 47 ∷ []) ∷ []) read_only write_only new_ctx
      (record {
        responds = λ d h. answer_root_lem d h.asked_method h.asked_url;
        quiet = λ again d. refl;
        frees = λ d. refl;
      })
      (record {
        in_use = refl;
        stays_open = refl;
        shaken = refl;
        going_on = refl;
        incomplete_request = refl;
        unprocessed = refl;
        fresh = new_ctx-IsFresh;
        nothing_to_send = refl;
      })
      get_root-IsShort (omega arith)
      (record {
        no_error = refl;
        can_read = refl;
        only_read = refl;
        brings = refl;
        some_bytes = (omega arith, (omega arith, tt));
        one_read = omega arith;
        whole_request = (
          take 2 (events_of get_root),
          drop 2 (events_of get_root),
          refl,
          refl,
          (drop 2 (events_of get_root), [], refl, refl, refl),
        );
      })
      (record { no_error = refl; can_write = refl; takes_all = refl })

-- a site whose requests are a body of what comes
abbrev body_site : Site
body_site = record {
  use_ssl = false;
  hook_new_connection = λ again c. (c, false);
  call = answer_404;
  parse = λ before at. (on_body at ∷ [], true);
}

answer_404-IsSized : (f : Callback) (c : HttpCtx) → IsSized c → IsSized (answer_404 f c).0
answer_404-IsSized process_request c h = ground (arith, h)
answer_404-IsSized destory_response c h = ground (arith, h)
answer_404-IsSized write_file c h = h
answer_404-IsSized write_folder c h = h

answer_404-IsLater : (f : Callback) (c : HttpCtx) → IsLater c (answer_404 f c).0
answer_404-IsLater process_request c = ground arith
answer_404-IsLater destory_response c = ground arith
answer_404-IsLater write_file c = ground arith
answer_404-IsLater write_folder c = ground arith

new_ctx-IsSized : IsSized new_ctx
new_ctx-IsSized = ground arith

on_event-IsSized_example : IsSized (on_event body_site get_event new_ctx)
on_event-IsSized_example =
    on_event-IsSized body_site
      (record {
        pieces = λ before at. (omega arith, tt);
        call_size = answer_404-IsSized;
        new_size = λ again c h. h;
      })
      get_event new_ctx new_ctx-IsSized

on_event-IsLeft_example :
    IsLeft get_site get_event new_ctx (on_event get_site get_event new_ctx)
    × IsOrdered (on_event get_site get_event new_ctx)
on_event-IsLeft_example =
    on_event-IsLeft get_site
      (record { call_later = answer_404-IsLater; new_later = λ again c. ground arith }) get_event
      new_ctx refl (inr refl)

-- a context that has taken 2043000 bytes of a body
abbrev long_ctx : HttpCtx
long_ctx = record new_ctx { recv_body_size = 2043000 }

run_body_refused_example :
    (run_events (map on_body (replicate 5000 (suc zero) ∷ [])) long_ctx).1 ≡ false
run_body_refused_example =
    let five : length (replicate 5000 (suc zero)) ≡ 5000 = length-replicate 5000 (suc zero) in
    run_body_refused (replicate 5000 (suc zero) ∷ []) long_ctx
      ((omega (arith, five), omega (arith, five)), tt) (omega arith) (omega (arith, five))
      (omega (arith, five))

-- a request that was answered, and another that was refused
abbrev answered_ctx : HttpCtx
answered_ctx = record new_ctx {
  keep_alive = true;
  url = 47 ∷ [];
  everything_end = true;
  recv_end = true;
}

abbrev refused_ctx : HttpCtx
refused_ctx = record new_ctx {
  keep_alive = true;
  headers = (97 ∷ [], (98 ∷ []) ∷ []) ∷ [];
  everything_end = true;
}

reuse_same_example : reuse get_site refused_ctx ≡ reuse get_site answered_ctx
unfolding destory
reuse_same_example = reuse_same get_site answered_ctx refused_ctx refl refl (record {
  same_fd = refl;
  same_gid = refl;
  same_has_ctx = refl;
  same_socket_fd = refl;
  same_has_ssl = refl;
  same_calls = refl;
  same_ssl_accepted = refl;
  same_worker_calls = refl;
  same_wire = refl;
})

reuse_next_example :
    (run_events (events_of get_root) (reuse get_site refused_ctx)
      ≡ (with_request get_root (reuse get_site refused_ctx), true))
    × (values_of
          (find (97 ∷ []) (run_events (events_of get_root) (reuse get_site refused_ctx)).0.headers)
        ≡ values_named (97 ∷ []) get_root.lines)
unfolding destory
reuse_next_example =
    reuse_next get_site refused_ctx get_root (97 ∷ []) (λ again d. refl) refl get_root-IsShort

abbrev answering_ctx : HttpCtx
answering_ctx = with_response (52 ∷ 48 ∷ 52 ∷ []) true answered_ctx

write_loop-IsSent_example :
    IsSent
      (sent 1 ∷ send_blocked ∷ [])
      answering_ctx
      (write_loop (sent 1 ∷ send_blocked ∷ []) answering_ctx)
write_loop-IsSent_example = write_loop-IsSent (sent 1 ∷ send_blocked ∷ []) answering_ctx
