-- ===== src/Upgrade/Event.antt =====
-- on_create and on_event of src/connection/websocket_ctx.cpp. Its try_send_flush is, but for the log,
-- that of src/connection/stream_ctx.cpp, and so are its last read and its send.
use avant.Base.{
  ℕ, ◌+◌, ◌-◌, Bool, true, false, ◌&&◌, ◌||◌, not, none, some, List, [], ◌∷◌, ◌++◌, Bytes, length,
  take, leb, if◌then◌else◌,
}
use avant.Buffer.{append, size}
use avant.Session.{re, rwe}
use avant.StreamCtx.{
  Link, SendResult, RecvResult, received, recv_blocked, recv_interrupted, recv_closed, recv_loop,
  try_send_flush,
}
use avant.Http.Parser.{ParserEvent, eq_bytes}
use avant.Http.Site.{Handshake, accepted, incomplete, want_read, want_write, handshake_failed}
use avant.Upgrade.{
  UpgradeCtx, UpgradeCall, drop_timeout_timer, tell_closed, drop_client, run_head_events, in_order,
  take_headers,
}
use avant.Upgrade.Texts.{supported_version, websocket_guid, accept_response, end_of_head}

-- What surrounds a context. A Boolean result of the application is whether an exception came out.
pub record UpgradeSite : Type 0 where
  pub use_ssl : Bool
  -- llhttp: the callbacks for more bytes, whether its result is HPE_OK or HPE_PAUSED_UPGRADE, and
  -- llhttp_get_upgrade
  pub parse_head : Bytes → Bytes → List ParserEvent × Bool × Bool
  -- base64 of the SHA-1 of a text
  pub digest : Bytes → Bytes
  -- websocket_app: on_new_connection, on_process_connection, on_close_connection
  pub new_connection : UpgradeCtx → UpgradeCtx × Bool
  pub process : UpgradeCtx → UpgradeCtx × Bool
  pub close_connection : UpgradeCtx → UpgradeCtx

-- an event, and what the socket answers to the loops for the head, the greeting, and the frames
pub record UpgradeEvent : Type 0 where
  pub error : Bool
  pub readable : Bool
  pub writable : Bool
  pub tls : Handshake
  pub head_recvs : List RecvResult
  pub greeting_sends : List SendResult
  pub recvs : List RecvResult
  pub sends : List SendResult

abbrev pub with_link : Link → UpgradeCtx → UpgradeCtx
with_link link c = record c { link = link }

abbrev pub to_app : UpgradeCall → UpgradeCtx → UpgradeCtx
to_app call c = record c { upgrade_calls = c.upgrade_calls ++ (call ∷ []) }

-- set_is_close(true) and event_mod(RWE)
abbrev pub closing : UpgradeCtx → UpgradeCtx
closing c = with_link (record (c.link) { is_close = true; interest = rwe }) c

-- event_mod(RE)
abbrev pub wait_read : UpgradeCtx → UpgradeCtx
wait_read c = with_link (record (c.link) { interest = re }) c

-- event_mod(RWE)
abbrev pub wait_both : UpgradeCtx → UpgradeCtx
wait_both c = with_link (record (c.link) { interest = rwe }) c

-- on_create, with llhttp_init; the frame's fields are in Websocket
unfoldable pub create : UpgradeCtx → UpgradeCtx
create c = record c {
  attached = true;
  app_layer_notified = false;
  url = [];
  method = [];
  protocol = [];
  version = [];
  sec_websocket_key = [];
  sec_websocket_version = [];
  headers = [];
  head_field_tmp = [];
  head_value_tmp = [];
  http_processed = false;
  is_upgrade = false;
  is_connected = false;
  parsed = [];
}

-- on_close
unfoldable pub detach : UpgradeCtx → UpgradeCtx
detach c = record c { attached = false }

-- the TLS handshake; the flag is whether on_event returns there
unfoldable pub tls_step : Handshake → UpgradeCtx → UpgradeCtx × Bool
tls_step accepted c = (record c { ssl_accepted = true }, false)
tls_step incomplete c = (wait_both c, true)
tls_step want_read c = (wait_read c, true)
tls_step want_write c = (wait_both c, true)
tls_step handshake_failed c = (closing c, true)

-- the response to a key
abbrev pub greeting : Bytes → Bytes
greeting code = accept_response ++ (code ++ end_of_head)

module _ (site : UpgradeSite) where
  -- llhttp_execute; the flag is whether the result is HPE_OK or HPE_PAUSED_UPGRADE
  unfoldable pub execute_head : Bytes → UpgradeCtx → UpgradeCtx × Bool
  unfolding run_head_events
  execute_head at c =
      let p = site.parse_head c.parsed at in
      let r = run_head_events p.0 c in
      let fed = record (r.0) { parsed = c.parsed ++ at } in
      if r.1 && p.1 then (record fed { is_upgrade = fed.is_upgrade || p.2 }, true) else (fed, false)

  -- while (buffer_len < buffer_size) of the handshake; the flag is whether on_event returns there
  unfoldable pub head_loop : List RecvResult → ℕ → UpgradeCtx → UpgradeCtx × Bool
  unfolding execute_head
  head_loop [] buffer_len c = (c, false)
  head_loop (received bytes ∷ rest) buffer_len c =
      let at = take (10240 - buffer_len) bytes in
      let r = execute_head at c in
      let next = head_loop rest (buffer_len + length at) r.0 in
      if leb 10240 buffer_len then (c, false) else if r.1 then next else (closing r.0, true)
  head_loop (recv_blocked ∷ rest) buffer_len c = (c, false)
  head_loop (recv_interrupted ∷ rest) buffer_len c =
      let next = head_loop rest buffer_len c in if leb 10240 buffer_len then (c, false) else next
  head_loop (recv_closed ∷ rest) buffer_len c =
      if leb 10240 buffer_len then (c, false) else (closing c, true)

  -- the response, the flush and the hook of a new connection
  unfoldable pub greet : List SendResult → UpgradeCtx → UpgradeCtx × Bool
  unfolding try_send_flush append
  greet sends c =
      let response = greeting (site.digest (c.sec_websocket_key ++ websocket_guid)) in
      let filled = record (c.link) {
        send_buffer = append (some response) c.link.send_buffer;
        is_ready = true;
      } in
      let connected = record c { is_connected = true; link = try_send_flush sends filled } in
      let r =
        site.new_connection
          (to_app drop_timeout_timer (record connected { app_layer_notified = true })) in
      if r.1 then (closing r.0, true) else (r.0, false)

  -- what a complete request asks for
  unfoldable pub answer_head : List SendResult → UpgradeCtx → UpgradeCtx × Bool
  unfolding greet take_headers
  answer_head sends c =
      let asked = take_headers (in_order c.headers) c in
      if leb (length asked.sec_websocket_key) 0
        || not (eq_bytes asked.sec_websocket_version supported_version)
      then (closing asked, true)
      else greet sends asked

  -- if (!is_connected)
  unfoldable pub handshake : UpgradeEvent → UpgradeCtx → UpgradeCtx × Bool
  unfolding head_loop answer_head
  handshake e c =
      let read = if e.readable then head_loop e.head_recvs 0 c else (c, false) in
      if c.http_processed
      then (closing c, true)
      else if read.1
      then read
      else if not read.0.link.is_close && not read.0.http_processed
      then (wait_read read.0, true)
      else if read.0.http_processed && not read.0.is_upgrade
      then (closing read.0, true)
      else if not read.0.is_connected && read.0.is_upgrade && read.0.http_processed
      then answer_head e.greeting_sends read.0
      else (read.0, false)

  -- the rest of on_event, for a connected context
  unfoldable pub connected_event : UpgradeEvent → UpgradeCtx → UpgradeCtx
  unfolding recv_loop try_send_flush append
  connected_event e c =
      let got = if e.readable then recv_loop e.recvs [] else some [] in
      elim got [
        | none ↦ closing c
        | some bytes ↦
            let filled =
              with_link (record (c.link) { recv_buffer = append (some bytes) c.link.recv_buffer })
                c in
            let r =
              if leb (size filled.link.recv_buffer) 0
              then (filled, false)
              else site.process filled in
            if r.1
            then closing r.0
            else if e.writable
            then with_link (try_send_flush e.sends r.0.link) r.0
            else r.0
      ]

  -- if (conn_ptr->get_is_close())
  unfoldable pub drop_connection : UpgradeCtx → UpgradeCtx
  drop_connection c =
      to_app drop_client
        (if c.link.is_ready then to_app tell_closed (site.close_connection c) else c)

  unfoldable pub on_upgrade_event : UpgradeEvent → UpgradeCtx → UpgradeCtx
  unfolding tls_step handshake connected_event drop_connection
  on_upgrade_event e c =
      let secured = if site.use_ssl && not c.ssl_accepted then tls_step e.tls c else (c, false) in
      let shaken = if secured.0.is_connected then (secured.0, false) else handshake e secured.0 in
      if not c.attached
      then c
      else if e.error || c.link.is_close
      then drop_connection (with_link (record (c.link) { is_close = true }) c)
      else if secured.1
      then secured.0
      else if shaken.1
      then shaken.0
      else if not shaken.0.is_connected
      then wait_both shaken.0
      else connected_event e shaken.0
