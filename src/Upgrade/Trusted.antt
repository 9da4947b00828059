-- ===== src/Upgrade/Trusted.antt =====
-- Who gets past the handshake, and what the client is told.
use avant.Base.{
  refl, ◌<◌, ◌≡◌, ◌⊎◌, sym, ap, ◌∙◌, subst, true, false, List, [], ◌∷◌, ◌++◌, Bytes, length, take,
  arith, append_assoc,
}
use avant.Base.Map.{Map}
use avant.Buffer.{move_read_ptr_n}
use avant.StreamCtx.{Link, SendResult, sent, send_blocked, send_failed, flush_loop, try_send_flush}
use avant.StreamCtx.Flush.{outgoing}
use avant.Http.Parser.{ParserEvent}
use avant.Upgrade.{UpgradeCtx, on_head_event, run_head_events, take_header, take_headers}
use avant.Upgrade.Event.{create, UpgradeSite, greeting}
use avant.Upgrade.Texts.{supported_version, websocket_guid}

-- no byte of a frame has come in, and none has gone out
pub record IsStranger (c : UpgradeCtx) : Type 0 where
  pub not_connected : c.is_connected ≡ false
  pub not_ready : c.link.is_ready ≡ false
  pub nothing_in : c.link.recv_buffer.m_data ≡ []
  pub nothing_out : outgoing c.link ≡ []

-- The client asked for the upgrade with a key and the version 13, and the first bytes to it are the
-- response to that key.
pub record IsTrusted (site : UpgradeSite) (c : UpgradeCtx) : Type 0 where
  pub connected : c.is_connected ≡ true
  pub ready : c.link.is_ready ≡ true
  pub processed : c.http_processed ≡ true
  pub upgraded : c.is_upgrade ≡ true
  pub version_13 : c.sec_websocket_version ≡ supported_version
  pub some_key : 0 < length c.sec_websocket_key
  pub greeted :
      (rest : Bytes) × (outgoing c.link
        ≡ greeting (site.digest (c.sec_websocket_key ++ websocket_guid)) ++ rest)

abbrev pub IsKnown : UpgradeSite → UpgradeCtx → Type 0
IsKnown site c = IsStranger c ⊎ IsTrusted site c

-- the same handshake, and perhaps more bytes for the client
pub record IsExtended (c d : UpgradeCtx) : Type 0 where
  pub same_connected : d.is_connected ≡ c.is_connected
  pub same_ready : d.link.is_ready ≡ c.link.is_ready
  pub same_processed : d.http_processed ≡ c.http_processed
  pub same_upgrade : d.is_upgrade ≡ c.is_upgrade
  pub same_version : d.sec_websocket_version ≡ c.sec_websocket_version
  pub same_key : d.sec_websocket_key ≡ c.sec_websocket_key
  pub more_out : (more : Bytes) × (outgoing d.link ≡ outgoing c.link ++ more)

-- The application leaves the handshake alone, and takes back no byte.
pub record IsHonest (site : UpgradeSite) : Type 0 where
  pub new_extends : (c : UpgradeCtx) → IsExtended c (site.new_connection c).0
  pub process_extends : (c : UpgradeCtx) → IsExtended c (site.process c).0
  pub close_extends : (c : UpgradeCtx) → IsExtended c (site.close_connection c)

-- A context that is created for a connection that has just been opened is a stranger's.
pub create-IsStranger :
    (c : UpgradeCtx)
    → c.link.is_ready ≡ false
    → c.link.recv_buffer.m_data ≡ []
    → outgoing c.link ≡ []
    → IsStranger (create c)
unfolding create
create-IsStranger c r i o = record {
  not_connected = refl;
  not_ready = r;
  nothing_in = i;
  nothing_out = o;
}

pub IsTrusted-extended :
    (site : UpgradeSite) (c d : UpgradeCtx) → IsExtended c d → IsTrusted site c → IsTrusted site d
IsTrusted-extended site c d h t =
    let g = t.greeted in
    let m = h.more_out in
    record {
      connected = h.same_connected ∙ t.connected;
      ready = h.same_ready ∙ t.ready;
      processed = h.same_processed ∙ t.processed;
      upgraded = h.same_upgrade ∙ t.upgraded;
      version_13 = h.same_version ∙ t.version_13;
      some_key = subst (λ (k : Bytes). 0 < length k) (sym h.same_key) t.some_key;
      greeted = (
        g.0 ++ m.0,
        subst
            (λ (k : Bytes).
              outgoing d.link ≡ greeting (site.digest (k ++ websocket_guid)) ++ (g.0 ++ m.0))
            (sym h.same_key)
            (m.1
              ∙ ap (λ (t : Bytes). t ++ m.0) g.1
              ∙ append_assoc (greeting (site.digest (c.sec_websocket_key ++ websocket_guid))) g.0
                  m.0),
      );
    }

flush_loop_ready :
    (results : List SendResult) (l : Link) → (flush_loop results l).is_ready ≡ l.is_ready
unfolding flush_loop
flush_loop_ready [] l = ground arith
flush_loop_ready (sent n ∷ rest) l = ground (
  arith,
  flush_loop_ready rest (record l {
    wire = l.wire ++ take n l.send_buffer.m_data;
    send_buffer = move_read_ptr_n n l.send_buffer;
  }),
)
flush_loop_ready (send_blocked ∷ rest) l = ground arith
flush_loop_ready (send_failed ∷ rest) l = ground arith

pub try_send_flush_ready :
    (results : List SendResult) (l : Link) → (try_send_flush results l).is_ready ≡ l.is_ready
unfolding try_send_flush
try_send_flush_ready results l = ground (arith, flush_loop_ready results l)

-- the head changes neither the connection nor is_connected
pub record IsHeadOf (c d : UpgradeCtx) : Type 0 where
  pub same_link : d.link ≡ c.link
  pub same_state : d.is_connected ≡ c.is_connected

on_head_event-IsHeadOf : (e : ParserEvent) (c : UpgradeCtx) → IsHeadOf c (on_head_event e c).0
unfolding on_head_event
on_head_event-IsHeadOf e c = ground (arith, e)

pub run_head_events-IsHeadOf :
    (es : List ParserEvent) (c : UpgradeCtx) → IsHeadOf c (run_head_events es c).0
unfolding run_head_events
run_head_events-IsHeadOf [] c = ground arith
run_head_events-IsHeadOf (e ∷ es) c =
    ground (arith, on_head_event-IsHeadOf e c, run_head_events-IsHeadOf es (on_head_event e c).0)

pub take_headers-IsHeadOf :
    (hs : Map Bytes (List Bytes)) (c : UpgradeCtx)
    → IsHeadOf c (take_headers hs c)
      × ((take_headers hs c).http_processed ≡ c.http_processed)
      × ((take_headers hs c).is_upgrade ≡ c.is_upgrade)
unfolding take_headers take_header
take_headers-IsHeadOf [] c = ground arith
take_headers-IsHeadOf ((k, []) ∷ hs) c = take_headers-IsHeadOf hs c
take_headers-IsHeadOf ((k, v ∷ vs) ∷ hs) c =
    ground (arith, take_headers-IsHeadOf hs (take_header (k, v ∷ vs) c))

pub IsStranger-head : (c d : UpgradeCtx) → IsHeadOf c d → IsStranger c → IsStranger d
IsStranger-head c d h s = record {
  not_connected = h.same_state ∙ s.not_connected;
  not_ready = ap (λ (l : Link). l.is_ready) h.same_link ∙ s.not_ready;
  nothing_in = ap (λ (l : Link). l.recv_buffer.m_data) h.same_link ∙ s.nothing_in;
  nothing_out = ap outgoing h.same_link ∙ s.nothing_out;
}
