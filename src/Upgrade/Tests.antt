-- ===== src/Upgrade/Tests.antt =====
-- A client that asks for the upgrade with a key.
use avant.Base.{true, false, ◌≡◌, refl, sym, inl, [], ◌∷◌, append-nil}
use avant.Base.Map.{assign, find}
use avant.Buffer.{move_read_ptr_n}
use avant.Session.{re}
use avant.StreamCtx.{sent, received, recv_blocked}
use avant.StreamCtx.Flush.{outgoing}
use avant.Http.Parser.{
  on_header_field, on_header_value, on_header_field_complete, on_header_value_complete,
  on_headers_complete, on_message_complete,
}
use avant.Http.Site.{accepted}
use avant.Upgrade.{UpgradeCtx}
use avant.Upgrade.Event.{UpgradeSite, UpgradeEvent, on_upgrade_event}
use avant.Upgrade.Trusted.{IsKnown, IsExtended}
use avant.Upgrade.Kept.{on_upgrade_event-IsKnown}

abbrev stranger : UpgradeCtx
stranger = record {
  attached = true;
  link = record {
    is_close = false;
    closed_flag = false;
    is_ready = false;
    interest = re;
    recv_buffer = record { m_data = [] };
    send_buffer = record { m_data = [] };
    wire = [];
  };
  ssl_accepted = false;
  app_layer_notified = false;
  url = [];
  method = [];
  protocol = [];
  version = [];
  sec_websocket_key = [];
  sec_websocket_version = [];
  headers = [];
  head_field_tmp = [];
  head_value_tmp = [];
  http_processed = false;
  is_upgrade = false;
  is_connected = false;
  parsed = [];
  upgrade_calls = [];
}

-- Sec-WebSocket-Key: k and sec-websocket-version: 13
abbrev upgrade_site : UpgradeSite
upgrade_site = record {
  use_ssl = false;
  parse_head = λ before at. (
    on_header_field (
          83 ∷ 101 ∷ 99 ∷ 45 ∷ 87 ∷ 101 ∷ 98 ∷ 83 ∷ 111 ∷ 99 ∷ 107 ∷ 101 ∷ 116 ∷ 45 ∷ 75 ∷ 101 ∷ 121
          ∷ [])
        ∷ on_header_field_complete
        ∷ on_header_value (107 ∷ [])
        ∷ on_header_value_complete
        ∷ on_header_field (
            115 ∷ 101 ∷ 99 ∷ 45 ∷ 119 ∷ 101 ∷ 98 ∷ 115 ∷ 111 ∷ 99 ∷ 107 ∷ 101 ∷ 116 ∷ 45 ∷ 118 ∷ 101
            ∷ 114 ∷ 115 ∷ 105 ∷ 111 ∷ 110 ∷ [])
        ∷ on_header_field_complete
        ∷ on_header_value (49 ∷ 51 ∷ [])
        ∷ on_header_value_complete
        ∷ on_headers_complete
        ∷ on_message_complete
        ∷ [],
    true,
    true,
  );
  digest = λ text. 33 ∷ [];
  new_connection = λ c. (c, false);
  process = λ c. (c, false);
  close_connection = λ c. c;
}

abbrev upgrade_event : UpgradeEvent
upgrade_event = record {
  error = false;
  readable = true;
  writable = false;
  tls = accepted;
  head_recvs = received (71 ∷ []) ∷ recv_blocked ∷ [];
  greeting_sends = sent 5 ∷ [];
  recvs = recv_blocked ∷ [];
  sends = [];
}

IsExtended-self : (c : UpgradeCtx) → IsExtended c c
IsExtended-self c = record {
  same_connected = refl;
  same_ready = refl;
  same_processed = refl;
  same_upgrade = refl;
  same_version = refl;
  same_key = refl;
  more_out = ([], sym (append-nil (outgoing c.link)));
}

on_upgrade_event-IsKnown_example :
    IsKnown upgrade_site (on_upgrade_event upgrade_site upgrade_event stranger)
on_upgrade_event-IsKnown_example =
    on_upgrade_event-IsKnown upgrade_site
      (record {
        new_extends = IsExtended-self;
        process_extends = IsExtended-self;
        close_extends = IsExtended-self;
      })
      upgrade_event stranger
      (inl
        (record { not_connected = refl; not_ready = refl; nothing_in = refl; nothing_out = refl }))

-- the client is in
upgrade_event_connects : (on_upgrade_event upgrade_site upgrade_event stranger).is_connected ≡ true
unfolding on_upgrade_event assign find move_read_ptr_n
upgrade_event_connects = refl
