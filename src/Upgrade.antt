-- ===== src/Upgrade.antt =====
-- src/connection/websocket_ctx.cpp and .h: the context of a WebSocket connection, from the handshake
-- over HTTP on. Frames are in Websocket. llhttp, OpenSSL, the hash of the key and the application are
-- parameters; the answers of the socket come as a list for each loop.
pub mod Texts
pub mod Event
pub mod Trusted
pub mod Known
pub mod Kept
mod Tests
use avant.Base.{
  ℕ, ◌+◌, ℤ, pos, negsuc, Bool, true, false, ◌&&◌, Option, none, some, List, [], ◌∷◌, ◌++◌, Bytes,
  length, map, leb, ltb, ◌==◌, if◌then◌else◌,
}
use avant.Base.Map.{Map, find, assign}
use avant.Http.Parser.{
  ParserEvent, on_message_begin, on_protocol, on_url, on_method, on_version, on_header_field,
  on_header_value, on_protocol_complete, on_url_complete, on_method_complete, on_version_complete,
  on_header_field_complete, on_header_value_complete, on_headers_complete, on_chunk_header,
  on_chunk_complete, on_chunk_extension_name, on_chunk_extension_value,
  on_chunk_extension_name_complete, on_chunk_extension_value_complete, on_body, on_message_complete,
  bytes_eq, eq_bytes, checked, is_zero, values_of,
}
use avant.StreamCtx.{Link}
use avant.Upgrade.Texts.{sec_websocket_key_name, sec_websocket_version_name}

-- what the context calls of its worker and of the application
pub data UpgradeCall : Type 0 where
  drop_timeout_timer : UpgradeCall
  tell_closed : UpgradeCall
  drop_client : UpgradeCall

-- the fields of websocket_ctx, less the frame, with the connection's in `link`
pub record UpgradeCtx : Type 0 where
  pub attached : Bool
  pub link : Link
  pub ssl_accepted : Bool
  pub app_layer_notified : Bool
  pub url : Bytes
  pub method : Bytes
  pub protocol : Bytes
  pub version : Bytes
  pub sec_websocket_key : Bytes
  pub sec_websocket_version : Bytes
  pub headers : Map Bytes (List Bytes)
  pub head_field_tmp : Bytes
  pub head_value_tmp : Bytes
  pub http_processed : Bool
  pub is_upgrade : Bool
  pub is_connected : Bool
  -- http_parser_obj: the bytes that it was given since llhttp_init
  pub parsed : Bytes
  pub upgrade_calls : List UpgradeCall

-- the context behind a callback of llhttp, and what the callback returns
unfoldable pub on_head_event : ParserEvent → UpgradeCtx → UpgradeCtx × ℤ
unfolding checked
on_head_event (on_protocol at) c =
    let protocol = c.protocol ++ at in (record c { protocol = protocol }, checked protocol 10)
on_head_event (on_url at) c = let url = c.url ++ at in (record c { url = url }, checked url 10240)
on_head_event (on_method at) c =
    let method = c.method ++ at in (record c { method = method }, checked method 10)
on_head_event (on_version at) c =
    let version = c.version ++ at in (record c { version = version }, checked version 10)
on_head_event (on_header_field at) c =
    let field = c.head_field_tmp ++ at in (record c { head_field_tmp = field }, checked field 1024)
on_head_event on_header_field_complete c = (record c { head_value_tmp = [] }, pos 0)
on_head_event (on_header_value at) c =
    let value = c.head_value_tmp ++ at in (record c { head_value_tmp = value }, checked value 20480)
on_head_event on_header_value_complete c = (
  record c {
    headers =
        assign c.head_field_tmp
          (values_of (find c.head_field_tmp c.headers) ++ (c.head_value_tmp ∷ [])) c.headers;
    head_field_tmp = [];
    head_value_tmp = [];
  },
  pos 0,
)
on_head_event on_chunk_header c = (c, negsuc 0)
on_head_event on_chunk_complete c = (c, negsuc 0)
on_head_event (on_chunk_extension_name at) c = (c, negsuc 0)
on_head_event on_chunk_extension_name_complete c = (c, negsuc 0)
on_head_event (on_chunk_extension_value at) c = (c, negsuc 0)
on_head_event on_chunk_extension_value_complete c = (c, negsuc 0)
on_head_event (on_body at) c = (c, if ltb 0 (length at) then negsuc 0 else pos 0)
on_head_event on_message_complete c = (record c { http_processed = true }, pos 0)
on_head_event on_message_begin c = (c, pos 0)
on_head_event on_protocol_complete c = (c, pos 0)
on_head_event on_url_complete c = (c, pos 0)
on_head_event on_method_complete c = (c, pos 0)
on_head_event on_version_complete c = (c, pos 0)
on_head_event on_headers_complete c = (c, pos 0)

-- llhttp stops at a callback that does not return 0; the flag is whether none did.
unfoldable pub run_head_events : List ParserEvent → UpgradeCtx → UpgradeCtx × Bool
unfolding on_head_event
run_head_events [] c = (c, true)
run_head_events (e ∷ rest) c =
    let r = on_head_event e c in
    let next = run_head_events rest r.0 in if is_zero r.1 then next else (r.0, false)

-- std::tolower in the C locale
abbrev pub lower_byte : ℕ → ℕ
lower_byte b = if leb 65 b && leb b 90 then b + 32 else b

-- the order of std::string, by which std::map goes through its keys
abbrev pub bytes_before : Bytes → Bytes → Bool
bytes_before [] bs = true
bytes_before (a ∷ rest) [] = false
bytes_before (a ∷ rest) (b ∷ bs) =
    let next = bytes_before rest bs in if ltb a b then true else (a == b) && next

abbrev pub insert_in_order : Bytes × List Bytes → Map Bytes (List Bytes) → Map Bytes (List Bytes)
insert_in_order e [] = e ∷ []
insert_in_order e (f ∷ m) =
    let rest = insert_in_order e m in if bytes_before e.0 f.0 then e ∷ (f ∷ m) else f ∷ rest

abbrev pub in_order : Map Bytes (List Bytes) → Map Bytes (List Bytes)
in_order [] = []
in_order (e ∷ m) = insert_in_order e (in_order m)

-- one round of the loop over the headers
unfoldable pub take_header : Bytes × List Bytes → UpgradeCtx → UpgradeCtx
take_header (field, []) c = c
take_header (field, value ∷ values) c =
    let lower = map lower_byte field in
    if eq_bytes lower sec_websocket_key_name
    then record c { sec_websocket_key = value }
    else if eq_bytes lower sec_websocket_version_name
    then record c { sec_websocket_version = value }
    else c

-- the loop over the headers
unfoldable pub take_headers : Map Bytes (List Bytes) → UpgradeCtx → UpgradeCtx
unfolding take_header
take_headers [] c = c
take_headers (h ∷ hs) c = take_headers hs (take_header h c)
