-- ===== src/Http/Parser.antt =====
-- init_llhttp_settings and add_header of src/connection/http_ctx.cpp, and on_body_before and on_body
-- of src/app/http_app.cpp: what happens as llhttp reads the bytes of a request.
use avant.Base.{
  ℕ, ℤ, pos, negsuc, Bool, true, false, ◌&&◌, Option, none, some, List, [], ◌∷◌, ◌++◌, ◌≡◌, ◌↔◌,
  ◌==◌, arith, Bytes, length, ltb, if◌then◌else◌, add64, ==_iff,
}
use avant.Base.Key.{Eq}
use avant.Base.Map.{find, assign}
use avant.Buffer.{append, clear}
use avant.Http.{HttpCtx}

-- the callbacks of llhttp_settings_t, with the bytes of those that are given some
pub data ParserEvent : Type 0 where
  on_message_begin : ParserEvent
  on_protocol on_url on_method on_version on_header_field on_header_value : Bytes → ParserEvent
  on_protocol_complete on_url_complete on_method_complete on_version_complete : ParserEvent
  on_header_field_complete on_header_value_complete on_headers_complete : ParserEvent
  on_chunk_header on_chunk_complete : ParserEvent
  on_chunk_extension_name on_chunk_extension_value : Bytes → ParserEvent
  on_chunk_extension_name_complete on_chunk_extension_value_complete : ParserEvent
  on_body : Bytes → ParserEvent
  on_message_complete : ParserEvent

abbrev pub eq_bytes : Bytes → Bytes → Bool
eq_bytes [] [] = true
eq_bytes [] (b ∷ bs) = false
eq_bytes (a ∷ rest) [] = false
eq_bytes (a ∷ rest) (b ∷ bs) = (a == b) && eq_bytes rest bs

pub eq_bytes_iff : (a b : Bytes) → (eq_bytes a b ≡ true) ↔ (a ≡ b)
eq_bytes_iff [] [] = ground arith
eq_bytes_iff [] (b ∷ bs) = ground arith
eq_bytes_iff (a ∷ rest) [] = ground arith
eq_bytes_iff (a ∷ rest) (b ∷ bs) = ground (arith, eq_bytes_iff rest bs, ==_iff a b)

instance abbrev pub bytes_eq : Eq Bytes
bytes_eq = record { beq = eq_bytes; beq_iff = eq_bytes_iff }

abbrev pub values_of : Option (List Bytes) → List Bytes
values_of none = []
values_of (some values) = values

-- headers[key].push_back(value)
unfoldable pub add_header : Bytes → Bytes → HttpCtx → HttpCtx
add_header key value c = record c {
  headers = assign key (values_of (find key c.headers) ++ (value ∷ [])) c.headers;
}

-- the return of a callback that checks a size
unfoldable pub checked : Bytes → ℕ → ℤ
checked bytes limit = if ltb limit (length bytes) then negsuc 0 else pos 0

-- http_app::on_body_before
unfoldable pub on_body_before : HttpCtx → Bytes → ℤ
on_body_before c at = if ltb 2048000 (add64 c.recv_body_size (length at)) then negsuc 0 else pos 0

-- http_app::on_body: the body is not kept.
unfoldable pub app_on_body : HttpCtx → ℕ → HttpCtx × ℤ
app_on_body c len = (
  record c { conn = record (c.conn) { recv_buffer = clear c.conn.recv_buffer } },
  if ltb 2048000 (add64 c.recv_body_size len) then negsuc 0 else pos 0,
)

abbrev pub is_zero : ℤ → Bool
is_zero (pos n) = n == 0
is_zero (negsuc n) = false

-- the lambda on_body, with its iret
unfoldable pub body_piece : HttpCtx → Bytes → HttpCtx × ℤ
unfolding on_body_before app_on_body
body_piece c at =
    let iret = on_body_before c at in
    if is_zero iret
    then app_on_body
        (record c {
          conn = record (c.conn) { recv_buffer = append (some at) c.conn.recv_buffer };
          recv_body_size = add64 c.recv_body_size (length at);
        })
        (length at)
    else (c, iret)

-- the context behind a callback, and what the callback returns to llhttp
unfoldable pub on_event_of : ParserEvent → HttpCtx → HttpCtx × ℤ
unfolding checked add_header body_piece
on_event_of (on_protocol at) c =
    let protocol = c.protocol ++ at in (record c { protocol = protocol }, checked protocol 10)
on_event_of (on_url at) c = let url = c.url ++ at in (record c { url = url }, checked url 10240)
on_event_of (on_method at) c =
    let method = c.method ++ at in (record c { method = method }, checked method 10)
on_event_of (on_version at) c =
    let version = c.version ++ at in (record c { version = version }, checked version 10)
on_event_of (on_header_field at) c =
    let field = c.head_field_tmp ++ at in (record c { head_field_tmp = field }, checked field 1024)
on_event_of on_header_field_complete c = (record c { head_value_tmp = [] }, pos 0)
on_event_of (on_header_value at) c =
    let value = c.head_value_tmp ++ at in (record c { head_value_tmp = value }, checked value 20480)
on_event_of on_header_value_complete c = (
  record (add_header c.head_field_tmp c.head_value_tmp c) {
    head_field_tmp = [];
    head_value_tmp = [];
  },
  pos 0,
)
on_event_of on_chunk_header c = (c, negsuc 0)
on_event_of on_chunk_complete c = (c, negsuc 0)
on_event_of (on_chunk_extension_name at) c = (c, negsuc 0)
on_event_of on_chunk_extension_name_complete c = (c, negsuc 0)
on_event_of (on_chunk_extension_value at) c = (c, negsuc 0)
on_event_of on_chunk_extension_value_complete c = (c, negsuc 0)
on_event_of (on_body at) c = body_piece c at
on_event_of on_message_complete c = (record c { recv_end = true }, pos 0)
on_event_of on_message_begin c = (c, pos 0)
on_event_of on_protocol_complete c = (c, pos 0)
on_event_of on_url_complete c = (c, pos 0)
on_event_of on_method_complete c = (c, pos 0)
on_event_of on_version_complete c = (c, pos 0)
on_event_of on_headers_complete c = (c, pos 0)

-- llhttp calls the callbacks in the order of the bytes, and stops at one that does not return 0;
-- the flag is whether none stopped it.
unfoldable pub run_events : List ParserEvent → HttpCtx → HttpCtx × Bool
unfolding on_event_of
run_events [] c = (c, true)
run_events (e ∷ rest) c =
    let r = on_event_of e c in
    let next = run_events rest r.0 in if is_zero r.1 then next else (r.0, false)
