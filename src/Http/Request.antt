-- ===== src/Http/Request.antt =====
-- A whole request as llhttp reports it, cut into pieces in any way.
use avant.Base.{
  ◌+◌, ◌≤◌, ◌≡◌, refl, ap, ◌∙◌, true, List, [], ◌∷◌, ◌++◌, Bytes, length, map, arith, All,
}
use avant.Connection.{Connection}
use avant.Http.{HttpCtx}
use avant.Http.Parser.{
  ParserEvent, on_message_begin, on_protocol, on_url, on_method, on_version, on_header_field,
  on_header_value, on_protocol_complete, on_url_complete, on_method_complete, on_version_complete,
  on_header_field_complete, on_header_value_complete, on_headers_complete, on_body,
  on_message_complete, add_header, on_event_of, run_events, bytes_eq,
}
use avant.Http.Body.{total, IsPiece, no_bytes, with_body, run_body_accepted}
use avant.Http.Span.{
  join, url_span, method_span, protocol_span, version_span, field_span, value_span,
  run_first_pieces, run_events-append,
}

-- the pieces of a header
pub record Line : Type 0 where
  pub field : List Bytes
  pub value : List Bytes

pub record Request : Type 0 where
  pub method : List Bytes
  pub url : List Bytes
  pub protocol : List Bytes
  pub version : List Bytes
  pub lines : List Line
  pub body : List Bytes

abbrev pub line_events : Line → List ParserEvent → List ParserEvent
line_events l rest =
    map on_header_field l.field
    ++ (on_header_field_complete
        ∷ (map on_header_value l.value ++ (on_header_value_complete ∷ rest)))

abbrev pub lines_events : List Line → List ParserEvent → List ParserEvent
lines_events [] rest = rest
lines_events (l ∷ ls) rest = line_events l (lines_events ls rest)

-- the callbacks of a request, in the order of its bytes
abbrev pub events_of : Request → List ParserEvent
events_of q =
    on_message_begin
    ∷ (map on_method q.method
        ++ (on_method_complete
            ∷ (map on_url q.url
                ++ (on_url_complete
                    ∷ (map on_protocol q.protocol
                        ++ (on_protocol_complete
                            ∷ (map on_version q.version
                                ++ (on_version_complete
                                    ∷ lines_events q.lines (
                                        on_headers_complete
                                        ∷ (map on_body q.body
                                            ++ (on_message_complete ∷ [])))))))))))

abbrev pub add_lines : List Line → HttpCtx → HttpCtx
add_lines [] c = c
add_lines (l ∷ ls) c = add_lines ls (record (add_header (join l.field) (join l.value) c) {
  head_field_tmp = [];
  head_value_tmp = [];
})

-- the context of the request as it reads when nothing is cut
abbrev pub with_request : Request → HttpCtx → HttpCtx
with_request q c =
    record (with_body (total q.body) (
      add_lines q.lines (record c {
        method = join q.method;
        url = join q.url;
        protocol = join q.protocol;
        version = join q.version;
      }))) { recv_end = true }

abbrev pub IsShortLine : Line → Type 0
IsShortLine l = (length (join l.field) ≤ 1024) × (length (join l.value) ≤ 20480)

-- no text of the request is longer than its limit
pub record IsShort (q : Request) : Type 0 where
  pub short_method : length (join q.method) ≤ 10
  pub short_url : length (join q.url) ≤ 10240
  pub short_protocol : length (join q.protocol) ≤ 10
  pub short_version : length (join q.version) ≤ 10
  pub short_lines : All IsShortLine q.lines
  pub body_pieces : All IsPiece q.body
  pub short_body : total q.body + 10240 ≤ 2048000

-- a context to which no request has come
pub record IsFresh (c : HttpCtx) : Type 0 where
  pub no_url : c.url ≡ []
  pub no_method : c.method ≡ []
  pub no_protocol : c.protocol ≡ []
  pub no_version : c.version ≡ []
  pub no_field : c.head_field_tmp ≡ []
  pub no_body : c.recv_body_size ≡ 0
  pub nothing_received : c.conn.recv_buffer ≡ no_bytes

run_line :
    (l : Line) (rest : List ParserEvent) (c : HttpCtx)
    → IsShortLine l
    → c.head_field_tmp ≡ []
    → run_events (line_events l rest) c ≡ run_events rest (add_lines (l ∷ []) c)
unfolding run_events on_event_of add_header
run_line l rest c h e =
    let named : HttpCtx = record c { head_field_tmp = join l.field; head_value_tmp = [] } in
    let field : run_events (map on_header_field l.field) c
        ≡ (record c { head_field_tmp = join l.field }, true) =
      run_first_pieces field_span l.field c e h.0 in
    let value : run_events (map on_header_value l.value) named
        ≡ (record named { head_value_tmp = join l.value }, true) =
      run_first_pieces value_span l.value named refl h.1 in
    run_events-append (map on_header_field l.field)
      (on_header_field_complete
        ∷ (map on_header_value l.value ++ (on_header_value_complete ∷ rest)))
      c (record c { head_field_tmp = join l.field }) field
    ∙ run_events-append (map on_header_value l.value) (on_header_value_complete ∷ rest) named
        (record named { head_value_tmp = join l.value }) value

run_lines :
    (ls : List Line) (rest : List ParserEvent) (c : HttpCtx)
    → All IsShortLine ls
    → c.head_field_tmp ≡ []
    → run_events (lines_events ls rest) c ≡ run_events rest (add_lines ls c)
run_lines [] rest c h e = refl
run_lines (l ∷ ls) rest c h e =
    run_line l (lines_events ls rest) c h.0 e ∙ run_lines ls rest (add_lines (l ∷ []) c) h.1 refl

-- what the lines leave alone
pub record IsBeside (c d : HttpCtx) : Type 0 where
  pub same_body_size : d.recv_body_size ≡ c.recv_body_size
  pub same_conn : d.conn ≡ c.conn
  pub same_ended : d.everything_end ≡ c.everything_end
  pub same_processed : d.process_end ≡ c.process_end
  pub same_wire : d.wire ≡ c.wire
  pub same_keep : d.keep_alive ≡ c.keep_alive
  pub same_use : d.attached ≡ c.attached
  pub same_accepted : d.ssl_accepted ≡ c.ssl_accepted

pub add_lines-IsBeside : (ls : List Line) (c : HttpCtx) → IsBeside c (add_lines ls c)
unfolding add_header
add_lines-IsBeside [] c = record {
  same_body_size = refl;
  same_conn = refl;
  same_ended = refl;
  same_processed = refl;
  same_wire = refl;
  same_keep = refl;
  same_use = refl;
  same_accepted = refl;
}
add_lines-IsBeside (l ∷ ls) c =
    let h = add_lines-IsBeside ls (add_lines (l ∷ []) c) in
    record {
      same_body_size = h.same_body_size;
      same_conn = h.same_conn;
      same_ended = h.same_ended;
      same_processed = h.same_processed;
      same_wire = h.same_wire;
      same_keep = h.same_keep;
      same_use = h.same_use;
      same_accepted = h.same_accepted;
    }

-- A request reaches the application as the joined texts, whatever the cuts of the network: where no
-- text is longer than its limit and the body ends 10240 bytes before its own, no callback of the
-- request's events fails on a context to which no request has come, and behind them the method, url,
-- protocol and version are the joined pieces, every header has been added under its joined name
-- in the order in which it came, the size of the body is counted, and recv_end is set.
pub run_events-events_of :
    (q : Request) (c : HttpCtx)
    → IsShort q
    → IsFresh c
    → run_events (events_of q) c ≡ (with_request q c, true)
unfolding run_events on_event_of
run_events-events_of q c h g =
    let c1 : HttpCtx = record c { method = join q.method } in
    let c2 : HttpCtx = record c1 { url = join q.url } in
    let c3 : HttpCtx = record c2 { protocol = join q.protocol } in
    let c4 : HttpCtx = record c3 { version = join q.version } in
    let c5 : HttpCtx = add_lines q.lines c4 in
    let kept : IsBeside c4 (add_lines q.lines c4) = add_lines-IsBeside q.lines c4 in
    let tail : List ParserEvent =
      on_headers_complete ∷ (map on_body q.body ++ (on_message_complete ∷ [])) in
    run_events-append (map on_method q.method) _ c c1
      (run_first_pieces method_span q.method c g.no_method h.short_method)
    ∙ run_events-append (map on_url q.url) _ c1 c2
        (run_first_pieces url_span q.url c1 g.no_url h.short_url)
    ∙ run_events-append (map on_protocol q.protocol) _ c2 c3
        (run_first_pieces protocol_span q.protocol c2 g.no_protocol h.short_protocol)
    ∙ run_events-append (map on_version q.version) _ c3 c4
        (run_first_pieces version_span q.version c3 g.no_version h.short_version)
    ∙ run_lines q.lines tail c4 h.short_lines g.no_field
    ∙ run_events-append (map on_body q.body) (on_message_complete ∷ []) c5
        (with_body (total q.body) c5)
        (run_body_accepted q.body c5 h.body_pieces
          (omega (arith, kept.same_body_size, g.no_body, h.short_body))
          (ap (λ (k : Connection). k.recv_buffer) kept.same_conn ∙ g.nothing_received))
