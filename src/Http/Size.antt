-- ===== src/Http/Size.antt =====
-- How much of a request a context keeps.
use avant.Base.{
  ℕ, ◌+◌, ◌≤◌, ◌≡◌, inl, inr, true, List, [], ◌∷◌, ◌++◌, Bytes, length, arith, All, length-append,
  Bool-cases,
}
use avant.Http.{HttpCtx}
use avant.Http.Parser.{
  ParserEvent, on_message_begin, on_protocol, on_url, on_method, on_version, on_header_field,
  on_header_value, on_protocol_complete, on_url_complete, on_method_complete, on_version_complete,
  on_header_field_complete, on_header_value_complete, on_headers_complete, on_chunk_header,
  on_chunk_complete, on_chunk_extension_name, on_chunk_extension_value,
  on_chunk_extension_name_complete, on_chunk_extension_value_complete, on_body, on_message_complete,
  on_event_of, checked, add_header, body_piece, on_body_before, app_on_body, is_zero, run_events,
}

-- the bytes that a callback is given
abbrev pub piece : ParserEvent → Bytes
piece (on_protocol at) = at
piece (on_url at) = at
piece (on_method at) = at
piece (on_version at) = at
piece (on_header_field at) = at
piece (on_header_value at) = at
piece (on_chunk_extension_name at) = at
piece (on_chunk_extension_value at) = at
piece (on_body at) = at
piece e = []

-- the limits of the callbacks, with `k` bytes more for the pieces of the head
pub record IsWithin (k : ℕ) (c : HttpCtx) : Type 0 where
  pub url_size : length c.url ≤ 10240 + k
  pub method_size : length c.method ≤ 10 + k
  pub protocol_size : length c.protocol ≤ 10 + k
  pub version_size : length c.version ≤ 10 + k
  pub field_size : length c.head_field_tmp ≤ 1024 + k
  pub value_size : length c.head_value_tmp ≤ 20480 + k
  pub body_size : c.recv_body_size ≤ 2048000

-- A piece of at most `k` bytes goes `k` beyond a limit at most, and not beyond it where 0 is returned.
checked_size :
    (k limit : ℕ) (bytes at : Bytes)
    → length bytes ≤ limit
    → length at ≤ k
    → (length (bytes ++ at) ≤ limit + k)
      × (is_zero (checked (bytes ++ at) limit) ≡ true → length (bytes ++ at) ≤ limit)
unfolding checked
checked_size k limit bytes at h g = ground (arith, length-append bytes at)

-- The body stays within its limit, also where a callback on it fails.
body_piece-IsWithin :
    (k : ℕ) (c : HttpCtx) (at : Bytes) → IsWithin k c → IsWithin k (body_piece c at).0
unfolding body_piece on_body_before app_on_body
body_piece-IsWithin k c at h = ground arith

widen : (k : ℕ) (c : HttpCtx) → IsWithin 0 c → IsWithin k c
widen k c h = ground arith

on_event_of-IsWithin :
    (k : ℕ) (e : ParserEvent) (c : HttpCtx)
    → length (piece e) ≤ k
    → IsWithin 0 c
    → IsWithin k (on_event_of e c).0
      × (is_zero (on_event_of e c).1 ≡ true → IsWithin 0 (on_event_of e c).0)
unfolding on_event_of add_header
on_event_of-IsWithin k (on_protocol at) c g h = ground (arith, checked_size k 10 c.protocol at)
on_event_of-IsWithin k (on_url at) c g h = ground (arith, checked_size k 10240 c.url at)
on_event_of-IsWithin k (on_method at) c g h = ground (arith, checked_size k 10 c.method at)
on_event_of-IsWithin k (on_version at) c g h = ground (arith, checked_size k 10 c.version at)
on_event_of-IsWithin k (on_header_field at) c g h =
    ground (arith, checked_size k 1024 c.head_field_tmp at)
on_event_of-IsWithin k (on_header_value at) c g h =
    ground (arith, checked_size k 20480 c.head_value_tmp at)
on_event_of-IsWithin k (on_body at) c g h =
    (widen k (body_piece c at).0 (body_piece-IsWithin 0 c at h), λ e. body_piece-IsWithin 0 c at h)
on_event_of-IsWithin k on_message_begin c g h = ground arith
on_event_of-IsWithin k on_protocol_complete c g h = ground arith
on_event_of-IsWithin k on_url_complete c g h = ground arith
on_event_of-IsWithin k on_method_complete c g h = ground arith
on_event_of-IsWithin k on_version_complete c g h = ground arith
on_event_of-IsWithin k on_header_field_complete c g h = ground arith
on_event_of-IsWithin k on_header_value_complete c g h = ground arith
on_event_of-IsWithin k on_headers_complete c g h = ground arith
on_event_of-IsWithin k on_chunk_header c g h = ground arith
on_event_of-IsWithin k on_chunk_complete c g h = ground arith
on_event_of-IsWithin k on_chunk_extension_name_complete c g h = ground arith
on_event_of-IsWithin k on_chunk_extension_value_complete c g h = ground arith
on_event_of-IsWithin k on_message_complete c g h = ground arith
on_event_of-IsWithin k (on_chunk_extension_name at) c g h = ground arith
on_event_of-IsWithin k (on_chunk_extension_value at) c g h = ground arith

-- A run of callbacks on pieces of at most `k` bytes leaves at most `k` bytes too many, and none too
-- many where no callback failed.
pub run_events-IsWithin :
    (k : ℕ) (es : List ParserEvent) (c : HttpCtx)
    → All (λ e. length (piece e) ≤ k) es
    → IsWithin 0 c
    → IsWithin k (run_events es c).0 × ((run_events es c).1 ≡ true → IsWithin 0 (run_events es c).0)
unfolding run_events
run_events-IsWithin k [] c g h = (widen k c h, λ e. h)
run_events-IsWithin k (e ∷ es) c g h =
    let one = on_event_of-IsWithin k e c g.0 h in
    elim (Bool-cases (is_zero (on_event_of e c).1)) [
      | inl q ↦ rw (q, run_events) (run_events-IsWithin k es (on_event_of e c).0 g.1 (one.1 q))
      | inr q ↦ rw (q, run_events) (one.0, λ e. absurd (ground (arith, e)))
    ]
