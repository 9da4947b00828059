-- ===== src/Http/Span.antt =====
-- A text of the request's head that comes in pieces: the callbacks of one kind, as an interface.
use avant.Base.{
  ℕ, ◌≤◌, ◌≡◌, refl, sym, ap, subst, ◌∙◌, ℤ, pos, Bool, true, List, [], ◌∷◌, ◌++◌, Bytes, length,
  map, arith, Bool-cases, inl, inr, length-append, append_assoc, append-nil,
}
use avant.Http.{HttpCtx}
use avant.Http.Parser.{
  ParserEvent, on_protocol, on_url, on_method, on_version, on_header_field, on_header_value,
  on_event_of, checked, is_zero, run_events,
}

-- the pieces, one behind the other
abbrev pub join : List Bytes → Bytes
join [] = []
join (at ∷ rest) = at ++ join rest

pub record Span : Type 0 where
  pub event : Bytes → ParserEvent
  pub text : HttpCtx → Bytes
  pub with_text : Bytes → HttpCtx → HttpCtx
  pub limit : ℕ
  pub on_piece :
      (at : Bytes) (c : HttpCtx)
      → on_event_of (event at) c ≡ (with_text (text c ++ at) c, checked (text c ++ at) limit)
  pub text_with : (at : Bytes) (c : HttpCtx) → text (with_text at c) ≡ at
  pub with_with : (at bs : Bytes) (c : HttpCtx) → with_text bs (with_text at c) ≡ with_text bs c
  pub with_same : (c : HttpCtx) → with_text (text c) c ≡ c

abbrev pub url_span : Span
unfolding on_event_of
url_span = record {
  event = on_url;
  text = λ c. c.url;
  with_text = λ at c. record c { url = at };
  limit = 10240;
  on_piece = λ at c. refl;
  text_with = λ at c. refl;
  with_with = λ at bs c. refl;
  with_same = λ c. refl;
}

abbrev pub method_span : Span
unfolding on_event_of
method_span = record {
  event = on_method;
  text = λ c. c.method;
  with_text = λ at c. record c { method = at };
  limit = 10;
  on_piece = λ at c. refl;
  text_with = λ at c. refl;
  with_with = λ at bs c. refl;
  with_same = λ c. refl;
}

abbrev pub protocol_span : Span
unfolding on_event_of
protocol_span = record {
  event = on_protocol;
  text = λ c. c.protocol;
  with_text = λ at c. record c { protocol = at };
  limit = 10;
  on_piece = λ at c. refl;
  text_with = λ at c. refl;
  with_with = λ at bs c. refl;
  with_same = λ c. refl;
}

abbrev pub version_span : Span
unfolding on_event_of
version_span = record {
  event = on_version;
  text = λ c. c.version;
  with_text = λ at c. record c { version = at };
  limit = 10;
  on_piece = λ at c. refl;
  text_with = λ at c. refl;
  with_with = λ at bs c. refl;
  with_same = λ c. refl;
}

abbrev pub field_span : Span
unfolding on_event_of
field_span = record {
  event = on_header_field;
  text = λ c. c.head_field_tmp;
  with_text = λ at c. record c { head_field_tmp = at };
  limit = 1024;
  on_piece = λ at c. refl;
  text_with = λ at c. refl;
  with_with = λ at bs c. refl;
  with_same = λ c. refl;
}

abbrev pub value_span : Span
unfolding on_event_of
value_span = record {
  event = on_header_value;
  text = λ c. c.head_value_tmp;
  with_text = λ at c. record c { head_value_tmp = at };
  limit = 20480;
  on_piece = λ at c. refl;
  text_with = λ at c. refl;
  with_with = λ at bs c. refl;
  with_same = λ c. refl;
}

checked_ok : (bytes : Bytes) (limit : ℕ) → length bytes ≤ limit → checked bytes limit ≡ pos 0
unfolding checked
checked_ok bytes limit h = ground (arith, h)

-- The text is what the pieces are together, whatever the cut.
pub run_pieces :
    (s : Span) (ps : List Bytes) (c : HttpCtx)
    → length (s.text c ++ join ps) ≤ s.limit
    → run_events (map s.event ps) c ≡ (s.with_text (s.text c ++ join ps) c, true)
unfolding run_events
run_pieces s [] c h =
    ap (λ (d : HttpCtx). (d, true))
      (sym (ap (λ (t : Bytes). s.with_text t c) (append-nil (s.text c)) ∙ s.with_same c))
run_pieces s (at ∷ ps) c h =
    let c' : HttpCtx = s.with_text (s.text c ++ at) c in
    let joined : s.text c' ++ join ps ≡ s.text c ++ (at ++ join ps) =
      ap (λ (t : Bytes). t ++ join ps) (s.text_with (s.text c ++ at) c)
      ∙ append_assoc (s.text c) at (join ps) in
    let short : length (s.text c ++ at) ≤ s.limit = omega (
      arith,
      h,
      length-append (s.text c) at,
      length-append (s.text c) (at ++ join ps),
      length-append at (join ps),
    ) in
    let one : on_event_of (s.event at) c ≡ (c', pos 0) =
      s.on_piece at c ∙ ap (λ (r : ℤ). (c', r)) (checked_ok (s.text c ++ at) s.limit short) in
    let rest = run_pieces s ps c' (subst (λ (t : Bytes). length t ≤ s.limit) (sym joined) h) in
    rw one (
      rest
      ∙ ap (λ (d : HttpCtx). (d, true))
          (s.with_with (s.text c ++ at) (s.text c' ++ join ps) c
            ∙ ap (λ (t : Bytes). s.with_text t c) joined))

-- the same where there is no text yet
pub run_first_pieces :
    (s : Span) (ps : List Bytes) (c : HttpCtx)
    → s.text c ≡ []
    → length (join ps) ≤ s.limit
    → run_events (map s.event ps) c ≡ (s.with_text (join ps) c, true)
run_first_pieces s ps c e h =
    subst (λ (t : Bytes). run_events (map s.event ps) c ≡ (s.with_text (t ++ join ps) c, true)) e
      (run_pieces s ps c (subst (λ (t : Bytes). length (t ++ join ps) ≤ s.limit) (sym e) h))

-- callbacks behind others of which none failed
pub run_events-append :
    (xs ys : List ParserEvent) (c d : HttpCtx)
    → run_events xs c ≡ (d, true)
    → run_events (xs ++ ys) c ≡ run_events ys d
unfolding run_events
run_events-append [] ys c d h = ap (λ (r : HttpCtx × Bool). run_events ys r.0) h
run_events-append (e ∷ xs) ys c d h = elim (Bool-cases (is_zero (on_event_of e c).1)) [
  | inl q ↦ rw q (run_events-append xs ys (on_event_of e c).0 d (ground (arith, h, q)))
  | inr q ↦ absurd (ground (arith, h, q))
]
