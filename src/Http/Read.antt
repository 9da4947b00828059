-- ===== src/Http/Read.antt =====
-- A request that comes in several reads of one event.
use avant.Base.{
  ℕ, ◌+◌, ◌-◌, ◌≤◌, ◌<◌, ◌≡◌, refl, sym, ap, subst, ◌∙◌, Bool, true, false, ◌&&◌, List, [], ◌∷◌,
  ◌++◌, Bytes, length, take, map, leb, arith, Bool-cases, inl, inr, append_assoc, append-nil, All,
  take_whole, if◌then◌else◌,
}
use avant.Http.{HttpCtx}
use avant.Http.Parser.{
  ParserEvent, on_event_of, add_header, body_piece, on_body_before, app_on_body, is_zero,
  run_events,
}
use avant.Http.Event.{execute, read_loop}
use avant.Http.Site.{Site, RecvAnswer, received, recv_blocked}
use avant.Http.Body.{total}
use avant.Http.Span.{join}

-- what llhttp was given
abbrev pub with_parsed : Bytes → HttpCtx → HttpCtx
with_parsed at c = record c { parsed = at }

-- the callbacks neither read nor write what llhttp was given
on_event_of-with_parsed :
    (at : Bytes) (e : ParserEvent) (c : HttpCtx)
    → on_event_of e (with_parsed at c) ≡ (with_parsed at (on_event_of e c).0, (on_event_of e c).1)
unfolding on_event_of body_piece on_body_before app_on_body add_header
on_event_of-with_parsed at e c = ground (arith, e)

run_events-with_parsed :
    (at : Bytes) (es : List ParserEvent) (c : HttpCtx)
    → run_events es (with_parsed at c) ≡ (with_parsed at (run_events es c).0, (run_events es c).1)
unfolding run_events
run_events-with_parsed at [] c = refl
run_events-with_parsed at (e ∷ es) c =
    let one = on_event_of-with_parsed at e c in
    let rest = run_events-with_parsed at es (on_event_of e c).0 in
    elim (Bool-cases (is_zero (on_event_of e c).1)) [
      | inl q ↦ ground (arith, one, rest, q)
      | inr q ↦ ground (arith, one, q)
    ]

-- Read by read, llhttp makes these callbacks of the chunks, and accepts each.
abbrev pub IsParsed : Site → Bytes → List Bytes → List ParserEvent → Type 0
IsParsed site before [] es = es ≡ []
IsParsed site before (at ∷ rest) es =
    (first : List ParserEvent) × (more : List ParserEvent) × (es ≡ first ++ more)
    × (site.parse before at ≡ (first, true))
    × IsParsed site (before ++ at) rest more

run_events-split :
    (xs ys : List ParserEvent) (c d : HttpCtx)
    → run_events (xs ++ ys) c ≡ (d, true)
    → ((run_events xs c).1 ≡ true) × (run_events ys (run_events xs c).0 ≡ (d, true))
unfolding run_events
run_events-split [] ys c d h = (refl, h)
run_events-split (e ∷ xs) ys c d h = elim (Bool-cases (is_zero (on_event_of e c).1)) [
  | inl q ↦ rw (q, run_events) (run_events-split xs ys (on_event_of e c).0 d (ground (arith, h, q)))
  | inr q ↦ absurd (ground (arith, h, q))
]

execute_done :
    (site : Site) (at : Bytes) (first : List ParserEvent) (c : HttpCtx)
    → site.parse c.parsed at ≡ (first, true)
    → (run_events first c).1 ≡ true
    → execute site at c ≡ (with_parsed (c.parsed ++ at) (run_events first c).0, true)
unfolding execute
execute_done site at first c f g =
    let Parsed : Type 0 = List ParserEvent × Bool in
    ap
      (λ (p : Parsed).
        (with_parsed (c.parsed ++ at) (run_events p.0 c).0, (run_events p.0 c).1 && p.1))
      f
    ∙ ap (λ (b : Bool). (with_parsed (c.parsed ++ at) (run_events first c).0, b && true)) g

read_loop_step :
    (site : Site) (b : ℕ) (bs : Bytes) (rest : List RecvAnswer) (n : ℕ) (c d : HttpCtx)
    → n + length (b ∷ bs) ≤ 10240
    → execute site (b ∷ bs) c ≡ (d, true)
    → read_loop site (received (b ∷ bs) ∷ rest) n c ≡ read_loop site rest (n + length (b ∷ bs)) d
unfolding read_loop
read_loop_step site b bs rest n c d k done =
    let at : Bytes = b ∷ bs in
    let whole : take (10240 - n) at ≡ at = take_whole (10240 - n) at (omega (arith, k)) in
    let room : leb 10240 n ≡ false = ground (arith, k) in
    let taken : Bytes → HttpCtx × Bool → HttpCtx = λ t r.
      if r.1
      then read_loop site rest (n + length t) r.0
      else record (r.0) { everything_end = true } in
    ap
      (λ (full : Bool).
        if full then c else taken (take (10240 - n) at) (execute site (take (10240 - n) at) c))
      room
    ∙ ap (λ (t : Bytes). taken t (execute site t c)) whole
    ∙ ap (taken at) done

-- The loop reads all of them, and the context is what the callbacks made of them.
pub read_loop_chunks :
    (site : Site) (chunks : List Bytes) (n : ℕ) (es : List ParserEvent) (c d : HttpCtx)
    → IsParsed site c.parsed chunks es
    → All (λ at. 0 < length at) chunks
    → n + total chunks ≤ 10240
    → run_events es c ≡ (d, true)
    → read_loop site (map received chunks ++ (recv_blocked ∷ [])) n c
      ≡ with_parsed (c.parsed ++ join chunks) d
unfolding read_loop run_events
read_loop_chunks site [] n es c d p h k r =
    let same : c ≡ d =
      ap (λ (q : HttpCtx × Bool). q.0) (subst (λ l. run_events l c ≡ (d, true)) p r) in
    sym (ap (λ (t : Bytes). with_parsed t c) (append-nil c.parsed))
    ∙ ap (λ (f : HttpCtx). with_parsed (c.parsed ++ []) f) same
read_loop_chunks site ([] ∷ rest) n es c d p h k r = absurd (omega (arith, h.0))
read_loop_chunks site ((b ∷ bs) ∷ rest) n es c d (first, more, e, f, p) h k r =
    let at : Bytes = b ∷ bs in
    let halves = run_events-split first more c d (subst (λ l. run_events l c ≡ (d, true)) e r) in
    let c' : HttpCtx = with_parsed (c.parsed ++ at) (run_events first c).0 in
    let d' : HttpCtx = with_parsed (c.parsed ++ at) d in
    let behind : run_events more c' ≡ (d', true) =
      run_events-with_parsed (c.parsed ++ at) more (run_events first c).0
      ∙ ap (λ (q : HttpCtx × Bool). (with_parsed (c.parsed ++ at) q.0, q.1)) halves.1 in
    read_loop_step site b bs (map received rest ++ (recv_blocked ∷ [])) n c c' (omega (arith, k))
      (execute_done site at first c f halves.0)
    ∙ read_loop_chunks site rest (n + length at) more c' d' p h.1 (omega (arith, k)) behind
    ∙ ap (λ (t : Bytes). with_parsed t d) (append_assoc c.parsed at (join rest))
