-- ===== src/Http/Headers.antt =====
-- The map of the headers behind a request.
use avant.Base.{
  ◌≡◌, refl, sym, ap, ◌∙◌, Bool, true, false, List, [], ◌∷◌, ◌++◌, Bytes, append-nil, append_assoc,
  if◌then◌else◌, Bool-cases, inl, inr,
}
use avant.Base.Map.{find, find-assign}
use avant.Http.{HttpCtx}
use avant.Http.Parser.{add_header, run_events, eq_bytes, eq_bytes_iff, values_of, bytes_eq}
use avant.Http.Span.{join}
use avant.Http.Request.{Line, Request, events_of, add_lines, IsShort, IsFresh, run_events-events_of}

-- the values of the headers of a name, in the order of the lines
abbrev pub values_named : Bytes → List Line → List Bytes
values_named k [] = []
values_named k (l ∷ ls) =
    let rest = values_named k ls in if eq_bytes (join l.field) k then join l.value ∷ rest else rest

find-add_header :
    (k field value : Bytes) (c : HttpCtx)
    → values_of (find k (add_header field value c).headers)
      ≡ values_of (find k c.headers) ++ (if eq_bytes field k then value ∷ [] else [])
unfolding add_header
find-add_header k field value c = elim (Bool-cases (eq_bytes field k)) [
  | inl q ↦
      let same : field ≡ k = (eq_bytes_iff field k).0 q in
      rw (find-assign field k (values_of (find field c.headers) ++ (value ∷ [])) c.headers, q)
        (rw same refl)
  | inr q ↦
      rw (find-assign field k (values_of (find field c.headers) ++ (value ∷ [])) c.headers, q)
        (sym (append-nil (values_of (find k c.headers))))
]

one_or_none :
    (b : Bool) (v : Bytes) (vs : List Bytes)
    → (if b then v ∷ [] else []) ++ vs ≡ (if b then v ∷ vs else vs)
one_or_none true v vs = refl
one_or_none false v vs = refl

values_of-find-add_lines :
    (k : Bytes) (ls : List Line) (c : HttpCtx)
    → values_of (find k (add_lines ls c).headers)
      ≡ values_of (find k c.headers) ++ values_named k ls
values_of-find-add_lines k [] c = sym (append-nil (values_of (find k c.headers)))
values_of-find-add_lines k (l ∷ ls) c =
    let named : Bool = eq_bytes (join l.field) k in
    values_of-find-add_lines k ls (add_lines (l ∷ []) c)
    ∙ ap (λ (t : List Bytes). t ++ values_named k ls)
        (find-add_header k (join l.field) (join l.value) c)
    ∙ append_assoc (values_of (find k c.headers)) (if named then join l.value ∷ [] else [])
        (values_named k ls)
    ∙ ap (λ (t : List Bytes). values_of (find k c.headers) ++ t)
        (one_or_none named (join l.value) (values_named k ls))

-- Behind the events of a request, under the same conditions, the map of the headers has for any name
-- the values that it had before and then the values of the request's lines of that name, joined, in
-- the order of the lines: a header that comes twice keeps both values.
pub find-run_events :
    (k : Bytes) (q : Request) (c : HttpCtx)
    → IsShort q
    → IsFresh c
    → values_of (find k (run_events (events_of q) c).0.headers)
      ≡ values_of (find k c.headers) ++ values_named k q.lines
find-run_events k q c h g =
    let c4 : HttpCtx = record c {
      method = join q.method;
      url = join q.url;
      protocol = join q.protocol;
      version = join q.version;
    } in
    ap (λ (r : HttpCtx × Bool). values_of (find k r.0.headers)) (run_events-events_of q c h g)
    ∙ values_of-find-add_lines k q.lines c4
