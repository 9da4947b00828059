-- ===== src/Proto/Chunks.antt =====
-- A stream cut into reads: every event appends what `recv` returned and runs the loop.
use avant.Base.{
  ℕ, ◌+◌, ◌≤◌, ◌<◌, ◌≡◌, refl, sym, ap, ◌∙◌, inl, inr, Option, some, List, [], ◌∷◌, ◌++◌, Bytes,
  length, of_be64, arith, append-nil, append_assoc, length-append, All, u64_mod,
}
use avant.Buffer.{VecStrBuffer, size, append}
use avant.Proto.{IsCodec}
use avant.Proto.Frame.{Iter, loop}
use avant.Proto.Reader.{IsWaiting, IsFrameReader, IsSendable, wire, deliver_all}
use avant.Proto.Deliver.{loop-IsDelivered, header_sendable, length-pack}

abbrev pub concat_all : List Bytes → Bytes
concat_all [] = []
concat_all (c ∷ cs) = c ++ concat_all cs

-- one read event after the other
unfoldable pub feed :
    {W : Type 0}
    → (VecStrBuffer → W → VecStrBuffer × W)
    → List Bytes
    → VecStrBuffer
    → W
    → VecStrBuffer × W
feed process [] b w = (b, w)
feed process (c ∷ cs) b w = let (b', w') = process (append (some c) b) w in feed process cs b' w'

feed_cons :
    {W : Type 0} (process : VecStrBuffer → W → VecStrBuffer × W) (c : Bytes) (cs : List Bytes)
    (b : VecStrBuffer) (w : W) (out : VecStrBuffer × W)
    → process (append (some c) b) w ≡ out
    → feed process (c ∷ cs) b w ≡ feed process cs out.0 out.1
unfolding feed
feed_cons process c cs b w out e = ap (λ o. feed process cs o.0 o.1) e

waiting_length : (limit : ℕ) (b : Bytes) → IsWaiting limit b → length b < 8 + limit
waiting_length limit b (inl h) = omega arith
waiting_length limit b (inr h) = omega arith

pub deliver_all-append :
    {P W : Type 0} (deliver : W → P → W) (w : W) (ps qs : List P)
    → deliver_all deliver w (ps ++ qs) ≡ deliver_all deliver (deliver_all deliver w ps) qs
deliver_all-append deliver w [] qs = refl
deliver_all-append deliver w (p ∷ ps) qs = deliver_all-append deliver (deliver w p) ps qs

m_data-append : (c : Bytes) (b : VecStrBuffer) → (append (some c) b).m_data ≡ b.m_data ++ c
unfolding append
m_data-append c b = refl

module _ {P W : Type 0} (serialize : P → Option Bytes) (limit chunk : ℕ) (small : limit < u64_mod)
    (parse : Bytes → Option P) (codec : IsCodec serialize parse) (deliver : W → P → W)
    (body : VecStrBuffer → W → Iter W) (reader : IsFrameReader parse limit deliver body)
    (process : VecStrBuffer → W → VecStrBuffer × W) (fuel : VecStrBuffer → ℕ)
    (runs : (b : VecStrBuffer) (w : W)
      → size b < 8 + limit + chunk
      → (process b w ≡ loop body (fuel b) b w) × (size b ≤ fuel b)) where
  -- with nothing more to come, a waiting buffer is the incomplete end of the stream
  nothing_left :
      (ps : List P) (rest b : Bytes)
      → All (IsSendable serialize limit) ps
      → b ≡ wire serialize ps ++ rest
      → IsWaiting limit b
      → ps ≡ []
  nothing_left [] rest b ok e h = refl
  nothing_left (p ∷ ps) rest b ok e h = absurd (contradiction h)
    where
      regrouped : b ≡ avant.Proto.pack_package serialize p ++ (wire serialize ps ++ rest)
      regrouped = e ∙ append_assoc (avant.Proto.pack_package serialize p) (wire serialize ps) rest

      header : of_be64 b ≡ length ok.0.payload
      header =
          ap of_be64 regrouped
          ∙ header_sendable serialize limit small p ok.0 (wire serialize ps ++ rest)

      whole : length b ≡ 8 + length ok.0.payload + length (wire serialize ps ++ rest)
      whole =
          ap length regrouped
          ∙ length-append (avant.Proto.pack_package serialize p) (wire serialize ps ++ rest)
          ∙ ap (λ k. k + length (wire serialize ps ++ rest))
              (length-pack serialize limit small p ok.0)

      contradiction : IsWaiting limit b → ⊥
      contradiction (inl short) = omega (arith, whole)
      contradiction (inr (fits, short)) = omega (arith, whole, header)

  pub feed_delivers :
      (chunks : List Bytes) (ps : List P) (rest : Bytes) (b : VecStrBuffer) (w : W)
      → All (λ c. length c ≤ chunk) chunks
      → All (IsSendable serialize limit) ps
      → IsWaiting limit b.m_data
      → IsWaiting limit rest
      → b.m_data ++ concat_all chunks ≡ wire serialize ps ++ rest
      → ((feed process chunks b w).0.m_data ≡ rest)
        × ((feed process chunks b w).1 ≡ deliver_all deliver w ps)
  feed_delivers [] ps rest b w cs ok hb hr e =
      let e' : b.m_data ≡ wire serialize ps ++ rest = sym (append-nil b.m_data) ∙ e in
      let none_left : ps ≡ [] = nothing_left ps rest b.m_data ok e' hb in
      unfold feed in
      (
        e' ∙ ap (λ l. wire serialize l ++ rest) none_left,
        ap (deliver_all deliver w) (sym none_left),
      )
  feed_delivers (c ∷ cs) ps rest b w hc ok hb hr e =
      let b' = append (some c) b in
      let stream : b'.m_data ++ concat_all cs ≡ wire serialize ps ++ rest =
        ap (λ t. t ++ concat_all cs) (m_data-append c b)
        ∙ append_assoc b.m_data c (concat_all cs)
        ∙ e in
      let room : size b' < 8 + limit + chunk = omega (
        arith,
        ap length (m_data-append c b),
        length-append b.m_data c,
        waiting_length limit b.m_data hb,
        hc.0,
      ) in
      let (run, enough) = runs b' w room in
      let got =
        loop-IsDelivered serialize limit small parse codec deliver body reader ps rest (fuel b') b'
          w (concat_all cs) ok hr stream enough in
      let ih =
        feed_delivers cs got.others rest (loop body (fuel b') b' w).0 (loop body (fuel b') b' w).1
          hc.1 got.sendable got.waiting hr got.stream in
      rw (feed_cons process c cs b w (loop body (fuel b') b' w) run) (
        ih.0,
        ih.1
            ∙ ap (λ v. deliver_all deliver v got.others) got.world
            ∙ sym (deliver_all-append deliver w got.first got.others)
            ∙ ap (deliver_all deliver w) (sym got.split),
      )
