-- ===== src/Proto/Deliver.antt =====
-- Any body that reads frames delivers the packages of a stream in order, however it is cut.
use avant.Base.{
  ℕ, zero, suc, ◌+◌, ◌≤◌, ◌<◌, ◌≡◌, refl, sym, ap, ◌∙◌, inl, inr, Option, List, [], ◌∷◌, ◌++◌,
  Bytes, length, take, drop, of_be64, be64, arith, append_assoc, length-append, length-drop, All,
  u64_mod, of_be64-be64, take-append_self, drop-append_self, dec_lt,
}
use avant.Buffer.{VecStrBuffer, size, move_read_ptr_n}
use avant.Buffer.Laws.{m_data-move, size-move}
use avant.Proto.{pack_package, IsCodec}
use avant.Proto.Frame.{Iter, loop, loop_done, loop_again}
use avant.Proto.Reader.{IsWaiting, IsFrameReader, IsSendable, wire, deliver_all}

-- a common prefix of `n` bytes
take-append_prefix : (n : ℕ) (xs ys : Bytes) → n ≤ length xs → take n (xs ++ ys) ≡ take n xs
take-append_prefix zero xs ys h = refl
take-append_prefix (suc n) [] ys h = absurd (omega arith)
take-append_prefix (suc n) (x ∷ xs) ys h = ap (◌∷◌ x) (take-append_prefix n xs ys (omega arith))

pub drop-append_prefix :
    (n : ℕ) (xs ys : Bytes) → n ≤ length xs → drop n (xs ++ ys) ≡ drop n xs ++ ys
drop-append_prefix zero xs ys h = refl
drop-append_prefix (suc n) [] ys h = absurd (omega arith)
drop-append_prefix (suc n) (x ∷ xs) ys h = drop-append_prefix n xs ys (omega arith)

of_be64-take : (b : Bytes) → of_be64 (take 8 b) ≡ of_be64 b
unfolding of_be64
of_be64-take [] = refl
of_be64-take (_ ∷ []) = refl
of_be64-take (_ ∷ _ ∷ []) = refl
of_be64-take (_ ∷ _ ∷ _ ∷ []) = refl
of_be64-take (_ ∷ _ ∷ _ ∷ _ ∷ []) = refl
of_be64-take (_ ∷ _ ∷ _ ∷ _ ∷ _ ∷ []) = refl
of_be64-take (_ ∷ _ ∷ _ ∷ _ ∷ _ ∷ _ ∷ []) = refl
of_be64-take (_ ∷ _ ∷ _ ∷ _ ∷ _ ∷ _ ∷ _ ∷ []) = refl
of_be64-take (_ ∷ _ ∷ _ ∷ _ ∷ _ ∷ _ ∷ _ ∷ _ ∷ rest) = refl

-- the header is in the first eight bytes
pub of_be64-append : (b r : Bytes) → 8 ≤ length b → of_be64 (b ++ r) ≡ of_be64 b
of_be64-append b r h =
    sym (of_be64-take (b ++ r)) ∙ ap of_be64 (take-append_prefix 8 b r h) ∙ of_be64-take b

tail_header :
    {limit : ℕ} (b rest r : Bytes)
    → length b + length r ≡ length rest
    → of_be64 b ≡ of_be64 rest
    → IsWaiting limit rest
    → ¬ (length b < 8)
    → (of_be64 b ≤ limit) × (length b < 8 + of_be64 b)
tail_header b rest r whole header (inl short) long = absurd (omega arith)
tail_header b rest r whole header (inr (small, more)) long = (omega arith, omega arith)

-- what a stream begins with, at a package that can be sent
module _ {P : Type 0} (serialize : P → Option Bytes) (limit : ℕ) (small : limit < u64_mod) where
  pub pack_sendable :
      (p : P) (s : IsSendable serialize limit p)
      → pack_package serialize p ≡ be64 (length s.payload) ++ s.payload
  unfolding pack_package
  pack_sendable p s = rw (s.serialized, pack_package)

  pub header_sendable :
      (p : P) (s : IsSendable serialize limit p) (rest : Bytes)
      → of_be64 (pack_package serialize p ++ rest) ≡ length s.payload
  header_sendable p s rest =
      rw (pack_sendable p s)
        (of_be64-be64 (length s.payload) (s.payload ++ rest) (omega (arith, s.fits, small)))

  pub length-pack :
      (p : P) (s : IsSendable serialize limit p)
      → length (pack_package serialize p) ≡ 8 + length s.payload
  length-pack p s = rw (pack_sendable p s) (omega arith)

  payload_sendable :
      (p : P) (s : IsSendable serialize limit p) (rest : Bytes)
      → take (length s.payload) (drop 8 (pack_package serialize p ++ rest)) ≡ s.payload
  payload_sendable p s rest =
      rw (pack_sendable p s) (take-append_self (length s.payload) s.payload rest refl)

  -- what a loop has done that stops at `out`: a first part of the packages is delivered, and the
  -- bytes left, with those to come, are the stream of the others
  pub record IsDelivered {W : Type 0} (deliver : W → P → W) (ps : List P) (rest r : Bytes) (w : W)
      (out : VecStrBuffer × W) : Type 0 where
    pub first : List P
    pub others : List P
    pub split : ps ≡ first ++ others
    pub sendable : All (IsSendable serialize limit) others
    pub world : out.1 ≡ deliver_all deliver w first
    pub stream : out.0.m_data ++ r ≡ wire serialize others ++ rest
    pub waiting : IsWaiting limit out.0.m_data

  module _ {W : Type 0} (parse : Bytes → Option P) (codec : IsCodec serialize parse)
      (deliver : W → P → W) (body : VecStrBuffer → W → Iter W)
      (reader : IsFrameReader parse limit deliver body) where
    stops :
        (ps : List P) (rest : Bytes) (n : ℕ) (b : VecStrBuffer) (w : W) (r : Bytes)
        → All (IsSendable serialize limit) ps
        → b.m_data ++ r ≡ wire serialize ps ++ rest
        → IsWaiting limit b.m_data
        → IsDelivered deliver ps rest r w (loop body n b w)
    stops ps rest n b w r ok e h = rw (loop_done body n b w (reader.waits b w h)) (record {
      first = [];
      others = ps;
      split = refl;
      sendable = ok;
      world = refl;
      stream = e;
      waiting = h;
    })

    -- the header and the payload that the body finds are those of the first package
    found :
        (p : P) (s : IsSendable serialize limit p) (b rest r : Bytes)
        → b ++ r ≡ pack_package serialize p ++ rest
        → 8 ≤ length b
        → of_be64 b ≡ length s.payload
    found p s b rest r e h = sym (of_be64-append b r h) ∙ ap of_be64 e ∙ header_sendable p s rest

    payload_found :
        (p : P) (s : IsSendable serialize limit p) (b rest r : Bytes)
        → b ++ r ≡ pack_package serialize p ++ rest
        → 8 + length s.payload ≤ length b
        → take (length s.payload) (drop 8 b) ≡ s.payload
    payload_found p s b rest r e h =
        sym (take-append_prefix (length s.payload) (drop 8 b) r (omega (arith, length-drop 8 b)))
        ∙ ap (take (length s.payload)) (sym (drop-append_prefix 8 b r (omega arith)))
        ∙ ap (λ t. take (length s.payload) (drop 8 t)) e
        ∙ payload_sendable p s rest

    -- the first package is there whole: one run of the body takes it
    steps :
        (p : P) (s : IsSendable serialize limit p) (rest : Bytes) (n : ℕ) (b : VecStrBuffer) (w : W)
        (r : Bytes)
        → b.m_data ++ r ≡ pack_package serialize p ++ rest
        → 8 + length s.payload ≤ size b
        → (loop body (suc n) b w
            ≡ loop body n (move_read_ptr_n (8 + length s.payload) b) (deliver w p))
          × ((move_read_ptr_n (8 + length s.payload) b).m_data ++ r ≡ rest)
    steps p s rest n b w r e h = (
      loop_again body n b _ w _ (omega arith) (
          reader.takes b w p (length s.payload) (found p s b.m_data rest r e (omega arith))
            s.nonempty s.fits h
            (ap parse (payload_found p s b.m_data rest r e h)
              ∙ codec.parse_serialized p s.payload s.serialized)),
      rw (m_data-move (8 + length s.payload) b) (
          sym (drop-append_prefix (8 + length s.payload) b.m_data r h)
          ∙ ap (drop (8 + length s.payload)) e
          ∙ drop-append_self (8 + length s.payload) (pack_package serialize p) rest
              (sym (length-pack p s))),
    )

    -- nothing but an incomplete frame is left
    tail_waits : (b rest r : Bytes) → b ++ r ≡ rest → IsWaiting limit rest → IsWaiting limit b
    tail_waits b rest r e h = elim (dec_lt (length b) 8) [
      | yes short ↦ inl short
      | no long ↦
          let whole : length b + length r ≡ length rest = sym (length-append b r) ∙ ap length e in
          let header : of_be64 b ≡ of_be64 rest =
            sym (of_be64-append b r (omega arith)) ∙ ap of_be64 e in
          inr (tail_header b rest r whole header h long)
    ]

    short_waits :
        (p : P) (s : IsSendable serialize limit p) (b rest r : Bytes)
        → b ++ r ≡ pack_package serialize p ++ rest
        → length b < 8 + length s.payload
        → IsWaiting limit b
    short_waits p s b rest r e short = elim (dec_lt (length b) 8) [
      | yes h ↦ inl h
      | no h ↦
          let header : of_be64 b ≡ length s.payload = found p s b rest r e (omega arith) in
          inr (omega (arith, header, s.fits), omega (arith, header))
    ]

    regroup :
        (p : P) (ps : List P) (rest : Bytes) (b : VecStrBuffer) (r : Bytes)
        → b.m_data ++ r ≡ wire serialize (p ∷ ps) ++ rest
        → b.m_data ++ r ≡ pack_package serialize p ++ (wire serialize ps ++ rest)
    regroup p ps rest b r e = e ∙ append_assoc (pack_package serialize p) (wire serialize ps) rest

    step-IsDelivered :
        (p : P) (ps : List P) (rest : Bytes) (n : ℕ) (b : VecStrBuffer) (w : W) (r : Bytes)
        (ok : All (IsSendable serialize limit) (p ∷ ps))
        → IsWaiting limit rest
        → b.m_data ++ r ≡ pack_package serialize p ++ (wire serialize ps ++ rest)
        → 8 + length ok.0.payload ≤ size b
        → size b ≤ n
        → ((m : ℕ) (c : VecStrBuffer) (v : W) (q : Bytes)
            → All (IsSendable serialize limit) ps
            → IsWaiting limit rest
            → c.m_data ++ q ≡ wire serialize ps ++ rest
            → size c ≤ m
            → IsDelivered deliver ps rest q v (loop body m c v))
        → IsDelivered deliver (p ∷ ps) rest r w (loop body n b w)
    step-IsDelivered p ps rest zero b w r ok k e h fuel ih = absurd (omega arith)
    step-IsDelivered p ps rest (suc m) b w r ok k e h fuel ih =
        let s = ok.0 in
        let b' = move_read_ptr_n (8 + length s.payload) b in
        let (run, left) = steps p s (wire serialize ps ++ rest) m b w r e h in
        let got =
          ih m b' (deliver w p) r ok.1 k left (omega (arith, size-move (8 + length s.payload) b)) in
        rw run (record {
          first = p ∷ got.first;
          others = got.others;
          split = ap (◌∷◌ p) got.split;
          sendable = got.sendable;
          world = got.world;
          stream = got.stream;
          waiting = got.waiting;
        })

    pub loop-IsDelivered :
        (ps : List P) (rest : Bytes) (n : ℕ) (b : VecStrBuffer) (w : W) (r : Bytes)
        → All (IsSendable serialize limit) ps
        → IsWaiting limit rest
        → b.m_data ++ r ≡ wire serialize ps ++ rest
        → size b ≤ n
        → IsDelivered deliver ps rest r w (loop body n b w)
    loop-IsDelivered [] rest n b w r ok k e h =
        stops [] rest n b w r ok e (tail_waits b.m_data rest r e k)
    loop-IsDelivered (p ∷ ps) rest n b w r ok k e h =
        elim (dec_lt (size b) (8 + length ok.0.payload)) [
          | yes short ↦ stops (p ∷ ps) rest n b w r ok e (
              short_waits p ok.0 b.m_data (wire serialize ps ++ rest) r (regroup p ps rest b r e)
                short)
          | no whole ↦
              step-IsDelivered p ps rest n b w r ok k (regroup p ps rest b r e) (omega arith) h
                (loop-IsDelivered ps rest)
        ]
