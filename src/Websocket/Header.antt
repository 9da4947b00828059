-- ===== src/Websocket/Header.antt =====
-- A frame as RFC 6455 lays it out, and how each part of its header is read.
use avant.Base.{
  ℕ, zero, suc, ◌+◌, ◌*◌, ◌/◌, ◌%◌, ◌^◌, ◌<◌, ◌≡◌, refl, ap, ap₂, ◌∙◌, true, false, some, [], ◌∷◌,
  ◌++◌, Bytes, IsByte, All, length, leb, if◌then◌else◌, bit_or, be64, arith, length-append,
  Bool-cases, inl, inr,
}
use avant.Base.Bits.{bit_or-shift, bit_xor_twice}
use avant.Websocket.{byte_at, be32_at, read_length, read_mask, unmask}

-- the seven bits of the length, and its extension
abbrev pub len7 : ℕ → ℕ
len7 n = if leb n 125 then n else if leb n 65535 then 126 else 127

abbrev pub extension : ℕ → Bytes
extension n = if leb n 125 then [] else if leb n 65535 then n / 256 ∷ n % 256 ∷ [] else be64 n

-- the two words of the eight bytes
word64 :
    (n : ℕ) (t : Bytes)
    → n < 9223372036854775808
    → bit_or (be32_at (be64 n ++ t) 0 * 2 ^ 32 % 2 ^ 64) (be32_at (be64 n ++ t) 4) ≡ n
word64 n t h =
    let high : be32_at (be64 n ++ t) 0 * 2 ^ 32 % 2 ^ 64 ≡ n / 4294967296 * 2 ^ 32 = omega arith in
    let low : be32_at (be64 n ++ t) 4 ≡ n % 4294967296 = omega arith in
    ap₂ bit_or high low
    ∙ bit_or-shift 32 (n / 4294967296) (n % 4294967296) (omega arith)
    ∙ omega arith

module _ (n a c : ℕ) (t : Bytes) where
  medium :
      leb n 125 ≡ false
      → leb n 65535 ≡ true
      → read_length (a ∷ c ∷ (extension n ++ t)) (len7 n) ≡ some (2 + length (extension n), n)
  unfolding read_length
  medium e1 e2 = rw (e1, e2) (ground arith)

  long :
      leb n 125 ≡ false
      → leb n 65535 ≡ false
      → n < 9223372036854775808
      → read_length (a ∷ c ∷ (extension n ++ t)) (len7 n) ≡ some (2 + length (extension n), n)
  unfolding read_length
  long e1 e2 h = rw (e1, e2) (ground (arith, word64 n t h))

  pub read_length-extension :
      n < 9223372036854775808
      → read_length (a ∷ c ∷ (extension n ++ t)) (len7 n) ≡ some (2 + length (extension n), n)
  unfolding read_length
  read_length-extension h = elim (Bool-cases (leb n 125)) [
    | inl e1 ↦ rw e1 (ground arith)
    | inr e1 ↦ elim (Bool-cases (leb n 65535)) [ inl e2 ↦ medium e1 e2 | inr e2 ↦ long e1 e2 h ]
  ]

pub byte_at-append :
    (pre t : Bytes) (i j : ℕ) → j ≡ length pre + i → byte_at (pre ++ t) j ≡ byte_at t i
byte_at-append [] t i j h = ap (byte_at t) (omega arith)
byte_at-append (x ∷ pre) t i zero h = absurd (omega arith)
byte_at-append (x ∷ pre) t i (suc j) h = byte_at-append pre t i j (omega arith)

-- a key of four bytes
pub record IsKey (key : Bytes) : Type 0 where
  pub four : length key ≡ 4
  pub its_bytes : (i : ℕ) → byte_at key i < 256

four_bytes :
    (key t : Bytes)
    → length key ≡ 4
    → byte_at (key ++ t) 0 ∷ byte_at (key ++ t) 1 ∷ byte_at (key ++ t) 2 ∷ byte_at (key ++ t) 3 ∷ []
      ≡ key
four_bytes (a ∷ b ∷ c ∷ d ∷ []) t h = refl
four_bytes [] t h = absurd (omega arith)
four_bytes (a ∷ []) t h = absurd (omega arith)
four_bytes (a ∷ b ∷ []) t h = absurd (omega arith)
four_bytes (a ∷ b ∷ c ∷ []) t h = absurd (omega arith)
four_bytes (a ∷ b ∷ c ∷ d ∷ e ∷ key) t h = absurd (omega arith)

pub read_mask-key :
    (pre key t : Bytes)
    → length key ≡ 4
    → read_mask (pre ++ (key ++ t)) true (length pre) ≡ some (length pre + 4, key)
unfolding read_mask
read_mask-key pre key t four = ground (
  arith,
  four_bytes key t four,
  byte_at-append pre (key ++ t) 0 (length pre),
  byte_at-append pre (key ++ t) 1 (length pre + 1),
  byte_at-append pre (key ++ t) 2 (length pre + 2),
  byte_at-append pre (key ++ t) 3 (length pre + 3),
  length-append pre (key ++ t),
  length-append key t,
)

-- The key applied twice is the payload again.
pub unmask_twice :
    (key bs : Bytes) (i : ℕ)
    → ((j : ℕ) → byte_at key j < 256)
    → All IsByte bs
    → unmask key i (unmask key i bs) ≡ bs
unfolding unmask
unmask_twice key [] i h k = refl
unmask_twice key (b ∷ bs) i h k =
    ap₂ (◌∷◌) (bit_xor_twice b (byte_at key (i % 4)) k.0 (h (i % 4)))
      (unmask_twice key bs (suc i) h k.1)

pub length-unmask : (key bs : Bytes) (i : ℕ) → length (unmask key i bs) ≡ length bs
unfolding unmask
length-unmask key [] i = refl
length-unmask key (b ∷ bs) i = ap suc (length-unmask key bs (suc i))
