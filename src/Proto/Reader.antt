-- ===== src/Proto/Reader.antt =====
-- What the loop bodies have in common: the law of a body that reads length-prefixed packages.
use avant.Base.{
  ℕ, ◌+◌, ◌≤◌, ◌<◌, ◌≡◌, ◌⊎◌, Option, some, List, [], ◌∷◌, ◌++◌, Bytes, length, take, drop, of_be64,
}
use avant.Buffer.{VecStrBuffer, size, move_read_ptr_n}
use avant.Proto.{pack_package}
use avant.Proto.Frame.{Iter, again, done}

-- A header that has not arrived, or one that announces more than has arrived.
abbrev pub IsWaiting : ℕ → Bytes → Type 0
IsWaiting limit b = (length b < 8) ⊎ ((of_be64 b ≤ limit) × (length b < 8 + of_be64 b))

-- `limit` is the largest payload that the body accepts, and `deliver` what it does with a package.
pub record IsFrameReader {P W : Type 0} (parse : Bytes → Option P) (limit : ℕ) (deliver : W → P → W)
    (body : VecStrBuffer → W → Iter W) : Type 0 where
  pub waits : (b : VecStrBuffer) (w : W) → IsWaiting limit b.m_data → body b w ≡ done b w
  pub takes :
      (b : VecStrBuffer) (w : W) (p : P) (n : ℕ)
      → of_be64 b.m_data ≡ n
      → 0 < n
      → n ≤ limit
      → 8 + n ≤ size b
      → parse (take n (drop 8 b.m_data)) ≡ some p
      → body b w ≡ again (move_read_ptr_n (8 + n) b) (deliver w p)

-- A package that can be sent: it serialises to a payload that is not empty and within the limit.
pub record IsSendable {P : Type 0} (serialize : P → Option Bytes) (limit : ℕ) (p : P) : Type 0 where
  pub payload : Bytes
  pub serialized : serialize p ≡ some payload
  pub nonempty : 0 < length payload
  pub fits : length payload ≤ limit

-- the packages one after the other on the wire
abbrev pub wire : {P : Type 0} → (P → Option Bytes) → List P → Bytes
wire serialize [] = []
wire serialize (p ∷ ps) = pack_package serialize p ++ wire serialize ps

-- the effect of the packages in their order
abbrev pub deliver_all : {P W : Type 0} → (W → P → W) → W → List P → W
deliver_all deliver w [] = w
deliver_all deliver w (p ∷ ps) = deliver_all deliver (deliver w p) ps
