-- ===== src/Base/Word.antt =====
-- Bytes and 64-bit words: `size_t` arithmetic, and the network order of `htobe64` and `be64toh`.
use Prim.Native.Nat.{ℕ, ◌+◌, ◌-◌, ◌*◌, ◌/◌, ◌%◌, ◌<◌}
use mathlib.Core.Path.{◌≡◌}
use mathlib.Core.List.{List, [], ◌∷◌, ◌++◌}
use native.Mathlib.Omega.{arith}
use avant.Base.Lists.{All}

abbrev pub IsByte : ℕ → Type 0
IsByte b = b < 256

abbrev pub Bytes : Type 0
Bytes = List ℕ

-- 2^64, the modulus of `size_t` and `uint64_t`
abbrev pub u64_mod : ℕ
u64_mod = 18446744073709551616

-- `size_t` addition and subtraction of values below 2^64
abbrev pub add64 : ℕ → ℕ → ℕ
add64 a b = (a + b) % u64_mod

abbrev pub sub64 : ℕ → ℕ → ℕ
sub64 a b = (a + u64_mod - b) % u64_mod

-- the eight bytes of a word in network order
abbrev pub be64 : ℕ → Bytes
be64 n =
    (n / 72057594037927936 % 256)
    ∷ (n / 281474976710656 % 256)
    ∷ (n / 1099511627776 % 256)
    ∷ (n / 4294967296 % 256)
    ∷ (n / 16777216 % 256)
    ∷ (n / 65536 % 256)
    ∷ (n / 256 % 256)
    ∷ (n % 256)
    ∷ []

-- the word that the first eight bytes hold in network order; callers check that they are there
unfoldable pub of_be64 : Bytes → ℕ
of_be64 (a ∷ b ∷ c ∷ d ∷ e ∷ f ∷ g ∷ h ∷ rest) =
    ((((((a * 256 + b) * 256 + c) * 256 + d) * 256 + e) * 256 + f) * 256 + g) * 256 + h
of_be64 _ = 0

pub of_be64-be64 : (n : ℕ) (rest : Bytes) → n < u64_mod → of_be64 (be64 n ++ rest) ≡ n
unfolding of_be64
of_be64-be64 n rest h = omega arith

pub be64-All-IsByte : (n : ℕ) → All IsByte (be64 n)
be64-All-IsByte n = omega arith

pub of_be64-lt : (bs : Bytes) → All IsByte bs → of_be64 bs < u64_mod
unfolding of_be64
of_be64-lt (a ∷ b ∷ c ∷ d ∷ e ∷ f ∷ g ∷ i ∷ rest) h = omega arith
of_be64-lt _ h = omega arith
