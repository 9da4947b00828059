-- ===== src/Base/Bits.antt =====
-- `&` and `|` of shifted fields and low masks as arithmetic, for every width.
use Prim.Native.Nat.{
  ℕ, zero, suc, ◌+◌, ◌*◌, ◌/◌, ◌%◌, ◌^◌, ◌≤◌, ◌<◌, min, max, bit_and, bit_or, bit_xor, digits,
  bit_and-bitwise, bit_or-bitwise,
}
use mathlib.Core.Path.{◌≡◌, refl, ap, ◌∙◌}
use mathlib.Core.Bool.{Bool, true, ◌&&◌}
use native.Mathlib.Omega.{arith}
use native.Mathlib.Nat.{pow-suc, mod-lt, div-add-mod, add-mul-mod_self_right, mod-eq_of_lt}
use avant.Base.Tests.{◌==◌, ==_iff}

-- Does `test` hold of every number under `bound`? Evaluation answers for a whole table at once.
pub all_below : (ℕ → Bool) → ℕ → Bool
all_below test zero = true
all_below test (suc bound) = all_below test bound && test bound

-- one entry of the table
pub table_entry :
    (test : ℕ → Bool) (bound i : ℕ) → i < bound → all_below test bound ≡ true → test i ≡ true
unfolding all_below
table_entry test zero i small table = absurd (omega arith)
table_entry test (suc bound) i small table = ground (arith, table_entry test bound i)

-- The native operations put together digits, with a fuel. Both are the same recursion, with another
-- operation on digits: enough fuel is as good as any other.
module _ (last : ℕ → ℕ) (digit : ℕ → ℕ → ℕ) where
  enough_fuel :
      (x y fuel more : ℕ)
      → x ≤ fuel
      → x ≤ more
      → digits last digit fuel x y ≡ digits last digit more x y
  enough_fuel (suc x) y zero more h k = absurd (omega arith)
  enough_fuel (suc x) y (suc fuel) zero h k = absurd (omega arith)
  enough_fuel (suc x) y (suc fuel) (suc more) h k =
      let rest = enough_fuel (suc x / 2) (y / 2) fuel more (omega arith) (omega arith) in
      omega (arith, rest)
  enough_fuel zero y zero zero h k = refl
  enough_fuel zero y zero (suc more) h k = refl
  enough_fuel zero y (suc fuel) zero h k = refl
  enough_fuel zero y (suc fuel) (suc more) h k = refl

-- The lowest digit stands apart.
pub bit_or_step : (x y : ℕ) → bit_or x y ≡ bit_or (x / 2) (y / 2) * 2 + max (x % 2) (y % 2)
bit_or_step zero y = omega (arith, bit_or-bitwise zero y, bit_or-bitwise zero (y / 2))
bit_or_step (suc x) y =
    let fuel =
      enough_fuel (λ c. c) max (suc x / 2) (y / 2) x (suc x / 2) (omega arith) (omega arith) in
    omega (arith, fuel, bit_or-bitwise (suc x / 2) (y / 2), bit_or-bitwise (suc x) y)

pub bit_and_step : (x y : ℕ) → bit_and x y ≡ bit_and (x / 2) (y / 2) * 2 + min (x % 2) (y % 2)
bit_and_step zero y = omega (arith, bit_and-bitwise zero y, bit_and-bitwise zero (y / 2))
bit_and_step (suc x) y =
    let fuel =
      enough_fuel (λ c. zero) min (suc x / 2) (y / 2) x (suc x / 2) (omega arith) (omega arith) in
    omega (arith, fuel, bit_and-bitwise (suc x / 2) (y / 2), bit_and-bitwise (suc x) y)

-- Nothing set on the right: by the halves of the left number, as many as `bound`.
or_nothing : (bound x : ℕ) → x ≤ bound → bit_or x 0 ≡ x
or_nothing bound zero small = refl
or_nothing zero (suc x) small = absurd (omega arith)
or_nothing (suc bound) (suc x) small =
    let half = or_nothing bound (suc x / 2) (omega arith) in
    omega (arith, half, bit_or_step (suc x) 0)

and_nothing : (bound x : ℕ) → x ≤ bound → bit_and x 0 ≡ 0
and_nothing bound zero small = refl
and_nothing zero (suc x) small = absurd (omega arith)
and_nothing (suc bound) (suc x) small =
    let half = and_nothing bound (suc x / 2) (omega arith) in
    omega (arith, half, bit_and_step (suc x) 0)

-- with `m` for `2 ^ k`
or_step_double :
    (m a b c : ℕ) → c ≡ a * m * 2 → bit_or (a * m) (b / 2) ≡ a * m + b / 2 → bit_or c b ≡ c + b
or_step_double m a b c e h =
    let half : c / 2 ≡ a * m = omega arith in
    let step : bit_or c b ≡ bit_or (a * m) (b / 2) * 2 + max (c % 2) (b % 2) =
      rw (← half) (bit_or_step c b) in
    omega arith

-- `(a << k) | b` is a sum where `b` fits the `k` bits.
pub bit_or-shift : (k a b : ℕ) → b < 2 ^ k → bit_or (a * 2 ^ k) b ≡ a * 2 ^ k + b
bit_or-shift zero a b h =
    let e : b ≡ 0 = omega arith in rw e (omega (arith, or_nothing (a * 1) (a * 1) (omega arith)))
bit_or-shift (suc k) a b h =
    or_step_double (2 ^ k) a b (a * 2 ^ suc k) (omega (arith, ap (λ (t : ℕ). a * t) (pow-suc 2 k)))
      (bit_or-shift k a (b / 2) (omega (arith, pow-suc 2 k)))

pub pow-pos : (k : ℕ) → 0 < 2 ^ k
pow-pos zero = omega arith
pow-pos (suc k) = omega (arith, pow-suc 2 k, pow-pos k)

mod_double : (m a : ℕ) → 0 < m → a % (2 * m) ≡ (a / 2 % m) * 2 + a % 2
mod_double m a h =
    let low : a / 2 % m * 2 + a % 2 < 2 * m = omega (arith, mod-lt (a / 2) h) in
    let split : a ≡ (a / 2 % m * 2 + a % 2) + (a / 2 / m) * (2 * m) =
      omega (arith, div-add-mod (a / 2) m) in
    ap (λ t. t % (2 * m)) split
    ∙ add-mul-mod_self_right (a / 2 % m * 2 + a % 2) (a / 2 / m) (2 * m)
    ∙ mod-eq_of_lt low

-- `a & (2^k - 1)` is a remainder.
pub bit_and-mask : (k a m : ℕ) → m + 1 ≡ 2 ^ k → bit_and a m ≡ a % 2 ^ k
bit_and-mask zero a m h =
    let e : m ≡ 0 = omega arith in rw e (omega (arith, and_nothing a a (omega arith)))
bit_and-mask (suc k) a m h =
    let even : 2 ^ suc k ≡ 2 * 2 ^ k = omega (arith, pow-suc 2 k) in
    let positive : 0 < 2 ^ k = pow-pos k in
    let rest : bit_and (a / 2) (m / 2) ≡ a / 2 % 2 ^ k =
      bit_and-mask k (a / 2) (m / 2) (omega arith) in
    rw even (omega (arith, bit_and_step a m, rest, mod_double (2 ^ k) a positive))

pub bit_and-0x1ff : (a : ℕ) → bit_and a 0x1FF ≡ a % 512
bit_and-0x1ff a = bit_and-mask 9 a 0x1FF refl

pub bit_and-0x7fffff : (a : ℕ) → bit_and a 0x7FFFFF ≡ a % 8388608
bit_and-0x7fffff a = bit_and-mask 23 a 0x7FFFFF refl

pub bit_and-0x0f : (a : ℕ) → bit_and a 0x0F ≡ a % 16
bit_and-0x0f a = bit_and-mask 4 a 0x0F refl

pub bit_and-0x7f : (a : ℕ) → bit_and a 0x7F ≡ a % 128
bit_and-0x7f a = bit_and-mask 7 a 0x7F refl

pub bit_and-0xff : (a : ℕ) → bit_and a 0xFF ≡ a % 256
bit_and-0xff a = bit_and-mask 8 a 0xFF refl

-- the high bit of a byte
top_bit : ℕ → Bool
top_bit b = bit_and b 0x80 == b / 128 * 128

top_table : all_below top_bit 256 ≡ true
unfolding all_below top_bit
top_table = refl

pub bit_and-0x80 : (b : ℕ) → b < 256 → bit_and b 0x80 ≡ b / 128 * 128
unfolding top_bit
bit_and-0x80 b h = (==_iff _ _).0 (table_entry top_bit 256 b h top_table)

-- `^` with the same key twice, on bytes
undone : ℕ → ℕ → Bool
undone k b = bit_xor (bit_xor b k) k == b

undone_row : ℕ → Bool
unfolding all_below undone
undone_row k = all_below (undone k) 256

undone_table : all_below undone_row 256 ≡ true
unfolding undone_row
undone_table = refl

pub bit_xor_twice : (b k : ℕ) → b < 256 → k < 256 → bit_xor (bit_xor b k) k ≡ b
unfolding undone_row
bit_xor_twice b k hb hk =
    (==_iff _ _).0 (table_entry (undone k) 256 b hb (table_entry undone_row 256 k hk undone_table))
