-- ===== src/Common/Words.antt =====
-- Machine words as native numbers: arithmetic that wraps at 2 ^ 32, and `|` of bytes put side by
-- side, as arithmetic.
use Prim.Native.Nat.{
  ℕ, zero, suc, ◌+◌, ◌-◌, ◌*◌, ◌/◌, ◌%◌, ◌^◌, ◌≤◌, ◌<◌, max, bit_or, digits, bit_or-bitwise,
}
use mathlib.Core.Path.{◌≡◌, refl, ap}
use native.Mathlib.Nat.{pow-suc}
use native.Mathlib.Omega.{arith}

abbrev pub u32 : ℕ → ℕ
u32 n = n % 2 ^ 32

abbrev pub add32 : ℕ → ℕ → ℕ
add32 a b = (a + b) % 2 ^ 32

-- `-` on ℕ stops at 0, so the modulus is added first.
abbrev pub sub32 : ℕ → ℕ → ℕ
sub32 a b = (a + 2 ^ 32 - b) % 2 ^ 32

-- `|` by its digits, with enough fuel.
abbrev or_digits : ℕ → ℕ → ℕ → ℕ
or_digits fuel a b = digits (λ y. y) max fuel a b

or_digits_enough : (n m a b : ℕ) → a ≤ n → a ≤ m → or_digits n a b ≡ or_digits m a b
or_digits_enough zero zero a b hn hm = refl
or_digits_enough (suc n) zero zero b hn hm = refl
or_digits_enough zero (suc m) zero b hn hm = refl
or_digits_enough zero (suc m) (suc a) b hn hm = absurd (omega arith)
or_digits_enough (suc n) zero (suc a) b hn hm = absurd (omega arith)
or_digits_enough (suc n) (suc m) zero b hn hm = refl
or_digits_enough (suc n) (suc m) (suc a) b hn hm =
    rw (or_digits_enough n m (suc a / 2) (b / 2) (omega arith) (omega arith))

zero-bit_or : (b : ℕ) → bit_or 0 b ≡ b
zero-bit_or b = bit_or-bitwise 0 b

-- The lowest digit and the rest.
bit_or_halves : (a b : ℕ) → bit_or a b ≡ bit_or (a / 2) (b / 2) * 2 + max (a % 2) (b % 2)
bit_or_halves zero b = omega (arith, zero-bit_or b, zero-bit_or (b / 2))
bit_or_halves (suc a) b = omega (
  arith,
  bit_or-bitwise (suc a) b,
  bit_or-bitwise (suc a / 2) (b / 2),
  or_digits_enough a (suc a / 2) (suc a / 2) (b / 2) (omega arith) (omega arith),
)

-- `r | q << k` is a sum where `r` has `k` bits.
pub bit_or-shift : (k r q : ℕ) → r < 2 ^ k → bit_or r (q * 2 ^ k) ≡ r + q * 2 ^ k
bit_or-shift zero zero q h = omega (arith, zero-bit_or (q * 2 ^ 0))
bit_or-shift zero (suc r) q h = absurd (omega arith)
bit_or-shift (suc k) r q h = ground (
  arith,
  bit_or_halves r (q * 2 ^ suc k),
  ap (λ (t : ℕ). q * t) (pow-suc 2 k),
  pow-suc 2 k,
  bit_or-shift k (r / 2) q (omega (arith, pow-suc 2 k)),
)

-- Four bytes, the lowest first, as `data[j] | data[j+1] << 8u | …` puts them together.
unfoldable pub word : ℕ → ℕ → ℕ → ℕ → ℕ
word a b c d = u32 (bit_or (bit_or (bit_or a (b * 2 ^ 8)) (c * 2 ^ 16)) (d * 2 ^ 24))

pub word-sum :
    (a b c d : ℕ)
    → a < 256
    → b < 256
    → c < 256
    → d < 256
    → word a b c d ≡ a + b * 2 ^ 8 + c * 2 ^ 16 + d * 2 ^ 24
unfolding word
word-sum a b c d ha hb hc hd =
    rw
      (
        bit_or-shift 8 a b (omega arith),
        bit_or-shift 16 (a + b * 2 ^ 8) c (omega arith),
        bit_or-shift 24 (a + b * 2 ^ 8 + c * 2 ^ 16) d (omega arith),
      )
      (omega arith)

-- `static_cast<uint8_t>(w >> 8 * i)`
abbrev pub byte : ℕ → ℕ → ℕ
byte i w = w / 2 ^ (8 * i) % 2 ^ 8

-- The bytes of a word put it together again.
pub word-byte : (w : ℕ) → w < 2 ^ 32 → word (byte 0 w) (byte 1 w) (byte 2 w) (byte 3 w) ≡ w
word-byte w h = omega (
  arith,
  word-sum (byte 0 w) (byte 1 w) (byte 2 w) (byte 3 w) (omega arith) (omega arith) (omega arith)
      (omega arith),
)

pub byte-word :
    (a b c d : ℕ)
    → a < 256
    → b < 256
    → c < 256
    → d < 256
    → (byte 0 (word a b c d) ≡ a)
      × (byte 1 (word a b c d) ≡ b)
      × (byte 2 (word a b c d) ≡ c)
      × (byte 3 (word a b c d) ≡ d)
byte-word a b c d ha hb hc hd = omega (arith, word-sum a b c d ha hb hc hd)

pub word-lt : (a b c d : ℕ) → word a b c d < 2 ^ 32
unfolding word
word-lt a b c d = omega arith
