-- ===== src/NetworkMessage/Bytes.antt =====
-- `memcpy` between a number, its bytes in memory order, and the buffer of
-- source/src/networkmessage.h (the machine is little-endian).
use native.Mathlib.Nat.{pow-suc}
use otg_premium_version.Common.{
  ℕ, zero, suc, ◌+◌, ◌*◌, ◌/◌, ◌%◌, ◌^◌, ◌≤◌, ◌<◌, ◌≡◌, refl, true, List, [], ◌∷◌, ◌==◌,
  if◌then◌else◌, length, arith, ap, ap₂, ◌∙◌, ltb, leb, ◌||◌,
}

unfoldable pub update : (ℕ → ℕ) → ℕ → ℕ → ℕ → ℕ
update buffer p v i = if i == p then v else buffer i

unfoldable pub write_at : ℕ → List ℕ → (ℕ → ℕ) → ℕ → ℕ
unfolding update
write_at p [] buffer = buffer
write_at p (b ∷ bs) buffer = write_at (suc p) bs (update buffer p b)

unfoldable pub read_at : ℕ → ℕ → (ℕ → ℕ) → List ℕ
read_at zero p buffer = []
read_at (suc n) p buffer = buffer p ∷ read_at n (suc p) buffer

-- The bytes of a number, the lowest first.
unfoldable pub le_bytes : ℕ → ℕ → List ℕ
le_bytes zero v = []
le_bytes (suc n) v = (v % 256) ∷ le_bytes n (v / 256)

unfoldable pub from_le : List ℕ → ℕ
from_le [] = 0
from_le (b ∷ bs) = b + 256 * from_le bs

pub length-le_bytes : (n v : ℕ) → length (le_bytes n v) ≡ n
unfolding le_bytes
length-le_bytes zero v = refl
length-le_bytes (suc n) v = ap suc (length-le_bytes n (v / 256))

pub from_le-le_bytes : (n v : ℕ) → v < 256 ^ n → from_le (le_bytes n v) ≡ v
unfolding le_bytes from_le
from_le-le_bytes zero v h = omega arith
from_le-le_bytes (suc n) v h =
    omega (arith, from_le-le_bytes n (v / 256) (omega (arith, pow-suc 256 n)))

-- A place outside of the bytes that are written keeps its value.
pub write_at-outside :
    (p : ℕ) (bs : List ℕ) (buffer : ℕ → ℕ) (i : ℕ)
    → ltb i p || leb (p + length bs) i ≡ true
    → write_at p bs buffer i ≡ buffer i
unfolding write_at update
write_at-outside p [] buffer i h = refl
write_at-outside p (b ∷ bs) buffer i h =
    write_at-outside (suc p) bs (update buffer p b) i (ground arith) ∙ ground arith

pub read_at-write_at :
    (p : ℕ) (bs : List ℕ) (buffer : ℕ → ℕ) → read_at (length bs) p (write_at p bs buffer) ≡ bs
unfolding read_at write_at update
read_at-write_at p [] buffer = refl
read_at-write_at p (b ∷ bs) buffer =
    ap₂ ◌∷◌ (write_at-outside (suc p) bs (update buffer p b) p (ground arith) ∙ ground arith)
      (read_at-write_at (suc p) bs (update buffer p b))

-- Bytes that are written behind a stretch do not change what is read there.
pub read_at-before :
    (n p q : ℕ) (bs : List ℕ) (buffer : ℕ → ℕ)
    → p + n ≤ q
    → read_at n p (write_at q bs buffer) ≡ read_at n p buffer
unfolding read_at
read_at-before zero p q bs buffer h = refl
read_at-before (suc n) p q bs buffer h =
    ap₂ ◌∷◌ (write_at-outside q bs buffer p (ground arith))
      (read_at-before n (suc p) q bs buffer (omega arith))
