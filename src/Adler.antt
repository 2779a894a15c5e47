-- ===== src/Adler.antt =====
-- adlerChecksum of source/src/tools.cpp, which frames of the protocol carry.
pub mod Sums
mod Tests
use Prim.Native.Nat.{bit_or}
use otg_premium_version.Common.{
  ℕ, zero, suc, ◌+◌, ◌*◌, ◌%◌, ◌^◌, List, [], ◌∷◌, ◌==◌, if◌then◌else◌, ltb, leb, length, take,
  drop, add32, u32,
}

abbrev pub adler : ℕ
adler = 65521

-- NETWORKMESSAGE_MAXSIZE
abbrev pub max_length : ℕ
max_length = 65535

-- The two sums, of 32 bits.
pub record AdlerSums : Type 0 where
  pub a : ℕ
  pub b : ℕ

-- `do { a += *data++; b += a; } while (--tmp);`
pub add_all : List ℕ → AdlerSums → AdlerSums
add_all [] s = s
add_all (x ∷ xs) s = let a = add32 s.a x in add_all xs (record { a = a; b = add32 s.b a })

-- `length > 5552 ? 5552 : length`
pub chunk : ℕ → ℕ
chunk length_left = if ltb 5552 length_left then 5552 else length_left

pub reduced : AdlerSums → AdlerSums
reduced s = record { a = s.a % adler; b = s.b % adler }

-- The outer loop; each round takes at least one byte, so the length is fuel enough.
pub adler_loop : ℕ → List ℕ → AdlerSums → AdlerSums
unfolding add_all chunk reduced
adler_loop zero input s = s
adler_loop (suc fuel) input s =
    let tmp = chunk (length input) in
    let rest = adler_loop fuel (drop tmp input) (reduced (add_all (take tmp input) s)) in
    if length input == 0 then s else rest

-- `(b << 16) | a`, with the operands the other way round.
unfoldable pub adler_checksum : List ℕ → ℕ
unfolding adler_loop
adler_checksum input =
    if ltb max_length (length input)
    then 0
    else let s = adler_loop (length input) input (record { a = 1; b = 0 }) in
      bit_or s.a (u32 (s.b * 2 ^ 16))
