-- ===== src/FileLoader/Streams.antt =====
-- The streams of source/src/fileloader.h: PropStream, whose two pointers are the list of the bytes
-- that are left, and PropWriteStream, which is its buffer. A number is written in memory order.
use otg_premium_version.Common.{
  ℕ, ◌^◌, Option, none, some, List, [], ◌++◌, if◌then◌else◌, length, ltb, ◌≡◌, arith, ◌∙◌, ap, sym,
  take, drop, length-append, ◌<◌, Bool-cases, inl, inr,
}
use mathlib.Core.List.{append_assoc}
use otg_premium_version.NetworkMessage.Bytes.{le_bytes, from_le, length-le_bytes, from_le-le_bytes}
use otg_premium_version.FileLoader.Roundtrip.{take_append}
use otg_premium_version.FileLoader.Files.{drop_append}

-- `read<T>` of `n` bytes: the value and the stream behind it, or no change.
unfoldable pub read : ℕ → List ℕ → Option (ℕ × List ℕ)
read n p = if ltb (length p) n then none else some (from_le (take n p), drop n p)

unfoldable pub read_string : List ℕ → Option (List ℕ × List ℕ)
unfolding read
read_string p = elim (read 2 p) [
  | none ↦ none
  | some (str_len, p') ↦
      if ltb (length p') str_len then none else some (take str_len p', drop str_len p')
]

unfoldable pub skip : ℕ → List ℕ → Option (List ℕ)
skip n p = if ltb (length p) n then none else some (drop n p)

unfoldable pub write_number : ℕ → ℕ → List ℕ → List ℕ
write_number n add buffer = buffer ++ le_bytes n add

-- A text that is longer than its length can say is written as the length 0.
unfoldable pub write_string : List ℕ → List ℕ → List ℕ
unfolding write_number
write_string str buffer =
    if ltb 0xFFFF (length str)
    then write_number 2 0 buffer
    else write_number 2 (length str) buffer ++ str

take_append_at : (n : ℕ) (x w : List ℕ) → length x ≡ n → take n (x ++ w) ≡ x
take_append_at n x w h = ap (λ m. take m (x ++ w)) (sym h) ∙ take_append x w

drop_append_at : (n : ℕ) (x w : List ℕ) → length x ≡ n → drop n (x ++ w) ≡ w
drop_append_at n x w h = ap (λ m. drop m (x ++ w)) (sym h) ∙ drop_append x w

read-le_bytes :
    (n v : ℕ) (rest : List ℕ) → v < 256 ^ n → read n (le_bytes n v ++ rest) ≡ some (v, rest)
unfolding read
read-le_bytes n v rest h = ground (
  arith,
  length-append (le_bytes n v) rest,
  length-le_bytes n v,
  take_append_at n (le_bytes n v) rest (length-le_bytes n v),
  drop_append_at n (le_bytes n v) rest (length-le_bytes n v),
  from_le-le_bytes n v h,
)

read_string-short :
    (str rest : List ℕ)
    → length str < 2 ^ 16
    → read_string (le_bytes 2 (length str) ++ (str ++ rest)) ≡ some (str, rest)
unfolding read_string
read_string-short str rest h =
    rw (read_string, read-le_bytes 2 (length str) (str ++ rest) (omega arith))
      (ground (arith, length-append str rest, take_append str rest, drop_append str rest))

-- A text is read back from where it was written, whatever follows, if it has less than 2 ^ 16
-- bytes; in place of a longer one the empty text is read.
pub read_string-write_string :
    (str buffer rest : List ℕ)
    → read_string (drop (length buffer) (write_string str buffer ++ rest))
      ≡ some ((if ltb 0xFFFF (length str) then [] else str), rest)
unfolding write_string
read_string-write_string str buffer rest = elim (Bool-cases (ltb 0xFFFF (length str))) [
  | inl e ↦
      rw
        (
          e,
          write_string,
          append_assoc buffer (le_bytes 2 0) rest,
          drop_append buffer (le_bytes 2 0 ++ rest),
        )
        (read_string-short [] rest (omega arith))
  | inr e ↦
      rw
        (
          e,
          write_string,
          append_assoc (buffer ++ le_bytes 2 (length str)) str rest,
          append_assoc buffer (le_bytes 2 (length str)) (str ++ rest),
          drop_append buffer (le_bytes 2 (length str) ++ (str ++ rest)),
        )
        (read_string-short str rest (ground arith))
]
