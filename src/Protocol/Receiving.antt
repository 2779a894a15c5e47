-- ===== src/Protocol/Receiving.antt =====
-- What the receiving side of source/src/connection.cpp and protocol.cpp makes of a frame.
use Prim.Native.Nat.{bit_or}
use otg_premium_version.Common.{
  ℕ, suc, ◌+◌, ◌-◌, ◌*◌, ◌/◌, ◌%◌, ◌^◌, ◌<◌, true, false, not, ◌||◌, some, List, [], ◌∷◌, ◌++◌,
  ◌==◌, ltb, leb, length, take, length-append, bit_or-shift, ◌≡◌, refl, arith, ◌∙◌, ap,
}
use otg_premium_version.NetworkMessage.{Message, get, networkmessage_maxsize}
use otg_premium_version.NetworkMessage.Bytes.{
  le_bytes, from_le, from_le-le_bytes, length-le_bytes, write_at, read_at, update, read_at-before,
  read_at-write_at,
}
use otg_premium_version.Protocol.{receive, xtea_decrypt}
use otg_premium_version.Protocol.Frames.{read_back}
use otg_premium_version.Protocol.Copies.{write_at-append}
use otg_premium_version.Protocol.Sending.{prefixed}
use otg_premium_version.Xtea.{Key, decrypt}

take_front : (xs ys : List ℕ) → take (length xs) (xs ++ ys) ≡ xs
take_front [] ys = refl
take_front (x ∷ xs) ys = ap (λ (zs : List ℕ). x ∷ zs) (take_front xs ys)

-- The message into which a frame is read.
abbrev pub received : List ℕ → Message → Message
received body m = record m {
  buffer = write_at 2 body (write_at 0 (le_bytes 2 (length body)) m.buffer);
  length_of = length body + 2;
  position = 6;
}

header_value :
    (n : ℕ) (f : ℕ → ℕ)
    → n < 2 ^ 16
    → bit_or (write_at 0 (le_bytes 2 n) f 0) (write_at 0 (le_bytes 2 n) f 1 * 2 ^ 8) ≡ n
unfolding write_at le_bytes update
header_value n f h = omega (arith, bit_or-shift 8 (n % 256) (n / 256 % 256) (omega arith))

-- As it stands before the word of the checksum is read.
abbrev received_start : List ℕ → Message → Message
received_start body m = record (received body m) {
  length_of = (length body + 2) % 2 ^ 16;
  position = 2;
}

pub receive-prefixed :
    (body rest : List ℕ) (m : Message)
    → 0 < length body
    → length body < networkmessage_maxsize - 16
    → receive (prefixed body ++ rest) m ≡ some (received body m)
unfolding receive le_bytes get
receive-prefixed body rest m pos short =
    let n = length body in
    let size = header_value n m.buffer (omega arith) in
    let start : ltb (suc (suc (length (body ++ rest)))) 2 ≡ false = ground arith in
    let counted : n == 0 || leb (networkmessage_maxsize - 16) n ≡ false = ground arith in
    let whole : ltb (suc (suc (length (body ++ rest)))) (n + 2) ≡ false =
      ground (arith, length-append body rest) in
    let readable : not (ltb ((n + 2) % 2 ^ 16 + 8) (2 + 4) || leb networkmessage_maxsize (4 + 2))
        ≡ true =
      ground arith in
    let fits : (n + 2) % 2 ^ 16 ≡ n + 2 = omega arith in
    rw (size, start, counted, whole, take_front body rest) (rw (readable, fits) refl)

-- The message in which the bytes `xs` were found.
abbrev pub opened : List ℕ → List ℕ → Message → Message
opened plain xs m1 = record m1 {
  length_of = length xs;
  position = 8;
  buffer = write_at 6 plain m1.buffer;
}

inner_length :
    (n : ℕ) (ys : List ℕ) (f : ℕ → ℕ)
    → n < 2 ^ 16
    → from_le (read_at 2 6 (write_at 6 (le_bytes 2 n ++ ys) f)) ≡ n
unfolding le_bytes
inner_length n ys f h =
    ap (λ (g : ℕ → ℕ). from_le (read_at 2 6 g)) (write_at-append 6 (le_bytes 2 n) ys f)
    ∙ ap from_le (
        read_at-before 2 6 8 ys (write_at 6 (le_bytes 2 n) f) (omega arith)
        ∙ read_back 2 6 (le_bytes 2 n) f (length-le_bytes 2 n))
    ∙ from_le-le_bytes 2 n h

pub xtea_decrypt-opened :
    (initial : ℕ) (key : Key) (xs pad : List ℕ) (m : Message)
    → m.position ≡ 6
    → m.length_of ≡ length xs + length pad + 8
    → (length xs + length pad + 2) % 8 ≡ 0
    → length xs + length pad < 65520
    → decrypt initial (read_at (m.length_of - 6) 6 m.buffer) key
      ≡ le_bytes 2 (length xs) ++ (xs ++ pad)
    → xtea_decrypt initial key m ≡ (opened (le_bytes 2 (length xs) ++ (xs ++ pad)) xs m, true)
unfolding xtea_decrypt get
xtea_decrypt-opened initial key xs pad m place size blocks short plain =
    let whole : (m.length_of + 2 ^ 32 - 6) % 8 == 0 ≡ true = ground arith in
    let readable : not (ltb (m.length_of + 8) (6 + 2) || leb networkmessage_maxsize (2 + 6))
        ≡ true =
      ground arith in
    let counted : ltb m.length_of (length xs + 8) ≡ false = ground arith in
    let fits : length xs % 2 ^ 16 ≡ length xs = omega arith in
    let inner = inner_length (length xs) (xs ++ pad) m.buffer (omega arith) in
    rw (place, whole, plain, readable) (rw (inner, counted, fits) refl)

pub opened-bytes :
    (xs pad : List ℕ) (m : Message)
    → read_at (length xs) 8 (opened (le_bytes 2 (length xs) ++ (xs ++ pad)) xs m).buffer ≡ xs
unfolding le_bytes
opened-bytes xs pad m =
    let front = write_at 6 (le_bytes 2 (length xs)) m.buffer in
    ap (read_at (length xs) 8) (
      write_at-append 6 (le_bytes 2 (length xs)) (xs ++ pad) m.buffer
      ∙ write_at-append 8 xs pad front)
    ∙ read_at-before (length xs) 8 (8 + length xs) pad (write_at 8 xs front) (omega arith)
    ∙ read_at-write_at 8 xs front

pub received-inner :
    (v : ℕ) (inner : List ℕ) (m : Message)
    → read_at (length inner) 6 (received (le_bytes 4 v ++ inner) m).buffer ≡ inner
unfolding le_bytes
received-inner v inner m =
    let start = write_at 0 (le_bytes 2 (length (le_bytes 4 v ++ inner))) m.buffer in
    ap (read_at (length inner) 6) (write_at-append 2 (le_bytes 4 v) inner start)
    ∙ read_at-write_at 6 inner (write_at 2 (le_bytes 4 v) start)
