-- ===== src/NetworkMessage/Bounds.antt =====
-- No operation of source/src/networkmessage.h writes outside of the body of the buffer, and a read
-- past the end of a message is noticed.
use otg_premium_version.Common.{
  ℕ, zero, suc, ◌+◌, ◌≤◌, ◌<◌, ◌≡◌, refl, true, false, List, length, arith, ap, ◌∙◌, ◌⊎◌, ◌≢◌, inl,
  inr, Bool-cases, ltb, leb, ◌||◌,
}
use otg_premium_version.Position.{Position}
use otg_premium_version.NetworkMessage.{
  Message, can_add, get, add, add_byte, add_bytes, add_string, add_padding_bytes, padding,
  add_position, written, u16, max_body_length,
}
use otg_premium_version.NetworkMessage.Bytes.{
  le_bytes, write_at, length-le_bytes, write_at-outside, update,
}
use otg_premium_version.NetworkMessage.Written.{
  IsWriting, written-IsWriting, can_add-lt, add-IsWriting,
}

-- The writing operations.
pub data Write : Type 0 where
  byte : ℕ → Write
  number : ℕ → ℕ → Write
  bytes : List ℕ → Write
  text : List ℕ → Write
  place : Position → Write
  pad : ℕ → Write

pub write : Write → Message → Message
write (byte v) m = add_byte v m
write (number n v) m = add n v m
write (bytes bs) m = add_bytes bs m
write (text s) m = add_string s m
write (place p) m = add_position p m
write (pad n) m = add_padding_bytes n m

-- Every byte outside of the body, and every byte before the place, is the same in both.
abbrev pub Keeps : Message → Message → Type 0
Keeps m m' = (i : ℕ) → ltb i m.position || leb max_body_length i ≡ true → m'.buffer i ≡ m.buffer i

length-padding : (n : ℕ) → length (padding n) ≡ n
length-padding zero = refl
length-padding (suc n) = ap suc (length-padding n)

written-Keeps :
    (bs : List ℕ) (m : Message) → length bs + m.position < max_body_length → Keeps m (written bs m)
written-Keeps bs m h i outside = write_at-outside m.position bs m.buffer i (ground arith)

add-Keeps : (n v : ℕ) (m : Message) → Keeps m (add n v m)
unfolding add
add-Keeps n v m i outside = elim (Bool-cases (can_add n m)) [
  | inl h ↦
      rw (h, add)
        (written-Keeps (le_bytes n v) m (omega (arith, can_add-lt n m h, length-le_bytes n v)) i
          outside)
  | inr h ↦ rw (h, add) refl
]

-- A message that is not written beyond its body.
abbrev pub Inside : Message → Type 0
Inside m = m.position < max_body_length

add-position-le :
    (n v : ℕ) (m : Message) → Inside m → (m.position ≤ (add n v m).position) × Inside (add n v m)
unfolding add can_add
add-position-le n v m h = ground (arith, length-le_bytes n v)

add_byte-Keeps : (v : ℕ) (m : Message) → Keeps m (add_byte v m)
unfolding add_byte update can_add
add_byte-Keeps v m i outside = ground arith

add_bytes-Keeps : (bs : List ℕ) (m : Message) → Keeps m (add_bytes bs m)
unfolding add_bytes can_add
add_bytes-Keeps bs m i outside = ground (arith, write_at-outside m.position bs m.buffer i)

add_padding_bytes-Keeps : (n : ℕ) (m : Message) → Keeps m (add_padding_bytes n m)
unfolding add_padding_bytes can_add
add_padding_bytes-Keeps n m i outside =
    ground (arith, length-padding n, write_at-outside m.position (padding n) m.buffer i)

-- A text that is refused changes nothing; otherwise it stands behind its length.
add_string_cases :
    (s : List ℕ) (m : Message)
    → (add_string s m ≡ m)
      ⊎ ((length s + 2 + m.position < max_body_length)
          × (add_string s m ≡ written s (written (le_bytes 2 (length s)) m)))
unfolding add_string can_add add
add_string_cases s m = ground arith

add_string-Keeps : (s : List ℕ) (m : Message) → Keeps m (add_string s m)
add_string-Keeps s m i outside = elim (add_string_cases s m) [
  | inl e ↦ rw e
  | inr (h, e) ↦
      let head : List ℕ = le_bytes 2 (length s) in
      let p : ℕ = u16 (m.position + length head) in
      rw e (
        ground (
          arith,
          h,
          length-le_bytes 2 (length s),
          write_at-outside p s (write_at m.position head m.buffer) i,
          write_at-outside m.position head m.buffer i,
        ))
]

add_position-Keeps : (p : Position) (m : Message) → Inside m → Keeps m (add_position p m)
unfolding add_position
add_position-Keeps p m h i outside =
    let m1 : Message = add 2 p.x m in
    let m2 : Message = add 2 p.y m1 in
    let step1 = add-position-le 2 p.x m h in
    let step2 = add-position-le 2 p.y m1 step1.1 in
    add_byte-Keeps p.z m2 i (ground (arith, step1.0, step2.0))
    ∙ add-Keeps 2 p.y m1 i (ground (arith, step1.0))
    ∙ add-Keeps 2 p.x m i outside

-- Whatever is written, whether or not it fits, no byte before the place and none behind the body
-- of 65521 bytes changes: the buffer of 65535 bytes is never overrun.
pub write-Keeps : (o : Write) (m : Message) → Inside m → Keeps m (write o m)
unfolding write
write-Keeps (byte v) m h i outside = add_byte-Keeps v m i outside
write-Keeps (number n v) m h i outside = add-Keeps n v m i outside
write-Keeps (bytes bs) m h i outside = add_bytes-Keeps bs m i outside
write-Keeps (text s) m h i outside = add_string-Keeps s m i outside
write-Keeps (place p) m h i outside = add_position-Keeps p m h i outside
write-Keeps (pad n) m h i outside = add_padding_bytes-Keeps n m i outside

add_byte-IsWriting : (v : ℕ) (m : Message) → IsWriting m → IsWriting (add_byte v m)
unfolding add_byte can_add
add_byte-IsWriting v m w = ground arith

-- The writing operations that move the place keep it inside the body and eight behind the length.
pub write-IsWriting :
    (o : Write) (m : Message) → ((n : ℕ) → o ≢ pad n) → IsWriting m → IsWriting (write o m)
unfolding write
write-IsWriting (byte v) m h w = add_byte-IsWriting v m w
write-IsWriting (number n v) m h w = add-IsWriting n v m w
write-IsWriting (bytes bs) m h w = unfold add_bytes can_add in ground arith
write-IsWriting (text s) m h w = elim (add_string_cases s m) [
  | inl e ↦ rw e w
  | inr (fits, e) ↦
      let size = length-le_bytes 2 (length s) in
      rw e (
        written-IsWriting s (written (le_bytes 2 (length s)) m) (omega (arith, size))
          (written-IsWriting (le_bytes 2 (length s)) m (omega (arith, size)) w))
]
write-IsWriting (place p) m h w =
    unfold add_position in
    add_byte-IsWriting p.z (add 2 p.y (add 2 p.x m))
      (add-IsWriting 2 p.y (add 2 p.x m) (add-IsWriting 2 p.x m w))
write-IsWriting (pad n) m h w = absurd (h n refl)

-- A read past the end of what was received, or of the buffer, returns 0, moves nothing and is
-- remembered.
pub get-overrun :
    (n : ℕ) (m : Message)
    → leb (m.position + n) (m.length_of + 8) ≡ false
    → get n m ≡ record { value = 0; message = record m { overrun = true } }
unfolding get
get-overrun n m h = ground arith
