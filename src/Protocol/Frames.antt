-- ===== src/Protocol/Frames.antt =====
-- The bytes of a frame, for each operation of source/src/outputmessage.h and protocol.cpp by which
-- a message that is sent grows.
use otg_premium_version.Common.{
  ℕ, ◌+◌, ◌-◌, ◌%◌, ◌^◌, ◌≤◌, ◌<◌, true, false, List, ◌++◌, ◌==◌, ltb, length, ◌≡◌, refl, arith,
  ◌∙◌, ap, ap₂, Bool-cases, inl, inr,
}
use mathlib.Core.Path.{subst}
use mathlib.Core.List.{append-nil}
use otg_premium_version.NetworkMessage.{Message, padding, max_body_length, add_padding_bytes}
use otg_premium_version.NetworkMessage.Bytes.{
  le_bytes, length-le_bytes, write_at, read_at, read_at-write_at, read_at-before,
}
use otg_premium_version.Protocol.{OutputMessage, add_header, append, padded, frame, xtea_encrypt}
use otg_premium_version.Protocol.Copies.{
  length-read_at, read_at-after, length-padding, length-encrypt, read_at-append,
}
use otg_premium_version.Xtea.{Key, encrypt}

-- What is read where bytes were written, by their number.
pub read_back :
    (n p : ℕ) (bs : List ℕ) (f : ℕ → ℕ) → length bs ≡ n → read_at n p (write_at p bs f) ≡ bs
read_back n p bs f e = subst (λ k. read_at k p (write_at p bs f) ≡ bs) e (read_at-write_at p bs f)

-- A stretch in front of which bytes are written.
pub read_at-front :
    (k n p q : ℕ) (bs : List ℕ) (f : ℕ → ℕ)
    → length bs ≡ n
    → q ≡ p + n
    → read_at (n + k) p (write_at p bs f) ≡ bs ++ read_at k q f
read_at-front k n p q bs f size place =
    read_at-append n k p q (write_at p bs f) place
    ∙ ap₂ ◌++◌ (read_back n p bs f size) (read_at-after k q p bs f (omega (arith, size, place)))

-- A stretch behind which bytes are written.
pub read_at-behind :
    (k n p q : ℕ) (bs : List ℕ) (f : ℕ → ℕ)
    → length bs ≡ n
    → q ≡ p + k
    → read_at (k + n) p (write_at q bs f) ≡ read_at k p f ++ bs
read_at-behind k n p q bs f size place =
    read_at-append k n p q (write_at q bs f) place
    ∙ ap₂ ◌++◌ (read_at-before k p q bs f (omega (arith, place))) (read_back n q bs f size)

pub add_header-fields :
    (n v : ℕ) (o : OutputMessage)
    → n ≤ o.output_buffer_start
    → o.output_buffer_start ≤ 8
    → n + o.message.length_of < 2 ^ 16
    → ((add_header n v o).output_buffer_start ≡ o.output_buffer_start - n)
      × ((add_header n v o).message.length_of ≡ n + o.message.length_of)
unfolding add_header
add_header-fields n v o room low fits = omega arith

-- A header is put in front of the frame.
pub frame-add_header :
    (n v : ℕ) (o : OutputMessage)
    → n ≤ o.output_buffer_start
    → o.output_buffer_start ≤ 8
    → n + o.message.length_of < 2 ^ 16
    → frame (add_header n v o) ≡ le_bytes n v ++ frame o
unfolding frame add_header
frame-add_header n v o room low fits =
    let start : (o.output_buffer_start + 2 ^ 16 - n) % 2 ^ 16 ≡ o.output_buffer_start - n =
      omega arith in
    let size : (o.message.length_of + n) % 2 ^ 16 ≡ n + o.message.length_of = omega arith in
    rw (start, size)
      (read_at-front o.message.length_of n (o.output_buffer_start - n) o.output_buffer_start
        (le_bytes n v) o.message.buffer (length-le_bytes n v) (omega arith))

-- Nothing was written behind the message, and there is room for the padding.
abbrev pub IsOpen : OutputMessage → Type 0
IsOpen o =
    (o.message.position ≡ o.output_buffer_start + o.message.length_of)
    × (o.message.position + 7 < max_body_length)

-- The bytes that make a number of bytes a multiple of the size of a block.
abbrev pub missing : ℕ → ℕ
missing n = (8 - n % 8) % 8

padded-fields :
    (o : OutputMessage)
    → IsOpen o
    → ((padded o).output_buffer_start ≡ o.output_buffer_start)
      × ((padded o).message.length_of ≡ o.message.length_of + missing o.message.length_of)
unfolding padded add_padding_bytes
padded-fields o h = ground arith

padded_full : (o : OutputMessage) → o.message.length_of % 8 ≡ 0 → padded o ≡ o
unfolding padded
padded_full o e = ground arith

padded_up :
    (n : ℕ) (o : OutputMessage)
    → IsOpen o
    → n ≡ 8 - o.message.length_of % 8
    → (o.message.length_of % 8 == 0) ≡ false
    → padded o ≡ record o {
      message = record (o.message) {
        buffer = write_at o.message.position (padding n) o.message.buffer;
        length_of = o.message.length_of + n;
      };
    }
unfolding padded add_padding_bytes
padded_up n o h size e =
    let room : ltb (8 - o.message.length_of % 8 + o.message.position) max_body_length ≡ true =
      ground arith in
    let fits : (o.message.length_of + (8 - o.message.length_of % 8)) % 2 ^ 16
        ≡ o.message.length_of + n =
      omega arith in
    rw (e, room, fits, size) refl

pub frame-padded :
    (o : OutputMessage)
    → IsOpen o
    → frame (padded o) ≡ frame o ++ padding (missing o.message.length_of)
unfolding padded frame add_padding_bytes
frame-padded o h = elim (Bool-cases (o.message.length_of % 8 == 0)) [
  | inl e ↦
      let none : missing o.message.length_of ≡ 0 = ground arith in
      rw (none, append-nil) (ap frame (padded_full o (ground arith)))
  | inr e ↦
      let n = missing o.message.length_of in
      ap frame (padded_up n o h (ground arith) e)
      ∙ read_at-behind o.message.length_of n o.output_buffer_start o.message.position (padding n)
          o.message.buffer (length-padding n) h.0
]

pub frame-append :
    (msg : Message) (o : OutputMessage)
    → o.message.position ≡ o.output_buffer_start + o.message.length_of
    → o.message.length_of + msg.length_of < 2 ^ 16
    → frame (append msg o) ≡ frame o ++ read_at msg.length_of 8 msg.buffer
unfolding append frame
frame-append msg o place fits =
    let size : (o.message.length_of + msg.length_of) % 2 ^ 16
        ≡ o.message.length_of + msg.length_of =
      omega arith in
    rw size (
      read_at-behind o.message.length_of msg.length_of o.output_buffer_start o.message.position
        (read_at msg.length_of 8 msg.buffer) o.message.buffer
        (length-read_at msg.length_of 8 msg.buffer) place)

pub length-frame : (o : OutputMessage) → length (frame o) ≡ o.message.length_of
unfolding frame
length-frame o = length-read_at o.message.length_of o.output_buffer_start o.message.buffer

module _ (initial : ℕ) (initial_pos : 0 < initial) where
  pub xtea_encrypt-fields :
      (k : Key) (o : OutputMessage)
      → IsOpen o
      → ((xtea_encrypt initial k o).output_buffer_start ≡ o.output_buffer_start)
        × ((xtea_encrypt initial k o).message.length_of
            ≡ o.message.length_of + missing o.message.length_of)
  unfolding xtea_encrypt
  xtea_encrypt-fields k o h = padded-fields o h

  -- The frame is encrypted with its padding.
  pub frame-xtea_encrypt :
      (k : Key) (o : OutputMessage)
      → IsOpen o
      → frame (xtea_encrypt initial k o)
        ≡ encrypt initial (frame o ++ padding (missing o.message.length_of)) k
  unfolding xtea_encrypt frame
  frame-xtea_encrypt k o h =
      read_back (padded o).message.length_of (padded o).output_buffer_start
        (encrypt initial (frame (padded o)) k) (padded o).message.buffer
        (length-encrypt initial (frame (padded o)) k initial_pos ∙ length-frame (padded o))
      ∙ ap (λ (xs : List ℕ). encrypt initial xs k) (frame-padded o h)
