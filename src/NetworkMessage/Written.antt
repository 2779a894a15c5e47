-- ===== src/NetworkMessage/Written.antt =====
-- What is written into a message of source/src/networkmessage.h can be read back from it.
use otg_premium_version.Common.{
  ℕ, ◌+◌, ◌^◌, ◌≤◌, ◌<◌, ◌≡◌, refl, true, List, length, arith, ap, ap₂, ◌∙◌, Bool-cases, inl, inr,
}
use mathlib.Core.Path.{subst}
use otg_premium_version.NetworkMessage.{
  Message, can_add, can_read, get, get_chars, get_string, add, add_string, set_buffer_position,
  written, max_body_length, networkmessage_maxsize, u16,
}
use otg_premium_version.NetworkMessage.Bytes.{
  le_bytes, from_le, write_at, read_at, length-le_bytes, from_le-le_bytes, read_at-write_at,
  read_at-before,
}

-- A message that is being written: the place is right behind what is counted.
pub record IsWriting (m : Message) : Type 0 where
  pub counted : m.position ≡ m.length_of + 8
  pub inside : m.position < max_body_length

pub can_add-lt : (n : ℕ) (m : Message) → can_add n m ≡ true → n + m.position < max_body_length
unfolding can_add
can_add-lt n m h = ground arith

pub written-IsWriting :
    (bs : List ℕ) (m : Message)
    → length bs + m.position < max_body_length
    → IsWriting m
    → IsWriting (written bs m)
written-IsWriting bs m h w = record { counted = omega arith; inside = omega arith }

-- The bytes that were put in at the place, with room for reading them.
pub written-can_read :
    (bs : List ℕ) (m : Message)
    → length bs + m.position < max_body_length
    → IsWriting m
    → can_read (length bs) (set_buffer_position m.position (written bs m)) ≡ true
unfolding can_read set_buffer_position
written-can_read bs m h w = ground arith

get_chars-can_read :
    (n : ℕ) (m : Message)
    → can_read n m ≡ true
    → get_chars n m ≡ record {
      value = read_at n m.position m.buffer;
      message = record m { position = u16 (m.position + n) };
    }
unfolding get_chars
get_chars-can_read n m h = ground arith

get-can_read :
    (n : ℕ) (m : Message)
    → can_read n m ≡ true
    → get n m ≡ record {
      value = from_le (read_at n m.position m.buffer);
      message = record m { position = u16 (m.position + n) };
    }
unfolding get
get-can_read n m h = ground arith

u16_place : (m : Message) → IsWriting m → u16 m.position ≡ m.position
u16_place m w = omega arith

read_at-written :
    (bs : List ℕ) (m : Message)
    → IsWriting m
    → read_at
        (length bs)
        (set_buffer_position m.position (written bs m)).position
        (set_buffer_position m.position (written bs m)).buffer
      ≡ bs
unfolding set_buffer_position
read_at-written bs m w = rw (u16_place m w) (read_at-write_at m.position bs m.buffer)

-- Past the bytes, the message is as the writer left it.
advanced :
    (bs : List ℕ) (m : Message)
    → IsWriting m
    → record (set_buffer_position m.position (written bs m)) {
      position = u16 ((set_buffer_position m.position (written bs m)).position + length bs);
    }
      ≡ written bs m
unfolding set_buffer_position
advanced bs m w = rw (u16_place m w) refl

module _ (bs : List ℕ) (m : Message) (fits : length bs + m.position < max_body_length)
    (w : IsWriting m) where
  pub get_chars-written :
      get_chars (length bs) (set_buffer_position m.position (written bs m))
      ≡ record { value = bs; message = written bs m }
  get_chars-written =
      get_chars-can_read (length bs) (set_buffer_position m.position (written bs m))
        (written-can_read bs m fits w)
      ∙ ap₂ (λ (v : List ℕ) (m' : Message). record { value = v; message = m' })
          (read_at-written bs m w) (advanced bs m w)

  pub get-written :
      get (length bs) (set_buffer_position m.position (written bs m))
      ≡ record { value = from_le bs; message = written bs m }
  get-written =
      get-can_read (length bs) (set_buffer_position m.position (written bs m))
        (written-can_read bs m fits w)
      ∙ ap₂ (λ (v : List ℕ) (m' : Message). record { value = from_le v; message = m' })
          (read_at-written bs m w) (advanced bs m w)

pub add-written :
    (n v : ℕ) (m : Message) → can_add n m ≡ true → add n v m ≡ written (le_bytes n v) m
unfolding add
add-written n v m h = rw h refl

-- A number that fits its type and the message is read back from the place where it was written,
-- and reading it leads to the place behind it, with all else as the writer left it.
pub get-add :
    (n v : ℕ) (m : Message)
    → IsWriting m
    → v < 256 ^ n
    → can_add n m ≡ true
    → get n (set_buffer_position m.position (add n v m)) ≡ record { value = v; message = add n v m }
get-add n v m w fits h =
    let bs : List ℕ = le_bytes n v in
    let same = length-le_bytes n v in
    let there = get-written bs m (omega (arith, same, can_add-lt n m h)) w in
    rw (add-written n v m h) (
      subst
        (λ k.
          get k (set_buffer_position m.position (written bs m))
          ≡ record { value = from_le bs; message = written bs m })
        same there
      ∙ ap (λ (x : ℕ). record { value = x; message = written bs m }) (from_le-le_bytes n v fits))

pub add-IsWriting : (n v : ℕ) (m : Message) → IsWriting m → IsWriting (add n v m)
add-IsWriting n v m w = elim (Bool-cases (can_add n m)) [
  | inl h ↦
      rw (add-written n v m h) (
        written-IsWriting (le_bytes n v) m (omega (arith, length-le_bytes n v, can_add-lt n m h)) w)
  | inr h ↦ unfold add in rw h w
]

-- Reading a stretch that holds `bs`, anywhere in what was written.
module _ (bs : List ℕ) (p : ℕ) (m : Message) (held : read_at (length bs) p m.buffer ≡ bs)
    (counted : p + length bs ≤ m.length_of + 8)
    (fits : p + length bs < networkmessage_maxsize) where
  can_read-at : can_read (length bs) (set_buffer_position p m) ≡ true
  unfolding can_read set_buffer_position
  can_read-at = ground arith

  small : u16 p ≡ p
  small = omega arith

  pub get-at :
      get (length bs) (set_buffer_position p m)
      ≡ record { value = from_le bs; message = set_buffer_position (p + length bs) m }
  unfolding set_buffer_position
  get-at = get-can_read (length bs) (set_buffer_position p m) can_read-at ∙ rw (small, held) refl

  pub get_chars-at :
      get_chars (length bs) (set_buffer_position p m)
      ≡ record { value = bs; message = set_buffer_position (p + length bs) m }
  unfolding set_buffer_position
  get_chars-at =
      get_chars-can_read (length bs) (set_buffer_position p m) can_read-at ∙ rw (small, held) refl

pub add_string-written :
    (s : List ℕ) (m : Message)
    → can_add (length s + 2) m ≡ true
    → length s ≤ 8192
    → add_string s m ≡ written s (written (le_bytes 2 (length s)) m)
unfolding add_string can_add add
add_string-written s m h short = ground arith

-- The number `v` in front of further bytes.
pub get-in_front :
    (n v p : ℕ) (m : Message)
    → v < 256 ^ n
    → read_at n p m.buffer ≡ le_bytes n v
    → p + n ≤ m.length_of + 8
    → p + n < networkmessage_maxsize
    → get n (set_buffer_position p m)
      ≡ record { value = v; message = set_buffer_position (p + n) m }
get-in_front n v p m fits held counted room =
    let bs : List ℕ = le_bytes n v in
    let size = length-le_bytes n v in
    subst
      (λ k.
        get k (set_buffer_position p m)
        ≡ record { value = from_le bs; message = set_buffer_position (p + k) m })
      size (get-at bs p m (rw size held) (omega (arith, size)) (omega (arith, size)))
    ∙ ap (λ (x : ℕ). record { value = x; message = set_buffer_position (p + n) m })
        (from_le-le_bytes n v fits)

get-string_length :
    (s : List ℕ) (m : Message)
    → IsWriting m
    → can_add (length s + 2) m ≡ true
    → length s ≤ 8192
    → get 2 (set_buffer_position m.position (written s (written (le_bytes 2 (length s)) m)))
      ≡ record {
        value = length s;
        message =
            set_buffer_position
              (written (le_bytes 2 (length s)) m).position
              (written s (written (le_bytes 2 (length s)) m));
      }
get-string_length s m w h short =
    let head : List ℕ = le_bytes 2 (length s) in
    let room = can_add-lt (length s + 2) m h in
    let two = length-le_bytes 2 (length s) in
    let next : u16 (m.position + length head) ≡ m.position + 2 = omega (arith, two) in
    let held =
      read_at-before 2 m.position (m.position + 2) s (write_at m.position head m.buffer)
        (omega arith) in
    let held' =
      subst (λ k. read_at k m.position (write_at m.position head m.buffer) ≡ head) two
        (read_at-write_at m.position head m.buffer) in
    get-in_front 2 (length s) m.position (written s (written head m)) (omega arith)
      (rw next (held ∙ held')) (omega (arith, two)) (omega arith)
    ∙ rw next refl

-- A text that fits is read back whole from the place where it was written, the empty text too.
pub get_string-add_string :
    (s : List ℕ) (m : Message)
    → IsWriting m
    → can_add (length s + 2) m ≡ true
    → length s ≤ 8192
    → get_string 0 (set_buffer_position m.position (add_string s m))
      ≡ record { value = s; message = add_string s m }
unfolding get_string
get_string-add_string s m w h short =
    let head : List ℕ = le_bytes 2 (length s) in
    let room = can_add-lt (length s + 2) m h in
    let two = length-le_bytes 2 (length s) in
    rw (add_string-written s m h short, get-string_length s m w h short)
      (get_chars-written s (written head m) (omega (arith, two))
        (written-IsWriting head m (omega (arith, two)) w))
