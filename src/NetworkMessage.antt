-- ===== src/NetworkMessage.antt =====
-- source/src/networkmessage.h and networkmessage.cpp: the buffer through which both directions of a
-- connection are read and written.
-- The buffer is a function from places to bytes: what stands there before the first write is
-- whatever the memory held. Places and lengths are `uint16_t`.
pub mod Bytes
pub mod Written
pub mod Positions
pub mod Bounds
mod Tests
use Prim.Native.Nat.{bit_or}
use otg_premium_version.Common.{
  ℕ, zero, suc, ◌+◌, ◌-◌, ◌*◌, ◌/◌, ◌%◌, ◌^◌, Bool, true, false, ◌&&◌, ◌||◌, not, List, [], ◌∷◌,
  ltb, leb, ◌==◌, if◌then◌else◌, length,
}
use otg_premium_version.Position.{Position}
use Bytes.{le_bytes, from_le, write_at, read_at, update}

abbrev pub networkmessage_maxsize : ℕ
networkmessage_maxsize = 65535

abbrev pub initial_buffer_position : ℕ
initial_buffer_position = 8

-- NETWORKMESSAGE_MAXSIZE - HEADER_LENGTH - CHECKSUM_LENGTH - XTEA_MULTIPLE
abbrev pub max_body_length : ℕ
max_body_length = networkmessage_maxsize - 2 - 4 - 8

abbrev pub u16 : ℕ → ℕ
u16 n = n % 2 ^ 16

pub record Message : Type 0 where
  pub length_of : ℕ
  pub position : ℕ
  pub overrun : Bool
  pub buffer : ℕ → ℕ

-- `info = {}`
pub reset : Message → Message
reset m = record m { length_of = 0; position = initial_buffer_position; overrun = false }

unfoldable pub can_add : ℕ → Message → Bool
can_add size m = ltb (size + m.position) max_body_length

-- The sums are made in `int`, which does not wrap here.
unfoldable pub can_read : ℕ → Message → Bool
can_read size m =
    not
      (ltb (m.length_of + 8) (m.position + size) || leb networkmessage_maxsize (size + m.position))

-- What a reading operation returns.
pub record Read {ℓ} (A : Type ℓ) : Type ℓ where
  pub value : A
  pub message : Message

-- `get<T>`, by the size of `T`.
unfoldable pub get : ℕ → Message → Read ℕ
unfolding can_read
get size m =
    if can_read size m
    then record {
      value = from_le (read_at size m.position m.buffer);
      message = record m { position = u16 (m.position + size) };
    }
    else record { value = 0; message = record m { overrun = true } }

pub get_byte : Message → Read ℕ
unfolding can_read
get_byte m =
    if can_read 1 m
    then record {
      value = m.buffer m.position;
      message = record m { position = u16 (m.position + 1) };
    }
    else record { value = 0; message = record m { overrun = true } }

pub get_previous_byte : Message → Read ℕ
get_previous_byte m =
    let p = u16 (m.position + 2 ^ 16 - 1) in
    record { value = m.buffer p; message = record m { position = p } }

-- The part of `getString` that knows the length.
pub get_chars : ℕ → Message → Read (List ℕ)
unfolding can_read
get_chars string_len m =
    if can_read string_len m
    then record {
      value = read_at string_len m.position m.buffer;
      message = record m { position = u16 (m.position + string_len) };
    }
    else record { value = []; message = record m { overrun = true } }

pub get_string : ℕ → Message → Read (List ℕ)
get_string string_len m =
    if string_len == 0 then get_chars (get 2 m).value (get 2 m).message else get_chars string_len m

pub get_position : Message → Read Position
get_position m =
    let x = get 2 m in
    let y = get 2 x.message in
    let z = get_byte y.message in
    record { value = record { x = x.value; y = y.value; z = z.value }; message = z.message }

-- `skipBytes` of a count, which may be negative: its pattern of 16 bits.
pub skip_bytes : ℕ → Message → Message
skip_bytes count m = record m { position = u16 (m.position + count) }

-- What every writing operation does once it knows that the bytes fit.
abbrev pub written : List ℕ → Message → Message
written bytes m = record m {
  buffer = write_at m.position bytes m.buffer;
  position = u16 (m.position + length bytes);
  length_of = u16 (m.length_of + length bytes);
}

pub add_byte : ℕ → Message → Message
unfolding can_add
add_byte value m =
    if can_add 1 m
    then record m {
      buffer = update m.buffer m.position value;
      position = u16 (m.position + 1);
      length_of = u16 (m.length_of + 1);
    }
    else m

-- `add<T>`, by the size of `T`.
pub add : ℕ → ℕ → Message → Message
unfolding can_add
add size value m = if can_add size m then written (le_bytes size value) m else m

pub add_bytes : List ℕ → Message → Message
unfolding can_add
add_bytes bytes m =
    if not (can_add (length bytes) m) || ltb 8192 (length bytes) then m else written bytes m

pub add_string : List ℕ → Message → Message
unfolding can_add add
add_string value m =
    if not (can_add (length value + 2) m) || ltb 8192 (length value)
    then m
    else written value (add 2 (length value) m)

abbrev pub padding : ℕ → List ℕ
padding zero = []
padding (suc n) = 0x33 ∷ padding n

-- The padding is counted, and the place stays before it.
unfoldable pub add_padding_bytes : ℕ → Message → Message
unfolding can_add
add_padding_bytes n m =
    if can_add n m
    then record m {
      buffer = write_at m.position (padding n) m.buffer;
      length_of = u16 (m.length_of + n);
    }
    else m

pub add_position : Position → Message → Message
add_position pos m = add_byte pos.z (add 2 pos.y (add 2 pos.x m))

pub set_buffer_position : ℕ → Message → Message
set_buffer_position p m = record m { position = u16 p }

unfoldable pub set_length : ℕ → Message → Message
set_length n m = record m { length_of = u16 n }

-- `decodeHeader`: the first two bytes become the length.
pub decode_header : Message → Read ℕ
decode_header m =
    let size = bit_or (m.buffer 0) (m.buffer 1 * 2 ^ 8) in
    record { value = u16 size; message = record m { length_of = u16 size } }
