-- ===== src/Protocol.antt =====
-- The framing of messages: onSendMessage, XTEA_encrypt and XTEA_decrypt of source/src/protocol.cpp,
-- the headers of source/src/outputmessage.h, and how source/src/connection.cpp reads a frame.
-- The checks of the login, of the rate and of replayed packets, which close a connection, are left
-- out. `initial` is the block size for which the cipher was built.
pub mod Copies
pub mod Frames
pub mod Sending
pub mod Receiving
pub mod Reading
mod Tests
use Prim.Native.Nat.{bit_or}
use otg_premium_version.Common.{
  ℕ, zero, suc, ◌+◌, ◌-◌, ◌*◌, ◌/◌, ◌%◌, ◌^◌, Bool, true, false, ◌&&◌, ◌||◌, not, Option, none,
  some, List, [], ◌∷◌, ◌==◌, if◌then◌else◌, ltb, leb, length, take, drop,
}
use otg_premium_version.NetworkMessage.{
  Message, Read, u16, get, set_length, add_padding_bytes, networkmessage_maxsize,
  initial_buffer_position,
}
use otg_premium_version.NetworkMessage.Bytes.{le_bytes, write_at, read_at}
use otg_premium_version.Xtea.{Key, encrypt, decrypt}
use otg_premium_version.Adler.{adler_checksum}

pub record OutputMessage : Type 0 where
  pub message : Message
  pub output_buffer_start : ℕ

-- `add_header<T>`, by the size of `T`.
pub add_header : ℕ → ℕ → OutputMessage → OutputMessage
add_header size header o =
    let start = u16 (o.output_buffer_start + 2 ^ 16 - size) in
    record {
      message = record (o.message) {
        buffer = write_at start (le_bytes size header) o.message.buffer;
        length_of = u16 (o.message.length_of + size);
      };
      output_buffer_start = start;
    }

-- `append`, which does not ask whether the bytes fit.
pub append : Message → OutputMessage → OutputMessage
append msg o = record o {
  message = record (o.message) {
    buffer = write_at o.message.position (read_at msg.length_of 8 msg.buffer) o.message.buffer;
    length_of = u16 (o.message.length_of + msg.length_of);
    position = u16 (o.message.position + msg.length_of);
  };
}

pub write_message_length : OutputMessage → OutputMessage
unfolding add_header
write_message_length o = add_header 2 o.message.length_of o

-- With the sequence number that it leaves.
pub add_crypto_header : ℕ → ℕ → OutputMessage → OutputMessage × ℕ
unfolding add_header write_message_length
add_crypto_header add_checksum sequence o =
    if add_checksum == 1
    then (
      write_message_length (
          add_header 4
            (adler_checksum (read_at o.message.length_of o.output_buffer_start o.message.buffer))
            o),
      sequence,
    )
    else if add_checksum == 2
    then (write_message_length (add_header 4 sequence o), (sequence + 1) % 2 ^ 32)
    else (write_message_length o, sequence)

pub record Protocol : Type 0 where
  pub key : Key
  pub sequence_number : ℕ
  pub encryption_enabled : Bool
  pub checksum_enabled : Bool
  pub compact_crypt : Bool
  pub raw_messages : Bool

pub padded : OutputMessage → OutputMessage
unfolding add_padding_bytes
padded o =
    let padding_bytes = o.message.length_of % 8 in
    if padding_bytes == 0
    then o
    else record o { message = add_padding_bytes (8 - padding_bytes) o.message }

module _ (initial : ℕ) where
  pub xtea_encrypt : Key → OutputMessage → OutputMessage
  unfolding padded
  xtea_encrypt key o =
      let o1 = padded o in
      let start = o1.output_buffer_start in
      record o1 {
        message = record (o1.message) {
          buffer =
              write_at start
                (encrypt initial (read_at o1.message.length_of start o1.message.buffer) key)
                o1.message.buffer;
        };
      }

  pub on_send_message : Protocol → OutputMessage → OutputMessage × ℕ
  unfolding write_message_length xtea_encrypt add_crypto_header
  on_send_message p o =
      if p.raw_messages
      then (o, p.sequence_number)
      else let o1 = write_message_length o in
        if p.encryption_enabled
        then add_crypto_header
            (if not p.compact_crypt then if p.checksum_enabled then 1 else 0 else 2)
            p.sequence_number (xtea_encrypt p.key o1)
        else (o1, p.sequence_number)

  -- The sums are made in `int`: the lowest bits of a difference are those of the difference plus
  -- `2 ^ 32`, and behind the first test the message has at least six bytes.
  pub xtea_decrypt : Key → Message → Message × Bool
  unfolding get set_length
  xtea_decrypt key m =
      if not ((m.length_of + 2 ^ 32 - 6) % 8 == 0)
      then (m, false)
      else let input = read_at (m.length_of - 6) m.position m.buffer in
        let m1 = record m { buffer = write_at m.position (decrypt initial input key) m.buffer } in
        let inner = get 2 m1 in
        if ltb inner.message.length_of (inner.value + 8)
        then (inner.message, false)
        else (set_length inner.value inner.message, true)

  -- The message that parsePacket is given.
  pub on_recv_message : Protocol → Message → Option Message
  unfolding xtea_decrypt
  on_recv_message p m =
      if p.encryption_enabled
      then (if (xtea_decrypt p.key m).1 then some (xtea_decrypt p.key m).0 else none)
      else some m

-- The bytes that a connection sends of a message.
pub frame : OutputMessage → List ℕ
frame o = read_at o.message.length_of o.output_buffer_start o.message.buffer

-- parseHeader and the start of parsePacket: the two bytes of the length, then as many as they say,
-- and the word of the checksum. `none` where the connection is closed or waits for more.
pub receive : List ℕ → Message → Option Message
unfolding get
receive stream m =
    let header = write_at 0 (take 2 stream) m.buffer in
    let size = bit_or (header 0) (header 1 * 2 ^ 8) in
    if ltb (length stream) 2
    then none
    else if size == 0 || leb (networkmessage_maxsize - 16) size
    then none
    else if ltb (length stream) (size + 2)
    then none
    else let body : Message = record m {
      buffer = write_at 2 (take size (drop 2 stream)) header;
      length_of = u16 (size + 2);
      position = 2;
    } in
      some (get 4 body).message
