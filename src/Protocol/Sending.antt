-- ===== src/Protocol/Sending.antt =====
-- What onSendMessage of source/src/protocol.cpp makes of a message, as bytes.
use otg_premium_version.Common.{
  ℕ, ◌+◌, ◌^◌, ◌≤◌, ◌<◌, not, List, ◌++◌, ◌==◌, if◌then◌else◌, length, ◌≡◌, refl, arith, ◌∙◌, ap,
  sym, Bool-cases, inl, inr,
}
use otg_premium_version.NetworkMessage.{padding, max_body_length}
use otg_premium_version.NetworkMessage.Bytes.{le_bytes}
use otg_premium_version.Adler.{adler_checksum}
use otg_premium_version.Protocol.{
  OutputMessage, Protocol, add_header, write_message_length, add_crypto_header, xtea_encrypt,
  on_send_message, frame,
}
use otg_premium_version.Protocol.Frames.{
  IsOpen, missing, length-frame, frame-add_header, add_header-fields, frame-xtea_encrypt,
  xtea_encrypt-fields,
}
use otg_premium_version.Xtea.{encrypt}

-- Bytes with their number in front.
abbrev pub prefixed : List ℕ → List ℕ
prefixed xs = le_bytes 2 (length xs) ++ xs

-- Bytes filled up to whole blocks.
abbrev pub up_to_block : List ℕ → List ℕ
up_to_block xs = xs ++ padding (missing (length xs))

-- The word in front of what was encrypted, if there is one: 1 for the checksum, 2 for the number.
abbrev pub checked : ℕ → ℕ → List ℕ → List ℕ
checked kind sequence xs =
    if kind == 1
    then le_bytes 4 (adler_checksum xs) ++ xs
    else if kind == 2
    then le_bytes 4 sequence ++ xs
    else xs

abbrev pub kind_of : Protocol → ℕ
kind_of p = if not p.compact_crypt then if p.checksum_enabled then 1 else 0 else 2

frame-write_message_length :
    (o : OutputMessage)
    → 2 ≤ o.output_buffer_start
    → o.output_buffer_start ≤ 8
    → 2 + o.message.length_of < 2 ^ 16
    → frame (write_message_length o) ≡ prefixed (frame o)
unfolding write_message_length
frame-write_message_length o room low fits =
    rw (length-frame o) (frame-add_header 2 o.message.length_of o room low fits)

-- A word and then the length.
two_headers :
    (v : ℕ) (o : OutputMessage)
    → o.output_buffer_start ≡ 6
    → 6 + o.message.length_of < 2 ^ 16
    → frame (write_message_length (add_header 4 v o)) ≡ prefixed (le_bytes 4 v ++ frame o)
two_headers v o start fits =
    let low : o.output_buffer_start ≤ 8 = omega arith in
    let high : 4 ≤ o.output_buffer_start = omega arith in
    let fields = add_header-fields 4 v o high low (omega arith) in
    frame-write_message_length (add_header 4 v o) (omega arith) (omega arith) (omega arith)
    ∙ ap prefixed (frame-add_header 4 v o high low (omega arith))

frame-add_crypto_header :
    (kind sequence : ℕ) (o : OutputMessage)
    → o.output_buffer_start ≡ 6
    → 6 + o.message.length_of < 2 ^ 16
    → frame (add_crypto_header kind sequence o).0 ≡ prefixed (checked kind sequence (frame o))
unfolding add_crypto_header frame
frame-add_crypto_header kind sequence o start fits = elim (Bool-cases (kind == 1)) [
  | inl e ↦ rw e (two_headers (adler_checksum (frame o)) o start fits)
  | inr e ↦ elim (Bool-cases (kind == 2)) [
    | inl g ↦ rw (e, g) (two_headers sequence o start fits)
    | inr g ↦ rw (e, g) (frame-write_message_length o (omega arith) (omega arith) (omega arith))
  ]
]

-- A message as it comes from its writers, with room for the headers and the padding.
abbrev pub IsSendable : OutputMessage → Type 0
IsSendable o =
    (o.output_buffer_start ≡ 8)
    × (o.message.position ≡ 8 + o.message.length_of)
    × (o.message.position + 7 < max_body_length)

-- What is sent for the bytes of a message.
abbrev pub sealed : ℕ → Protocol → List ℕ → List ℕ
sealed initial p xs =
    if p.raw_messages
    then xs
    else if p.encryption_enabled
    then prefixed
        (checked (kind_of p) p.sequence_number (encrypt initial (up_to_block (prefixed xs)) p.key))
    else prefixed xs

length_written :
    (o : OutputMessage)
    → IsSendable o
    → ((write_message_length o).output_buffer_start ≡ 6)
      × ((write_message_length o).message.length_of ≡ 2 + o.message.length_of)
unfolding write_message_length
length_written o h =
    let fields =
      add_header-fields 2 o.message.length_of o (omega arith) (omega arith) (omega arith) in
    omega arith

length_written-IsOpen : (o : OutputMessage) → IsSendable o → IsOpen (write_message_length o)
unfolding write_message_length add_header
length_written-IsOpen o h = omega arith

-- The frame of a message that is sent is its bytes with their length, filled up to whole blocks and
-- encrypted, behind the checksum or the sequence number where the protocol uses one, behind the
-- length of all this; raw messages are sent as they are, and without encryption only the length is
-- put in front. This holds for any block size of the cipher but 0, and for a message that starts at
-- place 8 and leaves room for a padding.
pub frame-on_send_message :
    (initial : ℕ) (p : Protocol) (o : OutputMessage)
    → 0 < initial
    → IsSendable o
    → frame (on_send_message initial p o).0 ≡ sealed initial p (frame o)
unfolding on_send_message
frame-on_send_message initial p o pos h = elim (Bool-cases p.raw_messages) [
  | inl r ↦ rw r refl
  | inr r ↦
      let o1 = write_message_length o in
      let written = length_written o h in
      let open1 = length_written-IsOpen o h in
      let first = frame-write_message_length o (omega arith) (omega arith) (omega arith) in
      elim (Bool-cases p.encryption_enabled) [
        | inr e ↦ rw (r, e) first
        | inl e ↦
            let fields = xtea_encrypt-fields initial pos p.key o1 open1 in
            rw (r, e)
              (frame-add_crypto_header (kind_of p) p.sequence_number (xtea_encrypt initial p.key o1)
                  (omega arith) (omega arith)
                ∙ ap (λ (xs : List ℕ). prefixed (checked (kind_of p) p.sequence_number xs))
                    (frame-xtea_encrypt initial pos p.key o1 open1
                      ∙ ap (λ (n : ℕ). encrypt initial (frame o1 ++ padding (missing n)) p.key)
                          (sym (length-frame o1))
                      ∙ ap (λ (xs : List ℕ). encrypt initial (up_to_block xs) p.key) first))
      ]
]
