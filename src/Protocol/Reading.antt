-- ===== src/Protocol/Reading.antt =====
-- Both directions of the frames of source/src/protocol.cpp together.
use otg_premium_version.Common.{
  ℕ, ◌+◌, ◌-◌, ◌%◌, ◌<◌, true, false, ◌||◌, Option, none, some, List, [], ◌∷◌, ◌++◌, if◌then◌else◌,
  length, length-append, ◌≡◌, refl, arith, ◌∙◌, ap,
}
use otg_premium_version.NetworkMessage.{Message, padding}
use otg_premium_version.NetworkMessage.Bytes.{le_bytes, read_at}
use otg_premium_version.Protocol.{
  Protocol, OutputMessage, receive, xtea_decrypt, on_recv_message, on_send_message, frame,
}
use otg_premium_version.Adler.{adler_checksum}
use otg_premium_version.Protocol.Frames.{missing, length-frame}
use otg_premium_version.Protocol.Copies.{length-encrypt, length-padding, padding-IsBytes}
use otg_premium_version.Protocol.Sending.{
  prefixed, up_to_block, checked, kind_of, IsSendable, frame-on_send_message,
}
use otg_premium_version.Xtea.{encrypt, decrypt}
use otg_premium_version.Xtea.Roundtrip.{IsBytes, decrypt-encrypt}
use otg_premium_version.Protocol.Receiving.{
  received, receive-prefixed, opened, xtea_decrypt-opened, opened-bytes, received-inner,
}

checked-word :
    (p : Protocol) (ys : List ℕ)
    → p.checksum_enabled || p.compact_crypt ≡ true
    → checked (kind_of p) p.sequence_number ys
      ≡ le_bytes 4 (if p.compact_crypt then p.sequence_number else adler_checksum ys) ++ ys
checked-word p ys h = ground arith

IsBytes-append : (xs ys : List ℕ) → IsBytes xs → IsBytes ys → IsBytes (xs ++ ys)
IsBytes-append [] ys h g = g
IsBytes-append (x ∷ xs) ys h g = (h.0, IsBytes-append xs ys h.1 g)

-- The place and the bytes of a message.
abbrev contents : Option Message → Option (ℕ × List ℕ)
contents none = none
contents (some m) = some (m.position, read_at m.length_of m.position m.buffer)

abbrev handled : ℕ → Protocol → Option Message → Option Message
handled initial p none = none
handled initial p (some m) = on_recv_message initial p m

-- What parsePacket is given of a stream: where in the buffer it starts, and its bytes.
abbrev pub read_frame : ℕ → Protocol → List ℕ → Message → Option (ℕ × List ℕ)
read_frame initial p stream m = contents (handled initial p (receive stream m))

on_recv_message-opened :
    (initial : ℕ) (p : Protocol) (m m1 : Message)
    → p.encryption_enabled ≡ true
    → xtea_decrypt initial p.key m ≡ (m1, true)
    → on_recv_message initial p m ≡ some m1
unfolding on_recv_message
on_recv_message-opened initial p m m1 e h = rw (e, h) refl

read_frame-prefixed :
    (initial initial' v : ℕ) (p : Protocol) (xs rest : List ℕ) (m : Message)
    → p.encryption_enabled ≡ true
    → 0 < initial
    → 0 < initial'
    → IsBytes xs
    → length xs < 65506
    → read_frame initial' p
        (prefixed (le_bytes 4 v ++ encrypt initial (up_to_block (prefixed xs)) p.key) ++ rest)
        m
      ≡ some (8, xs)
unfolding le_bytes
read_frame-prefixed initial initial' v p xs rest m enc pos pos' bytes short =
    let plain = up_to_block (prefixed xs) in
    let pad = padding (missing (length (prefixed xs))) in
    let inner = encrypt initial plain p.key in
    let body = le_bytes 4 v ++ inner in
    let held = length-encrypt initial plain p.key pos in
    let spread = length-append xs pad in
    let filled = length-padding (missing (length (prefixed xs))) in
    let plain-IsBytes : IsBytes plain =
      IsBytes-append (prefixed xs) pad (omega arith, (omega arith, bytes))
        (padding-IsBytes (missing (length (prefixed xs)))) in
    let m1 = received body m in
    let size : length inner ≡ length xs + length pad + 2 = omega (arith, held, spread) in
    let blocks : (length xs + length pad + 2) % 8 ≡ 0 = omega (arith, filled) in
    let less : length xs + length pad < 65513 = omega (arith, filled) in
    let taken : length body + 2 - 6 ≡ length inner = omega arith in
    let opening : xtea_decrypt initial' p.key m1 ≡ (opened plain xs m1, true) =
      xtea_decrypt-opened initial' p.key xs pad m1 refl (omega (arith, size)) blocks
        (omega (arith, less))
        (ap (λ (n : ℕ). decrypt initial' (read_at n 6 m1.buffer) p.key) taken
          ∙ ap (λ (ys : List ℕ). decrypt initial' ys p.key) (received-inner v inner m)
          ∙ decrypt-encrypt initial initial' plain p.key pos pos' plain-IsBytes) in
    let taking = receive-prefixed body rest m (omega arith) (omega (arith, size, less)) in
    ap (λ r. contents (handled initial' p r)) taking
    ∙ ap contents (on_recv_message-opened initial' p m1 (opened plain xs m1) enc opening)
    ∙ ap (λ (ys : List ℕ). some (8, ys)) (opened-bytes xs pad m1)

-- What onSendMessage makes of a message of bytes with a checksum or a sequence number, with
-- encryption and not raw, is read by a connection and a protocol with the same key as the bytes of
-- the message, at place 8 of the buffer, whatever follows in the stream and whatever the buffer held. The
-- message starts at place 8 and leaves room for a padding; the two ciphers may be built for
-- different block sizes, which are not 0.
pub read_frame-on_send_message :
    (initial initial' : ℕ) (p : Protocol) (o : OutputMessage) (rest : List ℕ) (m : Message)
    → 0 < initial
    → 0 < initial'
    → IsSendable o
    → IsBytes (frame o)
    → p.raw_messages ≡ false
    → p.encryption_enabled ≡ true
    → p.checksum_enabled || p.compact_crypt ≡ true
    → read_frame initial' p (frame (on_send_message initial p o).0 ++ rest) m ≡ some (8, frame o)
read_frame-on_send_message initial initial' p o rest m pos pos' h bytes raw enc word =
    let inner = encrypt initial (up_to_block (prefixed (frame o))) p.key in
    let sent : frame (on_send_message initial p o).0
        ≡ prefixed (
            le_bytes 4 (if p.compact_crypt then p.sequence_number else adler_checksum inner)
            ++ inner) =
      frame-on_send_message initial p o pos h
      ∙ rw (raw, enc) (ap prefixed (checked-word p inner word)) in
    ap (λ (xs : List ℕ). read_frame initial' p (xs ++ rest) m) sent
    ∙ read_frame-prefixed initial initial'
        (if p.compact_crypt then p.sequence_number else adler_checksum inner) p (frame o) rest m enc
        pos pos' bytes (omega (arith, length-frame o))
