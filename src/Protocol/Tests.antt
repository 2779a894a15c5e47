-- ===== src/Protocol/Tests.antt =====
-- Runs of the framing, and the theorems at concrete inputs.
use otg_premium_version.Common.{ℕ, true, false, List, [], ◌∷◌, ◌++◌, none, some, ◌≡◌, refl, arith}
use otg_premium_version.NetworkMessage.{Message}
use otg_premium_version.NetworkMessage.Bytes.{write_at, read_at, le_bytes}
use otg_premium_version.Protocol.{Protocol, OutputMessage, frame, on_send_message, receive}
use otg_premium_version.Protocol.Sending.{IsSendable, sealed, frame-on_send_message}
use otg_premium_version.Protocol.Reading.{read_frame, read_frame-on_send_message}
use otg_premium_version.Xtea.Roundtrip.{IsBytes}

abbrev hello : List ℕ
hello = 104 ∷ 101 ∷ 121 ∷ []

abbrev unread : Message
unread = record { length_of = 0; position = 8; overrun = false; buffer = λ i. 7 }

abbrev greeting : OutputMessage
greeting = record {
  message = record {
    length_of = 3;
    position = 11;
    overrun = false;
    buffer = write_at 8 hello (λ i. 7);
  };
  output_buffer_start = 8;
}

abbrev game : Protocol
game = record {
  key = record { k0 = 1; k1 = 2; k2 = 3; k3 = 0xffff_ffff };
  sequence_number = 0;
  encryption_enabled = true;
  checksum_enabled = true;
  compact_crypt = false;
  raw_messages = false;
}

abbrev status : Protocol
status = record game { encryption_enabled = false }

greeting-IsSendable : IsSendable greeting
greeting-IsSendable = (refl, refl, omega arith)

greeting-IsBytes : IsBytes (frame greeting)
unfolding frame write_at read_at
greeting-IsBytes = omega arith

plain_runs : frame (on_send_message 8 status greeting).0 ≡ 3 ∷ 0 ∷ hello
unfolding on_send_message frame read_at write_at le_bytes
plain_runs = refl

short_stream_waits : receive (9 ∷ 0 ∷ 1 ∷ []) unread ≡ none
unfolding receive write_at
short_stream_waits = refl

frame-on_send_message_example :
    frame (on_send_message 8 game greeting).0 ≡ sealed 8 game (frame greeting)
frame-on_send_message_example =
    frame-on_send_message 8 game greeting (omega arith) greeting-IsSendable

read_frame-on_send_message_example :
    read_frame 32 game (frame (on_send_message 8 game greeting).0 ++ hello) unread
    ≡ some (8, frame greeting)
read_frame-on_send_message_example =
    read_frame-on_send_message 8 32 game greeting hello unread (omega arith) (omega arith)
      greeting-IsSendable greeting-IsBytes refl refl refl
