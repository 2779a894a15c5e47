-- ===== src/Xtea/Tests.antt =====
-- Runs of the cipher, and the theorems at concrete inputs.
use otg_premium_version.Common.{ℕ, ◌≡◌, refl, List, [], ◌∷◌, arith}
use otg_premium_version.Xtea.{Key, encrypt, decrypt}
use otg_premium_version.Xtea.Blocks.{map_blocks}
use otg_premium_version.Xtea.Roundtrip.{IsBytes, encrypt_block, encrypt_blockwise, decrypt-encrypt}

abbrev key : Key
key = record { k0 = 1; k1 = 2; k2 = 3; k3 = 0xffff_ffff }

-- Two blocks and three bytes that are left over.
abbrev message : List ℕ
message = 1 ∷ 2 ∷ 3 ∷ 4 ∷ 5 ∷ 6 ∷ 7 ∷ 8 ∷ 255 ∷ 0 ∷ 17 ∷ 33 ∷ 10 ∷ 20 ∷ 30 ∷ 40 ∷ 9 ∷ 8 ∷ 7 ∷ []

message-IsBytes : IsBytes message
message-IsBytes = omega arith

short_message_stays : encrypt 2 (1 ∷ 2 ∷ 3 ∷ []) key ≡ 1 ∷ 2 ∷ 3 ∷ []
unfolding encrypt
short_message_stays = refl

encrypt_blockwise_example : encrypt 8 message key ≡ map_blocks (encrypt_block key) message
encrypt_blockwise_example = encrypt_blockwise 8 message key (omega arith)

decrypt-encrypt_example : decrypt 32 (encrypt 2 message key) key ≡ message
decrypt-encrypt_example =
    decrypt-encrypt 2 32 message key (omega arith) (omega arith) message-IsBytes

-- The published test vector of the cipher, its words in the order of bytes that the code reads.
abbrev vector_key : Key
vector_key = record { k0 = 0x00010203; k1 = 0x04050607; k2 = 0x08090a0b; k3 = 0x0c0d0e0f }

published_vector :
    encrypt 1 (0x44 ∷ 0x43 ∷ 0x42 ∷ 0x41 ∷ 0x48 ∷ 0x47 ∷ 0x46 ∷ 0x45 ∷ []) vector_key
    ≡ 0xd0 ∷ 0xf3 ∷ 0x7d ∷ 0x49 ∷ 0xb5 ∷ 0x2c ∷ 0x61 ∷ 0x72 ∷ []
unfolding encrypt
published_vector = refl
