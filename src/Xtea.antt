-- ===== src/Xtea.antt =====
-- source/src/xtea.cpp: the block cipher of the game's connections, as the code runs it, on many
-- blocks of eight bytes at a time.
pub mod Rounds
pub mod Blocks
pub mod Roundtrip
mod Tests
use Prim.Native.Nat.{bit_and, bit_xor}
use otg_premium_version.Common.{
  ℕ, zero, suc, ◌+◌, ◌-◌, ◌*◌, ◌/◌, ◌%◌, ◌^◌, Bool, true, false, List, [], ◌∷◌, ◌++◌, ◌==◌,
  if◌then◌else◌, length, take, drop, u32, add32, sub32, word, byte,
}

pub record Key : Type 0 where
  pub k0 : ℕ
  pub k1 : ℕ
  pub k2 : ℕ
  pub k3 : ℕ

-- `k[i]`, for the indices `… & 3`.
abbrev pub key_at : Key → ℕ → ℕ
key_at k i = if i == 0 then k.k0 else if i == 1 then k.k1 else if i == 2 then k.k2 else k.k3

abbrev pub delta : ℕ
delta = 0x9E3779B9

-- `left[j]` and `right[j]`.
pub record Pair : Type 0 where
  pub left : ℕ
  pub right : ℕ

-- `(((v << 4) ^ (v >> 5)) + v) ^ (sum + word)`, a `uint32_t`.
pub mix : ℕ → ℕ → ℕ → ℕ
mix v sum key_word =
    u32 (bit_xor (add32 (bit_xor (u32 (v * 2 ^ 4)) (v / 2 ^ 5)) v) (add32 sum key_word))

-- `k[sum & 3]` and `k[(sum >> 11) & 3]`.
pub left_key : Key → ℕ → ℕ
left_key k sum = key_at k (bit_and sum 3)

pub right_key : Key → ℕ → ℕ
right_key k sum = key_at k (bit_and (sum / 2 ^ 11) 3)

-- The two loops over `j` in a round of `XTEA_encrypt`.
pub add_left : Key → ℕ → List Pair → List Pair
unfolding mix left_key
add_left k sum [] = []
add_left k sum (p ∷ ps) =
    record p { left = add32 p.left (mix p.right sum (left_key k sum)) } ∷ add_left k sum ps

pub add_right : Key → ℕ → List Pair → List Pair
unfolding mix right_key
add_right k sum [] = []
add_right k sum (p ∷ ps) =
    record p { right = add32 p.right (mix p.left sum (right_key k sum)) } ∷ add_right k sum ps

-- The rounds that are left, with the running `sum`.
pub encrypt_rounds : Key → ℕ → ℕ → List Pair → List Pair
unfolding add_left add_right
encrypt_rounds k zero sum ps = ps
encrypt_rounds k (suc n) sum ps =
    encrypt_rounds k n (add32 sum delta) (add_right k (add32 sum delta) (add_left k sum ps))

-- The two loops over `j` in a round of `XTEA_decrypt`.
pub sub_right : Key → ℕ → List Pair → List Pair
unfolding mix right_key
sub_right k sum [] = []
sub_right k sum (p ∷ ps) =
    record p { right = sub32 p.right (mix p.left sum (right_key k sum)) } ∷ sub_right k sum ps

pub sub_left : Key → ℕ → List Pair → List Pair
unfolding mix left_key
sub_left k sum [] = []
sub_left k sum (p ∷ ps) =
    record p { left = sub32 p.left (mix p.right sum (left_key k sum)) } ∷ sub_left k sum ps

pub decrypt_rounds : Key → ℕ → ℕ → List Pair → List Pair
unfolding sub_left sub_right
decrypt_rounds k zero sum ps = ps
decrypt_rounds k (suc n) sum ps =
    decrypt_rounds k n (sub32 sum delta) (sub_left k (sub32 sum delta) (sub_right k sum ps))

-- The loop that reads `BLOCK_SIZE` blocks; the drivers below never hand it fewer bytes.
pub load : ℕ → List ℕ → List Pair
unfolding word
load (suc n) (a ∷ b ∷ c ∷ d ∷ e ∷ f ∷ g ∷ h ∷ rest) =
    record { left = word a b c d; right = word e f g h } ∷ load n rest
load _ _ = []

-- The loop that writes them back.
unfoldable pub store : List Pair → List ℕ
store [] = []
store (p ∷ ps) =
    byte 0 p.left
    ∷ byte 1 p.left
    ∷ byte 2 p.left
    ∷ byte 3 p.left
    ∷ byte 0 p.right
    ∷ byte 1 p.right
    ∷ byte 2 p.right
    ∷ byte 3 p.right
    ∷ store ps

pub encrypt_blocks : Key → ℕ → List ℕ → List ℕ
unfolding encrypt_rounds load store
encrypt_blocks k block_size input = store (encrypt_rounds k 32 0 (load block_size input))

-- `delta << 5`
pub decrypt_blocks : Key → ℕ → List ℕ → List ℕ
unfolding decrypt_rounds load store
decrypt_blocks k block_size input =
    store (decrypt_rounds k 32 (u32 (delta * 2 ^ 5)) (load block_size input))

module _ (op : ℕ → List ℕ → List ℕ) where
  -- The loop `for (i = 0; i < blocks; i += step)`, by the steps that are left.
  pub each_step : ℕ → ℕ → List ℕ → List ℕ
  each_step block_size zero input = []
  each_step block_size (suc n) input =
      op block_size (take (block_size * 8) input)
      ++ each_step block_size n (drop (block_size * 8) input)

  -- `XTEA<Encrypt, BlockSize>`: `length & ~(step - 1)` for a power of two is the length in whole
  -- steps. The instances of the template go down to block size 1; the fuel counts them.
  pub run : ℕ → ℕ → List ℕ → List ℕ
  unfolding each_step
  run zero block_size input = input
  run (suc fuel) block_size input =
      let steps = length input / (block_size * 8) in
      let rest = drop (steps * (block_size * 8)) input in
      let next = run fuel ((block_size + 1) / 2) rest in
      each_step block_size steps input ++ (if block_size == 1 then rest else next)

-- `initial` is `InitialBlockSize`, which the build chooses by the processor: 128, 32, 8, 2 or 1.
pub encrypt : ℕ → List ℕ → Key → List ℕ
unfolding run encrypt_blocks
encrypt initial input k = run (encrypt_blocks k) initial initial input

pub decrypt : ℕ → List ℕ → Key → List ℕ
unfolding run decrypt_blocks
decrypt initial input k = run (decrypt_blocks k) initial initial input
