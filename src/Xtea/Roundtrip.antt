-- ===== src/Xtea/Roundtrip.antt =====
-- `encrypt` and `decrypt` of source/src/xtea.cpp undo one another on bytes.
use otg_premium_version.Common.{
  ℕ, ◌*◌, ◌^◌, ◌<◌, ◌≡◌, refl, List, ◌∷◌, arith, ap, ◌∙◌, word, All, u32, word-lt, word-byte,
  byte-word,
}
use otg_premium_version.Xtea.{
  Key, Pair, store, encrypt_blocks, decrypt_blocks, encrypt, decrypt, delta,
}
use otg_premium_version.Xtea.Rounds.{
  IsPair, encrypt_pair, decrypt_pair, encrypt_pair-IsPair, decrypt_pair-encrypt_pair,
  encrypt_rounds-map, decrypt_rounds-map, sum_after,
}
use otg_premium_version.Xtea.Blocks.{map_blocks, Blockwise, store-map-load, run-map_blocks}

abbrev pub IsBytes : List ℕ → Type 0
IsBytes = All (λ x. x < 256)

-- One block: the pair of words through the 32 rounds.
abbrev pub encrypt_block : Key → Pair → Pair
encrypt_block k p = encrypt_pair k 32 0 p

abbrev pub decrypt_block : Key → Pair → Pair
decrypt_block k p = decrypt_pair k 32 (u32 (delta * 2 ^ 5)) p

encrypt_blocks-Blockwise : (k : Key) → Blockwise (encrypt_blocks k) (encrypt_block k)
unfolding encrypt_blocks
encrypt_blocks-Blockwise k n xs h =
    rw (encrypt_rounds-map k 32 0) (store-map-load (encrypt_block k) n xs h)

decrypt_blocks-Blockwise : (k : Key) → Blockwise (decrypt_blocks k) (decrypt_block k)
unfolding decrypt_blocks
decrypt_blocks-Blockwise k n xs h =
    rw (decrypt_rounds-map k 32 (u32 (delta * 2 ^ 5))) (store-map-load (decrypt_block k) n xs h)

-- From any block size at which a build may start, the encryption puts each whole block of eight
-- bytes through the 32 rounds by itself and leaves the bytes behind the last one: the builds agree.
pub encrypt_blockwise :
    (initial : ℕ) (input : List ℕ) (k : Key)
    → 0 < initial
    → encrypt initial input k ≡ map_blocks (encrypt_block k) input
unfolding encrypt
encrypt_blockwise initial input k pos =
    run-map_blocks (encrypt_blocks k) (encrypt_block k) (encrypt_blocks-Blockwise k) initial initial
      input pos (omega arith)

pub decrypt_blockwise :
    (initial : ℕ) (input : List ℕ) (k : Key)
    → 0 < initial
    → decrypt initial input k ≡ map_blocks (decrypt_block k) input
unfolding decrypt
decrypt_blockwise initial input k pos =
    run-map_blocks (decrypt_blocks k) (decrypt_block k) (decrypt_blocks-Blockwise k) initial initial
      input pos (omega arith)

-- The sum from which the decryption starts is the one at which the encryption ends.
last_sum : u32 (delta * 2 ^ 5) ≡ sum_after 32 0
unfolding sum_after
last_sum = refl

decrypt_block-encrypt_block :
    (k : Key) (p : Pair) → IsPair p → decrypt_block k (encrypt_block k p) ≡ p
decrypt_block-encrypt_block k p h = rw last_sum (decrypt_pair-encrypt_pair k 32 0 p (omega arith) h)

map_blocks-map_blocks :
    (f g : Pair → Pair)
    → ((p : Pair) → IsPair p → IsPair (f p))
    → ((p : Pair) → IsPair p → g (f p) ≡ p)
    → (xs : List ℕ) → IsBytes xs
    → map_blocks g (map_blocks f xs) ≡ xs
unfolding map_blocks store
map_blocks-map_blocks f g keeps undoes (x0 ∷ x1 ∷ x2 ∷ x3 ∷ x4 ∷ x5 ∷ x6 ∷ x7 ∷ rest)
      (h0, (h1, (h2, (h3, (h4, (h5, (h6, (h7, hs)))))))) =
    let p : Pair = record { left = word x0 x1 x2 x3; right = word x4 x5 x6 x7 } in
    let fits : IsPair p = record {
      left_fits = word-lt x0 x1 x2 x3;
      right_fits = word-lt x4 x5 x6 x7;
    } in
    let low = byte-word x0 x1 x2 x3 h0 h1 h2 h3 in
    let high = byte-word x4 x5 x6 x7 h4 h5 h6 h7 in
    rw
      (
        word-byte (f p).left (keeps p fits).left_fits,
        word-byte (f p).right (keeps p fits).right_fits,
        undoes p fits,
        low.0,
        low.1,
        low.2,
        low.3,
        high.0,
        high.1,
        high.2,
        high.3,
        map_blocks-map_blocks f g keeps undoes rest hs,
      )
      refl
map_blocks-map_blocks f g keeps undoes xs h = refl

-- Decrypting with the same key gives back every message of bytes, of any length, also where the
-- two ends were built for other processors.
pub decrypt-encrypt :
    (initial initial' : ℕ) (input : List ℕ) (k : Key)
    → 0 < initial
    → 0 < initial'
    → IsBytes input
    → decrypt initial' (encrypt initial input k) k ≡ input
decrypt-encrypt initial initial' input k pos pos' h =
    decrypt_blockwise initial' (encrypt initial input k) k pos'
    ∙ ap (map_blocks (decrypt_block k)) (encrypt_blockwise initial input k pos)
    ∙ map_blocks-map_blocks (encrypt_block k) (decrypt_block k) (encrypt_pair-IsPair k 32 0)
        (decrypt_block-encrypt_block k) input h
