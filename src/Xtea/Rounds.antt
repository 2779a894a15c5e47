-- ===== src/Xtea/Rounds.antt =====
-- One block through the rounds of source/src/xtea.cpp, and back.
use otg_premium_version.Common.{
  ℕ, zero, suc, ◌^◌, ◌<◌, ◌≡◌, refl, List, [], ◌∷◌, arith, add32, sub32, ◌∙◌, ap, map,
}
use otg_premium_version.Xtea.{
  Key, Pair, delta, mix, left_key, right_key, add_left, add_right, sub_left, sub_right,
  encrypt_rounds, decrypt_rounds,
}

-- Both words fit 32 bits.
pub record IsPair (p : Pair) : Type 0 where
  pub left_fits : p.left < 2 ^ 32
  pub right_fits : p.right < 2 ^ 32

-- A round on one block, and the round that takes it back.
pub encrypt_round : Key → ℕ → Pair → Pair
encrypt_round k sum p =
    let l = add32 p.left (mix p.right sum (left_key k sum)) in
    let sum' = add32 sum delta in
    record { left = l; right = add32 p.right (mix l sum' (right_key k sum')) }

pub decrypt_round : Key → ℕ → Pair → Pair
decrypt_round k sum p =
    let r = sub32 p.right (mix p.left sum (right_key k sum)) in
    let sum' = sub32 sum delta in
    record { left = sub32 p.left (mix r sum' (left_key k sum')); right = r }

pub encrypt_pair : Key → ℕ → ℕ → Pair → Pair
encrypt_pair k zero sum p = p
encrypt_pair k (suc n) sum p = encrypt_pair k n (add32 sum delta) (encrypt_round k sum p)

pub decrypt_pair : Key → ℕ → ℕ → Pair → Pair
decrypt_pair k zero sum p = p
decrypt_pair k (suc n) sum p = decrypt_pair k n (sub32 sum delta) (decrypt_round k sum p)

-- The running sum behind `n` rounds.
unfoldable pub sum_after : ℕ → ℕ → ℕ
sum_after zero sum = sum
sum_after (suc n) sum = sum_after n (add32 sum delta)

sum_after-suc : (n sum : ℕ) → sum_after (suc n) sum ≡ add32 (sum_after n sum) delta
unfolding sum_after
sum_after-suc zero sum = refl
sum_after-suc (suc n) sum = sum_after-suc n (add32 sum delta)

sum_after-lt : (n sum : ℕ) → sum < 2 ^ 32 → sum_after n sum < 2 ^ 32
unfolding sum_after
sum_after-lt zero sum h = h
sum_after-lt (suc n) sum h = sum_after-lt n (add32 sum delta) (omega arith)

-- The last round split off.
encrypt_pair-suc :
    (k : Key) (n sum : ℕ) (p : Pair)
    → encrypt_pair k (suc n) sum p ≡ encrypt_round k (sum_after n sum) (encrypt_pair k n sum p)
unfolding encrypt_pair sum_after
encrypt_pair-suc k zero sum p = refl
encrypt_pair-suc k (suc n) sum p = encrypt_pair-suc k n (add32 sum delta) (encrypt_round k sum p)

encrypt_round-IsPair : (k : Key) (sum : ℕ) (p : Pair) → IsPair (encrypt_round k sum p)
unfolding encrypt_round
encrypt_round-IsPair k sum p = record { left_fits = omega arith; right_fits = omega arith }

pub encrypt_pair-IsPair :
    (k : Key) (n sum : ℕ) (p : Pair) → IsPair p → IsPair (encrypt_pair k n sum p)
unfolding encrypt_pair
encrypt_pair-IsPair k zero sum p h = h
encrypt_pair-IsPair k (suc n) sum p h =
    encrypt_pair-IsPair k n (add32 sum delta) (encrypt_round k sum p) (encrypt_round-IsPair k sum p)

mix-lt : (v sum w : ℕ) → mix v sum w < 2 ^ 32
unfolding mix
mix-lt v sum w = omega arith

sub32-add32 : (a b : ℕ) → a < 2 ^ 32 → b < 2 ^ 32 → sub32 (add32 a b) b ≡ a
sub32-add32 a b ha hb = omega arith

decrypt_round-encrypt_round :
    (k : Key) (sum : ℕ) (p : Pair)
    → sum < 2 ^ 32
    → IsPair p
    → decrypt_round k (add32 sum delta) (encrypt_round k sum p) ≡ p
unfolding decrypt_round encrypt_round
decrypt_round-encrypt_round k sum p hs h =
    let l : ℕ = add32 p.left (mix p.right sum (left_key k sum)) in
    let s : ℕ = add32 sum delta in
    rw
      (
        sub32-add32 p.right (mix l s (right_key k s)) h.right_fits (mix-lt l s (right_key k s)),
        sub32-add32 sum delta hs (omega arith),
        sub32-add32 p.left (mix p.right sum (left_key k sum)) h.left_fits
            (mix-lt p.right sum (left_key k sum)),
      )
      refl

-- The rounds of the decryption, from the sum at which the encryption ends, take it back.
pub decrypt_pair-encrypt_pair :
    (k : Key) (n sum : ℕ) (p : Pair)
    → sum < 2 ^ 32
    → IsPair p
    → decrypt_pair k n (sum_after n sum) (encrypt_pair k n sum p) ≡ p
unfolding decrypt_pair encrypt_pair sum_after
decrypt_pair-encrypt_pair k zero sum p hs h = refl
decrypt_pair-encrypt_pair k (suc n) sum p hs h =
    let s : ℕ = sum_after n sum in
    let q : Pair = encrypt_pair k n sum p in
    rw
      (
        sum_after-suc n sum,
        encrypt_pair-suc k n sum p,
        decrypt_pair,
        decrypt_round-encrypt_round k s q (sum_after-lt n sum hs) (encrypt_pair-IsPair k n sum p h),
        sub32-add32 s delta (sum_after-lt n sum hs) (omega arith),
      )
      (decrypt_pair-encrypt_pair k n sum p hs h)

map-map : (f g : Pair → Pair) (ps : List Pair) → map f (map g ps) ≡ map (λ p. f (g p)) ps
map-map f g [] = refl
map-map f g (p ∷ ps) = ap (◌∷◌ (f (g p))) (map-map f g ps)

-- The two loops over the blocks make one round on each.
add_right-add_left :
    (k : Key) (sum : ℕ) (ps : List Pair)
    → add_right k (add32 sum delta) (add_left k sum ps) ≡ map (encrypt_round k sum) ps
unfolding add_left add_right encrypt_round
add_right-add_left k sum [] = refl
add_right-add_left k sum (p ∷ ps) = ap (◌∷◌ (encrypt_round k sum p)) (add_right-add_left k sum ps)

sub_left-sub_right :
    (k : Key) (sum : ℕ) (ps : List Pair)
    → sub_left k (sub32 sum delta) (sub_right k sum ps) ≡ map (decrypt_round k sum) ps
unfolding sub_left sub_right decrypt_round
sub_left-sub_right k sum [] = refl
sub_left-sub_right k sum (p ∷ ps) = ap (◌∷◌ (decrypt_round k sum p)) (sub_left-sub_right k sum ps)

map_id : (ps : List Pair) → ps ≡ map (λ p. p) ps
map_id [] = refl
map_id (p ∷ ps) = ap (◌∷◌ p) (map_id ps)

-- The arrays of blocks go through the rounds block by block.
pub encrypt_rounds-map :
    (k : Key) (n sum : ℕ) (ps : List Pair)
    → encrypt_rounds k n sum ps ≡ map (encrypt_pair k n sum) ps
unfolding encrypt_rounds encrypt_pair
encrypt_rounds-map k zero sum ps = map_id ps
encrypt_rounds-map k (suc n) sum ps =
    ap (encrypt_rounds k n (add32 sum delta)) (add_right-add_left k sum ps)
    ∙ encrypt_rounds-map k n (add32 sum delta) (map (encrypt_round k sum) ps)
    ∙ map-map (encrypt_pair k n (add32 sum delta)) (encrypt_round k sum) ps

pub decrypt_rounds-map :
    (k : Key) (n sum : ℕ) (ps : List Pair)
    → decrypt_rounds k n sum ps ≡ map (decrypt_pair k n sum) ps
unfolding decrypt_rounds decrypt_pair
decrypt_rounds-map k zero sum ps = map_id ps
decrypt_rounds-map k (suc n) sum ps =
    ap (decrypt_rounds k n (sub32 sum delta)) (sub_left-sub_right k sum ps)
    ∙ decrypt_rounds-map k n (sub32 sum delta) (map (decrypt_round k sum) ps)
    ∙ map-map (decrypt_pair k n (sub32 sum delta)) (decrypt_round k sum) ps
