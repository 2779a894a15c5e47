-- ===== src/Xtea/Blocks.antt =====
-- The drivers of source/src/xtea.cpp against a description that takes one block at a time.
use otg_premium_version.Common.{
  ℕ, zero, suc, ◌+◌, ◌-◌, ◌*◌, ◌/◌, ◌≤◌, ◌<◌, ◌≡◌, refl, List, [], ◌∷◌, ◌++◌, arith, map, ap, sym,
  ◌∙◌, ap₂, length, take, drop, length-take, length-drop, take-append-drop, word, ◌==◌, inl, inr,
  Bool-cases, drop-add,
}
use mathlib.Core.Path.{◌≡⟨◌⟩◌, ◌∎}
use mathlib.Core.List.{append_assoc}
use otg_premium_version.Xtea.{Pair, load, store, each_step, run}

-- Whole blocks of eight bytes through `f`, one by one; what is left over stays as it is.
unfoldable pub map_blocks : (Pair → Pair) → List ℕ → List ℕ
map_blocks f (x0 ∷ x1 ∷ x2 ∷ x3 ∷ x4 ∷ x5 ∷ x6 ∷ x7 ∷ rest) =
    store (f (record { left = word x0 x1 x2 x3; right = word x4 x5 x6 x7 }) ∷ [])
    ++ map_blocks f rest
map_blocks f rest = rest

map_blocks-short : (f : Pair → Pair) (xs : List ℕ) → length xs < 8 → map_blocks f xs ≡ xs
unfolding map_blocks
map_blocks-short f (x0 ∷ x1 ∷ x2 ∷ x3 ∷ x4 ∷ x5 ∷ x6 ∷ x7 ∷ rest) h = absurd (omega arith)
map_blocks-short f xs h = refl

store-append : (ps qs : List Pair) → store (ps ++ qs) ≡ store ps ++ store qs
unfolding store
store-append [] qs = refl
store-append (p ∷ ps) qs = rw (store-append ps qs)

-- Reading the blocks, putting each through `f` and writing them back.
pub store-map-load :
    (f : Pair → Pair) (n : ℕ) (xs : List ℕ)
    → length xs ≡ n * 8
    → store (map f (load n xs)) ≡ map_blocks f xs
unfolding load store map_blocks
store-map-load f zero [] h = refl
store-map-load f zero (x ∷ xs) h = absurd (omega arith)
store-map-load f (suc n) (x0 ∷ x1 ∷ x2 ∷ x3 ∷ x4 ∷ x5 ∷ x6 ∷ x7 ∷ rest) h =
    rw (store-map-load f n rest (omega arith))
store-map-load f (suc n) xs h = absurd (omega arith)

map_blocks-append :
    (f : Pair → Pair) (n : ℕ) (xs ys : List ℕ)
    → length xs ≡ n * 8
    → map_blocks f (xs ++ ys) ≡ map_blocks f xs ++ map_blocks f ys
unfolding map_blocks store
map_blocks-append f zero [] ys h = refl
map_blocks-append f zero (x ∷ xs) ys h = absurd (omega arith)
map_blocks-append f (suc n) (x0 ∷ x1 ∷ x2 ∷ x3 ∷ x4 ∷ x5 ∷ x6 ∷ x7 ∷ rest) ys h =
    rw (map_blocks-append f n rest ys (omega arith)) refl
map_blocks-append f (suc n) xs ys h = absurd (omega arith)

tail-lt : (b len : ℕ) → b ≡ 1 → len - len / (b * 8) * (b * 8) < 8
tail-lt b len e = rw e (omega arith)

-- `op` does to that many whole blocks what `map_blocks` does.
abbrev pub Blockwise : (ℕ → List ℕ → List ℕ) → (Pair → Pair) → Type 0
Blockwise op f = (n : ℕ) (xs : List ℕ) → length xs ≡ n * 8 → op n xs ≡ map_blocks f xs

module _ (op : ℕ → List ℕ → List ℕ) (f : Pair → Pair) (blockwise : Blockwise op f) where
  -- The steps, and what lies behind them.
  each_step_lem :
      (b n k : ℕ) (xs : List ℕ)
      → k ≡ n * (b * 8)
      → k ≤ length xs
      → each_step op b n xs ++ map_blocks f (drop k xs) ≡ map_blocks f xs
  unfolding each_step
  each_step_lem b zero k xs e h = rw (let z : k ≡ 0 = omega arith in z)
  each_step_lem b (suc n) k xs e h =
      let step : ℕ = b * 8 in
      let head : length (take step xs) ≡ step = omega (arith, length-take step xs) in
      op b (take step xs) ++ each_step op b n (drop step xs) ++ map_blocks f (drop k xs)
      ≡⟨ append_assoc (op b (take step xs)) (each_step op b n (drop step xs))
          (map_blocks f (drop k xs)) ⟩
        op b (take step xs) ++ (each_step op b n (drop step xs) ++ map_blocks f (drop k xs))
      ≡⟨ ap (λ t. op b (take step xs) ++ (each_step op b n (drop step xs) ++ map_blocks f t))
          (ap (λ (t : ℕ). drop t xs) (let parts : k ≡ step + (k - step) = omega arith in parts)
            ∙ drop-add step (k - step) xs) ⟩
        op b (take step xs)
        ++ (each_step op b n (drop step xs) ++ map_blocks f (drop (k - step) (drop step xs)))
      ≡⟨ ap₂ ◌++◌ (blockwise b (take step xs) head) (
          each_step_lem b n (k - step) (drop step xs) (omega arith)
            (omega (arith, length-drop step xs))) ⟩
        map_blocks f (take step xs) ++ map_blocks f (drop step xs)
      ≡⟨ sym (map_blocks-append f b (take step xs) (drop step xs) head) ⟩
        map_blocks f (take step xs ++ drop step xs)
      ≡⟨ ap (map_blocks f) (take-append-drop step xs) ⟩ map_blocks f xs ∎

  -- Whatever block size the build starts with, the template's instances together put each whole
  -- block through `f`, and leave the bytes behind the last one.
  pub run-map_blocks :
      (fuel b : ℕ) (xs : List ℕ) → 0 < b → b ≤ fuel → run op fuel b xs ≡ map_blocks f xs
  unfolding run
  run-map_blocks zero b xs pos h = absurd (omega arith)
  run-map_blocks (suc fuel) b xs pos h =
      let steps : ℕ = length xs / (b * 8) in
      let k : ℕ = steps * (b * 8) in
      let fits : k ≤ length xs = grind arith in
      let done = each_step_lem b steps k xs refl fits in
      elim (Bool-cases (b == 1)) [
        | inl last ↦ rw last (
            ap (λ t. each_step op b steps xs ++ t)
              (sym (
                map_blocks-short f (drop k xs)
                  (omega (arith, length-drop k xs, tail-lt b (length xs) (ground arith)))))
            ∙ done)
        | inr more ↦ rw more (
            ap (λ t. each_step op b steps xs ++ t)
              (run-map_blocks fuel ((b + 1) / 2) (drop k xs) (omega arith) (ground arith))
            ∙ done)
      ]
