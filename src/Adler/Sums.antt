-- ===== src/Adler/Sums.antt =====
-- The checksum of source/src/tools.cpp is the one that reduces the sums after every byte: between
-- two reductions no sum of 32 bits overflows.
use otg_premium_version.Common.{
  ℕ, zero, suc, ◌+◌, ◌*◌, ◌%◌, ◌^◌, ◌≤◌, ◌<◌, List, [], ◌∷◌, ◌++◌, ltb, length, take, drop, ◌≡◌,
  refl, arith, All, false, ◌∙◌, ap, take-append-drop, length-take, length-drop, bit_or-shift, sym,
}
use otg_premium_version.Adler.{
  adler, max_length, AdlerSums, add_all, chunk, reduced, adler_loop, adler_checksum,
}

abbrev pub IsBytes : List ℕ → Type 0
IsBytes = All (λ x. x < 256)

-- The definition of RFC 1950: both sums are reduced after every byte.
unfoldable pub reference : List ℕ → AdlerSums → AdlerSums
reference [] s = s
reference (x ∷ xs) s =
    let a = (s.a + x) % adler in reference xs (record { a = a; b = (s.b + a) % adler })

-- 1 + 2 + … + n
triangle : ℕ → ℕ
triangle zero = 0
triangle (suc n) = suc n + triangle n

-- The sums that bytes lead to stay below the width of a word.
HasRoom : ℕ → AdlerSums → Type 0
HasRoom n s = (s.b + n * s.a + 255 * triangle n < 2 ^ 32) × (s.a + 255 * n < 2 ^ 32)

room_step :
    (n a b x t : ℕ)
    → x < 256
    → b + suc n * a + 255 * (suc n + t) < 2 ^ 32
    → b + (a + x) + n * (a + x) + 255 * t < 2 ^ 32
room_step n a b x t h r =
    let few : n * x ≤ n * 255 = grind arith in
    let spread : n * (a + x) ≡ n * a + n * x = grind arith in omega arith

lower : (n : ℕ) (s : AdlerSums) (x : ℕ) → x < 256 → HasRoom (suc n) s → s.b + (s.a + x) < 2 ^ 32
unfolding HasRoom triangle
lower n s x h r = let spread : suc n * s.a ≡ s.a + n * s.a = grind arith in omega (arith, r.0)

-- A byte that has room is added without a wrap.
added : AdlerSums → ℕ → AdlerSums
added s x = record { a = s.a + x; b = s.b + (s.a + x) }

added-HasRoom : (n x : ℕ) (s : AdlerSums) → x < 256 → HasRoom (suc n) s → HasRoom n (added s x)
unfolding HasRoom added triangle
added-HasRoom n x s h r = (room_step n s.a s.b x (triangle n) h r.0, omega (arith, r.1))

add_all_cons :
    (x : ℕ) (xs : List ℕ) (s : AdlerSums)
    → x < 256
    → HasRoom (suc (length xs)) s
    → add_all (x ∷ xs) s ≡ add_all xs (added s x)
unfolding add_all HasRoom added
add_all_cons x xs s h r =
    let a : s.a + x < 2 ^ 32 = omega (arith, r.1) in
    let b : s.b + (s.a + x) < 2 ^ 32 = lower (length xs) s x h r in ap (add_all xs) (ground arith)

reference_cons :
    (x : ℕ) (xs : List ℕ) (s : AdlerSums)
    → reference (x ∷ xs) (reduced s) ≡ reference xs (reduced (added s x))
unfolding reference reduced added
reference_cons x xs s = ap (reference xs) (ground arith)

add_all-reference :
    (xs : List ℕ) (s : AdlerSums)
    → IsBytes xs
    → HasRoom (length xs) s
    → reduced (add_all xs s) ≡ reference xs (reduced s)
unfolding add_all reference
add_all-reference [] s h r = refl
add_all-reference (x ∷ xs) s h r =
    ap reduced (add_all_cons x xs s h.0 r)
    ∙ add_all-reference xs (added s x) h.1 (added-HasRoom (length xs) x s h.0 r)
    ∙ sym (reference_cons x xs s)

two-triangle : (n : ℕ) → 2 * triangle n ≡ n * n + n
unfolding triangle
two-triangle zero = refl
two-triangle (suc n) = let ih = two-triangle n in grind arith

IsReduced : AdlerSums → Type 0
IsReduced s = (s.a < adler) × (s.b < adler)

-- 5552 bytes are the most that two reduced sums have room for.
chunk-HasRoom : (n : ℕ) (s : AdlerSums) → n ≤ 5552 → IsReduced s → HasRoom n s
unfolding HasRoom IsReduced
chunk-HasRoom n s h r =
    let square : n * n ≤ n * 5552 = grind arith in
    let product : n * s.a ≤ n * 65520 = grind (arith, r.0) in
    (omega (arith, two-triangle n, r.0, r.1), omega (arith, r.0))

reduced-IsReduced : (s : AdlerSums) → IsReduced (reduced s)
unfolding IsReduced reduced
reduced-IsReduced s = (omega arith, omega arith)

reduced-reduced : (s : AdlerSums) → IsReduced s → reduced s ≡ s
unfolding IsReduced reduced
reduced-reduced s r = ground arith

reference-append :
    (xs ys : List ℕ) (s : AdlerSums) → reference (xs ++ ys) s ≡ reference ys (reference xs s)
unfolding reference
reference-append [] ys s = refl
reference-append (x ∷ xs) ys s = reference-append xs ys _

IsBytes-take : (n : ℕ) (xs : List ℕ) → IsBytes xs → IsBytes (take n xs)
IsBytes-take zero xs h = tt
IsBytes-take (suc n) [] h = tt
IsBytes-take (suc n) (x ∷ xs) h = (h.0, IsBytes-take n xs h.1)

IsBytes-drop : (n : ℕ) (xs : List ℕ) → IsBytes xs → IsBytes (drop n xs)
IsBytes-drop zero xs h = h
IsBytes-drop (suc n) [] h = tt
IsBytes-drop (suc n) (x ∷ xs) h = IsBytes-drop n xs h.1

chunk_bounds : (n : ℕ) → 0 < n → (chunk n ≤ 5552) × (chunk n ≤ n) × (0 < chunk n)
unfolding chunk
chunk_bounds n h = ground arith

adler_loop_round :
    (fuel x : ℕ) (xs : List ℕ) (s : AdlerSums)
    → adler_loop (suc fuel) (x ∷ xs) s
      ≡ adler_loop fuel
          (drop (chunk (length (x ∷ xs))) (x ∷ xs))
          (reduced (add_all (take (chunk (length (x ∷ xs))) (x ∷ xs)) s))
unfolding adler_loop
adler_loop_round fuel x xs s = ground arith

adler_loop-reference :
    (fuel : ℕ) (xs : List ℕ) (s : AdlerSums)
    → IsBytes xs
    → IsReduced s
    → length xs ≤ fuel
    → adler_loop fuel xs s ≡ reference xs s
unfolding adler_loop reference
adler_loop-reference zero [] s h r f = refl
adler_loop-reference (suc fuel) [] s h r f = refl
adler_loop-reference zero (x ∷ xs) s h r f = absurd (omega arith)
adler_loop-reference (suc fuel) (x ∷ xs) s h r f =
    let n = chunk (length (x ∷ xs)) in
    let bounds = chunk_bounds (length (x ∷ xs)) (omega arith) in
    let head = take n (x ∷ xs) in
    let tail = drop n (x ∷ xs) in
    let sums = reduced (add_all head s) in
    let size : length head ≤ 5552 = omega (arith, length-take n (x ∷ xs), bounds.0) in
    let head_lem : sums ≡ reference head s =
      add_all-reference head s (IsBytes-take n (x ∷ xs) h) (chunk-HasRoom (length head) s size r)
      ∙ ap (reference head) (reduced-reduced s r) in
    adler_loop_round fuel x xs s
    ∙ adler_loop-reference fuel tail sums (IsBytes-drop n (x ∷ xs) h)
        (reduced-IsReduced (add_all head s))
        (omega (arith, length-drop n (x ∷ xs), bounds.1, bounds.2))
    ∙ ap (reference tail) head_lem
    ∙ sym (reference-append head tail s)
    ∙ ap (λ (ys : List ℕ). reference ys s) (take-append-drop n (x ∷ xs))

reference-IsReduced : (xs : List ℕ) (s : AdlerSums) → IsReduced s → IsReduced (reference xs s)
unfolding reference IsReduced
reference-IsReduced [] s r = r
reference-IsReduced (x ∷ xs) s r = reference-IsReduced xs _ (omega arith, omega arith)

short : (n : ℕ) → n ≤ max_length → ltb max_length n ≡ false
short n h = ground arith

-- The checksum of a message that is not too long is that of RFC 1950: the second sum in the upper
-- half of the word and the first in the lower half, both taken modulo 65521 after every byte.
pub adler_checksum-reference :
    (input : List ℕ)
    → IsBytes input
    → length input ≤ max_length
    → adler_checksum input
      ≡ (reference input (record { a = 1; b = 0 })).a
        + (reference input (record { a = 1; b = 0 })).b * 2 ^ 16
unfolding adler_checksum IsReduced
adler_checksum-reference input h l =
    let s : AdlerSums = record { a = 1; b = 0 } in
    let r : IsReduced s = (omega arith, omega arith) in
    let small = reference-IsReduced input s r in
    rw
      (
        adler_checksum,
        short (length input) l,
        adler_loop-reference (length input) input s h r (omega arith),
      )
      (ground (
        arith,
        bit_or-shift 16 (reference input s).a (reference input s).b (omega (arith, small.0)),
        small.1,
      ))
