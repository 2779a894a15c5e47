-- ===== src/Container/Sums.antt =====
-- The weight of the items of a list, and how it changes with one of them.
pub use otg_premium_version.Common.{count, count-append}
use otg_premium_version.Common.{
  ℕ, zero, suc, ◌+◌, ◌%◌, ◌^◌, ◌≡◌, refl, false, List, [], ◌∷◌, ◌++◌, ◌==◌, if◌then◌else◌, arith,
  Bool-cases, Option-cases, some, inl, inr,
}
use otg_premium_version.Container.{index_of, erase_index, item_at, put_at}

abbrev pub sum : (ℕ → ℕ) → List ℕ → ℕ
sum f [] = 0
sum f (x ∷ xs) = f x + sum f xs

pub sum-append : (f : ℕ → ℕ) (xs ys : List ℕ) → sum f (xs ++ ys) ≡ sum f xs + sum f ys
sum-append f [] ys = omega arith
sum-append f (z ∷ zs) ys = omega (arith, sum-append f zs ys)

pub sum-ext : (f g : ℕ → ℕ) (xs : List ℕ) → ((x : ℕ) → f x ≡ g x) → sum f xs ≡ sum g xs
sum-ext f g [] h = refl
sum-ext f g (x ∷ xs) h = omega (arith, h x, sum-ext f g xs h)

-- An item that is not in the list does not matter.
pub sum-same :
    (f g : ℕ → ℕ) (c : ℕ) (xs : List ℕ)
    → ((x : ℕ) → (x == c) ≡ false → g x ≡ f x)
    → count c xs ≡ 0
    → sum g xs ≡ sum f xs
sum-same f g c [] h e = refl
sum-same f g c (x ∷ xs) h e = elim (Bool-cases (x == c)) [
  | inl same ↦ absurd (ground arith)
  | inr other ↦ omega (arith, h x other, sum-same f g c xs h (ground arith))
]

-- An item that is once in the list changes the sum by what its weight changes, both modulo `2 ^ 32`.
pub sum-one :
    (f g : ℕ → ℕ) (c d : ℕ) (xs : List ℕ)
    → ((x : ℕ) → (x == c) ≡ false → g x ≡ f x)
    → count c xs ≡ 1
    → g c % 2 ^ 32 ≡ (f c + d) % 2 ^ 32
    → sum g xs % 2 ^ 32 ≡ (sum f xs + d) % 2 ^ 32
sum-one f g c d [] h e w = absurd (omega arith)
sum-one f g c d (x ∷ xs) h e w = elim (Bool-cases (x == c)) [
  | inl same ↦
      let here : x ≡ c = ground arith in
      let rest = sum-same f g c xs h (ground arith) in rw here (omega (arith, rest, w))
  | inr other ↦ omega (arith, h x other, sum-one f g c d xs h (ground arith) w)
]

pub item_at-index_of : (x k : ℕ) (xs : List ℕ) → index_of x xs ≡ some k → item_at k xs ≡ some x
unfolding index_of
item_at-index_of x k [] e = absurd (ground arith)
item_at-index_of x k (y ∷ ys) e = elim (Bool-cases (y == x)) [
  | inl same ↦
      let first : k ≡ 0 = ground (arith, e, same) in
      let here : y ≡ x = ground arith in rw (first, here) refl
  | inr other ↦ elim (Option-cases (index_of x ys)) [
    | inl missing ↦ absurd (ground (arith, e, other, missing))
    | inr (j, found) ↦
        let next : k ≡ suc j = ground (arith, e, other, found) in
        rw next (item_at-index_of x j ys found)
  ]
]

pub count-erase_index :
    (x y k : ℕ) (xs : List ℕ)
    → item_at k xs ≡ some x
    → count y xs ≡ (if x == y then 1 else 0) + count y (erase_index k xs)
unfolding erase_index
count-erase_index x y k [] e = absurd (ground arith)
count-erase_index x y zero (z ∷ zs) e = ground (arith, e)
count-erase_index x y (suc k) (z ∷ zs) e = ground (arith, count-erase_index x y k zs e)

pub sum-erase_index :
    (f : ℕ → ℕ) (x k : ℕ) (xs : List ℕ)
    → item_at k xs ≡ some x
    → sum f xs ≡ f x + sum f (erase_index k xs)
unfolding erase_index
sum-erase_index f x k [] e = absurd (ground arith)
sum-erase_index f x zero (z ∷ zs) e = let here : z ≡ x = ground (arith, e) in rw here refl
sum-erase_index f x (suc k) (z ∷ zs) e = omega (arith, sum-erase_index f x k zs e)

-- The list with another item in its place.
pub count-put_at :
    (i y k x : ℕ) (xs : List ℕ)
    → item_at k xs ≡ some x
    → count y (put_at k i xs) ≡ (if i == y then 1 else 0) + count y (erase_index k xs)
unfolding erase_index
count-put_at i y k x [] e = absurd (ground arith)
count-put_at i y zero x (z ∷ zs) e = refl
count-put_at i y (suc k) x (z ∷ zs) e = ground (arith, count-put_at i y k x zs e)

pub sum-put_at :
    (f : ℕ → ℕ) (i k x : ℕ) (xs : List ℕ)
    → item_at k xs ≡ some x
    → sum f (put_at k i xs) ≡ f i + sum f (erase_index k xs)
unfolding erase_index
sum-put_at f i k x [] e = absurd (ground arith)
sum-put_at f i zero x (z ∷ zs) e = refl
sum-put_at f i (suc k) x (z ∷ zs) e = omega (arith, sum-put_at f i k x zs e)
