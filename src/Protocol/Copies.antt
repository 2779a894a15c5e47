-- ===== src/Protocol/Copies.antt =====
-- Copying stretches of the buffers of source/src/networkmessage.h.
use otg_premium_version.Common.{
  ℕ, zero, suc, ◌+◌, ◌/◌, ◌≤◌, ◌<◌, List, [], ◌∷◌, ◌++◌, ◌==◌, length, take, drop, ◌≡◌, refl, arith,
  ◌∙◌, ap, ap₂, Bool-cases, inl, inr,
}
use otg_premium_version.NetworkMessage.{padding}
use otg_premium_version.NetworkMessage.Bytes.{update, le_bytes, write_at, read_at, write_at-outside}
use otg_premium_version.Xtea.{Key, Pair, encrypt, store}
use otg_premium_version.Xtea.Blocks.{map_blocks}
use otg_premium_version.Xtea.Roundtrip.{IsBytes, encrypt_blockwise, encrypt_block}

pub length-read_at : (n p : ℕ) (f : ℕ → ℕ) → length (read_at n p f) ≡ n
unfolding read_at
length-read_at zero p f = refl
length-read_at (suc n) p f = ap suc (length-read_at n (suc p) f)

-- What is read depends only on the places that are read.
pub read_at-agree :
    (n p : ℕ) (f g : ℕ → ℕ)
    → ((i : ℕ) → p ≤ i → i < p + n → f i ≡ g i)
    → read_at n p f ≡ read_at n p g
unfolding read_at
read_at-agree zero p f g h = refl
read_at-agree (suc n) p f g h =
    ap₂ ◌∷◌ (h p (omega arith) (omega arith))
      (read_at-agree n (suc p) f g λ i low high. h i (omega arith) (omega arith))

-- A copy of a stretch to the same place of another buffer.
pub write_at-read_at :
    (n p : ℕ) (f g : ℕ → ℕ) (i : ℕ) → p ≤ i → i < p + n → write_at p (read_at n p f) g i ≡ f i
unfolding write_at read_at update
write_at-read_at zero p f g i low high = absurd (omega arith)
write_at-read_at (suc n) p f g i low high = elim (Bool-cases (i == p)) [
  | inl e ↦
      write_at-outside (suc p) (read_at n (suc p) f) (update g p (f p)) i (ground arith)
      ∙ ground arith
  | inr e ↦ write_at-read_at n (suc p) f (update g p (f p)) i (ground arith) (omega arith)
]

pub take-read_at : (m n p : ℕ) (f : ℕ → ℕ) → m ≤ n → take m (read_at n p f) ≡ read_at m p f
unfolding read_at
take-read_at zero n p f h = refl
take-read_at (suc m) zero p f h = absurd (omega arith)
take-read_at (suc m) (suc n) p f h =
    ap (λ (xs : List ℕ). f p ∷ xs) (take-read_at m n (suc p) f (omega arith))

pub drop-read_at :
    (m n k p q : ℕ) (f : ℕ → ℕ) → k ≡ m + n → q ≡ p + m → drop m (read_at k p f) ≡ read_at n q f
unfolding read_at
drop-read_at zero n k p q f e h =
    let size : k ≡ n = omega arith in let place : q ≡ p = omega arith in rw (size, place) refl
drop-read_at (suc m) n zero p q f e h = absurd (omega arith)
drop-read_at (suc m) n (suc k) p q f e h =
    drop-read_at m n k (suc p) q f (omega arith) (omega arith)

pub read_at-after :
    (n p q : ℕ) (bs : List ℕ) (f : ℕ → ℕ)
    → q + length bs ≤ p
    → read_at n p (write_at q bs f) ≡ read_at n p f
read_at-after n p q bs f h =
    read_at-agree n p (write_at q bs f) f λ i low high. write_at-outside q bs f i (ground arith)

-- Every place holds a byte.
abbrev pub HoldsBytes : (ℕ → ℕ) → Type 0
HoldsBytes f = (i : ℕ) → f i < 256

pub read_at-IsBytes : (n p : ℕ) (f : ℕ → ℕ) → HoldsBytes f → IsBytes (read_at n p f)
unfolding read_at
read_at-IsBytes zero p f h = tt
read_at-IsBytes (suc n) p f h = (h p, read_at-IsBytes n (suc p) f h)

pub write_at-HoldsBytes :
    (p : ℕ) (bs : List ℕ) (f : ℕ → ℕ) → IsBytes bs → HoldsBytes f → HoldsBytes (write_at p bs f)
unfolding write_at update
write_at-HoldsBytes p [] f b h = h
write_at-HoldsBytes p (x ∷ bs) f b h =
    write_at-HoldsBytes (suc p) bs (update f p x) b.1 λ i. ground (arith, b.0, h i)

pub le_bytes-IsBytes : (n v : ℕ) → IsBytes (le_bytes n v)
unfolding le_bytes
le_bytes-IsBytes zero v = tt
le_bytes-IsBytes (suc n) v = (omega arith, le_bytes-IsBytes n (v / 256))

pub padding-IsBytes : (n : ℕ) → IsBytes (padding n)
padding-IsBytes zero = tt
padding-IsBytes (suc n) = (omega arith, padding-IsBytes n)

pub length-padding : (n : ℕ) → length (padding n) ≡ n
length-padding zero = refl
length-padding (suc n) = ap suc (length-padding n)

length-map_blocks : (f : Pair → Pair) (xs : List ℕ) → length (map_blocks f xs) ≡ length xs
unfolding map_blocks store
length-map_blocks f (a ∷ b ∷ c ∷ d ∷ e ∷ g ∷ h ∷ i ∷ xs) = omega (arith, length-map_blocks f xs)
length-map_blocks f xs = refl

pub length-encrypt :
    (initial : ℕ) (xs : List ℕ) (k : Key) → 0 < initial → length (encrypt initial xs k) ≡ length xs
length-encrypt initial xs k h =
    ap length (encrypt_blockwise initial xs k h) ∙ length-map_blocks (encrypt_block k) xs

pub read_at-append :
    (m n p q : ℕ) (f : ℕ → ℕ) → q ≡ p + m → read_at (m + n) p f ≡ read_at m p f ++ read_at n q f
unfolding read_at
read_at-append zero n p q f e =
    let place : q ≡ p = omega arith in let size : 0 + n ≡ n = omega arith in rw (place, size) refl
read_at-append (suc m) n p q f e =
    let size : suc m + n ≡ suc (m + n) = omega arith in
    rw size (ap (λ (xs : List ℕ). f p ∷ xs) (read_at-append m n (suc p) q f (omega arith)))

pub write_at-append :
    (p : ℕ) (xs ys : List ℕ) (f : ℕ → ℕ)
    → write_at p (xs ++ ys) f ≡ write_at (p + length xs) ys (write_at p xs f)
unfolding write_at
write_at-append p [] ys f = let place : p + 0 ≡ p = omega arith in rw place refl
write_at-append p (x ∷ xs) ys f =
    let place : p + suc (length xs) ≡ suc p + length xs = omega arith in
    rw place (write_at-append (suc p) xs ys (update f p x))
