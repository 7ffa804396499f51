-- ===== src/Containers/Bitmap/Bits.antt =====
-- lib/containers/bitmap.h: the bits one by one, and their count.
use wrmos.Base.{
  ℕ, zero, suc, ◌+◌, ◌/◌, ◌^◌, ◌≤◌, ◌<◌, ◌≡◌, refl, ap, inl, inr, Bool, true, false, arith, ◌==◌,
  if◌then◌else◌, Bool-cases,
}
use wrmos.Containers.Bitmap.{Bitmap, bit, with_bit}

-- How many of the bits below `n` are set.
unfoldable pub ones : (ℕ → Bool) → ℕ → ℕ
ones f zero = 0
ones f (suc n) = (if f n then 1 else 0) + ones f n

pub ones-le : (f : ℕ → Bool) (n : ℕ) → ones f n ≤ n
unfolding ones
ones-le f zero = omega arith
ones-le f (suc n) = ground (arith, ones-le f n)

ones-ext : (f g : ℕ → Bool) (n : ℕ) → ((i : ℕ) → i < n → f i ≡ g i) → ones f n ≡ ones g n
unfolding ones
ones-ext f g zero e = refl
ones-ext f g (suc n) e = ground (arith, e n, ones-ext f g n (λ i h. e i (omega arith)))

-- One more bit is set.
pub ones-set :
    (f g : ℕ → Bool) (n pos : ℕ)
    → pos < n
    → f pos ≡ false
    → ((i : ℕ) → g i ≡ (if pos == i then true else f i))
    → ones g n ≡ suc (ones f n)
unfolding ones
ones-set f g zero pos h z e = absurd (omega arith)
ones-set f g (suc n) pos h z e = elim (Bool-cases (pos == n)) [
  | inl d ↦ ground (arith, e n, ones-ext g f n (λ i k. ground (arith, e i)), ap f {x = pos} {y = n})
  | inr d ↦ ground (arith, e n, ones-set f g n pos (ground arith) z e)
]

pub bit-with_bit :
    (b : Bitmap) (pos q : ℕ) (v : Bool)
    → bit (with_bit b pos v) q ≡ (if pos == q then v else bit b q)
bit-with_bit b pos q v = ground (arith, ap b.words {x = pos / 32} {y = q / 32})

-- The count is right, and a number of 32 bits holds it.
pub record IsCounted (b : Bitmap) : Type 0 where
  pub counted : b.count ≡ ones (bit b) b.capacity
  pub small : b.capacity < 2 ^ 32

pub ones-full : (f : ℕ → Bool) (n : ℕ) → ((i : ℕ) → i < n → f i ≡ true) → ones f n ≡ n
unfolding ones
ones-full f zero e = refl
ones-full f (suc n) e = ground (arith, e n, ones-full f n (λ i h. e i (omega arith)))

pub ones-none : (f : ℕ → Bool) (n : ℕ) → ((i : ℕ) → i < n → f i ≡ false) → ones f n ≡ 0
unfolding ones
ones-none f zero e = refl
ones-none f (suc n) e = ground (arith, e n, ones-none f n (λ i h. e i (omega arith)))
