-- ===== src/Containers/Bitmap/Takes.antt =====
-- lib/containers/bitmap.h: what `getfree` and `getbusy` take, and when there is nothing to take.
use wrmos.Base.{
  ℕ, suc, ◌+◌, ◌-◌, ◌%◌, ◌^◌, ◌<◌, ◌≡◌, refl, sym, ap, ◌∙◌, inl, inr, ◌⊎◌, Bool, true, false, not,
  Option, none, some, arith, ◌==◌, if◌then◌else◌,
}
use wrmos.Containers.Bitmap.{Bitmap, bit, with_bit, set, clear, find_val, getfree, getbusy, getany}
use wrmos.Containers.Bitmap.Bits.{
  ones, ones-le, ones-set, ones-full, ones-none, bit-with_bit, IsCounted,
}
use wrmos.Containers.Bitmap.Search.{IsFirst, find_val-IsFirst}

-- The bit `pos` has become `v`, and no other bit has changed.
abbrev pub Becomes : Bitmap → Bitmap → ℕ → Bool → Type 0
Becomes b b' pos v =
    ((q : ℕ) → bit b' q ≡ (if pos == q then v else bit b q)) × (b'.capacity ≡ b.capacity)

-- A bit that is not set is set.
set_free :
    (b : Bitmap) (pos : ℕ)
    → IsCounted b
    → pos < b.capacity
    → bit b pos ≡ false
    → (b' : Bitmap) × (set b pos ≡ (b', true))
      × Becomes b b' pos true
      × (b'.count ≡ b.count + 1)
      × IsCounted b'
unfolding set
set_free b pos c h z =
    let n : suc (ones (bit b) b.capacity) ≡ ones (bit (with_bit b pos true)) b.capacity = sym (
      ones-set (bit b) (bit (with_bit b pos true)) b.capacity pos h z
        (λ i. bit-with_bit b pos i true)) in
    let up : (b.count + 1) % 2 ^ 32 ≡ b.count + 1 =
      omega (arith, c.counted, c.small, ones-le (bit (with_bit b pos true)) b.capacity) in
    (
      record (with_bit b pos true) { count = (b.count + 1) % 2 ^ 32 },
      ground arith,
      (λ q. bit-with_bit b pos q true, refl),
      up,
      record { counted = omega (arith, c.counted); small = c.small },
    )

-- A bit that is set is cleared.
pub clear_busy :
    (b : Bitmap) (pos : ℕ)
    → IsCounted b
    → pos < b.capacity
    → bit b pos ≡ true
    → (b' : Bitmap) × (clear b pos ≡ (b', true))
      × Becomes b b' pos false
      × (b'.count + 1 ≡ b.count)
      × IsCounted b'
unfolding clear
clear_busy b pos c h z =
    let n : ones (bit b) b.capacity ≡ suc (ones (bit (with_bit b pos false)) b.capacity) =
      ones-set (bit (with_bit b pos false)) (bit b) b.capacity pos h
        (bit-with_bit b pos pos false ∙ ground arith)
        (λ i. ground (arith, bit-with_bit b pos i false, ap (bit b) {x = pos} {y = i})) in
    let down : (b.count + 2 ^ 32 - 1) % 2 ^ 32 ≡ b.count - 1 =
      omega (arith, c.counted, c.small, ones-le (bit b) b.capacity) in
    (
      record (with_bit b pos false) { count = (b.count + 2 ^ 32 - 1) % 2 ^ 32 },
      ground arith,
      (λ q. bit-with_bit b pos q false, refl),
      omega (arith, c.counted),
      record { counted = omega (arith, c.counted); small = c.small },
    )

-- The first free bit is taken, or all are busy.
abbrev pub TakesFree : Bitmap → Type 0
TakesFree b =
    ((b.count ≡ b.capacity) × (getfree b ≡ (b, none)))
    ⊎ ((pos : ℕ) × (b' : Bitmap) × (getfree b ≡ (b', some pos))
        × (pos < b.capacity)
        × (bit b pos ≡ false)
        × ((q : ℕ) → q < pos → bit b q ≡ true)
        × Becomes b b' pos true
        × (b'.count ≡ b.count + 1)
        × IsCounted b')

-- The first busy bit is given back, or all are free.
abbrev TakesBusy : Bitmap → Type 0
TakesBusy b =
    ((b.count ≡ 0) × (getbusy b ≡ (b, none)))
    ⊎ ((pos : ℕ) × (b' : Bitmap) × (getbusy b ≡ (b', some pos))
        × (pos < b.capacity)
        × (bit b pos ≡ true)
        × ((q : ℕ) → q < pos → bit b q ≡ false)
        × Becomes b b' pos false
        × (b'.count + 1 ≡ b.count)
        × IsCounted b')

-- The two searches.
pub getfree-TakesFree : (b : Bitmap) → IsCounted b → TakesFree b
unfolding getfree
getfree-TakesFree b c = go (find_val b false) refl (find_val-IsFirst b false)
  where
    go : (r : Option ℕ) → find_val b false ≡ r → IsFirst (bit b) false 0 b.capacity r → TakesFree b
    go none e s = inl (
      c.counted ∙ ones-full (bit b) b.capacity (λ i h. ground (arith, s i (omega arith))),
      rw (e, getfree),
    )
    go (some pos) e (_, below, free, first) =
        let (b', done, becomes, more, c') = set_free b pos c below (ground arith) in
        inr (
          pos,
          b',
          rw (e, getfree, done),
          below,
          ground arith,
          (λ q h. ground (arith, first q (omega arith))),
          becomes,
          more,
          c',
        )

getbusy-TakesBusy : (b : Bitmap) → IsCounted b → TakesBusy b
unfolding getbusy
getbusy-TakesBusy b c = go (find_val b true) refl (find_val-IsFirst b true)
  where
    go : (r : Option ℕ) → find_val b true ≡ r → IsFirst (bit b) true 0 b.capacity r → TakesBusy b
    go none e s =
        inl (c.counted ∙ ones-none (bit b) b.capacity (λ i h. s i (omega arith) h), rw (e, getbusy))
    go (some pos) e (_, below, busy, first) =
        let (b', done, becomes, less, c') = clear_busy b pos c below busy in
        inr (
          pos,
          b',
          rw (e, getbusy, done),
          below,
          busy,
          (λ q h. first q (omega arith) h),
          becomes,
          less,
          c',
        )

-- The first bit of the value asked for has been turned, or there is none.
abbrev pub TakesAny : Bitmap → Bool → Type 0
TakesAny b val =
    ((b.count ≡ (if val then 0 else b.capacity)) × (getany b val ≡ (b, none)))
    ⊎ ((pos : ℕ) × (b' : Bitmap) × (getany b val ≡ (b', some pos))
        × (pos < b.capacity)
        × (bit b pos ≡ val)
        × ((q : ℕ) → q < pos → bit b q ≡ not val)
        × Becomes b b' pos (not val)
        × (b'.count + (if val then 1 else 0) ≡ b.count + (if val then 0 else 1))
        × IsCounted b')

-- From a bitmap whose count is right, the search for a bit of either value turns the first such bit and no
-- other, and keeps the count right; it finds none just where the count says so, no bit being set or as many
-- as the capacity, and then nothing changes.
pub getany-TakesAny : (b : Bitmap) (val : Bool) → IsCounted b → TakesAny b val
unfolding getany
getany-TakesAny b true c = elim (getbusy-TakesBusy b c) [
  | inl (e, none_left) ↦ inl (e, none_left)
  | inr (pos, b', e, below, v, first, becomes, less, c') ↦
      inr (pos, b', e, below, v, first, becomes, omega (arith, less), c')
]
getany-TakesAny b false c = elim (getfree-TakesFree b c) [
  | inl (e, none_left) ↦ inl (e, none_left)
  | inr (pos, b', e, below, v, first, becomes, more, c') ↦
      inr (pos, b', e, below, v, first, becomes, omega (arith, more), c')
]
