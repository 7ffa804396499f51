-- ===== src/Containers/StaticPool/Trips.antt =====
-- lib/containers/static_pool.h: an item that is taken and given back.
use wrmos.Base.{
  ℕ, ◌+◌, ◌-◌, ◌*◌, ◌/◌, ◌≤◌, ◌<◌, ◌≡◌, refl, ap, ◌∙◌, inl, inr, ◌⊎◌, true, false, ◌||◌, Option,
  some, arith, ltb, leb, eq-cases, lt-cases, lt→ltb, ==_refl, ok,
}
use native.Mathlib.Nat.{mul-div_cancel}
use wrmos.Containers.Bitmap.{Bitmap, bit, getfree, get, clear}
use wrmos.Containers.Bitmap.Bits.{IsCounted}
use wrmos.Containers.Bitmap.Takes.{clear_busy, getfree-TakesFree}
use wrmos.Containers.StaticPool.{item_bytes, StaticPool, alloc, free}

-- The bitmap has a bit for every item, and its count is right.
pub record IsPool (p : StaticPool) : Type 0 where
  pub counted : IsCounted p.bmap
  pub fits : p.bmap.capacity ≡ p.items
  pub sized : 0 < p.size

abbrev address : StaticPool → ℕ → ℕ
address p i = p.pool + i * item_bytes p.size

-- Items of different numbers do not overlap.
abbrev pub IsApart : StaticPool → ℕ → Type 0
IsApart p a =
    (i : ℕ)
    → i < p.items
    → bit p.bmap i ≡ true
    → (a + item_bytes p.size ≤ address p i) ⊎ (address p i + item_bytes p.size ≤ a)

scaled : (i j w : ℕ) → i < j → i * w + w ≤ j * w
scaled i j w h = grind arith

last_fits : (i n w base : ℕ) → i < n → base + i * w + w ≤ base + w * n
last_fits i n w base h = grind arith

position : (i w : ℕ) (base : ℕ) → 0 < w → (base + i * w - base) / w ≡ i
position i w base h = ap (λ (n : ℕ). n / w) (omega arith) ∙ mul-div_cancel i h

-- What `alloc` gives and `free` takes back.
abbrev pub Trip : StaticPool → Type 0
Trip p =
    (p' : StaticPool) × (a : ℕ) × (p'' : StaticPool) × (alloc p ≡ ok (p', some a))
    × (p.pool ≤ a)
    × (a + item_bytes p.size ≤ p.pool + item_bytes p.size * p.items)
    × IsApart p a
    × (p'.bmap.count ≡ p.bmap.count + 1)
    × (free p' a ≡ ok (p'', true))
    × ((q : ℕ) → bit p''.bmap q ≡ bit p.bmap q)
    × (p''.bmap.count ≡ p.bmap.count)

alloc-eq :
    (p : StaticPool) (b : Bitmap) (pos : ℕ)
    → getfree p.bmap ≡ (b, some pos)
    → pos < p.items
    → alloc p ≡ ok (record p { bmap = b }, some (address p pos))
unfolding alloc
alloc-eq p b pos e h =
    rw (e, alloc)
      (rw (lt→ltb pos p.items h)
        (ap (λ (x : Bitmap × Option ℕ). ok (record p { bmap = x.0 }, some (address p pos))) e))

free-eq :
    (p : StaticPool) (b : Bitmap) (pos : ℕ)
    → 0 < item_bytes p.size
    → pos < p.items
    → get p.bmap pos ≡ some true
    → clear p.bmap pos ≡ (b, true)
    → free p (address p pos) ≡ ok (record p { bmap = b }, true)
unfolding free
free-eq p b pos w h g c =
    let inside : (ltb (address p pos) p.pool
          || leb (p.pool + item_bytes p.size * p.items) (address p pos))
        ≡ false =
      ground (arith, scaled pos p.items (item_bytes p.size)) in
    rw (inside, position pos (item_bytes p.size) p.pool w, g, c) refl

get-busy : (b : Bitmap) (pos : ℕ) → pos < b.capacity → bit b pos ≡ true → get b pos ≡ some true
unfolding get
get-busy b pos h e = ground arith

apart : (p : StaticPool) (pos : ℕ) → bit p.bmap pos ≡ false → IsApart p (address p pos)
apart p pos e i h b = elim (lt-cases i pos) [
  | inl l ↦ inr (omega (arith, scaled i pos (item_bytes p.size) l))
  | inr g ↦ elim (eq-cases pos i) [
    | inl d ↦ absurd (ground (arith, ap (bit p.bmap) {x = pos} {y = i}))
    | inr d ↦ inl (omega (arith, scaled pos i (item_bytes p.size) (ground arith)))
  ]
]

-- From a pool that is in order and not full, `alloc` always gives an item: it lies inside the pool, apart
-- from every item that is in use, and is counted; and `free` of its address takes it back, so that every
-- bit and the count are as before.
pub alloc_free-Trip : (p : StaticPool) → IsPool p → p.bmap.count < p.items → Trip p
alloc_free-Trip p o h = elim (getfree-TakesFree p.bmap o.counted) [
  | inl (full, _) ↦ absurd (omega (arith, o.fits))
  | inr (pos, b, e, below, free_bit, first, (bits, cap), more, c) ↦
      let (b'', done, (bits', _), less, _) =
        clear_busy b pos c (omega (arith, cap)) (bits pos ∙ rw (==_refl pos)) in
      let w : 0 < item_bytes p.size = omega (arith, o.sized) in
      (
        record p { bmap = b },
        address p pos,
        record p { bmap = b'' },
        alloc-eq p b pos e (omega (arith, o.fits)),
        omega arith,
        last_fits pos p.items (item_bytes p.size) p.pool (omega (arith, o.fits)),
        apart p pos free_bit,
        more,
        free-eq (record p { bmap = b }) b'' pos w (omega (arith, o.fits))
            (get-busy b pos (omega (arith, cap)) (bits pos ∙ rw (==_refl pos))) done,
        (λ q. bits' q ∙ ground (arith, bits q, ap (bit p.bmap) {x = pos} {y = q})),
        omega (arith, more, less),
      )
]
