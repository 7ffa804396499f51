-- ===== src/Kernel/Regions/Allocs.antt =====
-- krn/kmem.h: what `alloc` gives.
use native.Mathlib.Nat.{one-le-pow}
use wrmos.Base.{
  ℕ, ◌^◌, ◌<◌, ◌≡◌, refl, false, some, List, length, ◌==◌, if◌then◌else◌, arith, inl, inr, ◌⊎◌,
  Bool-cases, Run, ok,
}
use wrmos.Kernel.Regions.{SpaceType, Desc, Mode, capacity, find_free, alloc_region, add}
use wrmos.Kernel.Regions.Ordered.{covers, lookup, IsFrom}
use wrmos.Kernel.Regions.Adds.{add-Adds}
use wrmos.Kernel.Regions.Search.{IsSearch, IsPlace, find_free-IsPlace}

-- Nothing is given and nothing changes, or a place is given and taken.
abbrev pub Allocates : List Desc → ℕ → ℕ → SpaceType → ℕ → ℕ → Run (List Desc × ℕ) → Type 0
Allocates items sz k type start space_sz r =
    (r ≡ ok (items, 0))
    ⊎ ((items' : List Desc) × (addr : ℕ) × (r ≡ ok (items', addr))
        × IsPlace items sz k start space_sz addr
        × IsFrom 0 items'
        × ((a : ℕ)
            → lookup items' a ≡ (
                if covers (record { addr = addr; sz = sz; type = type }) a
                then some type
                else lookup items a)))

alloc-none :
    (items : List Desc) (sz align : ℕ) (type : SpaceType) (mode : Mode) (start space_sz : ℕ)
    → find_free items sz align start space_sz ≡ 0
    → alloc_region items sz align type mode start space_sz ≡ ok (items, 0)
unfolding alloc_region
alloc-none items sz align type mode start space_sz e = rw e refl

alloc-some :
    (items items' : List Desc) (sz align : ℕ) (type : SpaceType) (mode : Mode) (start space_sz : ℕ)
    → (find_free items sz align start space_sz == 0) ≡ false
    → add items
        (record { addr = find_free items sz align start space_sz; sz = sz; type = type })
        mode
      ≡ ok items'
    → alloc_region items sz align type mode start space_sz
      ≡ ok (items', find_free items sz align start space_sz)
unfolding alloc_region
alloc-some items items' sz align type mode start space_sz z e = rw (z, e) refl

-- From a list of regions that is in order and not full, a region is given in a space that no region reaches
-- into from before, where sums of addresses do not wrap around: the call returns, and gives nothing and
-- changes nothing, or gives an address in the space, at the alignment (a power of two) and with the whole range
-- free before; then the range has its type, every other address keeps the type it had, and the list is in order.
pub alloc-Allocates :
    (items : List Desc) (sz k : ℕ) (type : SpaceType) (mode : Mode) (start space_sz : ℕ)
    → IsSearch items sz k start space_sz
    → 0 < sz
    → length items < capacity
    → Allocates items sz k type start space_sz
        (alloc_region items sz (2 ^ k) type mode start space_sz)
alloc-Allocates items sz k type mode start space_sz q s room =
    elim (Bool-cases (find_free items sz (2 ^ k) start space_sz == 0)) [
      | inl e ↦ inl (alloc-none items sz (2 ^ k) type mode start space_sz (ground arith))
      | inr e ↦ elim (find_free-IsPlace items sz k start space_sz q) [
        | inl z ↦ absurd (ground arith)
        | inr (a, b, c, d) ↦
            let r = find_free items sz (2 ^ k) start space_sz in
            let p : 0 < 2 ^ k = one-le-pow k 2 (omega arith) in
            let (items', e', o, m) =
              add-Adds items (record { addr = r; sz = sz; type = type }) mode q.ordered s
                (omega (arith, q.bound, q.space_end, p)) (λ u h. d u (ground arith) (ground arith))
                room in
            inr (
              items',
              r,
              alloc-some items items' sz (2 ^ k) type mode start space_sz e e',
              (a, b, c, d),
              o,
              m,
            )
      ]
    ]
