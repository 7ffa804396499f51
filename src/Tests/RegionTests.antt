-- ===== src/Tests/RegionTests.antt =====
-- krn/kmem.h: tests and examples of the lists of regions.
use wrmos.Base.{ℕ, ◌^◌, ◌≡◌, refl, true, List, [], ◌∷◌, arith, ok}
use wrmos.L4.Fpage.{bit_and}
use wrmos.Kernel.Regions.{
  SpaceType, Desc, combine, not_combine, add, add_from, add_at, combine_at, free, free_from,
  remove_at, find_free, skip_to, search_from, round_up, alloc_region,
}
use wrmos.Kernel.Regions.Ordered.{lookup, IsFrom}
use wrmos.Kernel.Regions.Placed.{Adds}
use wrmos.Kernel.Regions.Adds.{add-Adds}
use wrmos.Kernel.Regions.Frees.{FreesRange, free-FreesRange}
use wrmos.Kernel.Regions.Allocs.{Allocates, alloc-Allocates}
use wrmos.Kernel.Regions.Search.{EndsBelow, IsSplit, IsSearch}

abbrev data_type : SpaceType
data_type = record { acc = 6; cached = true }

abbrev region : ℕ → ℕ → Desc
region addr sz = record { addr = addr; sz = sz; type = data_type }

-- Two regions with a page between them.
abbrev mapped : List Desc
mapped = region 0x1000 0x2000 ∷ region 0x4000 0x3000 ∷ []

mapped-IsFrom : IsFrom 0 mapped
unfolding IsFrom
mapped-IsFrom = (omega arith, omega arith, omega arith, (omega arith, omega arith, omega arith, tt))

fills_gap : add mapped (region 0x3000 0x1000) combine ≡ ok (region 0x1000 0x6000 ∷ [])
unfolding add add_from add_at combine_at
fills_gap = refl

add-Adds_example : Adds 0 mapped (region 0x3000 0x1000) (add mapped (region 0x3000 0x1000) combine)
unfolding lookup
add-Adds_example =
    add-Adds mapped (region 0x3000 0x1000) combine mapped-IsFrom (omega arith) (omega arith)
      (λ a h. ground arith) (omega arith)

splits :
    free mapped 0x5000 0x1000
    ≡ ok (region 0x1000 0x2000 ∷ region 0x4000 0x1000 ∷ region 0x6000 0x1000 ∷ [])
unfolding free free_from remove_at
splits = refl

free-FreesRange_example : FreesRange mapped 0x5000 0x1000 (free mapped 0x5000 0x1000)
free-FreesRange_example =
    free-FreesRange mapped 0x5000 0x1000 mapped-IsFrom (omega arith) (omega arith) (omega arith)

mapped-IsSearch : IsSearch mapped 0x1000 12 0x1000 0x9000
unfolding IsSplit EndsBelow
mapped-IsSearch = record {
  ordered = mapped-IsFrom;
  split = (λ h. omega arith, (λ h. omega arith, tt));
  width = omega arith;
  hi = 0x10000;
  ends = (omega arith, (omega arith, tt));
  space_end = omega arith;
  bound = omega arith;
}

finds_gap : find_free mapped 0x1000 0x1000 0x1000 0x9000 ≡ 0x3000
unfolding find_free skip_to search_from round_up bit_and
finds_gap = refl

alloc-Allocates_example :
    Allocates mapped 0x1000 12 data_type 0x1000 0x9000
      (alloc_region mapped 0x1000 (2 ^ 12) data_type not_combine 0x1000 0x9000)
alloc-Allocates_example =
    alloc-Allocates mapped 0x1000 12 data_type not_combine 0x1000 0x9000 mapped-IsSearch
      (omega arith) (omega arith)
