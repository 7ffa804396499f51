-- ===== src/Kernel/Regions/Ordered.antt =====
-- krn/kmem.h: a list of regions as a map from addresses to types, and the order that keeps it one.
use wrmos.Base.{
  ℕ, ◌+◌, ◌^◌, ◌≤◌, ◌<◌, ◌≡◌, refl, Bool, true, false, ◌&&◌, Option, none, some, List, [], ◌∷◌, ltb,
  leb, if◌then◌else◌, arith,
}
use wrmos.Kernel.Regions.{SpaceType, same_flag, same_type, Desc}

-- The address lies in the region.
abbrev pub covers : Desc → ℕ → Bool
covers d a = leb d.addr a && ltb a (d.addr + d.sz)

-- The type of an address, or `none` if it is free.
unfoldable pub lookup : List Desc → ℕ → Option SpaceType
lookup [] a = none
lookup (d ∷ rest) a = let later = lookup rest a in if covers d a then some d.type else later

-- The regions are not empty, stand in the order of their addresses from `lo` on, and end below the end of
-- the address space.
unfoldable pub IsFrom : ℕ → List Desc → Type 0
IsFrom lo [] = Unit
IsFrom lo (d ∷ rest) =
    (lo ≤ d.addr) × (0 < d.sz) × (d.addr + d.sz < 2 ^ 32) × IsFrom (d.addr + d.sz) rest

pub IsFrom-lower : (lo lo' : ℕ) (l : List Desc) → lo' ≤ lo → IsFrom lo l → IsFrom lo' l
unfolding IsFrom
IsFrom-lower lo lo' [] h o = tt
IsFrom-lower lo lo' (d ∷ rest) h (a, b, c, e) = (omega arith, b, c, e)

same_flag-eq : (b c : Bool) → same_flag b c ≡ true → b ≡ c
same_flag-eq true c h = ground arith
same_flag-eq false true h = ground arith
same_flag-eq false false h = refl

pub same_type-eq : (s t : SpaceType) → same_type s t ≡ true → s ≡ t
same_type-eq s t h = grind (arith, same_flag-eq s.cached t.cached)

-- Below the first region nothing is busy.
pub lookup-below : (lo : ℕ) (l : List Desc) (a : ℕ) → IsFrom lo l → a < lo → lookup l a ≡ none
unfolding lookup IsFrom
lookup-below lo [] a o h = refl
lookup-below lo (d ∷ rest) a (b, c, e, f) h =
    ground (arith, lookup-below (d.addr + d.sz) rest a f (omega arith))
