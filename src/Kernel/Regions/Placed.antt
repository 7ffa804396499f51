-- ===== src/Kernel/Regions/Placed.antt =====
-- krn/kmem.h: a region that the private `add(pos, ...)` puts between two others.
use wrmos.Base.{
  ℕ, ◌+◌, ◌^◌, ◌≤◌, ◌<◌, ◌≡◌, refl, true, false, Option, none, some, List, [], ◌∷◌, leb,
  if◌then◌else◌, arith, Run, ok,
}
use wrmos.Kernel.Regions.{Desc, end, capacity, behind, insert_before, is_behind}
use wrmos.Kernel.Regions.Ordered.{covers, lookup, IsFrom}

-- The region is in the map, and nothing else has changed.
abbrev pub Adds : ℕ → List Desc → Desc → Run (List Desc) → Type 0
Adds lo items new r =
    (items' : List Desc) × (r ≡ ok items')
    × IsFrom lo items'
    × ((a : ℕ) → lookup items' a ≡ (if covers new a then some new.type else lookup items a))

abbrev pub IsBehind : Option Desc → ℕ → Type 0
IsBehind none addr = Unit
IsBehind (some d) addr = d.addr + d.sz ≤ addr

abbrev pub IsAhead : List Desc → ℕ → Type 0
IsAhead [] addr = Unit
IsAhead (p ∷ rest) addr = addr ≤ p.addr

-- Where the new region goes.
pub record Fits (lo n : ℕ) (prev : Option Desc) (rest : List Desc) (new : Desc) : Type 0 where
  pub ordered : IsFrom lo (behind prev rest)
  pub above : lo ≤ new.addr
  pub sized : 0 < new.sz
  pub small : new.addr + new.sz < 2 ^ 32
  pub after_prev : IsBehind prev new.addr
  pub before_next : IsAhead rest (new.addr + new.sz)
  pub room : n < capacity

new-end : (new : Desc) → new.addr + new.sz < 2 ^ 32 → end new ≡ new.addr + new.sz
new-end new h = omega arith

pub is_behind-true :
    (lo : ℕ) (prev : Option Desc) (rest : List Desc) (addr : ℕ)
    → IsFrom lo (behind prev rest)
    → IsBehind prev addr
    → is_behind prev addr ≡ true
unfolding IsFrom
is_behind-true lo none rest addr o h = refl
is_behind-true lo (some d) rest addr (a, b, c, e) h = ground arith

-- The new region is put in between.
put-IsFrom :
    (lo n : ℕ) (prev : Option Desc) (rest : List Desc) (new : Desc)
    → Fits lo n prev rest new
    → IsFrom lo (behind prev (new ∷ rest))
unfolding IsFrom
put-IsFrom lo n none [] new f = (f.above, f.sized, f.small, tt)
put-IsFrom lo n none (p ∷ rest) new f =
    let (a, b, c, e) = f.ordered in (f.above, f.sized, f.small, (f.before_next, b, c, e))
put-IsFrom lo n (some d) [] new f =
    let (a, b, c, e) = f.ordered in (a, b, c, (f.after_prev, f.sized, f.small, tt))
put-IsFrom lo n (some d) (p ∷ rest) new f =
    let (a, b, c, (_, b', c', e')) = f.ordered in
    (a, b, c, (f.after_prev, f.sized, f.small, (f.before_next, b', c', e')))

put-lookup :
    (lo n : ℕ) (prev : Option Desc) (rest : List Desc) (new : Desc)
    → Fits lo n prev rest new
    → (a : ℕ)
    → lookup (behind prev (new ∷ rest)) a
      ≡ (if covers new a then some new.type else lookup (behind prev rest) a)
unfolding lookup
put-lookup lo n none rest new f a = refl
put-lookup lo n (some d) rest new f a = ground (arith, f.after_prev)

pub put-Adds :
    (lo n : ℕ) (prev : Option Desc) (rest : List Desc) (new : Desc)
    → Fits lo n prev rest new
    → Adds lo (behind prev rest) new (insert_before n prev new rest)
put-Adds lo n prev rest new f =
    let room : leb capacity n ≡ false = ground (arith, f.room) in
    (
      behind prev (new ∷ rest),
      rw room refl,
      put-IsFrom lo n prev rest new f,
      put-lookup lo n prev rest new f,
    )
