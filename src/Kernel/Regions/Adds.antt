-- ===== src/Kernel/Regions/Adds.antt =====
-- krn/kmem.h: what `add` does to the map from addresses to types.
use wrmos.Base.{
  ℕ, ◌+◌, ◌^◌, ◌≤◌, ◌<◌, ◌≡◌, refl, true, false, Option, none, some, List, [], ◌∷◌, length, ltb,
  leb, arith, inl, inr, Bool-cases, Run, ok, ◌>>=◌,
}
use wrmos.Kernel.Regions.{
  Desc, end, Mode, combine, not_combine, capacity, behind, insert_before, is_prev_cont, combine_at,
  add_at, add_from, add,
}
use wrmos.Kernel.Regions.Ordered.{covers, lookup, IsFrom}
use wrmos.Kernel.Regions.Placed.{Adds, IsBehind, IsAhead, Fits, put-Adds, is_behind-true}
use wrmos.Kernel.Regions.Joins.{grow_prev, combine_at-Adds}

next-small :
    (lo : ℕ) (prev : Option Desc) (p : Desc) (rest : List Desc)
    → IsFrom lo (behind prev (p ∷ rest))
    → p.addr + p.sz < 2 ^ 32
unfolding IsFrom
next-small lo none p rest (a, b, c, e) = c
next-small lo (some d) p rest (a, b, c, (_, b', c', e)) = c'

add_at-Adds :
    (lo n : ℕ) (prev : Option Desc) (rest : List Desc) (new : Desc) (mode : Mode)
    → Fits lo n prev rest new
    → Adds lo (behind prev rest) new (add_at n prev rest new mode)
unfolding add_at
add_at-Adds lo n none [] new not_combine f = put-Adds lo n none [] new f
add_at-Adds lo n none [] new combine f = put-Adds lo n none [] new f
add_at-Adds lo n (some d) [] new not_combine f =
    rw (is_behind-true lo (some d) [] new.addr f.ordered f.after_prev)
      (put-Adds lo n (some d) [] new f)
add_at-Adds lo n (some d) [] new combine f =
    elim (Bool-cases (is_prev_cont (some d) new.addr new.type)) [
      | inl c ↦
          rw (is_behind-true lo (some d) [] new.addr f.ordered f.after_prev, c)
            (grow_prev lo n d [] new f c)
      | inr c ↦
          rw (is_behind-true lo (some d) [] new.addr f.ordered f.after_prev, c)
            (put-Adds lo n (some d) [] new f)
    ]
add_at-Adds lo n prev (p ∷ rest) new mode f =
    let ahead : leb (end new) p.addr ≡ true = ground (arith, f.small, f.before_next) in
    rw (ahead, is_behind-true lo prev (p ∷ rest) new.addr f.ordered f.after_prev) (go mode)
  where
    go :
        (mode : Mode)
        → Adds lo (behind prev (p ∷ rest)) new (elim mode [
          | not_combine ↦ insert_before n prev new (p ∷ rest)
          | combine ↦ combine_at n prev p rest new
        ])
    go not_combine = put-Adds lo n prev (p ∷ rest) new f
    go combine = combine_at-Adds lo n prev p rest new f (next-small lo prev p rest f.ordered)

abbrev IsBefore : Option Desc → ℕ → Type 0
IsBefore none addr = Unit
IsBefore (some d) addr = d.addr < addr

-- No address of the region is busy.
abbrev pub IsFree : List Desc → Desc → Type 0
IsFree items new = (a : ℕ) → covers new a ≡ true → lookup items a ≡ none

-- What the loop knows at an item.
record Wants (lo n : ℕ) (prev : Option Desc) (items : List Desc) (new : Desc) : Type 0 where
  ordered : IsFrom lo (behind prev items)
  above : lo ≤ new.addr
  sized : 0 < new.sz
  small : new.addr + new.sz < 2 ^ 32
  passed : IsBefore prev new.addr
  unused : IsFree (behind prev items) new
  room : n < capacity

IsBehind-prev :
    (lo n : ℕ) (prev : Option Desc) (items : List Desc) (new : Desc)
    → Wants lo n prev items new
    → IsBehind prev new.addr
unfolding lookup
IsBehind-prev lo n none items new w = tt
IsBehind-prev lo n (some d) items new w =
    ground (arith, w.unused new.addr (ground (arith, w.sized)), w.passed)

IsAhead-next :
    (lo n : ℕ) (prev : Option Desc) (p : Desc) (rest : List Desc) (new : Desc)
    → Wants lo n prev (p ∷ rest) new
    → new.addr ≤ p.addr
    → new.addr + new.sz ≤ p.addr
unfolding lookup IsFrom
IsAhead-next lo n none p rest new w h =
    let (a, b, c, e) = w.ordered in ground (arith, w.unused p.addr)
IsAhead-next lo n (some d) p rest new w h =
    let (a, b, c, (a', b', c', e)) = w.ordered in ground (arith, w.unused p.addr)

-- Where the rest of the list may start.
abbrev low : ℕ → Option Desc → ℕ
low lo none = lo
low lo (some d) = d.addr + d.sz

Wants-further :
    (lo n : ℕ) (prev : Option Desc) (p : Desc) (rest : List Desc) (new : Desc)
    → Wants lo n prev (p ∷ rest) new
    → p.addr < new.addr
    → Wants (low lo prev) n (some p) rest new
unfolding lookup IsFrom
Wants-further lo n none p rest new w h = record {
  ordered = w.ordered;
  above = w.above;
  sized = w.sized;
  small = w.small;
  passed = h;
  unused = w.unused;
  room = w.room;
}
Wants-further lo n (some d) p rest new w h =
    let (a, b, c, e) = w.ordered in
    record {
      ordered = e;
      above = IsBehind-prev lo n (some d) (p ∷ rest) new w;
      sized = w.sized;
      small = w.small;
      passed = h;
      unused = λ u q. ground (arith, w.unused u q);
      room = w.room;
    }

Adds-behind :
    (lo n : ℕ) (prev : Option Desc) (p : Desc) (rest : List Desc) (new : Desc) (r : Run (List Desc))
    → Wants lo n prev (p ∷ rest) new
    → Adds (low lo prev) (p ∷ rest) new r
    → Adds lo (behind prev (p ∷ rest)) new (r >>= λ items. ok (behind prev items))
unfolding lookup IsFrom
Adds-behind lo n none p rest new r w (l', e, o, m) = (l', rw e refl, o, m)
Adds-behind lo n (some d) p rest new r w (l', e, o, m) =
    let (a, b, c, _) = w.ordered in
    (
      d ∷ l',
      rw e refl,
      (a, b, c, o),
      λ u. ground (arith, m u, IsBehind-prev lo n (some d) (p ∷ rest) new w),
    )

Fits-here :
    (lo n : ℕ) (prev : Option Desc) (rest : List Desc) (new : Desc)
    → Wants lo n prev rest new
    → IsAhead rest (new.addr + new.sz)
    → Fits lo n prev rest new
Fits-here lo n prev rest new w h = record {
  ordered = w.ordered;
  above = w.above;
  sized = w.sized;
  small = w.small;
  after_prev = IsBehind-prev lo n prev rest new w;
  before_next = h;
  room = w.room;
}

add_from-Adds :
    (lo n : ℕ) (prev : Option Desc) (items : List Desc) (new : Desc) (mode : Mode)
    → Wants lo n prev items new
    → Adds lo (behind prev items) new (add_from n prev items new mode)
unfolding add_from
add_from-Adds lo n prev [] new mode w =
    add_at-Adds lo n prev [] new mode (Fits-here lo n prev [] new w tt)
add_from-Adds lo n prev (p ∷ rest) new mode w = elim (Bool-cases (leb new.addr p.addr)) [
  | inl e ↦
      let ahead = IsAhead-next lo n prev p rest new w (ground arith) in
      let clear : ltb p.addr (end new) ≡ false = ground (arith, w.small) in
      rw (e, clear)
        (add_at-Adds lo n prev (p ∷ rest) new mode (Fits-here lo n prev (p ∷ rest) new w ahead))
  | inr e ↦ rw e (
      Adds-behind lo n prev p rest new (add_from n (some p) rest new mode) w (
        add_from-Adds (low lo prev) n (some p) rest new mode
          (Wants-further lo n prev p rest new w (ground arith))))
]

-- A region that is not empty, ends below the end of the address space and is free is added, in either mode, to
-- a list of regions that is in order and not full: the call returns, the list is in order, every address of
-- the region has its type, and every other address has the type it had, or none.
pub add-Adds :
    (items : List Desc) (new : Desc) (mode : Mode)
    → IsFrom 0 items
    → 0 < new.sz
    → new.addr + new.sz < 2 ^ 32
    → IsFree items new
    → length items < capacity
    → Adds 0 items new (add items new mode)
unfolding add
add-Adds items new mode o s h u r = add_from-Adds 0 (length items) none items new mode (record {
  ordered = o;
  above = omega arith;
  sized = s;
  small = h;
  passed = tt;
  unused = u;
  room = r;
})
