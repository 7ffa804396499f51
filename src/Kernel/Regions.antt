-- ===== src/Kernel/Regions.antt =====
-- krn/kmem.h: Address_space_t, the list of the busy regions of an address space, with the types of Aspace.
-- Addresses and sizes are words of 32 bits. An iterator is the items before it and the items from it on, of
-- which a function gets the last one before and those from it on.
pub mod Placed
pub mod Removes
pub mod Ordered
pub mod Joins
pub mod Adds
pub mod Frees
pub mod Search
pub mod Allocs
use wrmos.Base.{
  ℕ, zero, suc, ◌+◌, ◌-◌, ◌*◌, ◌/◌, ◌%◌, ◌^◌, Bool, true, false, not, ◌&&◌, ◌||◌, Option, none,
  some, List, [], ◌∷◌, length, ◌==◌, ltb, leb, if◌then◌else◌, Run, ok, panic, ◌>>=◌, ◌>>◌, wassert,
}
use wrmos.L4.Fpage.{bit_and}

-- `Aspace::Type`.
pub record SpaceType : Type 0 where
  pub acc : ℕ
  pub cached : Bool

abbrev pub same_flag : Bool → Bool → Bool
same_flag true b = b
same_flag false b = not b

-- `operator ==`.
abbrev pub same_type : SpaceType → SpaceType → Bool
same_type s t = s.acc == t.acc && same_flag s.cached t.cached

-- `Desc`.
pub record Desc : Type 0 where
  pub addr : ℕ
  pub sz : ℕ
  pub type : SpaceType

-- `Desc::end`.
abbrev pub end : Desc → ℕ
end d = (d.addr + d.sz) % 2 ^ 32

-- `Mode`.
pub data Mode : Type 0 where
  combine not_combine : Mode

-- `aspace_t::capacity`.
abbrev pub capacity : ℕ
capacity = 512

-- `iter_t` behind an item, where there is one.
abbrev pub behind : Option Desc → List Desc → List Desc
behind none rest = rest
behind (some d) rest = d ∷ rest

-- `insert_before` and `push_back` on a list of `n` items.
abbrev pub insert_before : ℕ → Option Desc → Desc → List Desc → Run (List Desc)
insert_before n prev d rest = if leb capacity n then panic else ok (behind prev (d ∷ rest))

-- "cross prev region": there is none, or it ends before the address.
abbrev pub is_behind : Option Desc → ℕ → Bool
is_behind none addr = true
is_behind (some d) addr = leb (end d) addr

-- "check contiguous": the item ends at the address, and has the type.
abbrev pub is_prev_cont : Option Desc → ℕ → SpaceType → Bool
is_prev_cont none addr type = false
is_prev_cont (some d) addr type = end d == addr && same_type d.type type

abbrev pub grow : Option Desc → ℕ → List Desc → List Desc
grow none sz rest = rest
grow (some d) sz rest = record d { sz = (d.sz + sz) % 2 ^ 32 } ∷ rest

-- The private `add(pos, ...)` in the mode Combine, where `pos` is an item.
unfoldable pub combine_at : ℕ → Option Desc → Desc → List Desc → Desc → Run (List Desc)
combine_at n prev p rest new =
    let pos_cont = end new == p.addr && same_type new.type p.type in
    if pos_cont && is_prev_cont prev new.addr new.type
    then ok (grow prev (new.sz + p.sz) rest)
    else if pos_cont
    then ok (
        behind prev (
          record p { addr = (p.addr + 2 ^ 32 - new.sz) % 2 ^ 32; sz = (p.sz + new.sz) % 2 ^ 32 }
          ∷ rest))
    else if is_prev_cont prev new.addr new.type
    then ok (grow prev new.sz (p ∷ rest))
    else insert_before n prev new (p ∷ rest)

-- The private `add(pos, ...)`: the items from the one before `pos` on.
unfoldable pub add_at : ℕ → Option Desc → List Desc → Desc → Mode → Run (List Desc)
unfolding combine_at
add_at n prev [] new mode = do
  wassert (is_behind prev new.addr)
  elim mode [
    | not_combine ↦ insert_before n prev new []
    | combine ↦
        if is_prev_cont prev new.addr new.type
        then ok (grow prev new.sz [])
        else insert_before n prev new []
  ]
add_at n prev (p ∷ rest) new mode = do
  wassert (leb (end new) p.addr)
  wassert (is_behind prev new.addr)
  elim mode [
    | not_combine ↦ insert_before n prev new (p ∷ rest)
    | combine ↦ combine_at n prev p rest new
  ]

-- The loop of `add(addr, ...)`, and what follows it.
unfoldable pub add_from : ℕ → Option Desc → List Desc → Desc → Mode → Run (List Desc)
add_from n prev [] new mode = add_at n prev [] new mode
add_from n prev (p ∷ rest) new mode =
    let further = add_from n (some p) rest new mode >>= λ items. ok (behind prev items) in
    if leb new.addr p.addr
    then (if ltb p.addr (end new) then panic else add_at n prev (p ∷ rest) new mode)
    else further

-- `add(addr, sz, type, mode)`.
unfoldable pub add : List Desc → Desc → Mode → Run (List Desc)
add items new mode = add_from (length items) none items new mode

-- `remove(pos, addr, sz)`: the items up to the new position but its last one, that one, and the rest.
pub record Removed : Type 0 where
  pub kept : Option Desc
  pub prev : Option Desc
  pub rest : List Desc
  pub count : ℕ

unfoldable pub remove_at : ℕ → Option Desc → Desc → List Desc → ℕ → ℕ → Run Removed
remove_at n prev p rest addr sz = do
  let eend = (addr + sz) % 2 ^ 32
  wassert (leb p.addr addr && leb eend (end p))
  if p.addr == addr && end p == eend
      then ok (record { kept = none; prev = prev; rest = rest; count = n - 1 })
      else if p.addr == addr
      then ok (record {
        kept = none;
        prev = prev;
        rest =
            record p { addr = (p.addr + sz) % 2 ^ 32; sz = (p.sz + 2 ^ 32 - sz) % 2 ^ 32 } ∷ rest;
        count = n;
      })
      else if end p == eend
      then ok (record {
        kept = prev;
        prev = some (record p { sz = (p.sz + 2 ^ 32 - sz) % 2 ^ 32 });
        rest = rest;
        count = n;
      })
      else if leb capacity n
      then panic
      else ok (record {
        kept = prev;
        prev = some (record p { sz = (addr + 2 ^ 32 - p.addr) % 2 ^ 32 });
        rest = record p { addr = eend; sz = (end p + 2 ^ 32 - eend) % 2 ^ 32 } ∷ rest;
        count = n + 1;
      })

abbrev pub all_of : Removed → List Desc
all_of r = behind r.kept (behind r.prev r.rest)

-- The item contains the addresses: the test of `insert` and of `find(addr, sz)`.
abbrev pub has : Desc → ℕ → ℕ → Bool
has p addr sz = leb p.addr addr && leb ((addr + sz) % 2 ^ 32) (end p)

-- `free(addr, sz)`, which is `find(addr, sz)` and `remove`.
unfoldable pub free_from : ℕ → Option Desc → List Desc → ℕ → ℕ → Run (List Desc)
unfolding remove_at
free_from n prev [] addr sz = ok (behind prev [])
free_from n prev (p ∷ rest) addr sz =
    let further = free_from n (some p) rest addr sz >>= λ items. ok (behind prev items) in
    if has p addr sz
    then (remove_at n prev p rest addr sz >>= λ r. ok (all_of r))
    else if leb ((addr + sz) % 2 ^ 32) p.addr
    then ok (behind prev (p ∷ rest))
    else further

unfoldable pub free : List Desc → ℕ → ℕ → Run (List Desc)
free items addr sz = free_from (length items) none items addr sz

-- `round_up` of lib/sys/sys_utils.h: to clear the bits of a mask is to take off the bits that both have.
unfoldable pub round_up : ℕ → ℕ → ℕ
round_up n a = let m = (n + (a - 1)) % 2 ^ 32 in m - bit_and 32 m (a - 1)

-- The first loop of `find_free`.
unfoldable pub skip_to : List Desc → ℕ → List Desc
skip_to [] start = []
skip_to (d ∷ rest) start =
    let later = skip_to rest start in if leb start d.addr then d ∷ rest else later

-- The second loop.
unfoldable pub search_from : List Desc → ℕ → ℕ → ℕ → ℕ → ℕ
search_from [] sz align cur stop = cur
search_from (d ∷ rest) sz align cur stop =
    let later = search_from rest sz align (round_up ((d.addr + d.sz) % 2 ^ 32) align) stop in
    if leb stop cur || ltb stop ((cur + sz) % 2 ^ 32)
    then 0
    else if leb ((cur + sz) % 2 ^ 32) d.addr
    then cur
    else later

unfoldable pub find_free : List Desc → ℕ → ℕ → ℕ → ℕ → ℕ
find_free items sz align start space_sz =
    let stop = (start + space_sz) % 2 ^ 32 in
    let cur = search_from (skip_to items start) sz align (round_up start align) stop in
    if not (cur == 0) && ltb stop ((cur + sz) % 2 ^ 32) then 0 else cur

unfoldable pub alloc_region : List Desc → ℕ → ℕ → SpaceType → Mode → ℕ → ℕ → Run (List Desc × ℕ)
alloc_region items sz align type mode start space_sz =
    let addr = find_free items sz align start space_sz in
    if not (addr == 0)
    then (do
      items' ← add items (record { addr = addr; sz = sz; type = type }) mode
      ok (items', addr))
    else ok (items, 0)
