-- ===== src/Containers/StaticPool.antt =====
-- lib/containers/static_pool.h: Static_pool_t, on a machine whose `long` has 32 bits. An address is a number.
pub mod Trips
use wrmos.Base.{
  ℕ, ◌+◌, ◌-◌, ◌*◌, ◌/◌, Bool, true, false, ◌||◌, Option, none, some, ltb, leb, if◌then◌else◌, Run,
  ok, panic, ◌>>=◌, ◌>>◌, wassert,
}
use wrmos.Containers.Bitmap.{Bitmap, getfree, get, clear}

-- `align_up` of lib/sys/sys_utils.h, to the size of a word.
abbrev pub item_bytes : ℕ → ℕ
item_bytes size = (size + 4 - 1) / 4 * 4

-- The address of the array, the parameters S and N, and the bitmap.
pub record StaticPool : Type 0 where
  pub pool : ℕ
  pub size : ℕ
  pub items : ℕ
  pub bmap : Bitmap

-- `none` stands for the null pointer.
unfoldable pub alloc : StaticPool → Run (StaticPool × Option ℕ)
alloc p =
    let (b, pos) = getfree p.bmap in
    elim pos [
      | none ↦ ok (record p { bmap = b }, none)
      | some i ↦ do
        wassert (ltb i p.items)
        ok (record p { bmap = b }, some (p.pool + i * item_bytes p.size))
    ]

abbrev pub is_busy : Option Bool → Bool
is_busy (some true) = true
is_busy _ = false

unfoldable pub free : StaticPool → ℕ → Run (StaticPool × Bool)
free p a =
    let pos = (a - p.pool) / item_bytes p.size in
    if ltb a p.pool || leb (p.pool + item_bytes p.size * p.items) a then ok (p, false) else (do
      wassert (is_busy (get p.bmap pos))
      ok (record p { bmap = (clear p.bmap pos).0 }, true))
