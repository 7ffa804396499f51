-- ===== src/Kernel/Task.antt =====
-- krn/task.h: Task_t and Tasks_t, with what they ask of the address space kept as calls.
use wrmos.Base.{
  update, ℕ, ◌+◌, ◌-◌, ◌*◌, ◌/◌, ◌^◌, ◌%◌, Bool, not, ◌&&◌, none, some, [], ◌∷◌, ◌++◌, ◌==◌, leb,
  if◌then◌else◌, contains, remove, Run, ok, panic, ◌>>◌, wassert,
}
use wrmos.L4.Fpage
use wrmos.Containers.Bitmap.{new_bitmap, init, getfree, clear}
use wrmos.Kernel.State.{Task, Kernel, new_task, map_kip}
use wrmos.L4.Thrid

abbrev pub page_sz : ℕ
page_sz = 4096

abbrev pub set_task : Kernel → ℕ → Task → Kernel
set_task k t task = record k { tasks = update k.tasks t task }

unfoldable pub is_configured : Task → Bool
unfolding Fpage.addr Fpage.size
is_configured t =
    not (Fpage.addr t.kip_area == 0)
    && not (Fpage.size t.kip_area == 0)
    && not (Fpage.addr t.utcb_area == 0)
    && not (Fpage.size t.utcb_area == 0)

unfoldable pub is_full : Task → Bool
is_full t = t.utcbs_bitmap.count == t.utcbs_bitmap.capacity

unfoldable pub is_empty : Task → Bool
is_empty t = t.utcbs_bitmap.count == 0

unfoldable pub active_threads : Task → Bool
active_threads t = not (t.utcbs_bitmap.count == 0)

-- `kip_area(fpage)`.
unfoldable pub set_kip_area : Kernel → ℕ → ℕ → Run Kernel
set_kip_area k t fpage = do
  wassert (is_empty (k.tasks t))
  wassert (not (fpage == Fpage.nil))
  ok (set_task k t (record (k.tasks t) { kip_area = fpage }))

-- `utcb_area(fpage)`. What `init` returns is not looked at.
unfoldable pub set_utcb_area : Kernel → ℕ → ℕ → Run Kernel
set_utcb_area k t fpage = do
  wassert (is_empty (k.tasks t))
  let task = record (k.tasks t) {
    utcb_area = fpage;
    utcbs_bitmap = (init 64 (k.tasks t).utcbs_bitmap (Fpage.size fpage / page_sz)).0;
  }
  ok (record (set_task k t task) { calls = map_kip t (Fpage.addr task.kip_area) ∷ k.calls })

-- The address of the UTCB, or 0 where there is none left.
unfoldable pub alloc_utcb_uspace : Kernel → ℕ → Run (Kernel × ℕ)
alloc_utcb_uspace k t = do
  let task = k.tasks t
  wassert (not (Fpage.addr task.utcb_area == 0) && not (Fpage.size task.utcb_area == 0))
  let (b, rc) = getfree task.utcbs_bitmap
  let k₁ = set_task k t (record task { utcbs_bitmap = b })
  elim rc [
    | none ↦ ok (k₁, 0)
    | some pos ↦ ok (k₁, (Fpage.addr task.utcb_area + pos * page_sz) % 2 ^ 32)
  ]

unfoldable pub free_utcb_uspace : Kernel → ℕ → ℕ → Run Kernel
free_utcb_uspace k t utcb = do
  let task = k.tasks t
  wassert (not (Fpage.addr task.utcb_area == 0) && not (Fpage.size task.utcb_area == 0))
  wassert (leb (Fpage.addr task.utcb_area) utcb)
  let (b, done) = clear task.utcbs_bitmap ((utcb - Fpage.addr task.utcb_area) / page_sz)
  wassert done
  ok (set_task k t (record task { utcbs_bitmap = b }))

-- What the constructor leaves.
abbrev pub fresh_task : Task
fresh_task = record {
  kip_area = Fpage.nil;
  utcb_area = Fpage.nil;
  utcbs_bitmap = new_bitmap;
  redirector = Thrid.nil;
}

-- `Tasks_t::create`: the first free item of the list is put at the end of the used ones, and the
-- constructor runs on it. A full list stops the kernel.
unfoldable pub create_task : Kernel → Run (Kernel × ℕ)
create_task k = elim k.free_tasks [
  | [] ↦ panic
  | t ∷ rest ↦ ok (
    record (set_task k t fresh_task) {
      used_tasks = k.used_tasks ++ t ∷ [];
      free_tasks = rest;
      calls = new_task t ∷ k.calls;
    },
    t,
  )
]

-- `Tasks_t::remove`: the item goes to the front of the free ones, and the object in it stays as it is.
unfoldable pub remove_task : Kernel → ℕ → Run Kernel
unfolding contains remove
remove_task k t =
    if contains t k.used_tasks
    then ok (record k { used_tasks = remove t k.used_tasks; free_tasks = t ∷ k.free_tasks })
    else panic
