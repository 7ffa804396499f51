-- ===== src/Kernel/Sched.antt =====
-- krn/threads.h, krn/sched.h: which thread runs next.
pub mod Bitmap
pub mod Rotate
pub mod Highest
pub mod Room
pub mod Full
use wrmos.Base.{
  update, ℕ, zero, suc, ◌+◌, ◌*◌, Bool, true, false, not, ◌||◌, Option, none, some, List, [], ◌∷◌,
  ◌++◌, ◌==◌, ltb, if◌then◌else◌, length, remove, Run, ok, panic, ◌>>=◌, ◌>>◌, wassert,
}
use wrmos.Kernel.State.{ready, is, Thread, Kernel, set_thread, threads_max, timeslice_usec}

-- `que->begin()`; the code reads through it, so an empty list stops the model.
abbrev pub begin : List ℕ → Run ℕ
begin [] = panic
begin (t ∷ ts) = ok t

-- To the end of the list: `push_back`, then `erase` of the older item. A list has `threads_max` items, and
-- where none is free, `push_back` stops the kernel.
unfoldable pub move_to_end : ℕ → List ℕ → Run (List ℕ)
unfolding remove
move_to_end t que =
    if ltb 1 (length que)
    then (if ltb (length que) threads_max then ok (remove t (que ++ t ∷ [])) else panic)
    else ok que

-- `Threads_t::timeslice_expired` for a thread of the ready list of the priority `prio`.
unfoldable pub timeslice_expired : Kernel → ℕ → ℕ → Run (Kernel × ℕ)
timeslice_expired k t prio = do
  wassert ((k.threads t).timeslice == 0)
  wassert (is (k.threads t).state ready)
  let k₁ = set_thread k t (record (k.threads t) { timeslice = timeslice_usec })
  que ← move_to_end t (k₁.ready_threads prio)
  first ← begin que
  ok (record k₁ { ready_threads = update k₁.ready_threads prio que }, first)

-- The inner loop of `get_highest_prio_ready_thread`, over the bits below `n` of the word `i`.
unfoldable pub find_bit : (ℕ → ℕ → Bool) → ℕ → ℕ → Option ℕ
find_bit bits i zero = none
find_bit bits i (suc n) = if bits i n then some (32 * i + n) else find_bit bits i n

-- `if (_ready_bits[i])`, on the 32 bits of the word.
unfoldable pub any_bit : (ℕ → Bool) → ℕ → Bool
any_bit word zero = false
any_bit word (suc n) = word n || any_bit word n

-- The outer loop, over the words below `n`.
unfoldable pub find_word : (ℕ → ℕ → Bool) → ℕ → Option ℕ
unfolding find_bit any_bit
find_word bits zero = none
find_word bits (suc n) =
    let rest = find_word bits n in
    if any_bit (bits n) 32
    then elim (find_bit bits n 32) [ some prio ↦ some prio | none ↦ rest ]
    else rest

unfoldable pub pick_from : Kernel → ℕ → Run (Kernel × ℕ)
pick_from k prio = do
  wassert (not (length (k.ready_threads prio) == 0))
  t ← begin (k.ready_threads prio)
  if (k.threads t).timeslice == 0 then timeslice_expired k t prio else ok (k, t)

unfoldable pub get_highest_prio_ready_thread : Kernel → Run (Kernel × ℕ)
get_highest_prio_ready_thread k = elim (find_word k.ready_bits 8) [
  | some prio ↦ pick_from k prio
  | none ↦ panic
]
