-- ===== src/Kernel/Queues.antt =====
-- krn/threads.h, class Threads_t: the ready lists with their bitmap, and the lists of waiting threads.
-- An iterator stands for the thread that it points at, since a thread is in at most one list, once.
pub mod Placed
pub mod Moves
use wrmos.Base.{
  update, ℕ, zero, suc, ◌+◌, ◌-◌, ◌*◌, ◌/◌, ◌%◌, ◌≡◌, Bool, true, false, not, ◌&&◌, ◌||◌, List, [],
  ◌∷◌, ◌++◌, ◌==◌, ltb, leb, if◌then◌else◌, contains, remove, Run, ok, panic, ◌>>=◌, ◌>>◌, wassert,
}
use wrmos.Kernel.State.{
  State, ready, send_ipc, send_pfault, send_exception, receive_ipc, is, Thread, Kernel, never,
  prio_max_value, set_thread,
}

-- `_ready_bits[prio / 32]`, at the bit `prio - prio / 32 * 32`.
abbrev pub ready_bit : Kernel → ℕ → Bool
ready_bit k prio = k.ready_bits (prio / 32) (prio - (prio / 32) * 32)

abbrev pub set_bit : Kernel → ℕ → Bool → Kernel
set_bit k prio b = record k {
  ready_bits =
      update k.ready_bits (prio / 32)
        (update (k.ready_bits (prio / 32)) (prio - (prio / 32) * 32) b);
}

abbrev pub is_empty : List ℕ → Bool
is_empty [] = true
is_empty (x ∷ xs) = false

unfoldable pub add_ready : Kernel → ℕ → Run Kernel
unfolding contains
add_ready k t = do
  let prio = (k.threads t).prio
  wassert (leb prio prio_max_value)
  wassert (not (contains t (k.ready_threads prio)))
  let k' = record k { ready_threads = update k.ready_threads prio (k.ready_threads prio ++ t ∷ []) }
  ok (set_bit k' prio true)

unfoldable pub del_ready : Kernel → ℕ → Run Kernel
unfolding contains remove
del_ready k t = do
  let prio = (k.threads t).prio
  wassert (leb prio prio_max_value)
  wassert (contains t (k.ready_threads prio))
  let k' = record k {
    ready_threads = update k.ready_threads prio (remove t (k.ready_threads prio));
  }
  ok (if is_empty (remove t (k.ready_threads prio)) then set_bit k' prio false else k')

unfoldable pub add_send : Kernel → ℕ → Run Kernel
unfolding contains
add_send k t = do
  wassert (not (contains t k.send_threads))
  ok (record k { send_threads = k.send_threads ++ t ∷ [] })

unfoldable pub del_send : Kernel → ℕ → Run Kernel
unfolding contains remove
del_send k t = do
  wassert (contains t k.send_threads)
  ok (record k { send_threads = remove t k.send_threads })

-- The loop of `add_timeout_waiting`: before the first thread that expires later, or at the same
-- time with a lower priority.
unfoldable pub insert_by_timeout : (ℕ → Thread) → ℕ → List ℕ → List ℕ
insert_by_timeout th t [] = t ∷ []
insert_by_timeout th t (x ∷ xs) =
    if ltb (th t).timeout (th x).timeout
      || ((th x).timeout == (th t).timeout && ltb (th x).prio (th t).prio)
    then t ∷ x ∷ xs
    else x ∷ insert_by_timeout th t xs

unfoldable pub add_timeout_waiting : Kernel → ℕ → List ℕ → Run (List ℕ)
unfolding contains insert_by_timeout
add_timeout_waiting k t list = do
  wassert (not (contains t list))
  ok (insert_by_timeout k.threads t list)

unfoldable pub del_timeout_waiting : ℕ → List ℕ → Run (List ℕ)
unfolding contains remove
del_timeout_waiting t list = do wassert (contains t list); ok (remove t list)

unfoldable pub add_rcv_timeout_waiting : Kernel → ℕ → Run Kernel
unfolding add_timeout_waiting
add_rcv_timeout_waiting k t = do
  wassert (is (k.threads t).state receive_ipc)
  list ← add_timeout_waiting k t k.timeout_waiting_rcv
  ok (record k { timeout_waiting_rcv = list })

unfoldable pub add_snd_timeout_waiting : Kernel → ℕ → Run Kernel
unfolding add_timeout_waiting
add_snd_timeout_waiting k t = do
  wassert (is (k.threads t).state send_ipc)
  list ← add_timeout_waiting k t k.timeout_waiting_snd
  ok (record k { timeout_waiting_snd = list })

unfoldable pub del_rcv_timeout_waiting : Kernel → ℕ → Run Kernel
unfolding del_timeout_waiting
del_rcv_timeout_waiting k t = do
  wassert (is (k.threads t).state receive_ipc)
  list ← del_timeout_waiting t k.timeout_waiting_rcv
  ok (record k { timeout_waiting_rcv = list })

unfoldable pub del_snd_timeout_waiting : Kernel → ℕ → Run Kernel
unfolding del_timeout_waiting
del_snd_timeout_waiting k t = do
  wassert (is (k.threads t).state send_ipc)
  list ← del_timeout_waiting t k.timeout_waiting_snd
  ok (record k { timeout_waiting_snd = list })
