-- ===== src/Kernel/Sender.antt =====
-- krn/threads.h, class Threads_t: the search for a thread that waits to send to a receiver.
pub mod Best
pub mod Found
use wrmos.Base.{
  ℕ, Bool, true, false, not, ◌&&◌, ◌||◌, Option, none, some, List, [], ◌∷◌, ◌==◌, ltb,
  if◌then◌else◌, Run, ok, panic, ◌>>=◌, ◌>>◌, wassert,
}
use wrmos.L4.Thrid
use wrmos.L4.MsgTag
use wrmos.Kernel.State.{State, is_snd, Thread, Kernel, find}
use wrmos.Kernel.Prio.{prio_max}

-- The two results that the search returns through pointers.
pub record Flags : Type 0 where
  pub propagated : Bool
  pub use_local_id : Bool

abbrev pub no_flags : Flags
no_flags = record { propagated = false; use_local_id = false }

-- "check partner destination"
unfoldable pub is_addressed : Kernel → ℕ → ℕ → Bool
is_addressed k rcv snd =
    let r = k.threads rcv in
    let s = k.threads snd in (s.task == r.task && s.ipc_to == r.localid) || s.ipc_to == r.globid

-- "if propagate send operation": who counts as the sender, and whether the message is propagated.
unfoldable pub virtual_sender : Kernel → ℕ → ℕ → Run (ℕ × Bool)
virtual_sender k rcv snd =
    if MsgTag.propagated ((k.threads snd).mr 0)
    then (do
      v ← find k (k.threads snd).sender
      ok (elim v [
        | none ↦ (snd, false)
        | some virt ↦
            if (k.threads snd).task == (k.threads virt).task
              || (k.threads snd).task == (k.threads rcv).task
            then (virt, true)
            else (snd, false)
      ]))
    else ok (snd, false)

-- "check rcv from_spec"
unfoldable pub is_accepted : Kernel → ℕ → ℕ → ℕ → Bool
is_accepted k rcv from_spec sender =
    let local = (k.threads sender).task == (k.threads rcv).task in
    Thrid.is_any from_spec
    || (local && Thrid.is_any_local from_spec)
    || (local && from_spec == (k.threads sender).localid)
    || from_spec == (k.threads sender).globid

-- "set local or global flag for from field"
unfoldable pub is_known_locally : Kernel → ℕ → ℕ → ℕ → Bool
is_known_locally k rcv from_spec sender =
    (k.threads sender).task == (k.threads rcv).task
    && (Thrid.is_any_local from_spec || from_spec == (k.threads sender).localid)

-- `_is_good_sender`, which sets its flags and never clears them.
unfoldable pub is_good_sender_for : Kernel → ℕ → ℕ → ℕ → Flags → Run (Bool × Flags)
is_good_sender_for k rcv from_spec snd f = do
  wassert (is_snd (k.threads snd).state)
  wassert (not (Thrid.is_nil (k.threads snd).ipc_to))
  wassert (not (Thrid.is_any (k.threads snd).ipc_to))
  wassert (not (Thrid.is_any_local (k.threads snd).ipc_to))
  if not (is_addressed k rcv snd) then ok (false, f) else do
    (sender, virt) ← virtual_sender k rcv snd
    let f₁ = record f { propagated = f.propagated || virt }
    ok (
        if is_accepted k rcv from_spec sender
        then (
          true,
          record f₁ { use_local_id = f.use_local_id || is_known_locally k rcv from_spec sender },
        )
        else (false, f₁))

-- `!res || res->prio_max() < (*it)->prio_max()`
unfoldable pub is_better : Kernel → Option ℕ → ℕ → Bool
is_better k none t = true
is_better k (some r) t = ltb (prio_max (k.threads r)) (prio_max (k.threads t))

-- The loop of `find_highest_prio_sender` over the rest of a list, with the best thread so far.
unfoldable pub find_highest_from :
    Kernel → ℕ → ℕ → List ℕ → Option ℕ → Flags → Run (Option ℕ × Flags)
find_highest_from k rcv from_spec [] res f = ok (res, f)
find_highest_from k rcv from_spec (t ∷ ts) res f = do
  (good, f₁) ← is_good_sender_for k rcv from_spec t f
  find_highest_from k rcv from_spec ts (if good && is_better k res t then some t else res) f₁

unfoldable pub find_highest_prio_sender : Kernel → ℕ → ℕ → List ℕ → Run (Option ℕ × Flags)
find_highest_prio_sender k rcv from_spec list = find_highest_from k rcv from_spec list none no_flags

-- The choice between the best threads of the two lists, with their flags.
unfoldable pub choose : Kernel → Option ℕ × Flags → Option ℕ × Flags → Option ℕ × Flags
choose k (none, f) (none, g) = (none, no_flags)
choose k (some s, f) (none, g) = (some s, f)
choose k (none, f) (some t, g) = (some t, g)
choose k (some s, f) (some t, g) =
    if ltb (prio_max (k.threads s)) (prio_max (k.threads t)) then (some t, g) else (some s, f)

unfoldable pub find_sender : Kernel → ℕ → ℕ → Run (Option ℕ × Flags)
find_sender k rcv from_spec = do
  single ← find k from_spec
  elim single [
    | some t ↦ if not (is_snd (k.threads t).state) then ok (none, no_flags) else do
      (good, f) ← is_good_sender_for k rcv from_spec t no_flags
      ok (if good then some t else none, f)
    | none ↦ do
      snd1 ← find_highest_prio_sender k rcv from_spec k.timeout_waiting_snd
      snd2 ← find_highest_prio_sender k rcv from_spec k.send_threads
      ok (choose k snd1 snd2)
  ]
