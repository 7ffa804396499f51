-- ===== src/Kernel/Syscalls/Keeps.antt =====
-- krn/syscalls.cpp: the lists of threads over the system calls: what all the calls use.
pub mod Activation
pub mod Threads
pub mod Schedule
pub mod Registers
pub mod Spaces
use wrmos.Base.{
  update, ℕ, ◌≤◌, ◌≡◌, refl, sym, ap, ◌∙◌, subst, Bool, true, false, not, Option, none, some, List,
  arith, ◌==◌, if◌then◌else◌, Run, ok, ok-eq, ◌>>=◌, ◌>>◌, wassert, Ensures, returns, stops,
  Ensures-eq, Ensures-if, Ensures-bind, Ensures-skip, ◌∷◌,
}
use wrmos.Kernel.State.{State, Thread, Kernel, Call, IntThread, Task, set_thread, prio_max_value}
use wrmos.Kernel.Queues.Placed.{Place, ready_at, queue}
use wrmos.Kernel.Transition.{set_state, set_prio}
use wrmos.Kernel.Transition.Well.{place_of, IsWell, set_thread-IsWell}
use wrmos.Kernel.Transition.Keeps.{set_state-IsWell, set_prio_total}
use wrmos.Kernel.Syscalls.Frame.{reg, set_reg, set_result, set_error}

-- The call, if it returns, leaves the lists in agreement with the states.
abbrev pub KeepsWell : Run Kernel → Type 0
KeepsWell r = Ensures IsWell r

aside-queue :
    (k : Kernel) (ints : ℕ → IntThread) (calls : List Call) (tasks : ℕ → Task)
    (used unused : List ℕ) (q : Place)
    → queue
        (record k {
          int_threads = ints;
          calls = calls;
          tasks = tasks;
          used_tasks = used;
          free_tasks = unused;
        })
        q
      ≡ queue k q
aside-queue k ints calls tasks used unused (ready_at p) = refl
aside-queue k ints calls tasks used unused q = refl

-- Interrupts, tasks and calls have no part in it.
pub aside-IsWell :
    {k : Kernel} (ints : ℕ → IntThread) (calls : List Call) (tasks : ℕ → Task)
    (used unused : List ℕ)
    → IsWell k
    → IsWell (record k {
      int_threads = ints;
      calls = calls;
      tasks = tasks;
      used_tasks = used;
      free_tasks = unused;
    })
aside-IsWell {k} ints calls tasks used unused w = record {
  placed = record {
    counts = λ u q. rw (aside-queue k ints calls tasks used unused q) (w.placed.counts u q);
    bits = w.placed.bits;
  };
  prios = w.prios;
}

-- A change of a thread that leaves its state, its timeout and its priority alone.
pub edit-IsWell :
    {k : Kernel} (t : ℕ) (th : Thread)
    → th.state ≡ (k.threads t).state
    → th.timeout ≡ (k.threads t).timeout
    → th.prio ≡ (k.threads t).prio
    → IsWell k
    → IsWell (set_thread k t th)
edit-IsWell {k} t th s o p w = set_thread-IsWell t th (rw (s, o, p) refl) (rw p (w.prios t)) w

pub set_result-IsWell : {k : Kernel} (cur v : ℕ) → IsWell k → IsWell (set_result k cur v)
set_result-IsWell {k} cur v w = edit-IsWell cur (set_reg (k.threads cur) 0 v) refl refl refl w

pub set_error-IsWell : {k : Kernel} (cur code : ℕ) → IsWell k → IsWell (set_error k cur code)
set_error-IsWell {k} cur code w =
    edit-IsWell cur (record (k.threads cur) { error = code }) refl refl refl w

pub set_state-KeepsWell : (k : Kernel) (t : ℕ) (s : State) → IsWell k → KeepsWell (set_state k t s)
set_state-KeepsWell k t s w =
    Ensures-eq IsWell (set_state k t s) (λ k' e. set_state-IsWell k k' t s w e)

pub set_prio-KeepsWell :
    (k : Kernel) (t v : ℕ) → IsWell k → v ≤ prio_max_value → KeepsWell (set_prio k t v)
set_prio-KeepsWell k t v w small =
    let (k', e, _, w') = set_prio_total k t v w small in rw e (returns k' w')

-- A first part that is not a kernel, one that is, and one with a result beside it.
pub after {ℓ} :
    {A : Type ℓ} (m : Run A) {f : A → Run Kernel}
    → ((a : A) → KeepsWell (f a))
    → KeepsWell (m >>= f)
after m h = Ensures-skip IsWell m (λ a _. h a)

pub next :
    (m : Run Kernel) {f : Kernel → Run Kernel}
    → KeepsWell m
    → ((k : Kernel) → IsWell k → KeepsWell (f k))
    → KeepsWell (m >>= f)
next m h g = Ensures-bind IsWell IsWell m h g

abbrev pub PairWell {ℓ} : {A : Type ℓ} → Kernel × A → Type 0
PairWell x = IsWell x.0

pub next_pair {ℓ} :
    {A : Type ℓ} (m : Run (Kernel × A)) {f : Kernel × A → Run Kernel}
    → Ensures (λ (x : Kernel × A). IsWell x.0) m
    → ((x : Kernel × A) → IsWell x.0 → KeepsWell (f x))
    → KeepsWell (m >>= f)
next_pair m h g = Ensures-bind PairWell IsWell m h g

pub both :
    (b : Bool) {x y : Run Kernel} → KeepsWell x → KeepsWell y → KeepsWell (if b then x else y)
both b h g = Ensures-if IsWell b h g

pub call-IsWell : {k : Kernel} (c : Call) → IsWell k → IsWell (record k { calls = c ∷ k.calls })
call-IsWell {k} c w = aside-IsWell k.int_threads (c ∷ k.calls) k.tasks k.used_tasks k.free_tasks w

pub set_task-IsWell :
    {k : Kernel} (tasks : ℕ → Task) → IsWell k → IsWell (record k { tasks = tasks })
set_task-IsWell {k} tasks w = aside-IsWell k.int_threads k.calls tasks k.used_tasks k.free_tasks w
