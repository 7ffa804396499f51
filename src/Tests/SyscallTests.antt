-- ===== src/Tests/SyscallTests.antt =====
-- krn/syscalls.cpp: tests and examples of the calls that control threads.
use wrmos.Base.{
  update, ℕ, ◌+◌, ◌≡◌, refl, false, List, [], ◌∷◌, some, arith, ok, panic, Run, returns,
}
use wrmos.L4.Thrid
use wrmos.Kernel.State.{idle, active, Kernel, set_thread, find, find_number}
use wrmos.Kernel.Transition.Well.{IsWell}
use wrmos.Kernel.ThreadIds.{thrid_is_int, thrid_is_global_user}
use wrmos.Kernel.Ipc.Messages.{syscall_i0}
use wrmos.Kernel.Ipc.Receive.{Ipc}
use wrmos.Kernel.Ipc.Keeps.{edit-IsRunning}
use wrmos.Kernel.Ipc.Keeps.Calls.{IsInOrder}
use wrmos.Kernel.Syscalls.Frame.{minus_one, set_result, set_error, g1, Spaces}
use wrmos.Kernel.Syscalls.Threads.{syscall_thread_control}
use wrmos.Kernel.Syscalls.Threads.Deletes.{
  Names, LosesTask, delete_unmapped-panic, modify_unknown-LosesTask,
}
use wrmos.Kernel.Syscalls.Schedule.{syscall_schedule}
use wrmos.Kernel.Syscalls.Schedule.Prios.{Owns, GivesPrio, schedule-GivesPrio, keep_prio-refused}
use wrmos.Kernel.Syscalls.Registers.{
  syscall_exchange_registers, exchange_with, finish_exchange, change_registers, exreg_args,
  deliver_registers,
}
use wrmos.Kernel.Syscalls.Registers.Isolation.{OthersSame, exchange_registers-OthersSame}
use wrmos.Kernel.Syscalls.Dispatch.{Board, kentry_syscall, syscall_system_clock}
use wrmos.Kernel.Syscalls.Dispatch.Orders.{IsTame, kentry_syscall-IsInOrder}
use wrmos.Kernel.Syscalls.Keeps.{edit-IsWell}
use wrmos.Tests.KernelTests.{sleeper, quiet, quiet-IsWell}
use wrmos.Tests.IpcTests.{plain, plain-IsOrderly, meeting, meeting-IsRunning}

-- Each page lies at its own address, and has attributes.
abbrev pub flat : Spaces
flat = record { walk = λ _ _ va _. va; kmap_utcb = λ _ pa. pa; attributes = λ _ _ _. some 0 }

-- The first words of a frame, from `i0` on.
abbrev pub words : ℕ → List ℕ → ℕ → ℕ
words at [] = λ _. 0
words at (w ∷ ws) = update (words (at + 1) ws) at w

-- Thread 1 is sigma0, and calls with these arguments.
abbrev pub calling : List ℕ → Kernel
calling ws = record quiet {
  threads = update sleeper 1 (record (sleeper 1) { frame = words syscall_i0 ws });
  current = 1;
}

pub calling-IsWell : (ws : List ℕ) → IsWell (calling ws)
calling-IsWell ws =
    edit-IsWell {k = record quiet { current = 1 }} 1
      (record (sleeper 1) { frame = words syscall_i0 ws }) refl refl refl
      (record {
        placed = record { counts = quiet-IsWell.placed.counts; bits = quiet-IsWell.placed.bits };
        prios = quiet-IsWell.prios;
      })

-- A priority of 7 for thread 5.
abbrev prio_words : ℕ → List ℕ
prio_words prio = Thrid.create_global 133 2 ∷ minus_one ∷ minus_one ∷ prio ∷ minus_one ∷ []

abbrev asking : ℕ → Kernel
asking prio = calling (prio_words prio)

asking-Owns : (prio : ℕ) → Owns (asking prio) 1 5
unfolding find find_number Thrid.create_global Thrid.is_global Thrid.number
asking-Owns prio = record { found = refl; scheduler = refl }

schedule-GivesPrio_example : GivesPrio (asking 7) 1 5 2
unfolding Thrid.create_global
schedule-GivesPrio_example =
    schedule-GivesPrio (asking 7) 1 5 2 (calling-IsWell (prio_words 7)) (asking-Owns 7)
      (record { no_time = refl; no_proc = refl; no_preempt = refl }) (omega arith) refl

keep_prio-refused_example :
    syscall_schedule (asking minus_one) 1 ≡ ok (set_error (set_result (asking minus_one) 1 0) 1 5)
keep_prio-refused_example =
    keep_prio-refused (asking minus_one) 1 5 (calling-IsWell (prio_words minus_one))
      (asking-Owns minus_one) refl

-- Thread 5 is the first of its slot, is in a task with a UTCB area of two pages, and is not activated.
abbrev dropping : Kernel
dropping =
    let k = calling (Thrid.create_global 133 2 ∷ []) in
    record k {
      threads = update k.threads 5 (record (sleeper 5) { localid = minus_one });
      tasks = update k.tasks 1 (record (k.tasks 1) {
        kip_area = 0x100000c5;
        utcb_area = 0x100020d6;
        utcbs_bitmap = record { words = λ _ _. false; capacity = 2; count = 0 };
      });
    }

dropping-Names : Names dropping 1 5
unfolding find_number thrid_is_int thrid_is_global_user Thrid.create_global Thrid.is_global
    Thrid.number Thrid.version
dropping-Names = record { privileged = refl; no_int = refl; user = refl; there = refl }

delete_unmapped-panic_example : syscall_thread_control flat 5 dropping 1 ≡ panic
unfolding wrmos.L4.Fpage.addr
delete_unmapped-panic_example =
    delete_unmapped-panic flat 5 dropping 1 5 dropping-Names refl refl (omega arith)

-- Thread 5 is active, and there is no thread 255.
abbrev moving : Kernel
moving =
    let k =
      calling (Thrid.create_global 133 2 ∷ Thrid.create_global 255 2 ∷ 0 ∷ 0 ∷ minus_one ∷ []) in
    record k {
      threads =
          update (update k.threads 5 (record (sleeper 5) { state = active })) 127
            (record (sleeper 127) { state = idle });
    }

moving-Names : Names moving 1 5
unfolding find_number thrid_is_int thrid_is_global_user Thrid.create_global Thrid.is_global
    Thrid.number Thrid.version
moving-Names = record { privileged = refl; no_int = refl; user = refl; there = refl }

modify_unknown-LosesTask_example : LosesTask flat 5 moving 1 5
unfolding find find_number Thrid.create_global Thrid.is_global Thrid.number
modify_unknown-LosesTask_example =
    modify_unknown-LosesTask flat 5 moving 1 5 moving-Names refl refl refl refl

abbrev pub kernel_of : Run Kernel → Kernel → Kernel
kernel_of (ok k) other = k
kernel_of panic other = other

-- The user's handle of thread 5 is changed, by the flag u.
abbrev exchanging : Kernel
exchanging = calling (Thrid.create_global 133 2 ∷ 64 ∷ 0 ∷ 0 ∷ 0 ∷ 77 ∷ [])

changes_handle :
    ((kernel_of (syscall_exchange_registers exchanging 1) exchanging).threads 5).user_defined_handle
    ≡ 77
unfolding syscall_exchange_registers exchange_with finish_exchange change_registers exreg_args
    deliver_registers find find_number Thrid.create_global Thrid.is_global Thrid.number
    Thrid.is_local
changes_handle = refl

exchange_registers-OthersSame_example :
    OthersSame exchanging 1 (kernel_of (syscall_exchange_registers exchanging 1) exchanging)
unfolding syscall_exchange_registers exchange_with finish_exchange change_registers exreg_args
    deliver_registers find find_number Thrid.create_global Thrid.is_global Thrid.number
    Thrid.is_local
exchange_registers-OthersSame_example =
    exchange_registers-OthersSame exchanging
      (kernel_of (syscall_exchange_registers exchanging 1) exchanging) 1 refl

abbrev board : Board
board = record { env = plain; spaces = flat; kdb = λ k cur. ok k; timer_irq = 5 }

board-IsTame : IsTame board
board-IsTame = record { orderly = plain-IsOrderly; kdb_keeps = λ k cur w. returns k w }

-- Thread 3 reads the clock.
abbrev timing : Kernel
timing =
    set_thread meeting 3
      (record (meeting.threads 3) { frame = update (meeting.threads 3).frame g1 4 })

abbrev outcome_of : Run Ipc → Ipc
outcome_of (ok i) = i
outcome_of panic = wrmos.Kernel.Ipc.Receive.done meeting

kentry_syscall-IsInOrder_example : IsInOrder (outcome_of (kentry_syscall board timing 100 3))
unfolding kentry_syscall syscall_system_clock
kentry_syscall-IsInOrder_example =
    kentry_syscall-IsInOrder board timing 100 3 _ board-IsTame
      (edit-IsRunning 3
        (record (meeting.threads 3) { frame = update (meeting.threads 3).frame g1 4 }) refl refl
        refl meeting-IsRunning)
      refl
