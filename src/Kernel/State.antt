-- ===== src/Kernel/State.antt =====
-- krn/thread.h, krn/threads.h: the data of the threads and of the lists that hold them.
-- A `Thread_t*` is the index of the thread in the array `Threads_t::_threads`.
use wrmos.Base.{
  update, ℕ, zero, suc, ◌+◌, ◌-◌, ◌/◌, ◌%◌, ◌^◌, Bool, ◌&&◌, Option, none, some, List, ◌==◌, leb,
  if◌then◌else◌, Run, ok, panic,
}
use wrmos.L4.Thrid
use wrmos.Containers.Bitmap.{Bitmap}

-- krn/kconfig.h
abbrev pub ints_max : ℕ
ints_max = 128

abbrev pub threads_max : ℕ
threads_max = 128

abbrev pub thread_number_min : ℕ
thread_number_min = ints_max

abbrev pub thread_number_max : ℕ
thread_number_max = ints_max + threads_max - 1

abbrev pub timeslice_usec : ℕ
timeslice_usec = 50000

abbrev pub prio_max_value : ℕ
prio_max_value = 255

-- The timeout of an operation that waits for ever: `(uint64_t)-1`.
abbrev pub never : ℕ
never = 2 ^ 64 - 1

pub data State : Type 0 where
  idle inactive active ready : State
  send_ipc send_pfault send_exception : State
  receive_ipc receive_pfault receive_exception : State

-- The enumerators' values.
abbrev pub code : State → ℕ
code idle = 0
code inactive = 1
code active = 2
code ready = 3
code send_ipc = 0x10
code send_pfault = 0x11
code send_exception = 0x12
code receive_ipc = 0x20
code receive_pfault = 0x21
code receive_exception = 0x22

-- `==` on `state_t`.
abbrev pub is : State → State → Bool
is s t = code s == code t

-- `_state & Snd_mask` and `_state & Rcv_mask`, each a mask of one bit.
abbrev pub is_snd : State → Bool
is_snd s = (code s / 0x10) % 2 == 1

abbrev pub is_rcv : State → Bool
is_rcv s = (code s / 0x20) % 2 == 1

pub record InheritedPrio : Type 0 where
  pub owner : ℕ
  pub prio : ℕ

-- The fields of `Thread_t`; `localid` is `_utcb_uva`. `utcb_global_id` and `mr` to `user_defined_handle` are those
-- of its UTCB, which the kernel and the program share; `frame` is the saved frame of its entry into the
-- kernel, word by word. A `Task_t*` is the place of the task in the list of tasks, from 1 on, and 0 if null.
pub record Thread : Type 0 where
  pub globid : ℕ
  pub localid : ℕ
  pub task : ℕ
  pub pagerid : ℕ
  pub schedid : ℕ
  pub pager : Option ℕ
  pub sched : Option ℕ
  pub utcb_global_id : ℕ
  pub state : State
  pub timeout : ℕ
  pub ipc_to : ℕ
  pub ipc_from_spec : ℕ
  pub pf_addr : ℕ
  pub pf_inst : ℕ
  pub pf_access : ℕ
  pub exc_type : ℕ
  pub exc_pf : ℕ
  pub mr : ℕ → ℕ
  pub br : ℕ → ℕ
  pub error : ℕ
  pub sender : ℕ
  pub exception_handler : ℕ
  pub user_defined_handle : ℕ
  pub flags : ℕ
  pub fpu_in_use : Bool
  pub entry_type : ℕ
  pub utcb_kva : ℕ
  pub utcb_pa : ℕ
  pub frame : ℕ → ℕ
  pub prio : ℕ
  pub inherited_prios : List InheritedPrio
  pub prio_heir : ℕ
  pub signal_pending : Bool
  pub timeslice_point : ℕ
  pub timeslice : ℕ

-- `Int_thread_t`.
pub record IntThread : Type 0 where
  pub handler : ℕ
  pub pending : Bool

-- The fields of `Task_t` but its name, its address space and the permissions of the ports.
pub record Task : Type 0 where
  pub kip_area : ℕ
  pub utcb_area : ℕ
  pub utcbs_bitmap : Bitmap
  pub redirector : ℕ

-- The calls that the kernel makes of the interrupt controller and of the address spaces.
pub data Call : Type 0 where
  eoi clear_irq unmask_irq mask_irq : ℕ → Call
  map_page : ℕ → ℕ → ℕ → ℕ → ℕ → Call
  unmap_page : ℕ → ℕ → ℕ → Call
  set_ioperm : ℕ → ℕ → ℕ → Bool → Call
  initial_frame : ℕ → ℕ → ℕ → Call
  new_task : ℕ → Call
  map_kip : ℕ → ℕ → Call
  map_utcb : ℕ → ℕ → ℕ → Call
  kmap_utcb : ℕ → Call
  kunmap_utcb : ℕ → Call
  set_attributes : ℕ → ℕ → ℕ → Bool → Call

-- `_ready_bits` is kept bit by bit: the word, then the bit in the word. `calls` are those that have been
-- made, the last one first. `used_tasks` and `free_tasks` are the two lists of `Tasks_t::_tasks`.
pub record Kernel : Type 0 where
  pub int_threads : ℕ → IntThread
  pub calls : List Call
  pub threads : ℕ → Thread
  pub ready_bits : ℕ → ℕ → Bool
  pub ready_threads : ℕ → List ℕ
  pub send_threads : List ℕ
  pub timeout_waiting_snd : List ℕ
  pub timeout_waiting_rcv : List ℕ
  pub current : ℕ
  pub tasks : ℕ → Task
  pub used_tasks : List ℕ
  pub free_tasks : List ℕ

abbrev pub set_thread : Kernel → ℕ → Thread → Kernel
set_thread k t th = record k { threads = update k.threads t th }

-- `Threads_t::find(unsigned)`.
unfoldable pub find_number : Kernel → ℕ → Option ℕ
find_number k num =
    if leb thread_number_min num && leb num thread_number_max
    then (if is (k.threads (num - thread_number_min)).state idle
        then none
        else some (num - thread_number_min))
    else none

-- The loop of `Threads_t::find_by_utcb` over the slots from `i` on, with `n` slots left.
unfoldable pub find_by_utcb_from : Kernel → ℕ → ℕ → ℕ → Run (Option ℕ)
find_by_utcb_from k utcb zero i = panic
find_by_utcb_from k utcb (suc n) i =
    let rest = find_by_utcb_from k utcb n (i + 1) in
    if (k.threads i).task == (k.threads k.current).task && utcb == (k.threads i).localid
    then ok (if is (k.threads i).state idle then none else some i)
    else rest

unfoldable pub find_by_utcb : Kernel → ℕ → Run (Option ℕ)
unfolding find_by_utcb_from
find_by_utcb k utcb = find_by_utcb_from k utcb threads_max 0

-- `Threads_t::find(L4_thrid_t)`.
unfoldable pub find : Kernel → ℕ → Run (Option ℕ)
unfolding find_number find_by_utcb Thrid.is_global Thrid.is_local Thrid.number
find k id =
    if Thrid.is_global id
    then ok (find_number k (Thrid.number id))
    else if Thrid.is_local id
    then find_by_utcb k id
    else ok none

-- `wassert(thr)` before the pointer is used.
abbrev pub not_null {ℓ} : {A : Type ℓ} → Option A → Run A
not_null (some a) = ok a
not_null none = panic
