-- ===== src/Tests/SpaceTests.antt =====
-- krn/syscalls.cpp: examples of the calls that control spaces and memory.
use wrmos.Base.{update, ◌≡◌, refl, [], ◌∷◌, inl, arith}
use wrmos.L4.Thrid
use wrmos.L4.Fpage
use wrmos.Containers.Bitmap.{init}
use wrmos.Kernel.State.{Kernel, find, find_number}
use wrmos.Kernel.ThreadIds.{thrid_is_global_user}
use wrmos.Kernel.Task.{is_empty, active_threads, set_kip_area, set_utcb_area}
use wrmos.Kernel.Syscalls.Spaces.{
  find_space, is_bad_utcb_area, is_bad_kip_area, set_redirector, configure_space,
  syscall_space_control,
}
use wrmos.Kernel.Syscalls.Spaces.Areas.{IsLaidOut, space_control-IsLaidOut}
use wrmos.Kernel.Syscalls.Memory.{
  control_fpage, control_fpages, is_bad_control, syscall_memory_control,
}
use wrmos.Kernel.Syscalls.Memory.OnePage.{OnePage, memory_control-OnePage}
use wrmos.Tests.SyscallTests.{flat, calling, kernel_of}

-- The space of thread 3 gets a kernel interface page and two pages of UTCBs.
abbrev laying : Kernel
laying = calling (Thrid.create_global 131 2 ∷ 0 ∷ 0x100000c5 ∷ 0x100020d6 ∷ 0 ∷ [])

gives_areas : ((kernel_of (syscall_space_control laying 1) laying).tasks 1).utcb_area ≡ 0x100020d6
unfolding syscall_space_control find_space configure_space is_bad_utcb_area is_bad_kip_area
    set_redirector set_kip_area set_utcb_area is_empty active_threads find find_number
    thrid_is_global_user init Fpage.addr Fpage.size Fpage.log2sz Fpage.shifted_one Fpage.access
    Fpage.is_aligned Fpage.bit_and Fpage.is_cross Fpage.end Thrid.create_global Thrid.is_global
    Thrid.number
gives_areas = refl

space_control-IsLaidOut_example : IsLaidOut (kernel_of (syscall_space_control laying 1) laying)
unfolding syscall_space_control find_space configure_space is_bad_utcb_area is_bad_kip_area
    set_redirector set_kip_area set_utcb_area is_empty active_threads find find_number
    thrid_is_global_user init Fpage.addr Fpage.size Fpage.log2sz Fpage.shifted_one Fpage.access
    Fpage.is_aligned Fpage.bit_and Fpage.is_cross Fpage.end Thrid.create_global Thrid.is_global
    Thrid.number
space_control-IsLaidOut_example =
    space_control-IsLaidOut laying (kernel_of (syscall_space_control laying 1) laying) 1
      (λ t. inl refl) refl

-- Two pages are asked for, by the control word 1, and one is reached.
abbrev setting : Kernel
setting =
    let k = calling (1 ∷ []) in
    record k {
      threads =
          update k.threads 1
            (record (k.threads 1) { mr = update (update (λ _. 0) 0 0x100020c4) 1 0x200020c4 });
    }

memory_control-OnePage_example :
    OnePage setting 1 (kernel_of (syscall_memory_control flat setting 1) setting)
unfolding syscall_memory_control control_fpages control_fpage is_bad_control Fpage.is_io
    Fpage.is_complete Fpage.addr Fpage.size Fpage.log2sz Fpage.shifted_one Thrid.create_global
memory_control-OnePage_example =
    memory_control-OnePage flat setting (kernel_of (syscall_memory_control flat setting 1) setting)
      1 (omega arith) refl
