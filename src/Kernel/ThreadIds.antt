-- ===== src/Kernel/ThreadIds.antt =====
-- krn/thrid.h: the identifiers of the threads that the kernel knows.
use wrmos.Base.{ℕ, ◌+◌, Bool, ◌&&◌, ◌==◌, ltb, leb}
use wrmos.L4.Thrid
use wrmos.Kernel.State.{ints_max, thread_number_max}

-- krn/kconfig.h: `Ints_max + Kthreads_max`.
abbrev pub kip_thrid_user_base : ℕ
kip_thrid_user_base = ints_max + 1

abbrev pub thrid_roottask : ℕ
thrid_roottask = Thrid.create_global (kip_thrid_user_base + 1) Thrid.def_glob_ver

unfoldable pub thrid_is_int : ℕ → Bool
unfolding Thrid.is_global Thrid.number Thrid.version
thrid_is_int id = Thrid.is_global id && ltb (Thrid.number id) ints_max && Thrid.version id == 1

unfoldable pub thrid_is_global_user : ℕ → Bool
unfolding Thrid.is_global Thrid.number
thrid_is_global_user id =
    Thrid.is_global id
    && leb kip_thrid_user_base (Thrid.number id)
    && leb (Thrid.number id) thread_number_max
