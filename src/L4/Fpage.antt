-- ===== src/L4/Fpage.antt =====
-- lib/l4/inc/l4_types.h, class L4_fpage_t: a flexible page as a 32-bit word, its fields laid out as on a
-- big-endian machine, and `is_aligned` of lib/sys/sys_utils.h.
pub mod Ranges
use wrmos.Base.{
  ℕ, zero, suc, ◌+◌, ◌-◌, ◌*◌, ◌/◌, ◌%◌, ◌^◌, Bool, true, false, not, ◌&&◌, ◌||◌, ◌==◌, ltb, leb,
  if◌then◌else◌,
}
use wrmos.L4.Field.{field, set_field}

abbrev pub nil : ℕ
nil = 0

abbrev pub ioport : ℕ
ioport = 0x26

abbrev pub size_min : ℕ
size_min = 4096

-- The bitwise `and` of words of `w` bits.
unfoldable pub bit_and : ℕ → ℕ → ℕ → ℕ
bit_and zero a b = 0
bit_and (suc w) a b = (a % 2) * (b % 2) + 2 * bit_and w (a / 2) (b / 2)

unfoldable pub is_aligned : ℕ → ℕ → Bool
is_aligned n a = bit_and 32 n (a - 1) == 0

unfoldable pub is_io : ℕ → Bool
is_io raw = field raw 0 10 == ioport

unfoldable pub is_complete : ℕ → Bool
is_complete raw = field raw 10 22 == 0 && field raw 4 6 == 1

abbrev pub null_bit : ℕ → ℕ
null_bit raw = field raw 3 1

-- `1ul << n`: a shift by the width of the word or more has no result in C, and is zero here.
unfoldable pub shifted_one : ℕ → ℕ
shifted_one n = 2 ^ n % 2 ^ 32

unfoldable pub addr : ℕ → ℕ
addr raw = (field raw 10 22 * 2 ^ 10) % 2 ^ 32

unfoldable pub log2sz : ℕ → ℕ
log2sz raw = field raw 4 6

unfoldable pub size : ℕ → ℕ
unfolding log2sz
size raw = shifted_one (log2sz raw)

unfoldable pub access : ℕ → ℕ
access raw = field raw 0 3

unfoldable pub end : ℕ → ℕ
end raw = (addr raw + size raw) % 2 ^ 32

unfoldable pub io_port : ℕ → ℕ
io_port raw = field raw 16 16

unfoldable pub io_size : ℕ → ℕ
io_size raw = shifted_one (field raw 10 6)

-- The loop that looks for the single bit: how often the word is halved before its low bit is set. A
-- word that is not zero has its low bit set after at most 31 steps.
unfoldable pub halvings : ℕ → ℕ → ℕ
halvings zero bytes = 0
halvings (suc n) bytes = let rest = halvings n (bytes / 2) in if bytes % 2 == 1 then 0 else suc rest

-- `set` on the word `raw`, whose `null` bit it leaves as it finds it.
unfoldable pub set_mem : ℕ → ℕ → ℕ → ℕ → ℕ
set_mem raw adr sz_bytes acc =
    if ltb sz_bytes size_min || not (is_aligned adr sz_bytes)
    then nil
    else let page =
        set_field (set_field (set_field raw 10 22 (adr / 2 ^ 10)) 4 6 (halvings 32 sz_bytes)) 0 3
          acc in
      if size page == sz_bytes then page else nil

unfoldable pub set_io : ℕ → ℕ → ℕ → ℕ
set_io raw port sz_ports =
    if sz_ports == 0
      || ltb 0xffff port
      || ltb 0xffff ((port + sz_ports) % 2 ^ 32)
      || not (is_aligned port sz_ports)
    then nil
    else let page =
        set_field (set_field (set_field raw 16 16 port) 10 6 (halvings 32 sz_ports)) 0 10 ioport in
      if io_size page == sz_ports then page else nil

unfoldable pub is_cross : ℕ → ℕ → Bool
is_cross this p = not (leb (end this) (addr p) || leb (end p) (addr this))

unfoldable pub is_inside : ℕ → ℕ → Bool
is_inside this p = leb (addr this) (addr p) && leb (end p) (end this)

unfoldable pub is_acc_fit : ℕ → ℕ → Bool
is_acc_fit this acc = bit_and 32 acc (access this) == acc

unfoldable pub is_inside_acc : ℕ → ℕ → Bool
is_inside_acc this p = is_inside this p && is_acc_fit this (access p)
