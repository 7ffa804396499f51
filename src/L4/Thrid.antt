-- ===== src/L4/Thrid.antt =====
-- lib/l4/inc/l4_types.h, class L4_thrid_t: thread identifiers, as the 32-bit word `_raw`.
use wrmos.Base.{
  ℕ, ◌+◌, ◌*◌, ◌/◌, ◌%◌, ◌^◌, ◌-◌, ◌<◌, ◌≡◌, Bool, true, not, ◌&&◌, arith, ◌==◌, if◌then◌else◌,
}

abbrev pub nil : ℕ
nil = 0

abbrev pub any : ℕ
any = 2 ^ 32 - 1

-- The low six bits are zero.
abbrev pub any_local : ℕ
any_local = 2 ^ 32 - 64

abbrev pub def_glob_ver : ℕ
def_glob_ver = 2

abbrev pub is_nil : ℕ → Bool
is_nil raw = raw == nil

abbrev pub is_any : ℕ → Bool
is_any raw = raw == any

abbrev pub is_any_local : ℕ → Bool
is_any_local raw = raw == any_local

unfoldable pub is_single : ℕ → Bool
is_single raw = not (is_nil raw) && not (is_any raw) && not (is_any_local raw)

unfoldable pub is_local : ℕ → Bool
unfolding is_single
is_local raw = is_single raw && (raw % 64) == 0

unfoldable pub is_global : ℕ → Bool
unfolding is_single
is_global raw = is_single raw && not ((raw % 64) == 0)

-- `_global.number` and `_local.number`: the high 18 and the high 26 bits.
unfoldable pub number : ℕ → ℕ
unfolding is_global
number raw = if is_global raw then raw / 2 ^ 14 else raw / 2 ^ 6

unfoldable pub version : ℕ → ℕ
version raw = raw % 2 ^ 14

-- The two bit fields of a fresh word are assigned, each cut to its width.
unfoldable pub create_global : ℕ → ℕ → ℕ
create_global num ver = (num % 2 ^ 18) * 2 ^ 14 + ver % 2 ^ 14

unfoldable pub create_irq : ℕ → ℕ
create_irq num = (num % 2 ^ 18) * 2 ^ 14 + 1

-- The interrupt identifier of a number is global, and gives the number back with version one.
pub create_irq_fields :
    (num : ℕ)
    → num < 2 ^ 18
    → (is_global (create_irq num) ≡ true)
      × (number (create_irq num) ≡ num)
      × (version (create_irq num) ≡ 1)
unfolding create_irq is_global number version
create_irq_fields num n = ground arith
