-- ===== src/L4/Time.antt =====
-- lib/l4/inc/l4_types.h, class L4_time_t: a period in microseconds as 16 bits, `mantissa * 2 ^ exp`.
-- The fields come in the order of the declaration: from the top on a big-endian machine, from the
-- bottom on a little-endian one.
pub mod Rounding
use wrmos.Base.{
  ℕ, zero, suc, ◌+◌, ◌-◌, ◌*◌, ◌/◌, ◌%◌, ◌^◌, Bool, true, false, not, ◌==◌, ltb, leb, if◌then◌else◌,
}
use wrmos.L4.Field.{field, set_field}

pub record Layout : Type 0 where
  pub abs_at : ℕ
  pub exp_at : ℕ
  pub mantissa_at : ℕ

abbrev pub big_endian : Layout
big_endian = record { abs_at = 15; exp_at = 10; mantissa_at = 0 }

abbrev pub little_endian : Layout
little_endian = record { abs_at = 0; exp_at = 1; mantissa_at = 6 }

abbrev pub never : ℕ
never = 0

-- `Zero`, the same number on every machine.
abbrev pub zero_time : ℕ
zero_time = 0x400

abbrev pub mantissa_len : ℕ
mantissa_len = 10

abbrev pub mantissa_max : ℕ
mantissa_max = 2 ^ mantissa_len - 1

abbrev pub exponent_max_rel : ℕ
exponent_max_rel = 31

abbrev pub is_never : ℕ → Bool
is_never raw = raw == never

abbrev pub is_zero : ℕ → Bool
is_zero raw = raw == zero_time

-- The search for the highest bit, from the bit below `n` down.
unfoldable pub find_msb : ℕ → ℕ → ℕ
find_msb usec zero = 0
find_msb usec (suc pos) =
    let rest = find_msb usec pos in if (usec / 2 ^ pos) % 2 == 1 then pos else rest

module _ (l : Layout) where
  unfoldable pub is_rel : ℕ → Bool
  is_rel raw = not (field raw l.abs_at 1 == 1)

  unfoldable pub rel_man : ℕ → ℕ
  rel_man raw = field raw l.mantissa_at 10

  unfoldable pub rel_exp : ℕ → ℕ
  rel_exp raw = field raw l.exp_at 5

  unfoldable pub rel_usec : ℕ → ℕ
  unfolding rel_man rel_exp
  rel_usec raw = if raw == never then 0 else (rel_man raw * 2 ^ rel_exp raw) % 2 ^ 64

  -- The three assignments to the fields of `_period`.
  unfoldable pub set_period : ℕ → ℕ → ℕ → ℕ
  set_period raw exp mantissa =
      set_field (set_field (set_field raw l.abs_at 1 0) l.exp_at 5 exp) l.mantissa_at 10 mantissa

  -- `rel` on the word `raw`: the float of a period, rounded down; a period that is too long is zero.
  unfoldable pub rel : ℕ → ℕ → ℕ
  rel raw usec =
      if usec == 0
      then zero_time
      else if leb usec mantissa_max
      then set_period raw 0 usec
      else let exp = find_msb usec 64 + 1 - mantissa_len in
        if ltb exponent_max_rel exp then zero_time else set_period raw exp (usec / 2 ^ exp)

  unfoldable pub create_rel : ℕ → ℕ
  create_rel usec = rel zero_time usec
