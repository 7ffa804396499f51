-- ===== src/L4/Field.antt =====
-- Bit fields of a word: the field of `w` bits from the bit `lo` on.
use wrmos.Base.{ℕ, ◌+◌, ◌*◌, ◌/◌, ◌%◌, ◌^◌}

abbrev pub field : ℕ → ℕ → ℕ → ℕ
field raw lo w = (raw / 2 ^ lo) % 2 ^ w

-- An assignment to the field, which cuts the value to its width.
abbrev pub set_field : ℕ → ℕ → ℕ → ℕ → ℕ
set_field raw lo w v = (raw / 2 ^ (lo + w)) * 2 ^ (lo + w) + (v % 2 ^ w) * 2 ^ lo + raw % 2 ^ lo
