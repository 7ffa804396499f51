-- ===== src/Containers/Bitmap.antt =====
-- lib/containers/bitmap.h: bitmap_t on a machine whose `long` has 32 bits. A word is kept bit by bit.
pub mod Bits
pub mod Search
pub mod Takes
use wrmos.Base.{
  update, ℕ, zero, suc, ◌+◌, ◌-◌, ◌*◌, ◌/◌, ◌%◌, ◌^◌, Bool, true, false, not, ◌||◌, Option, none,
  some, leb, if◌then◌else◌,
}

pub record Bitmap : Type 0 where
  pub words : ℕ → ℕ → Bool
  pub capacity : ℕ
  pub count : ℕ

-- `(_words[pos / Bits_per_word] >> (pos % Bits_per_word)) & 1`.
abbrev pub bit : Bitmap → ℕ → Bool
bit b pos = b.words (pos / 32) (pos % 32)

-- `_words[...] |= 1 << ...` and `_words[...] &= ~(1 << ...)`.
abbrev pub with_bit : Bitmap → ℕ → Bool → Bitmap
with_bit b pos v = record b {
  words = update b.words (pos / 32) (update (b.words (pos / 32)) (pos % 32) v);
}

-- The bitmap as the constructor leaves it.
abbrev pub new_bitmap : Bitmap
new_bitmap = record { words = λ _ _. false; capacity = 0; count = 0 }

-- `true` stands for the return code 0, `false` for -1. The words keep their bits.
unfoldable pub init : ℕ → Bitmap → ℕ → Bitmap × Bool
init max_bits b capacity =
    if leb capacity max_bits
    then (record b { capacity = capacity; count = 0 }, true)
    else (b, false)

unfoldable pub get : Bitmap → ℕ → Option Bool
get b pos = if leb b.capacity pos then none else some (bit b pos)

unfoldable pub set : Bitmap → ℕ → Bitmap × Bool
set b pos =
    if leb b.capacity pos
    then (b, false)
    else if bit b pos
    then (b, true)
    else (record (with_bit b pos true) { count = (b.count + 1) % 2 ^ 32 }, true)

unfoldable pub clear : Bitmap → ℕ → Bitmap × Bool
clear b pos =
    if leb b.capacity pos
    then (b, false)
    else if bit b pos
    then (record (with_bit b pos false) { count = (b.count + 2 ^ 32 - 1) % 2 ^ 32 }, true)
    else (b, true)

-- A bit that equals `v`.
abbrev pub is_val : Bool → Bool → Bool
is_val true x = x
is_val false x = not x

-- The inner loops of `getfree` (v is `false`) and of `getbusy` (`true`): the bits from `j` on, `n` of them.
unfoldable pub find_in_word : (ℕ → Bool) → Bool → ℕ → ℕ → Option ℕ
find_in_word word v zero j = none
find_in_word word v (suc n) j = if is_val v (word j) then some j else find_in_word word v n (j + 1)

-- `_words[i] != (unsigned long)-1` for `getfree`, `_words[i] != 0` for `getbusy`.
unfoldable pub has_val : (ℕ → Bool) → Bool → ℕ → Bool
has_val word v zero = false
has_val word v (suc n) = is_val v (word n) || has_val word v n

abbrev pub in_word : ℕ → Option ℕ → Option ℕ
in_word i none = none
in_word i (some j) = some (i * 32 + j)

abbrev pub or_rest : Option ℕ → Option ℕ → Option ℕ
or_rest (some pos) rest = some pos
or_rest none rest = rest

-- The outer loops: the whole words from `i` on, `n` of them.
unfoldable pub find_in_words : (ℕ → ℕ → Bool) → Bool → ℕ → ℕ → Option ℕ
unfolding find_in_word has_val
find_in_words words v zero i = none
find_in_words words v (suc n) i =
    let rest = find_in_words words v n (i + 1) in
    if has_val (words i) v 32
    then or_rest (in_word i (find_in_word (words i) v 32 0)) rest
    else rest

-- The whole words, then the tail.
unfoldable pub find_val : Bitmap → Bool → Option ℕ
find_val b v =
    or_rest (find_in_words b.words v (b.capacity / 32) 0)
      (in_word (b.capacity / 32) (find_in_word (b.words (b.capacity / 32)) v (b.capacity % 32) 0))

unfoldable pub getfree : Bitmap → Bitmap × Option ℕ
getfree b = elim (find_val b false) [ some pos ↦ ((set b pos).0, some pos) | none ↦ (b, none) ]

unfoldable pub getbusy : Bitmap → Bitmap × Option ℕ
getbusy b = elim (find_val b true) [ some pos ↦ ((clear b pos).0, some pos) | none ↦ (b, none) ]

unfoldable pub getany : Bitmap → Bool → Bitmap × Option ℕ
getany b val = if val then getbusy b else getfree b
