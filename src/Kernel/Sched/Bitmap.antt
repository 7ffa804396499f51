-- ===== src/Kernel/Sched/Bitmap.antt =====
-- krn/threads.h: the search of the ready bitmap.
use wrmos.Base.{
  ℕ, zero, suc, ◌+◌, ◌-◌, ◌*◌, ◌/◌, ◌≤◌, ◌<◌, ◌≡◌, refl, ap, ◌∙◌, inl, inr, Bool, true, false,
  Option, none, some, arith, Bool-cases, lt-cases,
}
use mathlib.Core.Path.{ap₂}
use wrmos.Kernel.Sched.{find_bit, any_bit, find_word}

abbrev pub bit_of : (ℕ → ℕ → Bool) → ℕ → Bool
bit_of bits p = bits (p / 32) (p - (p / 32) * 32)

-- The answer of a search for the highest bit from `lo` to below `hi`.
abbrev pub IsTop : (ℕ → ℕ → Bool) → ℕ → ℕ → Option ℕ → Type 0
IsTop bits lo hi none = (q : ℕ) → lo ≤ q → q < hi → bit_of bits q ≡ false
IsTop bits lo hi (some p) =
    (lo ≤ p)
    × (p < hi)
    × (bit_of bits p ≡ true)
    × ((q : ℕ) → p < q → q < hi → bit_of bits q ≡ false)

bit_in_word : (bits : ℕ → ℕ → Bool) (i n p : ℕ) → n < 32 → p ≡ 32 * i + n → bit_of bits p ≡ bits i n
bit_in_word bits i n p h e =
    let word : p / 32 ≡ i = omega arith in
    let place : p - (p / 32) * 32 ≡ n = omega arith in ap₂ bits word place

-- The bits above the range are clear.
IsTop-extend :
    (bits : ℕ → ℕ → Bool) (lo mid hi : ℕ) (r : Option ℕ)
    → ((q : ℕ) → mid ≤ q → q < hi → bit_of bits q ≡ false)
    → mid ≤ hi
    → IsTop bits lo mid r
    → IsTop bits lo hi r
IsTop-extend bits lo mid hi none clear h top =
    λ q l u. elim (lt-cases q mid) [ inl below ↦ top q l below | inr above ↦ clear q above u ]
IsTop-extend bits lo mid hi (some p) clear h (l, u, set, top) = (
  l,
  omega arith,
  set,
  λ q g u'. elim (lt-cases q mid) [ inl below ↦ top q g below | inr above ↦ clear q above u' ],
)

pub find_bit-IsTop :
    (bits : ℕ → ℕ → Bool) (i n : ℕ) → n ≤ 32 → IsTop bits (32 * i) (32 * i + n) (find_bit bits i n)
unfolding find_bit
find_bit-IsTop bits i zero h = λ q lo hi. absurd (omega arith)
find_bit-IsTop bits i (suc n) h = elim (Bool-cases (bits i n)) [
  | inl set ↦
      rw (set, find_bit)
        (
          omega arith,
          omega arith,
          bit_in_word bits i n (32 * i + n) (omega arith) refl ∙ set,
          λ q lo hi. absurd (omega arith),
        )
  | inr clear ↦
      rw (clear, find_bit)
        (IsTop-extend bits (32 * i) (32 * i + n) (32 * i + suc n) (find_bit bits i n)
          (λ q lo hi. bit_in_word bits i n q (omega arith) (omega arith) ∙ clear) (omega arith)
          (find_bit-IsTop bits i n (omega arith)))
]

no_bit : (word : ℕ → Bool) (n : ℕ) → any_bit word n ≡ false → (j : ℕ) → j < n → word j ≡ false
unfolding any_bit
no_bit word zero e j h = absurd (omega arith)
no_bit word (suc n) e j h =
    ground (arith, no_bit word n, no_bit word n (ground arith) j, ap word {x = j} {y = n})

word_clear :
    (bits : ℕ → ℕ → Bool) (n : ℕ)
    → ((j : ℕ) → j < 32 → bits n j ≡ false)
    → (q : ℕ) → 32 * n ≤ q
    → q < 32 * suc n
    → bit_of bits q ≡ false
word_clear bits n clear q lo hi =
    bit_in_word bits n (q - 32 * n) q (omega arith) (omega arith) ∙ clear (q - 32 * n) (omega arith)

pub find_word-IsTop : (bits : ℕ → ℕ → Bool) (n : ℕ) → IsTop bits 0 (32 * n) (find_word bits n)
unfolding find_word
find_word-IsTop bits zero = λ q lo hi. absurd (omega arith)
find_word-IsTop bits (suc n) = elim (Bool-cases (any_bit (bits n) 32)) [
  | inl any ↦
      rw (any, find_word)
        (in_word (find_bit bits n 32) (find_bit-IsTop bits n 32 (omega arith))
          (find_word-IsTop bits n))
  | inr no_one ↦
      rw (no_one, find_word)
        (IsTop-extend bits 0 (32 * n) (32 * suc n) (find_word bits n)
          (word_clear bits n (no_bit (bits n) 32 no_one)) (omega arith) (find_word-IsTop bits n))
]
  where
    in_word :
        (r : Option ℕ)
        → IsTop bits (32 * n) (32 * n + 32) r
        → IsTop bits 0 (32 * n) (find_word bits n)
        → IsTop bits 0 (32 * suc n) (elim r [ some prio ↦ some prio | none ↦ find_word bits n ])
    in_word none clear rest =
        IsTop-extend bits 0 (32 * n) (32 * suc n) (find_word bits n)
          (λ q lo hi. clear q lo (omega arith)) (omega arith) rest
    in_word (some p) (lo, hi, set, clear) rest =
        (omega arith, omega arith, set, λ q g u. clear q g (omega arith))
