-- ===== src/L4/Time/Rounding.antt =====
-- lib/l4/inc/l4_types.h, class L4_time_t: how a period is rounded, and where it is lost.
use native.Mathlib.Nat.{
  pow-suc, mod-eq_of_lt, pow-le-pow_right, div-lt_iff_lt-mul, div-mul-le_self, lt-div-mul-add,
}
use native.Mathlib.Numerals.{towards_suc}
use wrmos.Base.{
  ap, ==_ne, le→ltb, le→leb, ℕ, zero, suc, ◌+◌, ◌-◌, ◌*◌, ◌/◌, ◌%◌, ◌^◌, ◌≤◌, ◌<◌, ◌≡◌, refl, false,
  ◌||◌, arith, ◌==◌, Bool-cases, lt-cases, inl, inr,
}
use wrmos.L4.Time.{
  big_endian, little_endian, zero_time, mantissa_max, exponent_max_rel, is_zero, find_msb, rel_man,
  rel_exp, rel_usec, set_period, rel, create_rel,
}

two_pow-suc : (n : ℕ) → 2 ^ suc n ≡ 2 ^ n + 2 ^ n
two_pow-suc n = rw pow-suc (omega arith)

-- One step of the search: the top half of the range, or the lower half.
top_half : (u p : ℕ) → u < p + p → (u / p) % 2 ≡ 1 → p ≤ u
top_half u p h e = grind arith

low_half : (u p : ℕ) → u < p + p → ((u / p) % 2 == 1) ≡ false → u < p
low_half u p h e = grind arith

find_msb_bounds :
    (u n : ℕ) → 0 < u → u < 2 ^ n → (2 ^ find_msb u n ≤ u) × (u < 2 ^ suc (find_msb u n))
unfolding find_msb
find_msb_bounds u zero lo hi = absurd (omega arith)
find_msb_bounds u (suc n) lo hi = elim (Bool-cases ((u / 2 ^ n) % 2 == 1)) [
  | inl e ↦ rw (e, find_msb) (top_half u (2 ^ n) (omega (arith, two_pow-suc n)) (ground arith), hi)
  | inr e ↦
      rw (e, find_msb)
        (find_msb_bounds u n lo (low_half u (2 ^ n) (omega (arith, two_pow-suc n)) e))
]

period_fields :
    (raw exp man : ℕ)
    → raw < 2 ^ 16
    → exp < 2 ^ 5
    → man < 2 ^ 10
    → (rel_exp big_endian (set_period big_endian raw exp man) ≡ exp)
      × (rel_man big_endian (set_period big_endian raw exp man) ≡ man)
      × (set_period big_endian raw exp man ≡ exp * 1024 + man)
unfolding rel_exp rel_man set_period
period_fields raw exp man hr he hm = omega arith

-- A period that fits the mantissa is kept exactly.
pub create_rel_exact :
    (usec : ℕ) → 0 < usec → usec < 1024 → rel_usec big_endian (create_rel big_endian usec) ≡ usec
unfolding create_rel rel rel_usec
create_rel_exact usec lo hi =
    let (e, m, v) = period_fields zero_time 0 usec (omega arith) (omega arith) hi in
    ground (arith, e, m, v)

-- What the shift by an exponent keeps, where `p` is the power of two.
module _ (usec p : ℕ) (lo : 512 * p ≤ usec) (hi : usec < 1024 * p) where
  positive : 0 < p
  positive = omega arith

  mantissa_fits : usec / p < 1024
  mantissa_fits = (div-lt_iff_lt-mul positive).1 hi

  keeps_most : ((usec / p) * p ≤ usec) × (512 * (usec - (usec / p) * p) < usec)
  keeps_most = omega (arith, div-mul-le_self usec p, lt-div-mul-add {a = usec} {b = p} positive)

not_lost : (usec p : ℕ) → 512 * p ≤ usec → usec < 1024 * p → 0 < usec / p
not_lost usec p lo hi = let k = keeps_most usec p lo hi in grind arith

pow_nine : (k : ℕ) → 2 ^ (k + 9) ≡ 512 * 2 ^ k
pow_nine k = let e : k + 9 ≡ suc (k + 8) = omega arith in rw e (simp towards_suc (omega arith))

exponent_small : (m n : ℕ) → 2 ^ m < 2 ^ n → m < n
exponent_small m n h = elim (lt-cases m n) [
  | inl lt ↦ lt
  | inr le ↦ absurd (omega (arith, pow-le-pow_right {n = 2} (omega arith) {i = n} {j = m} le))
]

usec_of_period :
    (exp man : ℕ)
    → exp < 32
    → man < 1024
    → 0 < man
    → man * 2 ^ exp < 2 ^ 64
    → rel_usec big_endian (set_period big_endian zero_time exp man) ≡ man * 2 ^ exp
unfolding rel_usec
usec_of_period exp man he hm pos small =
    let (e, m, v) = period_fields zero_time exp man (omega arith) he hm in
    ground
      (arith, e, m, v, ap (λ (n : ℕ). 2 ^ n) e, mod-eq_of_lt {n = man * 2 ^ exp} {m = 2 ^ 64} small)

create_rel_long :
    (usec m : ℕ)
    → 1024 ≤ usec
    → find_msb usec 64 ≡ m
    → m < 41
    → create_rel big_endian usec
      ≡ set_period big_endian zero_time (m + 1 - 10) (usec / 2 ^ (m + 1 - 10))
unfolding create_rel rel
create_rel_long usec m lo e small = rw (
  ==_ne usec 0 (omega arith),
  le→leb usec mantissa_max (omega arith),
  e,
  le→ltb exponent_max_rel (m + 1 - 10) (omega arith),
)

-- What comes back of a long period, for the power `p` of its exponent.
abbrev RoundsTo : ℕ → ℕ → Type 0
RoundsTo usec r = (r ≤ usec) × (512 * (usec - r) < usec)

round_trip :
    (usec m k : ℕ)
    → k + 9 ≡ m
    → k < 32
    → 2 ^ m ≤ usec
    → usec < 2 ^ suc m
    → usec < 2 ^ 41
    → RoundsTo usec (rel_usec big_endian (set_period big_endian zero_time k (usec / 2 ^ k)))
round_trip usec m k e small lo hi range =
    let split : 2 ^ m ≡ 512 * 2 ^ k = rw (← e) (pow_nine k) in
    let l : 512 * 2 ^ k ≤ usec = rw split at lo in
    let h : usec < 1024 * 2 ^ k = omega (arith, two_pow-suc m) in
    let (below, close) = keeps_most usec (2 ^ k) l h in
    let fits = mantissa_fits usec (2 ^ k) l h in
    rw (usec_of_period k (usec / 2 ^ k) small fits (not_lost usec (2 ^ k) l h) (omega arith))
      (below, close)

-- A longer period, of less than 2 ^ 41 microseconds, is rounded down, by less than one part in 512.
pub create_rel_rounds :
    (usec : ℕ)
    → 1024 ≤ usec
    → usec < 2 ^ 41
    → (rel_usec big_endian (create_rel big_endian usec) ≤ usec)
      × (512 * (usec - rel_usec big_endian (create_rel big_endian usec)) < usec)
create_rel_rounds usec lo hi =
    let m : ℕ = find_msb usec 64 in
    let (l, u) = find_msb_bounds usec 64 (omega arith) (omega arith) in
    let small : m < 41 = exponent_small m 41 (omega arith) in
    let large : 10 < suc m = exponent_small 10 (suc m) (omega arith) in
    rw (create_rel_long usec m lo refl small)
      (round_trip usec m (m + 1 - 10) (omega arith) (omega arith) l u hi)

-- On a little-endian machine a period of less than 1024 microseconds becomes the word of no time at
-- all just when it is zero, as meant, or sixteen.
pub sixteen_is_zero :
    (usec : ℕ) → usec < 1024 → is_zero (create_rel little_endian usec) ≡ (usec == 0 || usec == 16)
unfolding create_rel rel set_period
sixteen_is_zero usec h = ground arith
