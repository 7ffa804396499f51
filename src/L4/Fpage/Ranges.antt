-- ===== src/L4/Fpage/Ranges.antt =====
-- lib/l4/inc/l4_types.h, class L4_fpage_t: what a page that is made holds, and when two pages meet.
use native.Mathlib.Nat.{
  pow-succ', mod-lt, mod-eq_of_lt, mod-add-div, add-mul-mod_self_left, one-le-pow, pow-le-pow_right,
  dvd_of_mod-eq-zero, mod-mod_of_dvd,
}
use wrmos.Base.{
  ℕ, zero, suc, ◌+◌, ◌-◌, ◌*◌, ◌/◌, ◌%◌, ◌^◌, ◌≤◌, ◌<◌, ◌≡◌, ◌⊎◌, inl, inr, refl, ap, ◌↔◌, true,
  not, ◌||◌, ◌==◌, ltb, arith, Bool-cases, ◌∙◌, sym, subst, max, lt-cases,
}
use wrmos.L4.Field.{set_field}
use wrmos.L4.Fpage.{
  nil, null_bit, size_min, bit_and, is_aligned, shifted_one, addr, log2sz, size, access, end,
  halvings, set_mem, is_cross,
}

bit_and-zero : (w a : ℕ) → bit_and w a 0 ≡ 0
unfolding bit_and
bit_and-zero zero a = refl
bit_and-zero (suc w) a = grind (arith, bit_and-zero w (a / 2))

mod_double : (a p : ℕ) → 0 < p → a % (2 * p) ≡ a % 2 + 2 * ((a / 2) % p)
mod_double a p h =
    let whole : a ≡ (a % 2 + 2 * ((a / 2) % p)) + (2 * p) * ((a / 2) / p) =
      omega (arith, mod-add-div (a / 2) p) in
    ap (λ x. x % (2 * p)) whole
    ∙ add-mul-mod_self_left (a % 2 + 2 * ((a / 2) % p)) (2 * p) ((a / 2) / p)
    ∙ mod-eq_of_lt (omega (arith, mod-lt (a / 2) h))

-- A word without the bits of a mask of `k` ones is a multiple of the mask's power of two.
pub bit_and-mask : (w k a : ℕ) → k ≤ w → bit_and w a (2 ^ k - 1) ≡ a % 2 ^ k
unfolding bit_and
bit_and-mask zero zero a h = omega arith
bit_and-mask zero (suc k) a h = absurd (omega arith)
bit_and-mask (suc w) zero a h = grind (arith, bit_and-zero w (a / 2))
bit_and-mask (suc w) (suc k) a h =
    let p : 0 < 2 ^ k = one-le-pow k 2 (omega arith) in
    let odd : (2 ^ suc k - 1) % 2 ≡ 1 = omega (arith, pow-succ' 2 k) in
    let half : (2 ^ suc k - 1) / 2 ≡ 2 ^ k - 1 = omega (arith, pow-succ' 2 k) in
    rw (odd, half, bit_and-mask w k (a / 2) (omega arith), pow-succ' 2 k)
      (omega (arith, mod_double a (2 ^ k) p))

high_pow : (j : ℕ) → 2 ^ (32 + j) % 2 ^ 32 ≡ 0
high_pow zero = omega arith
high_pow (suc j) =
    let shift : suc (32 + j) ≡ 32 + suc j = omega arith in
    subst (λ x. 2 ^ x % 2 ^ 32 ≡ 0) shift (omega (arith, high_pow j, pow-succ' 2 (32 + j)))

page_pow : (j : ℕ) → 2 ^ (10 + j) % 2 ^ 10 ≡ 0
page_pow zero = omega arith
page_pow (suc j) =
    let shift : suc (10 + j) ≡ 10 + suc j = omega arith in
    subst (λ x. 2 ^ x % 2 ^ 10 ≡ 0) shift (omega (arith, page_pow j, pow-succ' 2 (10 + j)))

-- A shifted one of 4096 or more is a power of two that loses no bit.
shifted_one-exact : (m sz : ℕ) → shifted_one m ≡ sz → 4096 ≤ sz → (10 ≤ m) × (m < 32) × (2 ^ m ≡ sz)
unfolding shifted_one
shifted_one-exact m sz e lo = elim (lt-cases m 32) [
  | inl h ↦ elim (lt-cases m 10) [
    | inl l ↦ absurd (
        omega (arith, e, lo, pow-le-pow_right {n = 2} (omega arith) {i = m} {j = 10} (omega arith)))
    | inr l ↦ (
      l,
      h,
      omega (arith, e, pow-le-pow_right {n = 2} (omega arith) {i = m} {j = 31} (omega arith)),
    )
  ]
  | inr h ↦
      let back : 32 + (m - 32) ≡ m = omega arith in
      absurd (omega (arith, e, lo, subst (λ x. 2 ^ x % 2 ^ 32 ≡ 0) back (high_pow (m - 32))))
]

-- An aligned address is a multiple of the size, and of the unit of the address field.
pub is_aligned-multiple :
    (m adr sz : ℕ)
    → 10 ≤ m
    → m < 32
    → 2 ^ m ≡ sz
    → is_aligned adr sz ≡ true
    → (adr % sz ≡ 0) × (adr % 2 ^ 10 ≡ 0)
unfolding is_aligned
is_aligned-multiple m adr sz lo hi e h =
    let at_pow : bit_and 32 adr (2 ^ m - 1) ≡ 0 = rw e (ground arith) in
    let whole : adr % 2 ^ m ≡ 0 = sym (bit_and-mask 32 m adr (omega arith)) ∙ at_pow in
    let back : 10 + (m - 10) ≡ m = omega arith in
    let unit =
      dvd_of_mod-eq-zero (2 ^ 10) {n = 2 ^ m}
        (subst (λ x. 2 ^ x % 2 ^ 10 ≡ 0) back (page_pow (m - 10))) in
    (
      subst (λ x. adr % x ≡ 0) e whole,
      sym (mod-mod_of_dvd (2 ^ 10) adr unit) ∙ ap (λ x. x % 2 ^ 10) whole,
    )

-- The word that is assigned field by field.
abbrev page : ℕ → ℕ → ℕ → ℕ → ℕ
page raw adr n acc = set_field (set_field (set_field raw 10 22 (adr / 2 ^ 10)) 4 6 n) 0 3 acc

page_fields :
    (raw adr n acc : ℕ)
    → adr < 2 ^ 32
    → adr % 2 ^ 10 ≡ 0
    → (addr (page raw adr n acc) ≡ adr)
      × (log2sz (page raw adr n acc) ≡ n % 64)
      × (access (page raw adr n acc) ≡ acc % 8)
      × (null_bit (page raw adr n acc) ≡ null_bit raw)
unfolding addr log2sz access
page_fields raw adr n acc h k = omega arith

-- A page that is made is empty, or it has the address, the size and the access that it was asked for;
-- its address is a multiple of its size. The `null` bit is the one of the word that was there.
pub set_mem_total :
    (raw adr sz acc : ℕ)
    → adr < 2 ^ 32
    → sz < 2 ^ 32
    → (set_mem raw adr sz acc ≡ nil)
      ⊎ ((addr (set_mem raw adr sz acc) ≡ adr)
          × (size (set_mem raw adr sz acc) ≡ sz)
          × (access (set_mem raw adr sz acc) ≡ acc % 8)
          × (null_bit (set_mem raw adr sz acc) ≡ null_bit raw)
          × (adr % sz ≡ 0))
unfolding set_mem size
set_mem_total raw adr sz acc ha hs =
    elim (Bool-cases (ltb sz size_min || not (is_aligned adr sz))) [
      | inl guard ↦ inl (rw guard refl)
      | inr guard ↦ elim (Bool-cases (size (page raw adr (halvings 32 sz) acc) == sz)) [
        | inl same ↦
            let (lo, hi, e) =
              shifted_one-exact (log2sz (page raw adr (halvings 32 sz) acc)) sz (ground arith)
                (ground arith) in
            let (whole, unit) =
              is_aligned-multiple (log2sz (page raw adr (halvings 32 sz) acc)) adr sz lo hi e
                (ground arith) in
            let (a, l, x, n) = page_fields raw adr (halvings 32 sz) acc ha unit in
            inr (rw (guard, same) (a, ground arith, x, n, whole))
        | inr differs ↦ inl (rw (guard, differs) refl)
      ]
    ]

-- Two pages of which neither reaches the end of the address space meet exactly where an address lies
-- in both.
pub is_cross_iff :
    (this p : ℕ)
    → addr this + size this < 2 ^ 32
    → addr p + size p < 2 ^ 32
    → 0 < size this
    → 0 < size p
    → (is_cross this p ≡ true) ↔ (
        (a : ℕ) × (addr this ≤ a)
        × (a < addr this + size this)
        × (addr p ≤ a)
        × (a < addr p + size p))
unfolding is_cross end
is_cross_iff this p h k s z = (
  λ e. (max (addr this) (addr p), ground arith, ground arith, ground arith, ground arith),
  λ (a, b, c, d, e). ground arith,
)
