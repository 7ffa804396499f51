-- ===== src/Containers/Bitmap/Search.antt =====
-- lib/containers/bitmap.h: the loops that look for a bit find the first one.
use wrmos.Base.{
  ℕ, zero, suc, ◌+◌, ◌-◌, ◌*◌, ◌/◌, ◌%◌, ◌≤◌, ◌<◌, ◌≡◌, ap, ◌∙◌, subst, lt-cases, inl, inr, Bool,
  true, false, Option, none, some, arith, Bool-cases, eq-cases,
}
use wrmos.Containers.Bitmap.{
  Bitmap, bit, is_val, find_in_word, has_val, in_word, or_rest, find_in_words, find_val,
}

-- The answer of a search for `v` among the places from `lo` on and below `hi`: the first such place.
abbrev pub IsFirst : (ℕ → Bool) → Bool → ℕ → ℕ → Option ℕ → Type 0
IsFirst f v lo hi none = (q : ℕ) → lo ≤ q → q < hi → is_val v (f q) ≡ false
IsFirst f v lo hi (some pos) =
    (lo ≤ pos)
    × (pos < hi)
    × (is_val v (f pos) ≡ true)
    × ((q : ℕ) → lo ≤ q → q < pos → is_val v (f q) ≡ false)

-- No such place before: the search goes on at the next one.
IsFirst-step :
    (f : ℕ → Bool) (v : Bool) (lo mid hi : ℕ) (r : Option ℕ)
    → lo ≤ mid
    → ((q : ℕ) → lo ≤ q → q < mid → is_val v (f q) ≡ false)
    → IsFirst f v mid hi r
    → IsFirst f v lo hi r
IsFirst-step f v lo mid hi none h clear s =
    λ q a b. elim (lt-cases q mid) [ inl c ↦ clear q a c | inr c ↦ s q c b ]
IsFirst-step f v lo mid hi (some pos) h clear (a, b, c, d) =
    (omega arith, b, c, λ q x y. elim (lt-cases q mid) [ inl z ↦ clear q x z | inr z ↦ d q z y ])

find_in_word-IsFirst :
    (word : ℕ → Bool) (v : Bool) (n j : ℕ) → IsFirst word v j (j + n) (find_in_word word v n j)
unfolding find_in_word
find_in_word-IsFirst word v zero j = λ q a b. absurd (omega arith)
find_in_word-IsFirst word v (suc n) j = elim (Bool-cases (is_val v (word j))) [
  | inl e ↦ rw e (omega arith, omega arith, e, λ q a b. absurd (omega arith))
  | inr e ↦ rw e (
      subst (λ (hi : ℕ). IsFirst word v j hi (find_in_word word v n (j + 1))) (omega arith)
        (IsFirst-step word v j (j + 1) (j + 1 + n) (find_in_word word v n (j + 1)) (omega arith)
          (λ q a b. ground (arith, ap word {x = q} {y = j}))
          (find_in_word-IsFirst word v n (j + 1))))
]

has_val-none :
    (word : ℕ → Bool) (v : Bool) (n q : ℕ)
    → has_val word v n ≡ false
    → q < n
    → is_val v (word q) ≡ false
unfolding has_val
has_val-none word v zero q h lt = absurd (omega arith)
has_val-none word v (suc n) q h lt = elim (eq-cases q n) [
  | inl e ↦ ground (arith, ap word {x = q} {y = n})
  | inr d ↦ has_val-none word v n q (ground arith) (ground arith)
]

-- The bits of a bitmap's words in a row.
abbrev pub flat : (ℕ → ℕ → Bool) → ℕ → Bool
flat words pos = words (pos / 32) (pos % 32)

flat_at :
    (words : ℕ → ℕ → Bool) (i q : ℕ)
    → i * 32 ≤ q
    → q < i * 32 + 32
    → flat words q ≡ words i (q - i * 32)
flat_at words i q a b =
    ap (λ (w : ℕ). words w (q % 32)) (div_at i q a b) ∙ ap (words i) (mod_at i q a b)
  where
    div_at : (i q : ℕ) → i * 32 ≤ q → q < i * 32 + 32 → q / 32 ≡ i
    div_at i q a b = omega arith

    mod_at : (i q : ℕ) → i * 32 ≤ q → q < i * 32 + 32 → q % 32 ≡ q - i * 32
    mod_at i q a b = omega arith

in_word-IsFirst :
    (words : ℕ → ℕ → Bool) (v : Bool) (i n : ℕ) (r : Option ℕ)
    → n ≤ 32
    → IsFirst (words i) v 0 n r
    → IsFirst (flat words) v (i * 32) (i * 32 + n) (in_word i r)
in_word-IsFirst words v i n none h s =
    λ q a b. rw (flat_at words i q a (omega arith)) (s (q - i * 32) (omega arith) (omega arith))
in_word-IsFirst words v i n (some j) h (a, b, c, d) = (
  omega arith,
  omega arith,
  ap (is_val v)
        (flat_at words i (i * 32 + j) (omega arith) (omega arith) ∙ ap (words i) (omega arith))
      ∙ c,
  λ q x y. rw (flat_at words i q x (omega arith)) (d (q - i * 32) (omega arith) (omega arith)),
)

-- Two searches in a row, the second where the first has found nothing.
or_rest-IsFirst :
    (f : ℕ → Bool) (v : Bool) (lo mid hi : ℕ) (r s : Option ℕ)
    → lo ≤ mid
    → mid ≤ hi
    → IsFirst f v lo mid r
    → IsFirst f v mid hi s
    → IsFirst f v lo hi (or_rest r s)
or_rest-IsFirst f v lo mid hi none s h k a b = IsFirst-step f v lo mid hi s h a b
or_rest-IsFirst f v lo mid hi (some pos) s h k (a, b, c, d) t = (a, omega arith, c, d)

find_in_words-IsFirst :
    (words : ℕ → ℕ → Bool) (v : Bool) (n i : ℕ)
    → IsFirst (flat words) v (i * 32) ((i + n) * 32) (find_in_words words v n i)
unfolding find_in_words
find_in_words-IsFirst words v zero i = λ q a b. absurd (omega arith)
find_in_words-IsFirst words v (suc n) i =
    let rest =
      subst (λ (p : ℕ × ℕ). IsFirst (flat words) v p.0 p.1 (find_in_words words v n (i + 1)))
        (pair_at i n) (find_in_words-IsFirst words v n (i + 1)) in
    elim (Bool-cases (has_val (words i) v 32)) [
      | inl e ↦ rw e (
          or_rest-IsFirst (flat words) v (i * 32) (i * 32 + 32) ((i + suc n) * 32) _ _ (omega arith)
            (omega arith)
            (in_word-IsFirst words v i 32 (find_in_word (words i) v 32 0) (omega arith)
              (find_in_word-IsFirst (words i) v 32 0))
            rest)
      | inr e ↦ rw e (
          IsFirst-step (flat words) v (i * 32) (i * 32 + 32) ((i + suc n) * 32)
            (find_in_words words v n (i + 1)) (omega arith)
            (λ q a b.
              rw (flat_at words i q a b) (has_val-none (words i) v 32 (q - i * 32) e (omega arith)))
            rest)
    ]
  where
    pair_at :
        (i n : ℕ) → ◌≡◌ {A = ℕ × ℕ} ((i + 1) * 32, (i + 1 + n) * 32) (i * 32 + 32, (i + suc n) * 32)
    pair_at i n = ground arith

from_start : (word : ℕ → Bool) (v : Bool) (n : ℕ) → IsFirst word v 0 n (find_in_word word v n 0)
from_start word v n =
    subst (λ (hi : ℕ). IsFirst word v 0 hi (find_in_word word v n 0)) (omega arith)
      (find_in_word-IsFirst word v n 0)

-- The search over a bitmap finds the first bit of the value below the capacity.
pub find_val-IsFirst : (b : Bitmap) (v : Bool) → IsFirst (bit b) v 0 b.capacity (find_val b v)
unfolding find_val
find_val-IsFirst b v =
    subst (λ (hi : ℕ). IsFirst (bit b) v 0 hi (find_val b v)) (omega arith)
      (or_rest-IsFirst (bit b) v 0 (b.capacity / 32 * 32) (b.capacity / 32 * 32 + b.capacity % 32) _
        _ (omega arith) (omega arith)
        (subst (λ (hi : ℕ). IsFirst (bit b) v 0 hi (find_in_words b.words v (b.capacity / 32) 0))
          (omega arith) (find_in_words-IsFirst b.words v (b.capacity / 32) 0))
        (in_word-IsFirst b.words v (b.capacity / 32) (b.capacity % 32)
          (find_in_word (b.words (b.capacity / 32)) v (b.capacity % 32) 0) (omega arith)
          (from_start (b.words (b.capacity / 32)) v (b.capacity % 32))))
