-- ===== src/Kernel/Regions/Search.antt =====
-- krn/kmem.h: what `find_free` finds.
use native.Mathlib.Nat.{mod-lt, mod-add-div, one-le-pow, mul-mod_right}
use wrmos.Base.{
  ℕ, ◌+◌, ◌-◌, ◌*◌, ◌/◌, ◌%◌, ◌^◌, ◌≤◌, ◌<◌, ◌≡◌, refl, ap, ◌∙◌, false, not, ◌&&◌, ◌||◌, none, List,
  [], ◌∷◌, ◌==◌, ltb, leb, arith, inl, inr, ◌⊎◌, Bool-cases,
}
use wrmos.L4.Fpage.Ranges.{bit_and-mask}
use wrmos.Kernel.Regions.{Desc, round_up, skip_to, search_from, find_free}
use wrmos.Kernel.Regions.Ordered.{covers, lookup, IsFrom, lookup-below}

rounded :
    (n k : ℕ)
    → k ≤ 32
    → n + 2 ^ k ≤ 2 ^ 32
    → round_up n (2 ^ k) ≡ (n + (2 ^ k - 1)) - (n + (2 ^ k - 1)) % 2 ^ k
unfolding round_up
rounded n k h s =
    let p : 0 < 2 ^ k = one-le-pow k 2 (omega arith) in
    let m : (n + (2 ^ k - 1)) % 2 ^ 32 ≡ n + (2 ^ k - 1) = omega arith in
    rw (m, bit_and-mask 32 k (n + (2 ^ k - 1)) h) refl

-- The next multiple.
round_up_lem :
    (n k : ℕ)
    → k ≤ 32
    → n + 2 ^ k ≤ 2 ^ 32
    → (n ≤ round_up n (2 ^ k)) × (round_up n (2 ^ k) < n + 2 ^ k) × (round_up n (2 ^ k) % 2 ^ k ≡ 0)
round_up_lem n k h s =
    let p : 0 < 2 ^ k = one-le-pow k 2 (omega arith) in
    let m = n + (2 ^ k - 1) in
    let less : m % 2 ^ k < 2 ^ k = mod-lt m p in
    let e = rounded n k h s in
    let whole : m - m % 2 ^ k ≡ 2 ^ k * (m / 2 ^ k) = omega (arith, mod-add-div m (2 ^ k)) in
    (
      omega (arith, e, less, p),
      omega (arith, e, less, p),
      ap (λ x. x % 2 ^ k) (e ∙ whole) ∙ mul-mod_right (2 ^ k) (m / 2 ^ k),
    )

-- The regions end so far below the end of the address space that no sum of the search wraps around.
unfoldable pub EndsBelow : ℕ → List Desc → Type 0
EndsBelow hi [] = Unit
EndsBelow hi (d ∷ rest) = (d.addr + d.sz ≤ hi) × EndsBelow hi rest

-- No region begins before the space and reaches into it.
unfoldable pub IsSplit : ℕ → List Desc → Type 0
IsSplit start [] = Unit
IsSplit start (d ∷ rest) = (d.addr < start → d.addr + d.sz ≤ start) × IsSplit start rest

abbrev IsClear : List Desc → ℕ → ℕ → Type 0
IsClear items r sz = (u : ℕ) → r ≤ u → u < r + sz → lookup items u ≡ none

-- The result is null, or an aligned place in the space that is free.
abbrev Finds : List Desc → ℕ → ℕ → ℕ → ℕ → Type 0
Finds items sz align low r =
    (r ≡ 0) ⊎ ((low ≤ r) × (r + sz < 2 ^ 32) × (r % align ≡ 0) × IsClear items r sz)

module _ (sz k stop hi : ℕ) (width : k ≤ 32) (bound : hi + 2 ^ k + sz ≤ 2 ^ 32) where
  found :
      (d : Desc) (rest : List Desc) (cur low : ℕ)
      → IsFrom d.addr (d ∷ rest)
      → low ≤ cur
      → cur + sz < 2 ^ 32
      → cur % 2 ^ k ≡ 0
      → cur + sz ≤ d.addr
      → Finds (d ∷ rest) sz (2 ^ k) low cur
  found d rest cur low o l s m h =
      inr (l, s, m, λ u a b. lookup-below d.addr (d ∷ rest) u o (omega arith))

  further :
      (d : Desc) (rest : List Desc) (low r : ℕ)
      → low ≤ d.addr
      → Finds rest sz (2 ^ k) (d.addr + d.sz) r
      → Finds (d ∷ rest) sz (2 ^ k) low r
  unfolding lookup
  further d rest low r l (inl e) = inl e
  further d rest low r l (inr (a, b, c, e)) =
      inr (omega arith, b, c, λ u p q. ground (arith, e u p q))

  search_from-Finds :
      (items : List Desc) (low cur : ℕ)
      → IsFrom low items
      → EndsBelow hi items
      → low ≤ cur
      → cur + sz < 2 ^ 32
      → cur % 2 ^ k ≡ 0
      → Finds items sz (2 ^ k) low (search_from items sz (2 ^ k) cur stop)
  unfolding search_from IsFrom EndsBelow lookup
  search_from-Finds [] low cur o e l s m = inr (l, s, m, λ u a b. refl)
  search_from-Finds (d ∷ rest) low cur (a, b, c, o) (e, es) l s m =
      let exact : (d.addr + d.sz) % 2 ^ 32 ≡ d.addr + d.sz = omega arith in
      let sum : (cur + sz) % 2 ^ 32 ≡ cur + sz = omega arith in
      let (up, near, whole) = round_up_lem (d.addr + d.sz) k width (omega arith) in
      elim (Bool-cases (leb stop cur || ltb stop ((cur + sz) % 2 ^ 32))) [
        | inl f ↦ rw f (inl refl)
        | inr f ↦ elim (Bool-cases (leb ((cur + sz) % 2 ^ 32) d.addr)) [
          | inl g ↦ rw (f, g) (found d rest cur low (omega arith, b, c, o) l s m (ground arith))
          | inr g ↦
              rw (f, g, exact)
                (further d rest low _ a (
                  search_from-Finds rest (d.addr + d.sz) (round_up (d.addr + d.sz) (2 ^ k)) o es up
                    (omega arith) whole))
        ]
      ]

skip_to-IsFrom :
    (items : List Desc) (lo start : ℕ) → IsFrom lo items → IsFrom start (skip_to items start)
unfolding skip_to IsFrom
skip_to-IsFrom [] lo start o = tt
skip_to-IsFrom (d ∷ rest) lo start (a, b, c, o) = elim (Bool-cases (leb start d.addr)) [
  | inl e ↦ rw e (ground arith, b, c, o)
  | inr e ↦ rw e (skip_to-IsFrom rest (d.addr + d.sz) start o)
]

skip_to-EndsBelow :
    (items : List Desc) (hi start : ℕ) → EndsBelow hi items → EndsBelow hi (skip_to items start)
unfolding skip_to EndsBelow
skip_to-EndsBelow [] hi start o = tt
skip_to-EndsBelow (d ∷ rest) hi start (a, o) = elim (Bool-cases (leb start d.addr)) [
  | inl e ↦ rw e (a, o)
  | inr e ↦ rw e (skip_to-EndsBelow rest hi start o)
]

skip_to-lookup :
    (items : List Desc) (start u : ℕ)
    → IsSplit start items
    → start ≤ u
    → lookup items u ≡ lookup (skip_to items start) u
unfolding skip_to IsSplit lookup
skip_to-lookup [] start u s h = refl
skip_to-lookup (d ∷ rest) start u (a, s) h = elim (Bool-cases (leb start d.addr)) [
  | inl e ↦ rw e refl
  | inr e ↦
      let past : covers d u ≡ false = ground (arith, a (ground arith)) in
      rw (e, past) (skip_to-lookup rest start u s h)
]

-- What the search is asked for.
pub record IsSearch (items : List Desc) (sz k start space_sz : ℕ) : Type 0 where
  pub ordered : IsFrom 0 items
  pub split : IsSplit start items
  pub width : k ≤ 32
  pub hi : ℕ
  pub ends : EndsBelow hi items
  pub space_end : start + space_sz ≤ hi
  pub bound : hi + 2 ^ k + sz ≤ 2 ^ 32

-- The place is in the space, aligned and free.
abbrev pub IsPlace : List Desc → ℕ → ℕ → ℕ → ℕ → ℕ → Type 0
IsPlace items sz k start space_sz r =
    (start ≤ r)
    × (r + sz ≤ start + space_sz)
    × (r % 2 ^ k ≡ 0)
    × ((u : ℕ) → r ≤ u → u < r + sz → lookup items u ≡ none)

checked :
    (items : List Desc) (sz k start space_sz r : ℕ)
    → IsSplit start items
    → start + space_sz < 2 ^ 32
    → Finds (skip_to items start) sz (2 ^ k) start r
    → ltb (start + space_sz) ((r + sz) % 2 ^ 32) ≡ false
    → (r ≡ 0) ⊎ IsPlace items sz k start space_sz r
checked items sz k start space_sz r s w (inl e) h = inl e
checked items sz k start space_sz r s w (inr (a, b, c, d)) h =
    inr (a, ground arith, c, λ u p q. skip_to-lookup items start u s (omega arith) ∙ d u p q)

pub find_free-IsPlace :
    (items : List Desc) (sz k start space_sz : ℕ)
    → IsSearch items sz k start space_sz
    → (find_free items sz (2 ^ k) start space_sz ≡ 0)
      ⊎ IsPlace items sz k start space_sz (find_free items sz (2 ^ k) start space_sz)
unfolding find_free
find_free-IsPlace items sz k start space_sz q =
    let p : 0 < 2 ^ k = one-le-pow k 2 (omega arith) in
    let stop : (start + space_sz) % 2 ^ 32 ≡ start + space_sz =
      omega (arith, q.bound, q.space_end, p) in
    let (up, near, whole) = round_up_lem start k q.width (omega (arith, q.bound, q.space_end)) in
    let found_it =
      search_from-Finds sz k (start + space_sz) q.hi q.width q.bound (skip_to items start) start
        (round_up start (2 ^ k)) (skip_to-IsFrom items 0 start q.ordered)
        (skip_to-EndsBelow items q.hi start q.ends) up (omega (arith, q.bound, q.space_end))
        whole in
    let cur =
      search_from (skip_to items start) sz (2 ^ k) (round_up start (2 ^ k)) (start + space_sz) in
    rw stop (elim (Bool-cases (not (cur == 0) && ltb (start + space_sz) ((cur + sz) % 2 ^ 32))) [
      | inl e ↦ rw e (inl refl)
      | inr e ↦ rw e (elim (Bool-cases (cur == 0)) [
        | inl z ↦ inl (ground arith)
        | inr z ↦
            checked items sz k start space_sz cur q.split (omega (arith, q.bound, q.space_end, p))
              found_it (ground arith)
      ])
    ])
