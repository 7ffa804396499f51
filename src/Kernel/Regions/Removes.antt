-- ===== src/Kernel/Regions/Removes.antt =====
-- krn/kmem.h: what `remove` leaves of a region, whichever part of it goes.
use wrmos.Base.{
  ℕ, ◌+◌, ◌-◌, ◌%◌, ◌^◌, ◌≤◌, ◌<◌, ◌≡◌, refl, subst, Bool, true, false, ◌&&◌, ◌||◌, Option, none,
  List, [], ◌∷◌, ◌==◌, ltb, leb, if◌then◌else◌, arith, inl, inr, Bool-cases, Run, ok, ◌>>=◌,
}
use wrmos.Kernel.Regions.{Desc, end, capacity, behind, remove_at, all_of}
use wrmos.Kernel.Regions.Ordered.{lookup, IsFrom, IsFrom-lower, lookup-below}

-- The address lies in the range.
abbrev pub within : ℕ → ℕ → ℕ → Bool
within addr sz a = leb addr a && ltb a (addr + sz)

-- One region contains the whole range.
unfoldable pub held : List Desc → ℕ → ℕ → Bool
held [] addr sz = false
held (d ∷ rest) addr sz = (leb d.addr addr && leb (addr + sz) (d.addr + d.sz)) || held rest addr sz

pub held-below :
    (lo : ℕ) (items : List Desc) (addr sz : ℕ)
    → IsFrom lo items
    → addr < lo
    → held items addr sz ≡ false
unfolding held IsFrom
held-below lo [] addr sz o h = refl
held-below lo (d ∷ rest) addr sz (a, b, c, e) h =
    ground (arith, held-below (d.addr + d.sz) rest addr sz e (omega arith))

-- The list from an item on, behind the one before, with the range taken out where `gone` says so.
abbrev pub Takes : Bool → ℕ → Option Desc → List Desc → ℕ → ℕ → Run (List Desc) → Type 0
Takes gone lo prev items addr sz r =
    (items' : List Desc) × (r ≡ ok (behind prev items'))
    × IsFrom lo items'
    × ((a : ℕ) → lookup items' a ≡ (if within addr sz a && gone then none else lookup items a))

module _ (lo : ℕ) (p : Desc) (rest : List Desc) (addr sz : ℕ) (o : IsFrom lo (p ∷ rest))
    (sized : 0 < sz) (inside : p.addr ≤ addr) (ends : addr + sz ≤ p.addr + p.sz) where
  -- What is left of the region, of which nothing, an end or both ends may stay.
  abbrev Leaves : List Desc → Type 0
  Leaves items' =
      IsFrom lo items'
      × ((a : ℕ)
          → lookup items' a ≡ (if within addr sz a && true then none else lookup (p ∷ rest) a))

  whole-Leaves : p.addr ≡ addr → p.addr + p.sz ≡ addr + sz → Leaves rest
  unfolding IsFrom lookup
  whole-Leaves s e =
      let (a, b, c, d) = o in
      (
        IsFrom-lower (p.addr + p.sz) lo rest (omega arith) d,
        λ u. ground (arith, lookup-below (p.addr + p.sz) rest u d),
      )

  back-Leaves :
      (g : Desc)
      → g.type ≡ p.type
      → g.addr ≡ p.addr + sz
      → g.sz ≡ p.sz - sz
      → p.addr ≡ addr
      → addr + sz < p.addr + p.sz
      → Leaves (g ∷ rest)
  unfolding IsFrom lookup
  back-Leaves g k s w e l =
      let (a, b, c, d) = o in
      (
        (omega arith, omega arith, omega arith, subst (λ n. IsFrom n rest) (omega arith) d),
        λ u. ground (arith, lookup-below (p.addr + p.sz) rest u d),
      )

  front-Leaves :
      (g : Desc)
      → g.type ≡ p.type
      → g.addr ≡ p.addr
      → g.sz ≡ p.sz - sz
      → p.addr < addr
      → p.addr + p.sz ≡ addr + sz
      → Leaves (g ∷ rest)
  unfolding IsFrom lookup
  front-Leaves g k s w l e =
      let (a, b, c, d) = o in
      (
        (
          omega arith,
          omega arith,
          omega arith,
          IsFrom-lower (p.addr + p.sz) (g.addr + g.sz) rest (omega arith) d,
        ),
        λ u. ground (arith, lookup-below (p.addr + p.sz) rest u d),
      )

  both-Leaves :
      (g h : Desc)
      → g.type ≡ p.type
      → h.type ≡ p.type
      → g.addr ≡ p.addr
      → g.sz ≡ addr - p.addr
      → h.addr ≡ addr + sz
      → h.sz ≡ p.addr + p.sz - (addr + sz)
      → p.addr < addr
      → addr + sz < p.addr + p.sz
      → Leaves (g ∷ h ∷ rest)
  unfolding IsFrom lookup
  both-Leaves g h k k' s w s' w' l e =
      let (a, b, c, d) = o in
      (
        (
          omega arith,
          omega arith,
          omega arith,
          (omega arith, omega arith, omega arith, subst (λ n. IsFrom n rest) (omega arith) d),
        ),
        λ u. ground (arith, lookup-below (p.addr + p.sz) rest u d),
      )

  pub removes :
      (n : ℕ) (prev : Option Desc)
      → n < capacity
      → Takes true lo prev
          (p ∷ rest)
          addr
          sz
          (remove_at n prev p rest addr sz >>= λ r. ok (all_of r))
  unfolding remove_at IsFrom
  removes n prev room =
      let (a, b, c, d) = o in
      let ee : (addr + sz) % 2 ^ 32 ≡ addr + sz = omega arith in
      let pe : end p ≡ p.addr + p.sz = omega arith in
      let chk : (leb p.addr addr && leb (addr + sz) (p.addr + p.sz)) ≡ true = ground arith in
      let full : leb capacity n ≡ false = ground arith in
      elim (Bool-cases (p.addr == addr)) [
        | inl s ↦ elim (Bool-cases (p.addr + p.sz == addr + sz)) [
          | inl e ↦
              let (f, m) = whole-Leaves (ground arith) (ground arith) in
              (rest, rw (ee, pe, chk, s, e) refl, f, m)
          | inr e ↦
              let g = record p {
                addr = (p.addr + sz) % 2 ^ 32;
                sz = (p.sz + 2 ^ 32 - sz) % 2 ^ 32;
              } in
              let (f, m) =
                back-Leaves g refl (ground arith) (omega arith) (ground arith) (ground arith) in
              (g ∷ rest, rw (ee, pe, chk, s, e) refl, f, m)
        ]
        | inr s ↦ elim (Bool-cases (p.addr + p.sz == addr + sz)) [
          | inl e ↦
              let g = record p { sz = (p.sz + 2 ^ 32 - sz) % 2 ^ 32 } in
              let (f, m) = front-Leaves g refl refl (omega arith) (ground arith) (ground arith) in
              (g ∷ rest, rw (ee, pe, chk, s, e) refl, f, m)
          | inr e ↦
              let g = record p { sz = (addr + 2 ^ 32 - p.addr) % 2 ^ 32 } in
              let h = record p {
                addr = addr + sz;
                sz = (p.addr + p.sz + 2 ^ 32 - (addr + sz)) % 2 ^ 32;
              } in
              let (f, m) =
                both-Leaves g h refl refl refl (omega arith) refl (omega arith) (ground arith)
                  (ground arith) in
              (g ∷ h ∷ rest, rw (ee, pe, chk, s, e, full) refl, f, m)
        ]
      ]
