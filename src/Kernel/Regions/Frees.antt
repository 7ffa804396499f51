-- ===== src/Kernel/Regions/Frees.antt =====
-- krn/kmem.h: what `free` does to the map from addresses to types.
use wrmos.Base.{
  ℕ, ◌+◌, ◌%◌, ◌^◌, ◌<◌, ◌≡◌, refl, sym, ◌∙◌, subst, true, false, ◌&&◌, Option, none, some, List,
  [], ◌∷◌, length, leb, if◌then◌else◌, arith, inl, inr, Bool-cases, Run, ok, ◌>>=◌,
}
use wrmos.Kernel.Regions.{Desc, capacity, behind, remove_at, all_of, has, free_from, free}
use wrmos.Kernel.Regions.Ordered.{lookup, IsFrom}
use wrmos.Kernel.Regions.Removes.{held-below, Takes, removes, within, held}

-- The item does not contain the range, and the loop goes on behind it.
further-Takes :
    (lo : ℕ) (prev : Option Desc) (p : Desc) (rest : List Desc) (addr sz : ℕ) (r : Run (List Desc))
    → IsFrom lo (p ∷ rest)
    → (leb p.addr addr && leb (addr + sz) (p.addr + p.sz)) ≡ false
    → Takes (held rest addr sz) (p.addr + p.sz) (some p) rest addr sz r
    → Takes
        (held (p ∷ rest) addr sz)
        lo
        prev
        (p ∷ rest)
        addr
        sz
        (r >>= λ items. ok (behind prev items))
unfolding IsFrom lookup held
further-Takes lo prev p rest addr sz r (a, b, c, d) differs (l', e, f, m) = (
  p ∷ l',
  rw e refl,
  (a, b, c, f),
  λ u. ground (arith, m u, held-below (p.addr + p.sz) rest addr sz d),
)

-- The three ways of the loop.
module _ (n : ℕ) (prev : Option Desc) (p : Desc) (rest : List Desc) (addr sz : ℕ) where
  step_has :
      has p addr sz ≡ true
      → free_from n prev (p ∷ rest) addr sz
        ≡ (remove_at n prev p rest addr sz >>= λ r. ok (all_of r))
  unfolding free_from
  step_has e = rw e refl

  step_stop :
      has p addr sz ≡ false
      → leb ((addr + sz) % 2 ^ 32) p.addr ≡ true
      → free_from n prev (p ∷ rest) addr sz ≡ ok (behind prev (p ∷ rest))
  unfolding free_from
  step_stop e f = rw (e, f) refl

  step_further :
      has p addr sz ≡ false
      → leb ((addr + sz) % 2 ^ 32) p.addr ≡ false
      → free_from n prev (p ∷ rest) addr sz
        ≡ (free_from n (some p) rest addr sz >>= λ items. ok (behind prev items))
  unfolding free_from
  step_further e f = rw (e, f) refl

stays-Takes :
    (lo : ℕ) (prev : Option Desc) (p : Desc) (rest : List Desc) (addr sz : ℕ)
    → IsFrom lo (p ∷ rest)
    → addr < p.addr
    → Takes (held (p ∷ rest) addr sz) lo prev (p ∷ rest) addr sz (ok (behind prev (p ∷ rest)))
unfolding IsFrom lookup held
stays-Takes lo prev p rest addr sz (a, b, c, d) h =
    (p ∷ rest, refl, (a, b, c, d), λ u. ground (arith, held-below (p.addr + p.sz) rest addr sz d))

holds-Takes :
    (n lo : ℕ) (prev : Option Desc) (p : Desc) (rest : List Desc) (addr sz : ℕ)
    → IsFrom lo (p ∷ rest)
    → 0 < sz
    → n < capacity
    → (leb p.addr addr && leb (addr + sz) (p.addr + p.sz)) ≡ true
    → Takes
        (held (p ∷ rest) addr sz)
        lo
        prev
        (p ∷ rest)
        addr
        sz
        (remove_at n prev p rest addr sz >>= λ r. ok (all_of r))
unfolding held
holds-Takes n lo prev p rest addr sz o s room e =
    rw e (removes lo p rest addr sz o s (ground arith) (ground arith) n prev room)

free_from-Takes :
    (n lo : ℕ) (prev : Option Desc) (items : List Desc) (addr sz : ℕ)
    → IsFrom lo items
    → 0 < sz
    → addr + sz < 2 ^ 32
    → n < capacity
    → Takes (held items addr sz) lo prev items addr sz (free_from n prev items addr sz)
unfolding free_from held IsFrom lookup
free_from-Takes n lo prev [] addr sz o s h room = ([], refl, tt, λ u. ground arith)
free_from-Takes n lo prev (p ∷ rest) addr sz (a, b, c, d) s h room =
    let whole : has p addr sz ≡ (leb p.addr addr && leb (addr + sz) (p.addr + p.sz)) =
      ground arith in
    elim (Bool-cases (leb p.addr addr && leb (addr + sz) (p.addr + p.sz))) [
      | inl e ↦
          subst (λ r. Takes (held (p ∷ rest) addr sz) lo prev (p ∷ rest) addr sz r)
            (sym (step_has n prev p rest addr sz (whole ∙ e)))
            (holds-Takes n lo prev p rest addr sz (a, b, c, d) s room e)
      | inr e ↦ elim (Bool-cases (leb ((addr + sz) % 2 ^ 32) p.addr)) [
        | inl f ↦
            subst (λ r. Takes (held (p ∷ rest) addr sz) lo prev (p ∷ rest) addr sz r)
              (sym (step_stop n prev p rest addr sz (whole ∙ e) f))
              (stays-Takes lo prev p rest addr sz (a, b, c, d) (ground arith))
        | inr f ↦
            subst (λ r. Takes (held (p ∷ rest) addr sz) lo prev (p ∷ rest) addr sz r)
              (sym (step_further n prev p rest addr sz (whole ∙ e) f))
              (further-Takes lo prev p rest addr sz (free_from n (some p) rest addr sz) (a, b, c, d)
                e (free_from-Takes n (p.addr + p.sz) (some p) rest addr sz d s h room))
      ]
    ]

-- What is freed, and that nothing else is.
abbrev pub FreesRange : List Desc → ℕ → ℕ → Run (List Desc) → Type 0
FreesRange items addr sz r =
    (items' : List Desc) × (r ≡ ok items')
    × IsFrom 0 items'
    × ((a : ℕ)
        → lookup items' a
          ≡ (if within addr sz a && held items addr sz then none else lookup items a))

-- A range that is not empty and ends below the end of the address space is freed in a list of regions that is
-- in order and not full: the call returns and the list is in order. If one region holds the whole range, the
-- range is free afterwards, whichever part of the region it is; if not, nothing changes. Every other address
-- keeps its type.
pub free-FreesRange :
    (items : List Desc) (addr sz : ℕ)
    → IsFrom 0 items
    → 0 < sz
    → addr + sz < 2 ^ 32
    → length items < capacity
    → FreesRange items addr sz (free items addr sz)
unfolding free
free-FreesRange items addr sz o s h room =
    free_from-Takes (length items) 0 none items addr sz o s h room
