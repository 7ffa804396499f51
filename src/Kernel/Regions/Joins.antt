-- ===== src/Kernel/Regions/Joins.antt =====
-- krn/kmem.h: a region that the private `add(pos, ...)` joins with the one before or behind it.
use wrmos.Base.{
  ℕ, ◌+◌, ◌-◌, ◌%◌, ◌^◌, ◌<◌, ◌≡◌, refl, subst, true, ◌&&◌, Option, none, some, List, [], ◌∷◌, ◌==◌,
  arith, inl, inr, Bool-cases, ok,
}
use wrmos.Kernel.Regions.{same_type, Desc, end, behind, is_prev_cont, grow, combine_at}
use wrmos.Kernel.Regions.Ordered.{lookup, IsFrom, same_type-eq}
use wrmos.Kernel.Regions.Placed.{Adds, IsAhead, Fits, put-Adds}

IsFrom-ahead : (lo lo' : ℕ) (rest : List Desc) → IsAhead rest lo' → IsFrom lo rest → IsFrom lo' rest
unfolding IsFrom
IsFrom-ahead lo lo' [] h o = tt
IsFrom-ahead lo lo' (p ∷ rest) h (a, b, c, e) = (h, b, c, e)

-- A region `g` takes the place of `d` and covers what `d` and the new region cover.
module _ (lo : ℕ) (d g new : Desc) (rest : List Desc) (start : g.addr ≡ d.addr)
    (kind : g.type ≡ d.type) (meets : d.addr + d.sz ≡ new.addr) (alike : d.type ≡ new.type)
    (small : new.addr + new.sz < 2 ^ 32) where
  -- The region before grows over the new one.
  grown-Adds :
      g.sz ≡ d.sz + new.sz
      → IsAhead rest (new.addr + new.sz)
      → IsFrom lo (d ∷ rest)
      → Adds lo (d ∷ rest) new (ok (g ∷ rest))
  unfolding IsFrom lookup
  grown-Adds wide ahead (a, b, c, e) = (
    g ∷ rest,
    refl,
    (
      omega arith,
      omega arith,
      omega arith,
      IsFrom-ahead (d.addr + d.sz) (g.addr + g.sz) rest
          (subst (λ n. IsAhead rest n) (omega arith) ahead) e,
    ),
    λ u. ground arith,
  )

  -- It grows over the new one and the next one.
  joined-Adds :
      (p : Desc)
      → g.sz ≡ d.sz + (new.sz + p.sz)
      → new.addr + new.sz ≡ p.addr
      → new.type ≡ p.type
      → IsFrom lo (d ∷ p ∷ rest)
      → Adds lo (d ∷ p ∷ rest) new (ok (g ∷ rest))
  unfolding IsFrom lookup
  joined-Adds p wide next same (a, b, c, (_, b', c', e)) = (
    g ∷ rest,
    refl,
    (omega arith, omega arith, omega arith, subst (λ n. IsFrom n rest) (omega arith) e),
    λ u. ground arith,
  )

-- The region `g` takes the place of `p` and of the new one, which ends where `p` starts.
pulled-Adds :
    (lo n : ℕ) (prev : Option Desc) (p g new : Desc) (rest : List Desc)
    → Fits lo n prev (p ∷ rest) new
    → g.addr ≡ new.addr
    → g.sz ≡ p.sz + new.sz
    → g.type ≡ p.type
    → new.addr + new.sz ≡ p.addr
    → new.type ≡ p.type
    → Adds lo (behind prev (p ∷ rest)) new (ok (behind prev (g ∷ rest)))
unfolding IsFrom lookup
pulled-Adds lo n none p g new rest f start wide kind next same =
    let (a, b, c, e) = f.ordered in
    (
      g ∷ rest,
      refl,
      (
        omega (arith, f.above),
        omega arith,
        omega arith,
        subst (λ n. IsFrom n rest) (omega arith) e,
      ),
      λ u. ground arith,
    )
pulled-Adds lo n (some d) p g new rest f start wide kind next same =
    let (a, b, c, (_, b', c', e)) = f.ordered in
    (
      d ∷ g ∷ rest,
      refl,
      (
        a,
        b,
        c,
        (
          omega (arith, f.after_prev),
          omega arith,
          omega arith,
          subst (λ n. IsFrom n rest) (omega arith) e,
        ),
      ),
      λ u. ground (arith, f.after_prev),
    )

-- The two tests of "check contiguous".
pos_cont-meets :
    (new p : Desc)
    → new.addr + new.sz < 2 ^ 32
    → (end new == p.addr && same_type new.type p.type) ≡ true
    → (new.addr + new.sz ≡ p.addr) × (new.type ≡ p.type)
pos_cont-meets new p h c = (ground arith, same_type-eq new.type p.type (ground arith))

prev_cont-meets :
    (d new : Desc)
    → d.addr + d.sz < 2 ^ 32
    → is_prev_cont (some d) new.addr new.type ≡ true
    → (d.addr + d.sz ≡ new.addr) × (d.type ≡ new.type)
prev_cont-meets d new h c = (ground arith, same_type-eq d.type new.type (ground arith))

-- The bounds of the sizes that are written.
wide_next :
    (p new : Desc)
    → p.addr + p.sz < 2 ^ 32
    → new.addr + new.sz ≡ p.addr
    → ((p.addr + 2 ^ 32 - new.sz) % 2 ^ 32 ≡ new.addr) × ((p.sz + new.sz) % 2 ^ 32 ≡ p.sz + new.sz)
wide_next p new h e = (omega arith, omega arith)

wide_prev :
    (d new : Desc)
    → new.addr + new.sz < 2 ^ 32
    → d.addr + d.sz ≡ new.addr
    → (d.sz + new.sz) % 2 ^ 32 ≡ d.sz + new.sz
wide_prev d new h e = omega arith

wide_both :
    (d new p : Desc)
    → p.addr + p.sz < 2 ^ 32
    → d.addr + d.sz ≡ new.addr
    → new.addr + new.sz ≡ p.addr
    → (d.sz + (new.sz + p.sz)) % 2 ^ 32 ≡ d.sz + (new.sz + p.sz)
wide_both d new p h e e' = omega arith

pull_next :
    (lo n : ℕ) (prev : Option Desc) (p : Desc) (rest : List Desc) (new : Desc)
    → Fits lo n prev (p ∷ rest) new
    → p.addr + p.sz < 2 ^ 32
    → (end new == p.addr && same_type new.type p.type) ≡ true
    → Adds lo (behind prev (p ∷ rest)) new (
        ok (
          behind prev (
            record p { addr = (p.addr + 2 ^ 32 - new.sz) % 2 ^ 32; sz = (p.sz + new.sz) % 2 ^ 32 }
            ∷ rest)))
pull_next lo n prev p rest new f h c =
    let (next, same) = pos_cont-meets new p f.small c in
    let (start, wide) = wide_next p new h next in
    pulled-Adds lo n prev p
      (record p { addr = (p.addr + 2 ^ 32 - new.sz) % 2 ^ 32; sz = (p.sz + new.sz) % 2 ^ 32 }) new
      rest f start wide refl next same

pub grow_prev :
    (lo n : ℕ) (d : Desc) (rest : List Desc) (new : Desc)
    → Fits lo n (some d) rest new
    → is_prev_cont (some d) new.addr new.type ≡ true
    → Adds lo (d ∷ rest) new (ok (grow (some d) new.sz rest))
unfolding IsFrom
grow_prev lo n d rest new f c =
    let (_, _, h, _) = f.ordered in
    let (meets, alike) = prev_cont-meets d new h c in
    grown-Adds lo d (record d { sz = (d.sz + new.sz) % 2 ^ 32 }) new rest refl refl meets alike
      f.small (wide_prev d new f.small meets) f.before_next f.ordered

join_both :
    (lo n : ℕ) (d p : Desc) (rest : List Desc) (new : Desc)
    → Fits lo n (some d) (p ∷ rest) new
    → (end new == p.addr && same_type new.type p.type) ≡ true
    → is_prev_cont (some d) new.addr new.type ≡ true
    → Adds lo (d ∷ p ∷ rest) new (ok (grow (some d) (new.sz + p.sz) rest))
unfolding IsFrom
join_both lo n d p rest new f c c' =
    let (_, _, h, (_, _, h', _)) = f.ordered in
    let (meets, alike) = prev_cont-meets d new h c' in
    let (next, same) = pos_cont-meets new p f.small c in
    joined-Adds lo d (record d { sz = (d.sz + (new.sz + p.sz)) % 2 ^ 32 }) new rest refl refl meets
      alike f.small p (wide_both d new p h' meets next) next same f.ordered

pub combine_at-Adds :
    (lo n : ℕ) (prev : Option Desc) (p : Desc) (rest : List Desc) (new : Desc)
    → Fits lo n prev (p ∷ rest) new
    → p.addr + p.sz < 2 ^ 32
    → Adds lo (behind prev (p ∷ rest)) new (combine_at n prev p rest new)
unfolding combine_at
combine_at-Adds lo n none p rest new f h =
    elim (Bool-cases (end new == p.addr && same_type new.type p.type)) [
      | inl e ↦ rw e (pull_next lo n none p rest new f h e)
      | inr e ↦ rw e (put-Adds lo n none (p ∷ rest) new f)
    ]
combine_at-Adds lo n (some d) p rest new f h =
    elim (Bool-cases (end new == p.addr && same_type new.type p.type)) [
      | inl e ↦ elim (Bool-cases (is_prev_cont (some d) new.addr new.type)) [
        | inl c ↦ rw (e, c) (join_both lo n d p rest new f e c)
        | inr c ↦ rw (e, c) (pull_next lo n (some d) p rest new f h e)
      ]
      | inr e ↦ elim (Bool-cases (is_prev_cont (some d) new.addr new.type)) [
        | inl c ↦ rw (e, c) (grow_prev lo n d (p ∷ rest) new f c)
        | inr c ↦ rw (e, c) (put-Adds lo n (some d) (p ∷ rest) new f)
      ]
    ]
