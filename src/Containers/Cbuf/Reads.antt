-- ===== src/Containers/Cbuf/Reads.antt =====
-- lib/containers/cbuf.h: what a read from the circular buffer gives and leaves.
use wrmos.Base.{
  ℕ, zero, suc, ◌+◌, ◌-◌, ◌≤◌, ◌<◌, ◌≡◌, refl, true, false, List, [], ◌∷◌, ◌++◌, length-append,
  ◌==◌, ltb, min, if◌then◌else◌, length, get_or, ap, ◌⊎◌, inl, inr, Bool-cases, arith, ◌∙◌, Run, ok,
}
use wrmos.Containers.Cbuf.{Cbuf, copy_out, read, wrapped}
use wrmos.Containers.Cbuf.Fifo.{IsValid, held, byte}

-- What `read` has done, for the bytes that it gave, seen at the byte `i` of those that stay and at the
-- byte `j` of those that were given.
pub record Taken (c c' : Cbuf) (len : ℕ) (out : List ℕ) (i j : ℕ) : Type 0 where
  pub count : length out ≡ min len (held c)
  pub shorter : held c' ≡ held c - length out
  pub stays :
      byte c' i ≡ (if ltb i (held c - length out) then byte c (length out + i) else byte c' i)
  pub given : get_or out j 0 ≡ (if ltb j (length out) then byte c j else 0)
  pub valid : IsValid c'

length-copy_out : (buf : ℕ → ℕ) (at n : ℕ) → length (copy_out buf at n) ≡ n
unfolding copy_out
length-copy_out buf at zero = refl
length-copy_out buf at (suc n) = ap suc (length-copy_out buf (at + 1) n)

get_or-copy_out :
    (buf : ℕ → ℕ) (at n j : ℕ)
    → get_or (copy_out buf at n) j 0 ≡ (if ltb j n then buf (at + j) else 0)
unfolding copy_out
get_or-copy_out buf at zero j = ground arith
get_or-copy_out buf at (suc n) zero = ground (arith, ap buf {x = at} {y = at + 0})
get_or-copy_out buf at (suc n) (suc j) =
    ground (arith, get_or-copy_out buf (at + 1) n j, ap buf {x = at + 1 + j} {y = at + suc j})

get_or-append :
    (xs ys : List ℕ) (j : ℕ)
    → get_or (xs ++ ys) j 0
      ≡ (if ltb j (length xs) then get_or xs j 0 else get_or ys (j - length xs) 0)
get_or-append [] ys j = ground (arith, ap (λ i. get_or ys i 0) {x = j} {y = j - 0})
get_or-append (x ∷ xs) ys zero = ground arith
get_or-append (x ∷ xs) ys (suc j) = ground (
  arith,
  get_or-append xs ys j,
  ap (λ i. get_or ys i 0) {x = j - length xs} {y = suc j - suc (length xs)},
)

module _ (c : Cbuf) (len i j : ℕ) (v : IsValid c) where
  -- One copy, of `n` bytes from `_rp` on, after which `_rp` stands at `r`.
  one_copy :
      (n r : ℕ)
      → n ≡ min len (held c)
      → c.rp + n ≤ c.sz
      → r ≡ wrapped c.sz (c.rp + n)
      → (c.rp ≡ c.wp) ⊎ ((ltb c.rp c.wp ≡ true) ⊎ (ltb c.wp c.rp ≡ true))
      → Taken c (record c { rp = r }) len (copy_out c.buf c.rp n) i j
  one_copy n r e f w o = record {
    count = length-copy_out c.buf c.rp n ∙ e;
    shorter = ground (arith, length-copy_out c.buf c.rp n, v.wp_in);
    stays =
        rw (length-copy_out c.buf c.rp n)
          (ground (arith, v.wp_in, v.rp_in, ap c.buf {x = c.rp + n + i} {y = c.rp + (n + i)}));
    given =
        rw (length-copy_out c.buf c.rp n)
          (get_or-copy_out c.buf c.rp n j ∙ ground (arith, v.wp_in, v.rp_in));
    valid = record { set = v.set; wp_in = v.wp_in; rp_in = ground (arith, v.rp_in) };
  }

  -- Two copies: to the last place, and `l` bytes from the first one on.
  two_copies :
      (n l : ℕ)
      → ltb c.wp c.rp ≡ true
      → n ≡ c.sz - c.rp
      → n < len
      → l ≡ min (len - n) c.wp
      → Taken c (record c { rp = l }) len (copy_out c.buf c.rp n ++ copy_out c.buf 0 l) i j
  two_copies n l o e f g =
      let size : length (copy_out c.buf c.rp n ++ copy_out c.buf 0 l) ≡ n + l =
        length-append (copy_out c.buf c.rp n) (copy_out c.buf 0 l)
        ∙ omega (arith, length-copy_out c.buf c.rp n, length-copy_out c.buf 0 l) in
      record {
        count = size ∙ ground (arith, v.wp_in, v.rp_in);
        shorter = rw size (ground (arith, v.wp_in, v.rp_in));
        stays = rw size (
            ground (arith, v.wp_in, v.rp_in, ap c.buf {x = l + i} {y = c.rp + (n + l + i) - c.sz}));
        given = rw size (
            get_or-append (copy_out c.buf c.rp n) (copy_out c.buf 0 l) j
            ∙ ground (
              arith,
              v.wp_in,
              v.rp_in,
              length-copy_out c.buf c.rp n,
              get_or-copy_out c.buf c.rp n j,
              get_or-copy_out c.buf 0 l (j - n),
              get_or-copy_out c.buf 0 l (j - length (copy_out c.buf c.rp n)),
              ap c.buf {x = 0 + (j - length (copy_out c.buf c.rp n))} {y = c.rp + j - c.sz},
            ));
        valid = record { set = v.set; wp_in = v.wp_in; rp_in = ground (arith, v.wp_in) };
      }

  nothing_held : c.rp ≡ c.wp → Taken c c len [] i j
  nothing_held e = record {
    count = ground arith;
    shorter = omega arith;
    stays = ground (arith, ap c.buf {x = c.rp + i} {y = c.rp + (0 + i)});
    given = ground arith;
    valid = v;
  }

  abbrev pub Reads : Run (Cbuf × List ℕ) → Type 0
  Reads r = (p : Cbuf × List ℕ) × (r ≡ ok p) × Taken c p.0 len p.1 i j

  around-Reads :
      ltb c.wp c.rp ≡ true → ltb c.rp c.wp ≡ false → (c.wp == c.rp) ≡ false → Reads (read c len)
  unfolding read
  around-Reads o a b =
      let n : ℕ = min len (c.sz - c.rp) in
      elim (Bool-cases (n == len)) [
        | inl e ↦ (
          _,
          rw (b, a, e) refl,
          one_copy n (wrapped c.sz (c.rp + n)) (ground (arith, v.wp_in, v.rp_in))
              (ground (arith, v.rp_in)) refl (inr (inr o)),
        )
        | inr e ↦
            let at_start : (wrapped c.sz (c.rp + n) == 0) ≡ true = ground (arith, v.rp_in) in
            (
              _,
              rw (b, a, e, at_start) refl,
              two_copies n (min (len - n) c.wp) o (ground arith) (ground arith) refl,
            )
      ]

  -- A read from a buffer that is in order always returns, and leaves it in order. It gives the first
  -- bytes that were held, as many as were asked for where there are as many, and keeps the others in
  -- their order.
  pub read-Reads : Reads (read c len)
  unfolding read
  read-Reads = elim (Bool-cases (c.wp == c.rp)) [
    | inl a ↦ ((c, []), rw a refl, nothing_held (ground arith))
    | inr a ↦ elim (Bool-cases (ltb c.rp c.wp)) [
      | inl b ↦ (
        _,
        rw (a, b) refl,
        one_copy (min len (c.wp - c.rp)) (c.rp + min len (c.wp - c.rp)) (ground (arith, v.wp_in))
            (ground (arith, v.wp_in)) (ground (arith, v.wp_in)) (inr (inl b)),
      )
      | inr b ↦ around-Reads (ground arith) b a
    ]
  ]
