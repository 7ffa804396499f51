-- ===== src/Containers/Cbuf/Fifo.antt =====
-- lib/containers/cbuf.h: the bytes that the circular buffer holds, and what a write does to them.
use wrmos.Base.{
  ℕ, ◌+◌, ◌-◌, ◌≤◌, ◌<◌, ◌≡◌, refl, true, false, not, ◌&&◌, ◌||◌, List, ◌==◌, ltb, leb, min,
  if◌then◌else◌, length, get_or, ap, ◌⊎◌, inl, inr, Bool-cases, arith, Run, ok,
}
use wrmos.Containers.Cbuf.{Cbuf, copy_in, write_around, write, overwrite, overwrite, wrapped}

pub record IsValid (c : Cbuf) : Type 0 where
  pub set : c.has_buf ≡ true
  pub wp_in : c.wp < c.sz
  pub rp_in : c.rp < c.sz

-- How many bytes are held, and the byte number `i` of them.
abbrev pub held : Cbuf → ℕ
held c = if leb c.rp c.wp then c.wp - c.rp else c.wp + c.sz - c.rp

abbrev pub byte : Cbuf → ℕ → ℕ
byte c i = c.buf (if ltb (c.rp + i) c.sz then c.rp + i else c.rp + i - c.sz)

-- What `write` has done, for the number `n` that it returned, seen at the byte `i`.
pub record Appended (c c' : Cbuf) (src : List ℕ) (n i : ℕ) : Type 0 where
  pub count : n ≡ min (length src) (c.sz - 1 - held c)
  pub longer : held c' ≡ held c + n
  pub content : byte c' i ≡ (
      if ltb i (held c)
      then byte c i
      else if ltb i (held c + n)
      then get_or src (i - held c) 0
      else byte c' i)
  pub valid : IsValid c'

module _ (c : Cbuf) (src : List ℕ) (i : ℕ) (v : IsValid c) where
  -- One copy, of `n` bytes to the places from `_wp` on.
  on_free :
      (n : ℕ)
      → n ≡ min (length src) (c.sz - 1 - held c)
      → c.wp + n < c.sz
      → (ltb c.wp c.rp ≡ true) ⊎ (leb c.rp c.wp ≡ true)
      → Appended c (record c { buf = copy_in c.buf c.wp src 0 n; wp = c.wp + n }) src n i
  unfolding copy_in
  on_free n e l o = record {
    count = e;
    longer = ground arith;
    content =
        ground (arith, ap (λ j. get_or src j 0) {x = c.rp + i - c.wp} {y = i - (c.wp - c.rp)});
    valid = record { set = v.set; wp_in = l; rp_in = v.rp_in };
  }

  -- No place is free.
  on_full : held c ≡ c.sz - 1 → Appended c c src 0 i
  on_full f = record {
    count = omega arith;
    longer = omega arith;
    content = ground arith;
    valid = v;
  }

  -- Nothing is held: the copy starts at the first place.
  on_empty :
      (n : ℕ)
      → c.rp ≡ c.wp
      → n ≡ min (length src) (c.sz - 1)
      → Appended c (record c { buf = copy_in c.buf 0 src 0 n; rp = 0; wp = n }) src n i
  unfolding copy_in
  on_empty n e l = record {
    count = ground arith;
    longer = ground arith;
    content = ground (arith, ap (λ j. get_or src j 0) {x = i} {y = i - (c.wp - c.rp)});
    valid = record { set = v.set; wp_in = omega (arith, v.wp_in); rp_in = omega (arith, v.wp_in) };
  }

  -- The copy reaches the last place.
  on_end :
      (n : ℕ)
      → leb c.rp c.wp ≡ true
      → 0 < c.rp
      → n ≡ length src
      → n ≤ c.sz - c.wp
      → Appended c
          (record c { buf = copy_in c.buf c.wp src 0 n; wp = wrapped c.sz (c.wp + n) })
          src
          n
          i
  unfolding copy_in
  on_end n o p e l = record {
    count = ground arith;
    longer = ground arith;
    content =
        ground (arith, ap (λ j. get_or src j 0) {x = c.rp + i - c.wp} {y = i - (c.wp - c.rp)});
    valid = record { set = v.set; wp_in = ground arith; rp_in = v.rp_in };
  }

  -- The copy goes on at the first place, up to the place before `_rp`.
  on_around :
      (n l : ℕ)
      → leb c.rp c.wp ≡ true
      → 0 < c.rp
      → n ≡ c.sz - c.wp
      → n < length src
      → l ≡ min (length src - n) (c.rp - 1)
      → Appended c
          (record c { buf = copy_in (copy_in c.buf c.wp src 0 n) 0 src n l; wp = l })
          src
          (n + l)
          i
  unfolding copy_in
  on_around n l o p e f g = record {
    count = ground arith;
    longer = ground arith;
    content = ground (
      arith,
      ap (λ j. get_or src j 0) {x = c.rp + i - c.wp} {y = i - (c.wp - c.rp)},
      ap (λ j. get_or src j 0) {x = n + (c.rp + i - c.sz)} {y = i - (c.wp - c.rp)},
    );
    valid = record { set = v.set; wp_in = ground arith; rp_in = v.rp_in };
  }

  abbrev pub Writes : Run (Cbuf × ℕ) → Type 0
  Writes r = (p : Cbuf × ℕ) × (r ≡ ok p) × Appended c p.0 src p.1 i

  write_around-Writes : leb c.rp c.wp ≡ true → 0 < c.rp → Writes (write_around c src)
  unfolding write_around
  write_around-Writes o p =
      let n : ℕ = min (length src) (c.sz - c.wp) in
      let l : ℕ = min (length src - n) (c.rp - 1) in
      elim (Bool-cases (n == length src)) [
        | inl e ↦ (_, rw e refl, on_end n o p (ground arith) (omega arith))
        | inr e ↦
            let at_start : (wrapped c.sz (c.wp + n) == 0) ≡ true = ground arith in
            (_, rw (e, at_start) refl, on_around n l o p (ground arith) (ground arith) refl)
      ]

  -- A write into a buffer that is in order always returns, and leaves it in order. The bytes that it
  -- takes are the first ones, as many as there are free places; they come after the bytes that were
  -- held, and these stay as they were.
  pub write-Writes : Writes (write c src)
  unfolding write
  write-Writes = elim (Bool-cases (c.rp == c.wp)) [
    | inl a ↦ (_, rw (guard, a) refl, on_empty (min (length src) (c.sz - 1)) (ground arith) refl)
    | inr a ↦ elim (Bool-cases (c.wp + 1 == c.rp || (c.wp + 1 == c.sz && c.rp == 0))) [
      | inl b ↦ (_, rw (guard, a, b) refl, on_full (ground arith))
      | inr b ↦ elim (Bool-cases (ltb c.wp c.rp)) [
        | inl d ↦ (
          _,
          rw (guard, a, b, d) refl,
          on_free (min (length src) (c.rp - c.wp - 1)) (ground arith) (ground arith) (inl d),
        )
        | inr d ↦ elim (Bool-cases (not (c.wp == 0) && c.rp == 0)) [
          | inl e ↦ (
            _,
            rw (guard, a, b, d, e) refl,
            on_free (min (length src) (c.sz - c.wp - 1)) (ground arith) (ground arith)
                (inr (ground arith)),
          )
          | inr e ↦ rw (guard, a, b, d, e) (write_around-Writes (ground arith) (ground arith))
        ]
      ]
    ]
  ]
    where
      guard : (not c.has_buf || c.sz == 0) ≡ false
      guard = ground (arith, v.set, v.wp_in)

-- A write of at least `_sz - 1` bytes that may overwrite old ones leaves an index outside the buffer
-- unless the next place to write is the first one.
pub overwrite_breaks :
    (c : Cbuf) (src : List ℕ)
    → IsValid c
    → c.sz - 1 ≤ length src
    → (p : Cbuf × ℕ) × (overwrite c src ≡ ok p) × ((ltb p.0.wp p.0.sz) ≡ (c.wp == 0))
unfolding overwrite
overwrite_breaks c src v h =
    let guard : (not c.has_buf || c.sz == 0) ≡ false = ground (arith, v.set, v.wp_in) in
    let long : leb (c.sz - 1) (length src) ≡ true = ground arith in
    let buf = copy_in c.buf 0 src (length src - (c.sz - 1)) (c.sz - 1) in
    (
      (record c { buf = buf; rp = 0; wp = c.wp + (c.sz - 1) }, length src),
      rw (guard, long) refl,
      ground (arith, v.wp_in),
    )
