-- ===== src/Containers/Cbuf.antt =====
-- lib/containers/cbuf.h, class Cbuf_t: a circular buffer of bytes, one of whose places stays free.
pub mod Fifo
pub mod Reads
use wrmos.Base.{
  ℕ, zero, suc, ◌+◌, ◌-◌, Bool, true, false, not, ◌&&◌, ◌||◌, List, [], ◌∷◌, ◌==◌, ltb, leb, min,
  if◌then◌else◌, length, get_or, take, drop, ◌++◌, Run, ok, ◌>>=◌, ◌>>◌, wassert,
}

-- `_buf` as its bytes by index, and whether it has been set.
pub record Cbuf : Type 0 where
  pub has_buf : Bool
  pub buf : ℕ → ℕ
  pub sz : ℕ
  pub wp : ℕ
  pub rp : ℕ

-- `memcpy(_buf + at, src + from, n)`.
unfoldable pub copy_in : (ℕ → ℕ) → ℕ → List ℕ → ℕ → ℕ → ℕ → ℕ
copy_in buf at src from n i =
    if leb at i && ltb i (at + n) then get_or src (from + (i - at)) 0 else buf i

-- `memcpy(dst, _buf + at, n)`, as the bytes that are copied.
unfoldable pub copy_out : (ℕ → ℕ) → ℕ → ℕ → List ℕ
copy_out buf at zero = []
copy_out buf at (suc n) = buf at ∷ copy_out buf (at + 1) n

abbrev pub no_cbuf : Cbuf
no_cbuf = record { has_buf = false; buf = λ _. 0; sz = 0; wp = 0; rp = 0 }

unfoldable pub init : Cbuf → (ℕ → ℕ) → ℕ → Cbuf × Bool
init c buf sz =
    if c.has_buf
    then (c, false)
    else (record { has_buf = true; buf = buf; sz = sz; wp = 0; rp = 0 }, true)

unfoldable pub clear : Cbuf → Cbuf
clear c = record c { wp = 0; rp = 0 }

unfoldable pub empty : Cbuf → Bool
empty c = c.wp == c.rp

-- An index after the last place goes on at the first one.
abbrev pub wrapped : ℕ → ℕ → ℕ
wrapped sz p = if p == sz then 0 else p

-- The last branch of `write`: the free places go on at the start of the buffer.
unfoldable pub write_around : Cbuf → List ℕ → Run (Cbuf × ℕ)
write_around c src =
    let bytes = min (length src) (c.sz - c.wp) in
    let c₁ = record c { buf = copy_in c.buf c.wp src 0 bytes; wp = wrapped c.sz (c.wp + bytes) } in
    if bytes == length src then ok (c₁, bytes) else (do
      wassert (c₁.wp == 0)
      let l = min (length src - bytes) (c.rp - 1)
      ok (record c₁ { buf = copy_in c₁.buf 0 src bytes l; wp = l }, bytes + l))

-- A write to the places from `_wp` on, which does not reach the end of the buffer.
abbrev pub write_on : Cbuf → List ℕ → ℕ → Run (Cbuf × ℕ)
write_on c src bytes =
    ok (record c { buf = copy_in c.buf c.wp src 0 bytes; wp = c.wp + bytes }, bytes)

unfoldable pub write : Cbuf → List ℕ → Run (Cbuf × ℕ)
write c src =
    if not c.has_buf || c.sz == 0
    then ok (c, 0)
    else if c.rp == c.wp
    then (let bytes = min (length src) (c.sz - 1) in
        ok (record c { buf = copy_in c.buf 0 src 0 bytes; rp = 0; wp = bytes }, bytes))
    else if c.wp + 1 == c.rp || (c.wp + 1 == c.sz && c.rp == 0)
    then ok (c, 0)
    else if ltb c.wp c.rp
    then write_on c src (min (length src) (c.rp - c.wp - 1))
    else if not (c.wp == 0) && c.rp == 0
    then write_on c src (min (length src) (c.sz - c.wp - 1))
    else write_around c src

-- `read` gives the bytes that it copies.
unfoldable pub read : Cbuf → ℕ → Run (Cbuf × List ℕ)
read c len =
    if c.wp == c.rp
    then ok (c, [])
    else if ltb c.rp c.wp
    then (let bytes = min len (c.wp - c.rp) in
        ok (record c { rp = c.rp + bytes }, copy_out c.buf c.rp bytes))
    else (let bytes = min len (c.sz - c.rp) in
        let c₁ = record c { rp = wrapped c.sz (c.rp + bytes) } in
        if bytes == len then ok (c₁, copy_out c.buf c.rp bytes) else (do
          wassert (c₁.rp == 0)
          let l = min (len - bytes) c.wp
          ok (record c₁ { rp = l }, copy_out c.buf c.rp bytes ++ copy_out c.buf 0 l)))

-- The last branch of `overwrite`: the bytes go to the places from `_wp` on, and at the end of the buffer
-- on at the first one. Where they reach `_rp`, the oldest bytes are given up.
unfoldable pub overwrite_around : Cbuf → List ℕ → Run (Cbuf × ℕ)
overwrite_around c src =
    let l₁ = min (length src) (c.sz - c.wp) in
    let over₁ = ltb c.wp c.rp && leb c.rp (c.wp + l₁) in
    let wp₁ = wrapped c.sz (c.wp + l₁) in
    let c₁ = record c {
      buf = copy_in c.buf c.wp src 0 l₁;
      wp = wp₁;
      rp = if over₁ then wrapped c.sz (wp₁ + 1) else c.rp;
    } in
    if l₁ == length src then ok (c₁, length src) else (do
      wassert (wp₁ == 0)
      let l₂ = length src - l₁
      ok (
        record c₁ {
          buf = copy_in c₁.buf 0 src l₁ l₂;
          wp = l₂;
          rp = if leb c₁.rp (wp₁ + l₂) then wrapped c.sz (l₂ + 1) else c₁.rp;
        },
        length src,
      ))

unfoldable pub overwrite : Cbuf → List ℕ → Run (Cbuf × ℕ)
overwrite c src =
    if not c.has_buf || c.sz == 0
    then ok (c, 0)
    else if leb (c.sz - 1) (length src)
    then ok (
      record c {
        buf = copy_in c.buf 0 src (length src - (c.sz - 1)) (c.sz - 1);
        rp = 0;
        wp = c.wp + (c.sz - 1);
      },
      length src,
    )
    else if c.rp == c.wp
    then (let l = min (length src) (c.sz - 1) in
        ok (record c { buf = copy_in c.buf 0 src 0 l; rp = 0; wp = l }, length src))
    else overwrite_around c src
