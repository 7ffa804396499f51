-- ===== src/Tests/ContainerTests.antt =====
-- lib/containers/: tests and examples.
use wrmos.Base.{update, some, ℕ, ◌+◌, ◌≡◌, refl, true, false, ltb, List, [], ◌∷◌, Run, ok, arith}
use wrmos.Containers.Bitmap.{Bitmap, getfree, find_val, find_in_words, find_in_word, has_val}
use wrmos.Containers.Bitmap.Bits.{ones, IsCounted}
use wrmos.Containers.Bitmap.Takes.{TakesAny, getany-TakesAny}
use wrmos.Containers.StaticPool.{StaticPool}
use wrmos.Containers.StaticPool.Trips.{Trip, alloc_free-Trip}
use wrmos.Containers.Cbuf.{Cbuf, write, write_around, overwrite, read, copy_in, copy_out}
use wrmos.Containers.Cbuf.Fifo.{IsValid, Writes, write-Writes, overwrite_breaks}
use wrmos.Containers.Cbuf.Reads.{Reads, read-Reads}

-- Eight places, of which three are held, and the free ones go on at the start.
abbrev turned : Cbuf
turned = record { has_buf = true; buf = λ i. 10 + i; sz = 8; wp = 6; rp = 3 }

turned-IsValid : IsValid turned
turned-IsValid = record { set = refl; wp_in = omega arith; rp_in = omega arith }

abbrev bytes_of : Run (Cbuf × List ℕ) → List ℕ
bytes_of (ok (c, out)) = out
bytes_of _ = []

abbrev cbuf_of : Run (Cbuf × ℕ) → Cbuf
cbuf_of (ok (c, n)) = c
cbuf_of _ = turned

-- Four of the five bytes fit, and come out after the three.
reads_written :
    bytes_of (read (cbuf_of (write turned (1 ∷ 2 ∷ 3 ∷ 4 ∷ 5 ∷ []))) 9)
    ≡ 13 ∷ 14 ∷ 15 ∷ 1 ∷ 2 ∷ 3 ∷ 4 ∷ []
unfolding write write_around read copy_in copy_out
reads_written = refl

write-Writes_example :
    Writes turned (1 ∷ 2 ∷ 3 ∷ 4 ∷ 5 ∷ []) 4 turned-IsValid (write turned (1 ∷ 2 ∷ 3 ∷ 4 ∷ 5 ∷ []))
write-Writes_example = write-Writes turned (1 ∷ 2 ∷ 3 ∷ 4 ∷ 5 ∷ []) 4 turned-IsValid

read-Reads_example : Reads turned 2 0 1 turned-IsValid (read turned 2)
read-Reads_example = read-Reads turned 2 0 1 turned-IsValid

overwrite_breaks_example :
    (p : Cbuf × ℕ) × (overwrite turned (1 ∷ 2 ∷ 3 ∷ 4 ∷ 5 ∷ 6 ∷ 7 ∷ []) ≡ ok p)
    × (ltb p.0.wp p.0.sz ≡ false)
overwrite_breaks_example =
    overwrite_breaks turned (1 ∷ 2 ∷ 3 ∷ 4 ∷ 5 ∷ 6 ∷ 7 ∷ []) turned-IsValid (omega arith)

-- Three of six bits are taken, and bit 2 is the first free one.
abbrev holed : Bitmap
holed = record {
  words = update (λ _ _. false) 0 (update (update (update (λ _. false) 0 true) 1 true) 3 true);
  capacity = 6;
  count = 3;
}

holed-IsCounted : IsCounted holed
unfolding ones
holed-IsCounted = record { counted = refl; small = omega arith }

getany-TakesAny_example : TakesAny holed true
getany-TakesAny_example = getany-TakesAny holed true holed-IsCounted

takes_two : (getfree holed).1 ≡ some 2
unfolding getfree find_val find_in_words find_in_word has_val
takes_two = refl

abbrev six_items : StaticPool
six_items = record { pool = 0x8000; size = 10; items = 6; bmap = holed }

alloc_free-Trip_example : Trip six_items
alloc_free-Trip_example =
    alloc_free-Trip six_items
      (record { counted = holed-IsCounted; fits = refl; sized = omega arith }) (omega arith)
