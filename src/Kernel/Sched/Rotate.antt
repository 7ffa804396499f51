-- ===== src/Kernel/Sched/Rotate.antt =====
-- krn/threads.h: the lists of threads over the end of a timeslice.
use wrmos.Base.{
  update, ℕ, ◌<◌, ◌≡◌, refl, ap, false, List, [], ◌∷◌, ◌++◌, arith, count, remove, count-append,
  count-remove, count-singleton, Run, ok, length, ltb, true, Bool-cases, inl, inr, ◌∙◌, ◌>>=◌,
  >>=-eq-ok, wassert, ◌==◌,
}
use wrmos.Kernel.State.{ready, is, Kernel, set_thread, threads_max, timeslice_usec}
use wrmos.Kernel.Queues.{is_empty}
use wrmos.Kernel.Queues.Placed.{ready_at}
use wrmos.Kernel.Transition.Well.{IsWell, set_thread-IsWell}
use wrmos.Kernel.Sched.{begin, move_to_end, timeslice_expired}

count-move_to_end :
    (u t : ℕ) (l : List ℕ) {l' : List ℕ} → move_to_end t l ≡ ok l' → count u l' ≡ count u l
unfolding move_to_end
count-move_to_end u t l e =
    ground (arith, count-remove u t (l ++ t ∷ []), count-append u l (t ∷ []), count-singleton u t)

is_empty-move_to_end :
    (t : ℕ) (l : List ℕ) {l' : List ℕ} → move_to_end t l ≡ ok l' → is_empty l' ≡ is_empty l
unfolding move_to_end remove
is_empty-move_to_end t [] e = cc
is_empty-move_to_end t (x ∷ []) e = cc
is_empty-move_to_end t (x ∷ y ∷ l) e = ground arith

-- A list that has a free item can be turned.
pub move_to_end_ok :
    (t : ℕ) (l : List ℕ) → length l < threads_max → (l' : List ℕ) × (move_to_end t l ≡ ok l')
unfolding move_to_end
move_to_end_ok t l h =
    let room : ltb (length l) threads_max ≡ true = ground arith in
    elim (Bool-cases (ltb 1 (length l))) [
      | inl e ↦ (remove t (l ++ t ∷ []), rw (e, room) refl)
      | inr e ↦ (l, rw e refl)
    ]

-- Another order of one ready list.
pub reordered-IsWell :
    {k : Kernel} (prio : ℕ) (l : List ℕ)
    → ((u : ℕ) → count u l ≡ count u (k.ready_threads prio))
    → is_empty l ≡ is_empty (k.ready_threads prio)
    → IsWell k
    → IsWell (record k { ready_threads = update k.ready_threads prio l })
reordered-IsWell {k} prio l same e w = record {
  placed = record {
    counts = λ u. elim [
      | ready_at p ↦ ground (arith, same u, w.placed.counts u (ready_at p))
      | q ↦ w.placed.counts u q
    ];
    bits = λ p. ground (arith, w.placed.bits p);
  };
  prios = w.prios;
}

-- What a list begins with is in it.
pub begin-count : (l : List ℕ) (t : ℕ) → begin l ≡ ok t → 0 < count t l
unfolding count
begin-count [] t e = cc
begin-count (x ∷ l) t e = ground arith

pub begin_ok : (l : List ℕ) → is_empty l ≡ false → (t : ℕ) × (begin l ≡ ok t) × (0 < count t l)
unfolding count
begin_ok [] e = cc
begin_ok (x ∷ l) e = (x, refl, ground arith)

pub not_empty : (t : ℕ) (l : List ℕ) → 0 < count t l → is_empty l ≡ false
unfolding count
not_empty t [] h = absurd (omega arith)
not_empty t (x ∷ l) h = refl

-- The thread of a ready list is ready, and has the priority of the list.
pub listed-ready :
    {k : Kernel} (t prio : ℕ)
    → IsWell k
    → 0 < count t (k.ready_threads prio)
    → ((k.threads t).state ≡ ready) × ((k.threads t).prio ≡ prio)
listed-ready {k} t prio w h = ground (arith, w.placed.counts t (ready_at prio))

-- The answer of a choice from the ready list of a priority: a thread of that list, in a kernel that is
-- still in order, and that differs in timeslices and in the order of the list alone.
abbrev pub Picks : Kernel → ℕ → Run (Kernel × ℕ) → Type 0
Picks k prio r =
    (k' : Kernel) × (t : ℕ) × (r ≡ ok (k', t))
    × (0 < count t (k.ready_threads prio))
    × IsWell k'
    × ((u : ℕ) → (k'.threads u).state ≡ (k.threads u).state)

pub timeslice_expired-Picks :
    (k : Kernel) (t prio : ℕ) {l : List ℕ}
    → IsWell k
    → 0 < count t (k.ready_threads prio)
    → (k.threads t).timeslice ≡ 0
    → move_to_end t (k.ready_threads prio) ≡ ok l
    → Picks k prio (timeslice_expired k t prio)
unfolding timeslice_expired
timeslice_expired-Picks k t prio {l} w h z e =
    let (s, p) = listed-ready t prio w h in
    let (first, b, c) =
      begin_ok l
        (is_empty-move_to_end t (k.ready_threads prio) e ∙ not_empty t (k.ready_threads prio) h) in
    (
      record (set_thread k t (record (k.threads t) { timeslice = timeslice_usec })) {
        ready_threads = update k.ready_threads prio l;
      },
      first,
      rw (z, s, e, ◌>>=◌, b) refl,
      ground (arith, count-move_to_end first t (k.ready_threads prio) e),
      reordered-IsWell prio l (λ u. count-move_to_end u t (k.ready_threads prio) e)
          (is_empty-move_to_end t (k.ready_threads prio) e)
          (set_thread-IsWell t _ refl (w.prios t) w),
      λ u. ground (arith, ap (λ v. (k.threads v).state) {x = t} {y = u}),
    )

-- The end of a timeslice that does not stop the kernel has turned the list.
pub timeslice_expired-moves :
    (k : Kernel) (t prio : ℕ) {r : Kernel × ℕ}
    → timeslice_expired k t prio ≡ ok r
    → (l : List ℕ) × (move_to_end t (k.ready_threads prio) ≡ ok l)
unfolding timeslice_expired
timeslice_expired-moves k t prio h =
    let (_, _, h₁) = >>=-eq-ok (wassert ((k.threads t).timeslice == 0)) _ h in
    let (_, _, h₂) = >>=-eq-ok (wassert (is (k.threads t).state ready)) _ h₁ in
    let (l, e, _) = >>=-eq-ok (move_to_end t (k.ready_threads prio)) _ h₂ in (l, e)
