-- ===== src/Kernel/Sched/Highest.antt =====
-- krn/threads.h: the thread that `get_highest_prio_ready_thread` returns.
use wrmos.Base.{
  ℕ, ◌≤◌, ◌≡◌, refl, ap, ◌∙◌, true, false, not, List, [], ◌∷◌, Option, none, some, arith, ◌==◌,
  Bool-cases, inl, inr, lt-cases, length, ◌<◌, >>=-eq-ok, wassert, ok, panic, ok-eq, sym, subst,
}
use wrmos.Kernel.State.{ready, Kernel, threads_max}
use wrmos.Kernel.Queues.{is_empty, ready_bit}
use wrmos.Kernel.Queues.Placed.{ready_at}
use wrmos.Kernel.Transition.Well.{IsWell}
use wrmos.Kernel.Sched.{begin, find_word, pick_from, get_highest_prio_ready_thread}
use wrmos.Kernel.Sched.Bitmap.{IsTop, find_word-IsTop}
use wrmos.Kernel.Sched.Rotate.{
  Picks, not_empty, begin-count, begin_ok, listed-ready, move_to_end_ok, timeslice_expired-Picks,
  timeslice_expired-moves,
}

nonzero_length : (l : List ℕ) → is_empty l ≡ false → (length l == 0) ≡ false
nonzero_length [] e = cc
nonzero_length (x ∷ l) e = ground arith

pick_from-Picks :
    (k : Kernel) (prio : ℕ)
    → IsWell k
    → is_empty (k.ready_threads prio) ≡ false
    → length (k.ready_threads prio) < threads_max
    → Picks k prio (pick_from k prio)
unfolding pick_from
pick_from-Picks k prio w e room =
    let (t, b, c) = begin_ok (k.ready_threads prio) e in
    elim (Bool-cases ((k.threads t).timeslice == 0)) [
      | inl z ↦
          rw (nonzero_length (k.ready_threads prio) e, b, z)
            (timeslice_expired-Picks k t prio w c (ground arith)
              (move_to_end_ok t (k.ready_threads prio) room).1)
      | inr m ↦ (k, t, rw (nonzero_length (k.ready_threads prio) e, b, m), c, w, λ u. refl)
    ]

-- The list of a ready thread's priority is not empty, so its bit is set.
ready-bit :
    (k : Kernel) (u : ℕ)
    → IsWell k
    → (k.threads u).state ≡ ready
    → ready_bit k (k.threads u).prio ≡ true
ready-bit k u w s =
    w.placed.bits (k.threads u).prio
    ∙ ap not (
        not_empty u (k.ready_threads (k.threads u).prio)
          (ground (arith, w.placed.counts u (ready_at (k.threads u).prio))))

-- The scheduler's answer: a ready thread of at least the priority `prio`, and a kernel that is in
-- order, with every thread's state as it was.
abbrev pub FindsReady : Kernel → ℕ → Type 0
FindsReady k prio =
    (k' : Kernel) × (t : ℕ) × (get_highest_prio_ready_thread k ≡ ok (k', t))
    × ((k.threads t).state ≡ ready)
    × (prio ≤ (k.threads t).prio)
    × IsWell k'
    × ((v : ℕ) → (k'.threads v).state ≡ (k.threads v).state)

-- While any thread `u` is ready, in a kernel that is in order and in which no ready list holds as many
-- threads as it has items, the scheduler returns a thread: it is ready, its priority is at least that of
-- `u`, the kernel that is left is in order, and no thread's state has changed.
pub get_highest-FindsReady :
    (k : Kernel) (u : ℕ)
    → IsWell k
    → ((prio : ℕ) → length (k.ready_threads prio) < threads_max)
    → (k.threads u).state ≡ ready
    → FindsReady k (k.threads u).prio
unfolding get_highest_prio_ready_thread
get_highest-FindsReady k u w room s =
    go (find_word k.ready_bits 8) refl (find_word-IsTop k.ready_bits 8)
  where
    go :
        (r : Option ℕ)
        → find_word k.ready_bits 8 ≡ r
        → IsTop k.ready_bits 0 256 r
        → FindsReady k (k.threads u).prio
    go none e clear =
        cc (clear (k.threads u).prio (omega arith) (omega (arith, w.prios u)), ready-bit k u w s)
    go (some prio) e (lo, hi, set, clear) =
        let (k', t, done, c, w', states) =
          pick_from-Picks k prio w (ground (arith, w.placed.bits prio)) (room prio) in
        let (rdy, same) = listed-ready t prio w c in
        (
          k',
          t,
          rw (e, get_highest_prio_ready_thread) done,
          rdy,
          elim (lt-cases prio (k.threads u).prio) [
            | inl above ↦
                cc (clear (k.threads u).prio above (omega (arith, w.prios u)), ready-bit k u w s)
            | inr below ↦ rw same below
          ],
          w',
          states,
        )

no_thread : {r : Kernel × ℕ} → panic ≡ ok r → ⊥
no_thread e = cc

pick_from-IsWell :
    (k : Kernel) (prio : ℕ) {k' : Kernel} {t : ℕ}
    → IsWell k
    → pick_from k prio ≡ ok (k', t)
    → IsWell k'
unfolding pick_from
pick_from-IsWell k prio {k'} {t} w h =
    let (_, _, h₁) = >>=-eq-ok (wassert (not (length (k.ready_threads prio) == 0))) _ h in
    let (u, b, h₂) = >>=-eq-ok (begin (k.ready_threads prio)) _ h₁ in
    elim (Bool-cases ((k.threads u).timeslice == 0)) [
      | inl z ↦
          let done = rw z at h₂ in
          let (l, m) = timeslice_expired-moves k u prio done in
          let (k₁, t₁, e, _, w₁, _) =
            timeslice_expired-Picks k u prio w (begin-count (k.ready_threads prio) u b)
              (ground arith) m in
          subst (λ (x : Kernel × ℕ). IsWell x.0) (ok-eq (sym e ∙ done)) w₁
      | inr m ↦ subst (λ (x : Kernel × ℕ). IsWell x.0) (ok-eq (rw m at h₂)) w
    ]

-- A choice of the scheduler leaves the kernel in order.
pub get_highest-IsWell :
    (k : Kernel) {k' : Kernel} {t : ℕ}
    → IsWell k
    → get_highest_prio_ready_thread k ≡ ok (k', t)
    → IsWell k'
unfolding get_highest_prio_ready_thread
get_highest-IsWell k {k'} {t} w h =
    go (find_word k.ready_bits 8) refl (find_word-IsTop k.ready_bits 8)
  where
    go : (r : Option ℕ) → find_word k.ready_bits 8 ≡ r → IsTop k.ready_bits 0 256 r → IsWell k'
    go none e top = absurd (no_thread (rw (e, get_highest_prio_ready_thread) at h))
    go (some prio) e (lo, hi, set, clear) =
        pick_from-IsWell k prio w (rw (e, get_highest_prio_ready_thread) at h)
