-- ===== src/Kernel/Queues/Placed.antt =====
-- krn/threads.h, krn/thread.h: which list holds a thread, seen from the thread's state.
use wrmos.Base.{
  update, ℕ, ◌+◌, ◌-◌, ◌≡◌, refl, ap, subst, inl, inr, Bool, true, false, not, List, [], arith,
  ◌==◌, if◌then◌else◌, Bool-cases, count,
}
use wrmos.Kernel.State.{Kernel}
use wrmos.Kernel.Queues.{ready_bit, is_empty}

pub data Place : Type 0 where
  ready_at : ℕ → Place
  sending timed_snd timed_rcv nowhere : Place

abbrev pub same_queue : Place → Place → Bool
same_queue (ready_at p) (ready_at q) = p == q
same_queue sending sending = true
same_queue timed_snd timed_snd = true
same_queue timed_rcv timed_rcv = true
same_queue _ _ = false

abbrev pub queue : Kernel → Place → List ℕ
queue k (ready_at p) = k.ready_threads p
queue k sending = k.send_threads
queue k timed_snd = k.timeout_waiting_snd
queue k timed_rcv = k.timeout_waiting_rcv
queue k nowhere = []

abbrev pub num : Bool → ℕ
num b = if b then 1 else 0

-- Each thread is in the one list of its place, once, and in no other. A bit of the bitmap is set
-- just when the list of its priority has a thread.
pub record IsPlaced (k : Kernel) (place : ℕ → Place) : Type 0 where
  pub counts : (u : ℕ) (q : Place) → count u (queue k q) ≡ num (same_queue (place u) q)
  pub bits : (p : ℕ) → ready_bit k p ≡ not (is_empty (k.ready_threads p))

pub same_queue-eq : (p q : Place) → same_queue p q ≡ true → p ≡ q
same_queue-eq (ready_at p) (ready_at q) e = ground arith
same_queue-eq sending sending e = refl
same_queue-eq timed_snd timed_snd e = refl
same_queue-eq timed_rcv timed_rcv e = refl
same_queue-eq p q e = cc

-- The lists after a thread has been taken out of the list of its place `p`.
pub record IsLeft (k k' : Kernel) (t : ℕ) (p : Place) : Type 0 where
  pub own :
      (u : ℕ)
      → count u (queue k' p) ≡ (if t == u then count u (queue k p) - 1 else count u (queue k p))
  pub others : (q : Place) → same_queue p q ≡ false → queue k' q ≡ queue k q

-- The lists after a thread has been put into the list `p`.
pub record IsEntered (k k' : Kernel) (t : ℕ) (p : Place) : Type 0 where
  pub own : (u : ℕ) → count u (queue k' p) ≡ num (t == u) + count u (queue k p)
  pub others : (q : Place) → same_queue p q ≡ false → queue k' q ≡ queue k q

module _ {k k' : Kernel} {place : ℕ → Place} (t : ℕ) (p : Place) (h : IsPlaced k place) where
  pub left_counts :
      place t ≡ p
      → IsLeft k k' t p
      → (u : ℕ) (q : Place) → count u (queue k' q) ≡ num (same_queue (update place t nowhere u) q)
  left_counts at l u q = elim (Bool-cases (same_queue p q)) [
    | inl e ↦
        subst (λ (r : Place). count u (queue k' r) ≡ num (same_queue (update place t nowhere u) r))
          (same_queue-eq p q e) (ground (arith, l.own u, h.counts u p, ap place {x = t} {y = u}))
    | inr e ↦ rw (l.others q e) (ground (arith, h.counts u q, ap place {x = t} {y = u}))
  ]

  pub entered_counts :
      place t ≡ nowhere
      → IsEntered k k' t p
      → (u : ℕ) (q : Place) → count u (queue k' q) ≡ num (same_queue (update place t p u) q)
  entered_counts at l u q = elim (Bool-cases (same_queue p q)) [
    | inl e ↦
        subst (λ (r : Place). count u (queue k' r) ≡ num (same_queue (update place t p u) r))
          (same_queue-eq p q e)
          (ground (arith, l.own u, h.counts u p, same_queue-eq p q e, ap place {x = t} {y = u}))
    | inr e ↦ rw (l.others q e) (ground (arith, h.counts u q, ap place {x = t} {y = u}))
  ]
