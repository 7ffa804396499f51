-- ===== src/Kernel/Sched/Room.antt =====
-- krn/threads.h: how many threads a ready list holds.
use wrmos.Base.{
  ℕ, zero, suc, ◌+◌, ◌≤◌, ◌<◌, ◌≡◌, refl, inl, inr, List, [], ◌∷◌, arith, ◌==◌, Bool-cases, false,
  count, length, ltb, if◌then◌else◌,
}
use wrmos.Kernel.State.{ready, is, Kernel, threads_max}
use wrmos.Kernel.Queues.Placed.{ready_at}
use wrmos.Kernel.Transition.Well.{IsWell}

-- The occurrences in a list of the numbers below `n`.
unfoldable total : ℕ → List ℕ → ℕ
unfolding count
total zero l = 0
total (suc n) l = total n l + count n l

total-nil : (n : ℕ) → total n [] ≡ 0
unfolding total count
total-nil zero = refl
total-nil (suc n) = omega (arith, total-nil n)

total-cons : (n x : ℕ) (l : List ℕ) → total n (x ∷ l) ≡ (if ltb x n then 1 else 0) + total n l
unfolding total count
total-cons zero x l = ground arith
total-cons (suc n) x l = ground (arith, total-cons n x l)

-- A list of numbers below `n`.
length-total : (n : ℕ) (l : List ℕ) → ((u : ℕ) → n ≤ u → count u l ≡ 0) → length l ≡ total n l
unfolding count
length-total n [] h = omega (arith, total-nil n)
length-total n (x ∷ l) h = elim (Bool-cases (ltb x n)) [
  | inl e ↦ ground (arith, total-cons n x l, length-total n l (λ u le. ground (arith, h u le)))
  | inr e ↦ absurd (ground (arith, h x (ground arith)))
]

total_le : (n : ℕ) (l : List ℕ) → ((u : ℕ) → count u l ≤ 1) → total n l ≤ n
unfolding total
total_le zero l h = omega arith
total_le (suc n) l h = omega (arith, total_le n l h, h n)

total_lt :
    (n v : ℕ) (l : List ℕ) → ((u : ℕ) → count u l ≤ 1) → v < n → count v l ≡ 0 → total n l < n
unfolding total
total_lt zero v l h b z = absurd (omega arith)
total_lt (suc n) v l h b z = elim (Bool-cases (v == n)) [
  | inl e ↦ ground (arith, total_le n l h)
  | inr e ↦ omega (arith, total_lt n v l h (ground arith) z, h n)
]

-- A list of numbers below `n` without repetition that misses one of them has fewer than `n` items.
missing-room :
    (n v : ℕ) (l : List ℕ)
    → ((u : ℕ) → count u l ≤ 1)
    → ((u : ℕ) → n ≤ u → count u l ≡ 0)
    → v < n
    → count v l ≡ 0
    → length l < n
missing-room n v l once below b z = ground (arith, length-total n l below, total_lt n v l once b z)

-- No ready list holds as many threads as the table, whose slots are those below `threads_max`, where one
-- of its threads is not ready.
pub ready-room :
    {k : Kernel} (v : ℕ)
    → IsWell k
    → v < threads_max
    → is (k.threads v).state ready ≡ false
    → ((u : ℕ) → threads_max ≤ u → is (k.threads u).state ready ≡ false)
    → (prio : ℕ) → length (k.ready_threads prio) < threads_max
ready-room {k} v w b z beyond prio =
    missing-room threads_max v (k.ready_threads prio)
      (λ u. ground (arith, w.placed.counts u (ready_at prio)))
      (λ u le. ground (arith, beyond u le, w.placed.counts u (ready_at prio))) b
      (ground (arith, w.placed.counts v (ready_at prio)))
