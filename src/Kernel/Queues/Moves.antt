-- ===== src/Kernel/Queues/Moves.antt =====
-- krn/threads.h: each list operation moves one thread in or out of the list of its place, and none of
-- its asserts fails.
use wrmos.Base.{
  update, ℕ, ◌+◌, ◌-◌, ◌≤◌, ◌≡◌, refl, ◌≢◌, inl, inr, Bool, true, false, not, List, [], ◌∷◌, ◌++◌,
  arith, ◌==◌, if◌then◌else◌, Bool-cases, contains, remove, count, count-append, count-remove,
  count-singleton, contains-count, Run, ok,
}
use wrmos.Kernel.State.{send_ipc, receive_ipc, Thread, Kernel, prio_max_value}
use wrmos.Kernel.Queues.{
  ready_bit, set_bit, is_empty, add_ready, del_ready, add_send, del_send, insert_by_timeout,
  add_timeout_waiting, del_timeout_waiting, add_rcv_timeout_waiting, add_snd_timeout_waiting,
  del_rcv_timeout_waiting, del_snd_timeout_waiting,
}
use wrmos.Kernel.Queues.Placed.{
  Place, ready_at, sending, timed_snd, timed_rcv, nowhere, same_queue, queue, num, IsPlaced, IsLeft,
  IsEntered, left_counts, entered_counts,
}

-- The operation ends, and has moved the thread `t` to the place `p` and nothing else.
abbrev pub Moves : Kernel → (ℕ → Place) → ℕ → Place → Run Kernel → Type 0
Moves k place t p r =
    (k' : Kernel) × (r ≡ ok k')
    × (k'.threads ≡ k.threads)
    × (k'.current ≡ k.current)
    × IsPlaced k' (update place t p)

contains_placed :
    {k : Kernel} {place : ℕ → Place} (t : ℕ) (p : Place)
    → IsPlaced k place
    → contains t (queue k p) ≡ same_queue (place t) p
contains_placed {k} t p h = ground (arith, contains-count t (queue k p), h.counts t p)

count-insert_by_timeout :
    (th : ℕ → Thread) (t u : ℕ) (l : List ℕ)
    → count u (insert_by_timeout th t l) ≡ num (t == u) + count u l
unfolding insert_by_timeout count
count-insert_by_timeout th t u [] = refl
count-insert_by_timeout th t u (x ∷ l) = ground (arith, count-insert_by_timeout th t u l)

-- Two kernels that differ in one list of waiting threads.
module _ (k : Kernel) (l : List ℕ) where
  with_send :
      (q : Place)
      → same_queue sending q ≡ false
      → queue (record k { send_threads = l }) q ≡ queue k q
  with_send (ready_at p) d = refl
  with_send sending d = cc
  with_send q d = refl

  with_snd :
      (q : Place)
      → same_queue timed_snd q ≡ false
      → queue (record k { timeout_waiting_snd = l }) q ≡ queue k q
  with_snd (ready_at p) d = refl
  with_snd timed_snd d = cc
  with_snd q d = refl

  with_rcv :
      (q : Place)
      → same_queue timed_rcv q ≡ false
      → queue (record k { timeout_waiting_rcv = l }) q ≡ queue k q
  with_rcv (ready_at p) d = refl
  with_rcv timed_rcv d = cc
  with_rcv q d = refl

count-append_one : (t u : ℕ) (l : List ℕ) → count u (l ++ t ∷ []) ≡ num (t == u) + count u l
count-append_one t u l = ground (arith, count-append u l (t ∷ []), count-singleton u t)

abbrev BitsRight : Kernel → Type 0
BitsRight k = (p : ℕ) → ready_bit k p ≡ not (is_empty (k.ready_threads p))

-- What makes `k'` the result of a move.
module _ {k : Kernel} {place : ℕ → Place} (t : ℕ) (p : Place) (h : IsPlaced k place)
    (k' : Kernel) where
  leaves :
      {r : Run Kernel}
      → place t ≡ p
      → r ≡ ok k'
      → k'.threads ≡ k.threads
      → k'.current ≡ k.current
      → BitsRight k'
      → IsLeft k k' t p
      → Moves k place t nowhere r
  leaves e done th cur b l =
      (k', done, th, cur, record { counts = left_counts {k' = k'} t p h e l; bits = b })

  enters :
      {r : Run Kernel}
      → place t ≡ nowhere
      → r ≡ ok k'
      → k'.threads ≡ k.threads
      → k'.current ≡ k.current
      → BitsRight k'
      → IsEntered k k' t p
      → Moves k place t p r
  enters e done th cur b l =
      (k', done, th, cur, record { counts = entered_counts {k' = k'} t p h e l; bits = b })

module _ {k : Kernel} {place : ℕ → Place} (t : ℕ) (h : IsPlaced k place) where
  pub del_send-Moves : place t ≡ sending → Moves k place t nowhere (del_send k t)
  unfolding del_send
  del_send-Moves e =
      leaves t sending h (record k { send_threads = remove t k.send_threads }) e
        (ground (arith, contains_placed t sending h)) refl refl h.bits
        (record { own = λ u. count-remove u t k.send_threads; others = with_send k _ })

  pub add_send-Moves : place t ≡ nowhere → Moves k place t sending (add_send k t)
  unfolding add_send
  add_send-Moves e =
      enters t sending h (record k { send_threads = k.send_threads ++ t ∷ [] }) e
        (ground (arith, contains_placed t sending h)) refl refl h.bits
        (record { own = λ u. count-append_one t u k.send_threads; others = with_send k _ })

  pub del_snd_timeout_waiting-Moves :
      (k.threads t).state ≡ send_ipc
      → place t ≡ timed_snd
      → Moves k place t nowhere (del_snd_timeout_waiting k t)
  unfolding del_snd_timeout_waiting del_timeout_waiting
  del_snd_timeout_waiting-Moves s e =
      leaves t timed_snd h (record k { timeout_waiting_snd = remove t k.timeout_waiting_snd }) e
        (ground (arith, contains_placed t timed_snd h)) refl refl h.bits
        (record { own = λ u. count-remove u t k.timeout_waiting_snd; others = with_snd k _ })

  pub del_rcv_timeout_waiting-Moves :
      (k.threads t).state ≡ receive_ipc
      → place t ≡ timed_rcv
      → Moves k place t nowhere (del_rcv_timeout_waiting k t)
  unfolding del_rcv_timeout_waiting del_timeout_waiting
  del_rcv_timeout_waiting-Moves s e =
      leaves t timed_rcv h (record k { timeout_waiting_rcv = remove t k.timeout_waiting_rcv }) e
        (ground (arith, contains_placed t timed_rcv h)) refl refl h.bits
        (record { own = λ u. count-remove u t k.timeout_waiting_rcv; others = with_rcv k _ })

  pub add_snd_timeout_waiting-Moves :
      (k.threads t).state ≡ send_ipc
      → place t ≡ nowhere
      → Moves k place t timed_snd (add_snd_timeout_waiting k t)
  unfolding add_snd_timeout_waiting add_timeout_waiting
  add_snd_timeout_waiting-Moves s e =
      enters t timed_snd h
        (record k { timeout_waiting_snd = insert_by_timeout k.threads t k.timeout_waiting_snd }) e
        (ground (arith, contains_placed t timed_snd h)) refl refl h.bits
        (record {
          own = λ u. count-insert_by_timeout k.threads t u k.timeout_waiting_snd;
          others = with_snd k _;
        })

  pub add_rcv_timeout_waiting-Moves :
      (k.threads t).state ≡ receive_ipc
      → place t ≡ nowhere
      → Moves k place t timed_rcv (add_rcv_timeout_waiting k t)
  unfolding add_rcv_timeout_waiting add_timeout_waiting
  add_rcv_timeout_waiting-Moves s e =
      enters t timed_rcv h
        (record k { timeout_waiting_rcv = insert_by_timeout k.threads t k.timeout_waiting_rcv }) e
        (ground (arith, contains_placed t timed_rcv h)) refl refl h.bits
        (record {
          own = λ u. count-insert_by_timeout k.threads t u k.timeout_waiting_rcv;
          others = with_rcv k _;
        })

-- Two kernels that differ in the ready list of one priority, and in the bitmap.
module _ (k : Kernel) (prio : ℕ) (l : List ℕ) (b : Bool) where
  abbrev with_ready : Kernel
  with_ready = set_bit (record k { ready_threads = update k.ready_threads prio l }) prio b

  with_ready_others :
      (q : Place) → same_queue (ready_at prio) q ≡ false → queue with_ready q ≡ queue k q
  with_ready_others (ready_at p) d = ground arith
  with_ready_others q d = refl

  with_ready_bits :
      ((p : ℕ) → ready_bit k p ≡ not (is_empty (k.ready_threads p)))
      → b ≡ not (is_empty l)
      → BitsRight with_ready
  with_ready_bits h e p = ground (arith, h p)

not_empty : (t : ℕ) (l : List ℕ) → count t l ≢ 0 → is_empty l ≡ false
unfolding count
not_empty t [] n = absurd (n refl)
not_empty t (x ∷ l) n = refl

is_empty-append_one : (l : List ℕ) (t : ℕ) → is_empty (l ++ t ∷ []) ≡ false
is_empty-append_one [] t = refl
is_empty-append_one (x ∷ l) t = refl

module _ {k : Kernel} {place : ℕ → Place} (t : ℕ) (h : IsPlaced k place) where
  pub add_ready-Moves :
      (k.threads t).prio ≤ prio_max_value
      → place t ≡ nowhere
      → Moves k place t (ready_at (k.threads t).prio) (add_ready k t)
  unfolding add_ready
  add_ready-Moves pr e =
      enters t (ready_at prio) h (with_ready k prio l true) e
        (ground (arith, contains_placed t (ready_at prio) h)) refl refl
        (with_ready_bits k prio l true h.bits (rw (is_empty-append_one (k.ready_threads prio) t)))
        (record {
          own = λ u. ground (arith, count-append_one t u (k.ready_threads prio));
          others = with_ready_others k prio l true;
        })
    where
      prio : ℕ
      prio = (k.threads t).prio

      l : List ℕ
      l = k.ready_threads prio ++ t ∷ []

  -- The list is not empty without the thread: its bit stays.
  shrinks_others :
      (prio : ℕ) (l : List ℕ) (q : Place)
      → same_queue (ready_at prio) q ≡ false
      → queue (record k { ready_threads = update k.ready_threads prio l }) q ≡ queue k q
  shrinks_others prio l (ready_at p) d = ground arith
  shrinks_others prio l q d = refl

  pub del_ready-Moves :
      (k.threads t).prio ≤ prio_max_value
      → place t ≡ ready_at (k.threads t).prio
      → Moves k place t nowhere (del_ready k t)
  unfolding del_ready
  del_ready-Moves pr e = elim (Bool-cases (is_empty l)) [
    | inl empty ↦
        leaves t (ready_at prio) h (with_ready k prio l false) e
          (ground (arith, contains_placed t (ready_at prio) h)) refl refl
          (with_ready_bits k prio l false h.bits (rw empty))
          (record { own = own_ready; others = with_ready_others k prio l false })
    | inr more ↦
        leaves t (ready_at prio) h (record k { ready_threads = update k.ready_threads prio l }) e
          (ground (arith, contains_placed t (ready_at prio) h)) refl refl
          (λ p. ground (arith, h.bits p, held))
          (record { own = own_ready; others = shrinks_others prio l })
  ]
    where
      prio : ℕ
      prio = (k.threads t).prio

      l : List ℕ
      l = remove t (k.ready_threads prio)

      own_ready :
          (u : ℕ)
          → count u (update k.ready_threads prio l prio) ≡ (
              if t == u then count u (k.ready_threads prio) - 1 else count u (k.ready_threads prio))
      own_ready u = ground (arith, count-remove u t (k.ready_threads prio))

      held : is_empty (k.ready_threads prio) ≡ false
      held = not_empty t (k.ready_threads prio) (ground (arith, h.counts t (ready_at prio)))
