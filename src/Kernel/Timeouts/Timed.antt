-- ===== src/Kernel/Timeouts/Timed.antt =====
-- krn/thread.h, krn/threads.h: the order of the lists of the waiting threads over `Thread_t::state(s)`.
use wrmos.Base.{
  update, ℕ, ◌≡◌, refl, sym, ap, ◌∙◌, subst, inl, inr, ◌⊎◌, true, false, List, arith, ◌==◌,
  Bool-cases, contains, contains-count, remove, ok, ok-eq, >>=-eq-ok,
}
use wrmos.L4.Thrid
use wrmos.Kernel.State.{State, ready, is, Thread, Kernel, set_thread, find, not_null}
use wrmos.Kernel.Prio.{prio_max, inherit_prio_del, return_prio}
use wrmos.Kernel.Queues.{
  insert_by_timeout, add_ready, del_ready, add_send, del_send, add_timeout_waiting,
  del_timeout_waiting, add_rcv_timeout_waiting, add_snd_timeout_waiting, del_rcv_timeout_waiting,
  del_snd_timeout_waiting,
}
use wrmos.Kernel.Queues.Placed.{timed_snd, timed_rcv}
use wrmos.Kernel.Transition.{leave, enter, set_state}
use wrmos.Kernel.Transition.Well.{IsWell}
use wrmos.Kernel.Transition.Lending.{inherit_prio_del-eq}
use wrmos.Kernel.Transition.Relink.{leave-Moves, relink, relink-Relinks}
use wrmos.Kernel.Transition.Keeps.{set_state-eq, stops}
use wrmos.Kernel.Timeouts.Sorted.{
  IsSorted, IsSorted-ext, remove-IsSorted, insert_by_timeout-IsSorted,
}

-- Both lists of waiting threads are ordered.
pub record IsTimely (k : Kernel) : Type 0 where
  pub snd : IsSorted k.threads k.timeout_waiting_snd
  pub rcv : IsSorted k.threads k.timeout_waiting_rcv

-- A list that an operation has left alone, or taken `t` from.
abbrev IsShrunk : ℕ → List ℕ → List ℕ → Type 0
IsShrunk t l l' = (l' ≡ l) ⊎ (l' ≡ remove t l)

leave-shrinks :
    (k k₁ : Kernel) (t : ℕ)
    → leave k t ≡ ok k₁
    → IsShrunk t k.timeout_waiting_snd k₁.timeout_waiting_snd
      × IsShrunk t k.timeout_waiting_rcv k₁.timeout_waiting_rcv
unfolding leave del_ready del_send del_snd_timeout_waiting del_rcv_timeout_waiting
    del_timeout_waiting
leave-shrinks k k₁ t h = ground arith

-- A list that an operation has left alone, or put `t` into.
abbrev IsGrown : (ℕ → Thread) → ℕ → List ℕ → List ℕ → Type 0
IsGrown th t l l' = (l' ≡ l) ⊎ (l' ≡ insert_by_timeout th t l)

enter-grows :
    (k k₁ : Kernel) (t : ℕ) (s : State)
    → enter k t s ≡ ok k₁
    → IsGrown k.threads t k.timeout_waiting_snd k₁.timeout_waiting_snd
      × IsGrown k.threads t k.timeout_waiting_rcv k₁.timeout_waiting_rcv
unfolding enter add_ready add_send add_snd_timeout_waiting add_rcv_timeout_waiting
    add_timeout_waiting
enter-grows k k₁ t s h = ground arith

shrunk-IsSorted :
    (th : ℕ → Thread) (t : ℕ) (l l' : List ℕ) → IsShrunk t l l' → IsSorted th l → IsSorted th l'
shrunk-IsSorted th t l l' (inl e) s = rw e s
shrunk-IsSorted th t l l' (inr e) s = rw e (remove-IsSorted th t l s)

grown-IsSorted :
    (th : ℕ → Thread) (t : ℕ) (l l' : List ℕ) → IsGrown th t l l' → IsSorted th l → IsSorted th l'
grown-IsSorted th t l l' (inl e) s = rw e s
grown-IsSorted th t l l' (inr e) s = rw e (insert_by_timeout-IsSorted th t l s)

-- A thread outside a list may change as it will.
outside-IsSorted :
    (f g : ℕ → Thread) (t : ℕ) (l : List ℕ)
    → contains t l ≡ false
    → ((u : ℕ) → (t == u) ≡ false → f u ≡ g u)
    → IsSorted f l
    → IsSorted g l
outside-IsSorted f g t l out e = IsSorted-ext f g l (λ u h. elim (Bool-cases (t == u)) [
  | inl d ↦ ground (arith, ap (λ (v : ℕ). contains v l) {x = t} {y = u})
  | inr d ↦ ap (λ (th : Thread). th.timeout) (e u d)
])

-- A thread that has left its list is in none.
leave-out :
    (k k₁ : Kernel) (t : ℕ)
    → IsWell k
    → leave k t ≡ ok k₁
    → (k₁.threads ≡ k.threads)
      × (contains t k₁.timeout_waiting_snd ≡ false)
      × (contains t k₁.timeout_waiting_rcv ≡ false)
leave-out k k₁ t w h =
    let (k', e, same, _, p) = leave-Moves k t w in
    let d : k' ≡ k₁ = ok-eq (sym e ∙ h) in
    subst
      (λ (x : Kernel).
        (x.threads ≡ k.threads)
        × (contains t x.timeout_waiting_snd ≡ false)
        × (contains t x.timeout_waiting_rcv ≡ false))
      d
      (
        same,
        ground (arith, contains-count t k'.timeout_waiting_snd, p.counts t timed_snd),
        ground (arith, contains-count t k'.timeout_waiting_rcv, p.counts t timed_rcv),
      )

enter-others :
    (k k₁ : Kernel) (t : ℕ) (s : State) (u : ℕ)
    → enter k t s ≡ ok k₁
    → (t == u) ≡ false
    → k₁.threads u ≡ k.threads u
unfolding enter add_ready add_send add_snd_timeout_waiting add_rcv_timeout_waiting
    add_timeout_waiting
enter-others k k₁ t s u h d = ground arith

enter-ready :
    (k k₁ : Kernel) (t : ℕ) (s : State)
    → enter k t s ≡ ok k₁
    → is s ready ≡ true
    → (k₁.timeout_waiting_snd ≡ k.timeout_waiting_snd)
      × (k₁.timeout_waiting_rcv ≡ k.timeout_waiting_rcv)
unfolding enter add_ready
enter-ready k k₁ t s h e = ground arith

enter-same :
    (k k₁ : Kernel) (t : ℕ) (s : State)
    → enter k t s ≡ ok k₁
    → is s ready ≡ false
    → k₁.threads ≡ k.threads
unfolding enter add_ready add_send add_snd_timeout_waiting add_rcv_timeout_waiting
    add_timeout_waiting
enter-same k k₁ t s h e = ground arith

enter-IsTimely :
    (k k₁ : Kernel) (t : ℕ) (s : State)
    → contains t k.timeout_waiting_snd ≡ false
    → contains t k.timeout_waiting_rcv ≡ false
    → IsTimely k
    → enter k t s ≡ ok k₁
    → IsTimely k₁
enter-IsTimely k k₁ t s os or y h = elim (Bool-cases (is s ready)) [
  | inl e ↦
      let (a, b) = enter-ready k k₁ t s h e in
      record {
        snd = rw a (
            outside-IsSorted k.threads k₁.threads t _ os (λ u d. sym (enter-others k k₁ t s u h d))
              y.snd);
        rcv = rw b (
            outside-IsSorted k.threads k₁.threads t _ or (λ u d. sym (enter-others k k₁ t s u h d))
              y.rcv);
      }
  | inr e ↦
      let (a, b) = enter-grows k k₁ t s h in
      record {
        snd = rw (enter-same k k₁ t s h e) (grown-IsSorted k.threads t _ _ a y.snd);
        rcv = rw (enter-same k k₁ t s h e) (grown-IsSorted k.threads t _ _ b y.rcv);
      }
]

relink-IsTimely :
    (k k₂ : Kernel) (t : ℕ) (s : State) → IsWell k → IsTimely k → relink k t s ≡ ok k₂ → IsTimely k₂
relink-IsTimely k k₂ t s w y h =
    let (k₁, l, f) = >>=-eq-ok (leave k t) _ h in
    let (same, os, or) = leave-out k k₁ t w l in
    let (a, b) = leave-shrinks k k₁ t l in
    let b' = set_thread k₁ t (record (k₁.threads t) { state = s }) in
    enter-IsTimely b' k₂ t s os or
      (record {
        snd =
            outside-IsSorted k.threads b'.threads t _ os (λ u d. ground (arith, same))
              (shrunk-IsSorted k.threads t _ _ a y.snd);
        rcv =
            outside-IsSorted k.threads b'.threads t _ or (λ u d. ground (arith, same))
              (shrunk-IsSorted k.threads t _ _ b y.rcv);
      })
      f

-- A change of a thread that leaves its timeout alone.
pub set_thread-IsTimely :
    {k : Kernel} (t : ℕ) (th : Thread)
    → th.timeout ≡ (k.threads t).timeout
    → IsTimely k
    → IsTimely (set_thread k t th)
set_thread-IsTimely {k} t th e y = record {
  snd =
      IsSorted-ext k.threads (update k.threads t th) k.timeout_waiting_snd
        (λ u _. ground (arith, ap k.threads {x = t} {y = u})) y.snd;
  rcv =
      IsSorted-ext k.threads (update k.threads t th) k.timeout_waiting_rcv
        (λ u _. ground (arith, ap k.threads {x = t} {y = u})) y.rcv;
}

pub return_prio-IsTimely :
    (k k' : Kernel) (t : ℕ) → IsTimely k → return_prio k t ≡ ok k' → IsTimely k'
unfolding return_prio
return_prio-IsTimely k k' t y h = elim (Bool-cases (Thrid.is_nil (k.threads t).prio_heir)) [
  | inl e ↦ subst IsTimely (ok-eq (rw e at h)) y
  | inr e ↦
      let (thr, _, h₁) = >>=-eq-ok (find k (k.threads t).prio_heir) _ (rw e at h) in
      let (p, _, h₂) = >>=-eq-ok (not_null thr) _ h₁ in
      let (k₁, d, h₃) =
        >>=-eq-ok (inherit_prio_del k p (k.threads t).globid (prio_max (k.threads t))) _ h₂ in
      subst IsTimely (ok-eq h₃) (
        set_thread-IsTimely t _ refl (
          subst IsTimely
            (sym (inherit_prio_del-eq k p (k.threads t).globid (prio_max (k.threads t)) d))
            (set_thread-IsTimely p _ refl y)))
]

-- A change of a thread's state keeps the two lists of waiting threads in the order of the times at
-- which the threads stop waiting, whatever the states are, if the kernel does not stop.
pub set_state-IsTimely :
    (k k' : Kernel) (t : ℕ) (s : State)
    → IsWell k
    → IsTimely k
    → set_state k t s ≡ ok k'
    → IsTimely k'
set_state-IsTimely k k' t s w y h = elim (Bool-cases (is (k.threads t).state s)) [
  | inl e ↦ absurd (stops k k' t s e h)
  | inr e ↦
      let (k₂, r, _, w₂) = relink-Relinks k t s w in
      return_prio-IsTimely k₂ k' t (relink-IsTimely k k₂ t s w y r)
        (sym (set_state-eq k t s e r) ∙ h)
]
