-- ===== src/Kernel/Transition/Keeps.antt =====
-- krn/thread.h: the lists of threads over `Thread_t::state(s)` and `Thread_t::prio(v)`.
use wrmos.Base.{
  update, ℕ, ◌≤◌, ◌≡◌, refl, sym, ap, ◌∙◌, ==_refl, inl, inr, Bool, true, false, arith, ◌==◌,
  Bool-cases, ok, ◌>>=◌, >>=-eq-ok,
}
use wrmos.L4.Thrid
use wrmos.Kernel.State.{State, ready, is, Thread, Kernel, set_thread, prio_max_value}
use wrmos.Kernel.Prio.{return_prio}
use wrmos.Kernel.Queues.{add_ready, del_ready}
use wrmos.Kernel.Queues.Placed.{ready_at, nowhere, IsPlaced}
use wrmos.Kernel.Queues.Moves.{add_ready-Moves, del_ready-Moves}
use wrmos.Kernel.Transition.{leave, set_state, set_prio}
use wrmos.Kernel.Transition.Well.{
  place_for, place_of, IsWell, set_thread-IsPlaced, set_thread-IsWell, IsPlaced-ext,
}
use wrmos.Kernel.Transition.Lending.{return_prio-IsWell, return_prio-nil}
use wrmos.Kernel.Transition.Relink.{in_state, relink, relink-Relinks}

heir-in_state : (s : State) (th : Thread) → (in_state s th).prio_heir ≡ th.prio_heir
heir-in_state ready th = refl
heir-in_state s th = refl

-- `set_state` is its assert, the two moves and `return_prio`.
pub set_state-eq :
    (k : Kernel) (t : ℕ) (s : State) {k' : Kernel}
    → is (k.threads t).state s ≡ false
    → relink k t s ≡ ok k'
    → set_state k t s ≡ return_prio k' t
unfolding set_state
set_state-eq k t s d e =
    let (k₁, l, f) = >>=-eq-ok (leave k t) _ e in rw (d, l, ◌>>=◌) (rw (f, ◌>>=◌))

-- The assert refuses the state that the thread is in.
pub stops :
    (k k' : Kernel) (t : ℕ) (s : State)
    → is (k.threads t).state s ≡ true
    → set_state k t s ≡ ok k'
    → ⊥
unfolding set_state
stops k k' t s e h = ground arith

-- A change of a thread's state keeps the lists in agreement with the states, whatever the state and
-- the timeout of the thread were, if the kernel does not stop.
pub set_state-IsWell :
    (k k' : Kernel) (t : ℕ) (s : State) → IsWell k → set_state k t s ≡ ok k' → IsWell k'
set_state-IsWell k k' t s w h = elim (Bool-cases (is (k.threads t).state s)) [
  | inl e ↦ absurd (stops k k' t s e h)
  | inr e ↦
      let (k₂, r, _, w₂) = relink-Relinks k t s w in
      return_prio-IsWell t w₂ (sym (set_state-eq k t s e r) ∙ h)
]

-- The thread `t` has come to the state `s`, and nothing else has changed but the lists.
abbrev pub Arrives : Kernel → ℕ → State → Type 0
Arrives k t s =
    (k' : Kernel) × (set_state k t s ≡ ok k')
    × (k'.threads ≡ update k.threads t (in_state s (k.threads t)))
    × IsWell k'

-- To a state that is new to it, a thread that has lent its priority to nobody always comes: no assert
-- of the lists fails, the thread's own fields are the ones of its new state, the other threads are as
-- they were, and the lists agree with the states.
pub set_state_total :
    (k : Kernel) (t : ℕ) (s : State)
    → IsWell k
    → is (k.threads t).state s ≡ false
    → (k.threads t).prio_heir ≡ Thrid.nil
    → Arrives k t s
set_state_total k t s w d heir =
    let (k₂, r, th, w₂) = relink-Relinks k t s w in
    (
      k₂,
      set_state-eq k t s d r
          ∙ return_prio-nil k₂ t (
              ap (λ (f : ℕ → Thread). (f t).prio_heir) th
              ∙ rw (==_refl t) (heir-in_state s (k.threads t) ∙ heir)),
      th,
      w₂,
    )

place_for-prio :
    (s : State) (p q : ℕ) (forever : Bool)
    → is s ready ≡ false
    → place_for s p forever ≡ place_for s q forever
place_for-prio s p q forever d = ground arith

-- The priority of a thread is changed.
abbrev pub Reprioritises : Kernel → ℕ → ℕ → Type 0
Reprioritises k t v =
    (k' : Kernel) × (set_prio k t v ≡ ok k')
    × (k'.threads ≡ update k.threads t (record (k.threads t) { prio = v }))
    × IsWell k'

-- The ready thread is taken out of its list, and put into the list of the new priority.
module _ (k k₁ : Kernel) (t v : ℕ) (w : IsWell k) (small : v ≤ prio_max_value)
    (same : k₁.threads ≡ k.threads) where
  abbrev relisted : Kernel
  relisted = set_thread k₁ t (record (k₁.threads t) { prio = v })

  relisted_thread : relisted.threads t ≡ record (k.threads t) { prio = v }
  relisted_thread = rw (==_refl t, same)

  relisted_threads : relisted.threads ≡ update k.threads t (record (k.threads t) { prio = v })
  relisted_threads = rw same

  relisted_IsWell :
      {k' : Kernel}
      → (k.threads t).state ≡ ready
      → k'.threads ≡ relisted.threads
      → IsPlaced k' (update (update (λ u. place_of (k.threads u)) t nowhere) t (ready_at v))
      → IsWell k'
  relisted_IsWell {k'} e th p = record {
    placed = IsPlaced-ext p (λ u.
        rw (th ∙ relisted_threads)
          (elim (Bool-cases (t == u)) [ inl d ↦ rw (d, e) | inr d ↦ rw d ]));
    prios = λ u.
        rw (th ∙ relisted_threads)
          (elim (Bool-cases (t == u)) [ inl d ↦ rw d small | inr d ↦ rw d (w.prios u) ]);
  }

set_prio-eq :
    (k k₁ k' : Kernel) (t v : ℕ)
    → (k.threads t).state ≡ ready
    → del_ready k t ≡ ok k₁
    → k₁.threads ≡ k.threads
    → add_ready (set_thread k₁ t (record (k₁.threads t) { prio = v })) t ≡ ok k'
    → set_prio k t v ≡ ok k'
unfolding set_prio
set_prio-eq k k₁ k' t v e d same a = ground (arith, ap (λ (f : ℕ → Thread). f t) same)

ready_Reprioritises :
    (k : Kernel) (t v : ℕ)
    → IsWell k
    → v ≤ prio_max_value
    → (k.threads t).state ≡ ready
    → Reprioritises k t v
ready_Reprioritises k t v w small e =
    let (k₁, d, same, _, p₁) = del_ready-Moves t w.placed (w.prios t) (rw e) in
    let th₂ = relisted_thread k k₁ t v w small same in
    let (k', a, th, _, p') =
      add_ready-Moves {k = relisted k k₁ t v w small same} t (set_thread-IsPlaced t _ p₁)
        (rw th₂ small) (rw (==_refl t)) in
    (
      k',
      set_prio-eq k k₁ k' t v e d same a,
      th ∙ relisted_threads k k₁ t v w small same,
      relisted_IsWell k k₁ t v w small same e th (rw th₂ at p'),
    )

-- A change of a thread's priority always ends: no assert of the ready lists fails, only the priority
-- of that thread changes, and the lists agree with the states.
pub set_prio_total : (k : Kernel) (t v : ℕ) → IsWell k → v ≤ prio_max_value → Reprioritises k t v
unfolding set_prio
set_prio_total k t v w small = elim (Bool-cases (is (k.threads t).state ready)) [
  | inl e ↦ ready_Reprioritises k t v w small (ground arith)
  | inr e ↦ (
    set_thread k t (record (k.threads t) { prio = v }),
    rw e (rw (==_refl t, e)),
    refl,
    set_thread-IsWell t _ (place_for-prio (k.threads t).state v (k.threads t).prio _ e) small w,
  )
]
