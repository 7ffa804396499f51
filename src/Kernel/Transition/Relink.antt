-- ===== src/Kernel/Transition/Relink.antt =====
-- krn/thread.h: `Thread_t::state(s)` and `Thread_t::prio(v)` move a thread from the list of its old place to the
-- list of its new one.
use wrmos.Base.{
  update, ℕ, ◌≤◌, ◌≡◌, refl, sym, ap, ◌∙◌, subst, fun_ext, eq-cases, ==_refl, inl, inr, Bool, true,
  false, arith, ◌==◌, Bool-cases, Run, ok, ◌>>=◌,
}
use wrmos.Kernel.State.{
  State, ready, send_ipc, send_pfault, send_exception, receive_ipc, Thread, Kernel, never,
  set_thread, prio_max_value,
}
use wrmos.Kernel.Queues.Placed.{Place, sending, timed_snd, timed_rcv, nowhere, IsPlaced}
use wrmos.Kernel.Queues.Moves.{
  Moves, add_ready-Moves, del_ready-Moves, add_send-Moves, del_send-Moves,
  add_snd_timeout_waiting-Moves, del_snd_timeout_waiting-Moves, add_rcv_timeout_waiting-Moves,
  del_rcv_timeout_waiting-Moves,
}
use wrmos.Kernel.Transition.{leave, cleared, enter}
use wrmos.Kernel.Transition.Well.{place_of, IsWell, set_thread-IsPlaced, IsPlaced-ext}

pub leave-Moves :
    (k : Kernel) (t : ℕ) → IsWell k → Moves k (λ u. place_of (k.threads u)) t nowhere (leave k t)
unfolding leave
leave-Moves k t w = go (k.threads t).state ((k.threads t).timeout == never) refl refl
  where
    open w use {placed}

    go :
        (s : State) (forever : Bool)
        → (k.threads t).state ≡ s
        → ((k.threads t).timeout == never) ≡ forever
        → Moves k (λ u. place_of (k.threads u)) t nowhere (leave k t)
    go ready b e f = rw (e, leave) (del_ready-Moves t placed (w.prios t) (ground arith))
    go send_ipc true e f = rw (e, leave, f) (del_send-Moves t placed (ground arith))
    go send_ipc false e f =
        rw (e, leave, f) (del_snd_timeout_waiting-Moves t placed e (ground arith))
    go send_pfault b e f = rw (e, leave) (del_send-Moves t placed (ground arith))
    go send_exception b e f = rw (e, leave) (del_send-Moves t placed (ground arith))
    go receive_ipc false e f =
        rw (e, leave, f) (del_rcv_timeout_waiting-Moves t placed e (ground arith))
    go s b e f = (
      k,
      ground arith,
      refl,
      refl,
      IsPlaced-ext placed (λ u. ground (arith, ap k.threads {x = t} {y = u})),
    )

-- The thread's fields after it has entered the list of its state.
abbrev pub entered : State → Thread → Thread
entered ready th = cleared th
entered s th = th

-- `enter` puts the thread, whose state is set already, to its place.
abbrev pub Enters : Kernel → (ℕ → Place) → ℕ → State → Type 0
Enters k place t s =
    (k' : Kernel) × (enter k t s ≡ ok k')
    × (k'.threads ≡ update k.threads t (entered s (k.threads t)))
    × IsPlaced k' (update place t (place_of (entered s (k.threads t))))

update_self {ℓ} : {A : Type ℓ} (f : ℕ → A) (t : ℕ) → update f t (f t) ≡ f
update_self f t = fun_ext λ u. elim (eq-cases t u) [ inl e ↦ rw (e, ==_refl u) | inr d ↦ rw d ]

-- A move to the right place, of a thread whose fields `enter` leaves alone.
waits :
    (k : Kernel) (place : ℕ → Place) (t : ℕ) (s : State) (p : Place)
    → Moves k place t p (enter k t s)
    → entered s (k.threads t) ≡ k.threads t
    → place_of (k.threads t) ≡ p
    → Enters k place t s
waits k place t s p (k', done, th, cur, pl) same at =
    (k', done, th ∙ rw same (sym (update_self k.threads t)), rw (same, at) pl)

pub enter-Enters :
    (k : Kernel) (place : ℕ → Place) (t : ℕ) (s : State) (forever : Bool)
    → IsPlaced k place
    → place t ≡ nowhere
    → (k.threads t).state ≡ s
    → ((k.threads t).timeout == never) ≡ forever
    → (k.threads t).prio ≤ prio_max_value
    → Enters k place t s
unfolding enter
enter-Enters k place t ready b h e st f pr =
    let (k', done, th, cur, p) =
      add_ready-Moves t (set_thread-IsPlaced t (cleared (k.threads t)) h) (rw (==_refl t) pr) e in
    (k', done, th, subst (λ q. IsPlaced k' (update place t q)) (rw (==_refl t, st)) p)
enter-Enters k place t send_ipc true h e st f pr =
    waits k place t send_ipc sending (rw (enter, f) (add_send-Moves t h e)) refl
      (rw st (ground arith))
enter-Enters k place t send_ipc false h e st f pr =
    waits k place t send_ipc timed_snd (rw (enter, f) (add_snd_timeout_waiting-Moves t h st e)) refl
      (rw st (ground arith))
enter-Enters k place t send_pfault b h e st f pr =
    waits k place t send_pfault sending (add_send-Moves t h e) refl (rw st)
enter-Enters k place t send_exception b h e st f pr =
    waits k place t send_exception sending (add_send-Moves t h e) refl (rw st)
enter-Enters k place t receive_ipc false h e st f pr =
    waits k place t receive_ipc timed_rcv (rw (enter, f) (add_rcv_timeout_waiting-Moves t h st e))
      refl (rw st (ground arith))
enter-Enters k place t s b h e st f pr =
    waits k place t s nowhere
      (k, ground arith, refl, refl, IsPlaced-ext h (λ u. ground (arith, ap place {x = t} {y = u})))
      refl (rw st (ground arith))

-- The thread with its state set, and what entering the list clears.
abbrev pub in_state : State → Thread → Thread
in_state s th = entered s (record th { state = s })

-- The two list moves of `set_state`, in a row.
abbrev pub relink : Kernel → ℕ → State → Run Kernel
relink k t s = leave k t >>= λ k₁. enter (set_thread k₁ t (record (k₁.threads t) { state = s })) t s

abbrev pub Relinks : Kernel → ℕ → State → Type 0
Relinks k t s =
    (k' : Kernel) × (relink k t s ≡ ok k')
    × (k'.threads ≡ update k.threads t (in_state s (k.threads t)))
    × IsWell k'

prio-entered : (s : State) (th : Thread) → (entered s th).prio ≡ th.prio
prio-entered ready th = refl
prio-entered s th = refl

-- The second move, once the first has left `t` in no list.
module _ (k k₁ : Kernel) (t : ℕ) (s : State) (w : IsWell k) (same : k₁.threads ≡ k.threads) where
  abbrev between : Kernel
  between = set_thread k₁ t (record (k₁.threads t) { state = s })

  abbrev place₁ : ℕ → Place
  place₁ = update (λ u. place_of (k.threads u)) t nowhere

  between_thread : between.threads t ≡ record (k.threads t) { state = s }
  between_thread = rw (==_refl t, same)

  entering : IsPlaced k₁ place₁ → Enters between place₁ t s
  entering p =
      enter-Enters between place₁ t s ((k.threads t).timeout == never) (set_thread-IsPlaced t _ p)
        (rw (==_refl t)) (ap (λ (th : Thread). th.state) between_thread) (rw between_thread)
        (subst (λ (th : Thread). th.prio ≤ prio_max_value) (sym between_thread) (w.prios t))

  entered_threads :
      update between.threads t (entered s (between.threads t))
      ≡ update k.threads t (in_state s (k.threads t))
  entered_threads = rw between_thread (fun_ext λ u. ground (arith, same))

  entered_IsWell :
      {k' : Kernel}
      → k'.threads ≡ update k.threads t (in_state s (k.threads t))
      → IsPlaced k' (update place₁ t (place_of (in_state s (k.threads t))))
      → IsWell k'
  entered_IsWell {k'} th p = record {
    placed =
        IsPlaced-ext p (λ u. rw th (elim (Bool-cases (t == u)) [ inl e ↦ rw e | inr e ↦ rw e ]));
    prios = λ u. rw th (elim (Bool-cases (t == u)) [
      | inl e ↦ rw (e, prio-entered s) (w.prios t)
      | inr e ↦ rw e (w.prios u)
    ]);
  }

pub relink-Relinks : (k : Kernel) (t : ℕ) (s : State) → IsWell k → Relinks k t s
relink-Relinks k t s w =
    let (k₁, l, same, _, p) = leave-Moves k t w in
    let (k', e, th, p') = entering k k₁ t s w same p in
    let th' = th ∙ entered_threads k k₁ t s w same in
    (
      k',
      rw (l, ◌>>=◌) e,
      th',
      entered_IsWell k k₁ t s w same th' (rw (between_thread k k₁ t s w same) at p'),
    )
