-- ===== src/Kernel/Timeouts/Expired.antt =====
-- krn/threads.h: the check of the timeouts, from the lists in order to the threads that it wakes.
use wrmos.Base.{
  ℕ, ◌≡◌, refl, sym, ap, ◌∙◌, inl, inr, ◌⊎◌, ◌≢◌, Bool, true, false, ◌&&◌, ◌||◌, Option, none, some,
  List, [], ◌∷◌, arith, leb, if◌then◌else◌, if-both, Bool-cases, contains, contains-count, ok,
  ◌>>=◌,
}
use wrmos.L4.Thrid
use wrmos.Kernel.State.{State, send_ipc, receive_ipc, is, Thread, Kernel}
use wrmos.Kernel.Queues.Placed.{timed_snd, timed_rcv}
use wrmos.Kernel.Transition.{is_timed}
use wrmos.Kernel.Transition.Well.{IsWell}
use wrmos.Kernel.Timeouts.{expire_list, pick_next, check_ipc_timeouts}
use wrmos.Kernel.Timeouts.Wakes.{woken, wake_all, wake_all_lem, IsOnce}
use wrmos.Kernel.Timeouts.Pass.{first_due, Expires, expire_list-Expires}
use wrmos.Kernel.Timeouts.Sorted.{IsSorted, All-contains}
use wrmos.Kernel.Timeouts.Timed.{IsTimely}

-- The thread waits for IPC, and the time that it would wait till has come.
abbrev pub is_expired : ℕ → Thread → Bool
is_expired now th =
    (is th.state send_ipc || is th.state receive_ipc) && is_timed th && leb th.timeout now

-- The check ends. Exactly the threads whose wait has expired have been woken, the kernel is in order, and
-- the thread that the check gives back is one that has expired; it gives none just when there is none.
abbrev pub WakesExpired : Kernel → ℕ → Type 0
WakesExpired k now =
    (k' : Kernel) × (next : Option ℕ) × (check_ipc_timeouts k now ≡ ok (k', next))
    × ((u : ℕ)
        → k'.threads u
          ≡ (if is_expired now (k.threads u) then woken (k.threads u) else k.threads u))
    × ((u : ℕ) → is_expired now (k.threads u) ≡ true → next ≢ none)
    × ((u : ℕ) → next ≡ some u → is_expired now (k.threads u) ≡ true)
    × IsWell k'
    × IsTimely k'

placed_snd :
    (k : Kernel) (u : ℕ)
    → IsWell k
    → contains u k.timeout_waiting_snd ≡ (is (k.threads u).state send_ipc && is_timed (k.threads u))
placed_snd k u w = go (k.threads u).state refl
  where
    go :
        (s : State)
        → (k.threads u).state ≡ s
        → contains u k.timeout_waiting_snd
          ≡ (is (k.threads u).state send_ipc && is_timed (k.threads u))
    go s e = ground (arith, contains-count u k.timeout_waiting_snd, w.placed.counts u timed_snd)

placed_rcv :
    (k : Kernel) (u : ℕ)
    → IsWell k
    → contains u k.timeout_waiting_rcv
      ≡ (is (k.threads u).state receive_ipc && is_timed (k.threads u))
placed_rcv k u w =
    ground (arith, contains-count u k.timeout_waiting_rcv, w.placed.counts u timed_rcv)

IsOnce-snd : (k : Kernel) → IsWell k → IsOnce k.timeout_waiting_snd
IsOnce-snd k w u = ground (arith, w.placed.counts u timed_snd)

IsOnce-rcv : (k : Kernel) → IsWell k → IsOnce k.timeout_waiting_rcv
IsOnce-rcv k w u = ground (arith, w.placed.counts u timed_rcv)

first_due-none :
    (now : ℕ) (th : ℕ → Thread) (l : List ℕ) (u : ℕ)
    → IsSorted th l
    → first_due now th l none ≡ none
    → contains u l ≡ true
    → leb (th u).timeout now ≡ false
unfolding contains
first_due-none now th [] u s e h = cc
first_due-none now th (t ∷ ts) u (p, s) e h =
    ground (arith, All-contains th (th t).timeout u ts p, ap th {x = t} {y = u})

first_due-some :
    (now : ℕ) (th : ℕ → Thread) (l : List ℕ) (u : ℕ)
    → first_due now th l none ≡ some u
    → (contains u l ≡ true) × (leb (th u).timeout now ≡ true)
unfolding contains
first_due-some now th [] u e = cc
first_due-some now th (t ∷ ts) u e = ground (arith, ap th {x = t} {y = u})

pick_next-cases : (k : Kernel) (a b : Option ℕ) → (pick_next k a b ≡ a) ⊎ (pick_next k a b ≡ b)
unfolding pick_next
pick_next-cases k none b = inr refl
pick_next-cases k (some a) none = inl refl
pick_next-cases k (some a) (some b) =
    if-both (λ (n : ℕ). (some n ≡ some a) ⊎ (some n ≡ some b)) _ (inl refl) (inr refl)

pick_next-none : (k : Kernel) (a b : Option ℕ) → pick_next k a b ≡ none → (a ≡ none) × (b ≡ none)
unfolding pick_next
pick_next-none k none b e = (refl, e)
pick_next-none k (some a) none e = cc
pick_next-none k (some a) (some b) e = cc

-- What one pass does to the threads, read from their own fields.
module _ (k k' : Kernel) (now : ℕ) (w : IsWell k) (y : IsTimely k) where
  after_snd :
      (u : ℕ)
      → k'.threads ≡ wake_all now k.timeout_waiting_snd k.threads
      → k'.threads u ≡ (
          if is (k.threads u).state send_ipc
            && is_timed (k.threads u)
            && leb (k.threads u).timeout now
          then woken (k.threads u)
          else k.threads u)
  after_snd u e =
      ap (λ (f : ℕ → Thread). f u) e
      ∙ wake_all_lem now k.timeout_waiting_snd k.threads u y.snd (IsOnce-snd k w)
      ∙ ground (arith, placed_snd k u w)

  after_rcv :
      (u : ℕ)
      → k'.threads ≡ wake_all now k.timeout_waiting_rcv k.threads
      → k'.threads u ≡ (
          if is (k.threads u).state receive_ipc
            && is_timed (k.threads u)
            && leb (k.threads u).timeout now
          then woken (k.threads u)
          else k.threads u)
  after_rcv u e =
      ap (λ (f : ℕ → Thread). f u) e
      ∙ wake_all_lem now k.timeout_waiting_rcv k.threads u y.rcv (IsOnce-rcv k w)
      ∙ ground (arith, placed_rcv k u w)

-- The two passes together.
both_passes :
    (now : ℕ) (a b c : Thread)
    → b ≡ (if is a.state send_ipc && is_timed a && leb a.timeout now then woken a else a)
    → c ≡ (if is b.state receive_ipc && is_timed b && leb b.timeout now then woken b else b)
    → c ≡ (if is_expired now a then woken a else a)
both_passes now a b c p q = ground arith

-- A thread of the second list is as it was before the first pass.
second_same :
    (now : ℕ) (a b : Thread)
    → b ≡ (if is a.state send_ipc && is_timed a && leb a.timeout now then woken a else a)
    → (is b.state receive_ipc && is_timed b) ≡ true
    → b ≡ a
second_same now a b p q = ground arith

check_ipc_timeouts-eq :
    (k k₁ k₂ : Kernel) (now : ℕ) (a b : Option ℕ)
    → expire_list k now k.timeout_waiting_snd none ≡ ok (k₁, a)
    → expire_list k₁ now k₁.timeout_waiting_rcv none ≡ ok (k₂, b)
    → check_ipc_timeouts k now ≡ ok (k₂, pick_next k₂ a b)
unfolding check_ipc_timeouts
check_ipc_timeouts-eq k k₁ k₂ now a b p q = rw (p, ◌>>=◌) (rw (q, ◌>>=◌))

module _ (k k₁ k₂ : Kernel) (now : ℕ) (w : IsWell k) (y : IsTimely k) (w₁ : IsWell k₁)
    (y₁ : IsTimely k₁) (t₁ : k₁.threads ≡ wake_all now k.timeout_waiting_snd k.threads) where
  abbrev chosen : Option ℕ
  chosen =
      pick_next k₂ (first_due now k.threads k.timeout_waiting_snd none)
        (first_due now k₁.threads k₁.timeout_waiting_rcv none)

  same_rcv : (u : ℕ) → contains u k₁.timeout_waiting_rcv ≡ true → k₁.threads u ≡ k.threads u
  same_rcv u h =
      second_same now (k.threads u) (k₁.threads u) (after_snd k k₁ now w y u t₁)
        (sym (placed_rcv k₁ u w₁) ∙ h)

  chosen-some : (u : ℕ) → chosen ≡ some u → is_expired now (k.threads u) ≡ true
  chosen-some u e =
      elim (pick_next-cases k₂ (first_due now k.threads k.timeout_waiting_snd none)
        (first_due now k₁.threads k₁.timeout_waiting_rcv none)) [
          | inl c ↦
              let (h, d) = first_due-some now k.threads k.timeout_waiting_snd u (sym c ∙ e) in
              ground (arith, placed_snd k u w)
          | inr c ↦
              let (h, d) = first_due-some now k₁.threads k₁.timeout_waiting_rcv u (sym c ∙ e) in
              ground (arith, placed_rcv k₁ u w₁, same_rcv u h)
        ]

  chosen-none : (u : ℕ) → is_expired now (k.threads u) ≡ true → chosen ≢ none
  chosen-none u x e =
      let (e₁, e₂) =
        pick_next-none k₂ (first_due now k.threads k.timeout_waiting_snd none)
          (first_due now k₁.threads k₁.timeout_waiting_rcv none) e in
      elim (Bool-cases (is (k.threads u).state send_ipc)) [
        | inl s ↦ absurd (
            ground (
              arith,
              placed_snd k u w,
              first_due-none now k.threads k.timeout_waiting_snd u y.snd e₁,
            ))
        | inr s ↦ absurd (
            ground (
              arith,
              placed_rcv k₁ u w₁,
              after_snd k k₁ now w y u t₁,
              first_due-none now k₁.threads k₁.timeout_waiting_rcv u y₁.rcv e₂,
            ))
      ]

  passes-WakeExpired :
      expire_list k now k.timeout_waiting_snd none
        ≡ ok (k₁, first_due now k.threads k.timeout_waiting_snd none)
      → expire_list k₁ now k₁.timeout_waiting_rcv none
        ≡ ok (k₂, first_due now k₁.threads k₁.timeout_waiting_rcv none)
      → k₂.threads ≡ wake_all now k₁.timeout_waiting_rcv k₁.threads
      → IsWell k₂
      → IsTimely k₂
      → WakesExpired k now
  passes-WakeExpired e₁ e₂ t₂ w₂ y₂ = (
    k₂,
    chosen,
    check_ipc_timeouts-eq k k₁ k₂ now _ _ e₁ e₂,
    (λ u.
        both_passes now (k.threads u) (k₁.threads u) (k₂.threads u) (after_snd k k₁ now w y u t₁)
          (after_rcv k₁ k₂ now w₁ y₁ u t₂)),
    chosen-none,
    chosen-some,
    w₂,
    y₂,
  )

first_pass :
    (k : Kernel) (now : ℕ)
    → IsWell k
    → IsTimely k
    → ((u : ℕ) → is_expired now (k.threads u) ≡ true → (k.threads u).prio_heir ≡ Thrid.nil)
    → Expires k now k.timeout_waiting_snd none
first_pass k now w y heirs =
    expire_list-Expires k now k.timeout_waiting_snd none w y (IsOnce-snd k w)
      (λ u h. (ground (arith, placed_snd k u w), λ d. heirs u (ground (arith, placed_snd k u w))))

module _ (k k₁ : Kernel) (now : ℕ) (w : IsWell k) (y : IsTimely k) (w₁ : IsWell k₁)
    (y₁ : IsTimely k₁) (t₁ : k₁.threads ≡ wake_all now k.timeout_waiting_snd k.threads) where
  second_pass :
      ((u : ℕ) → is_expired now (k.threads u) ≡ true → (k.threads u).prio_heir ≡ Thrid.nil)
      → Expires k₁ now k₁.timeout_waiting_rcv none
  second_pass heirs =
      expire_list-Expires k₁ now k₁.timeout_waiting_rcv none w₁ y₁ (IsOnce-rcv k₁ w₁) (λ u h. (
        ground (arith, placed_rcv k₁ u w₁),
        λ d. ground (arith, same_rcv k k₁ k₁ now w y w₁ y₁ t₁ u h, placed_rcv k₁ u w₁, heirs u),
      ))

-- The check of the timeouts always ends where the threads whose wait has expired have lent their
-- priority to nobody, and the lists agree with the states and are in order: exactly the waiting threads
-- whose time has come are woken, with the error of their phase and the tag marked as failed; no other
-- thread changes; the thread given back is one of them, and there is one as soon as any has expired;
-- the lists agree with the states and are in order afterwards.
pub check_ipc_timeouts-WakesExpired :
    (k : Kernel) (now : ℕ)
    → IsWell k
    → IsTimely k
    → ((u : ℕ) → is_expired now (k.threads u) ≡ true → (k.threads u).prio_heir ≡ Thrid.nil)
    → WakesExpired k now
check_ipc_timeouts-WakesExpired k now w y heirs =
    let (k₁, e₁, t₁, w₁, y₁) = first_pass k now w y heirs in
    let (k₂, e₂, t₂, w₂, y₂) = second_pass k k₁ now w y w₁ y₁ t₁ heirs in
    passes-WakeExpired k k₁ k₂ now w y w₁ y₁ t₁ e₁ e₂ t₂ w₂ y₂
