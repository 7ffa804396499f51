-- ===== src/Kernel/Sender/Found.antt =====
-- krn/threads.h, class Threads_t: the thread that `find_sender` gives to a receiver.
use wrmos.Base.{
  ok-eq, ℕ, ◌≡◌, sym, ◌∙◌, subst, inl, inr, true, ◌||◌, Option, none, ◌++◌, contains,
  contains-append, arith, ok, >>=-eq-ok, Bool-cases,
}
use wrmos.Kernel.State.{Kernel, find}
use wrmos.Kernel.Prio.{prio_max}
use wrmos.Kernel.Sender.{
  Flags, no_flags, find_highest_from, find_highest_prio_sender, choose, find_sender,
}
use wrmos.Kernel.Sender.Best.{IsGoodSender, Reaches, find_highest-best, Reaches-choose}

-- The search for any thread chooses between what the two lists give.
find_sender-any :
    (k : Kernel) (rcv from_spec : ℕ) {r : Option ℕ × Flags}
    → find k from_spec ≡ ok none
    → find_sender k rcv from_spec ≡ ok r
    → (a : Option ℕ × Flags) × (b : Option ℕ × Flags) × (find_highest_from k rcv from_spec
          k.timeout_waiting_snd none no_flags
        ≡ ok a)
      × (find_highest_from k rcv from_spec k.send_threads none no_flags ≡ ok b)
      × (choose k a b ≡ r)
unfolding find_sender find_highest_prio_sender
find_sender-any k rcv from_spec n h =
    let (a, e₁, h₁) =
      >>=-eq-ok (find_highest_from k rcv from_spec k.timeout_waiting_snd none no_flags) _
        (rw n at h) in
    let (b, e₂, h₂) =
      >>=-eq-ok (find_highest_from k rcv from_spec k.send_threads none no_flags) _ h₁ in
    (a, b, e₁, e₂, ok-eq h₂)

-- Where the receiver names no existing thread, the search that does not stop the kernel finds a best one
-- of the two lists of senders: if a thread of a list sends to the receiver and the receiver accepts it,
-- then a thread is found, and its priority is not lower, inherited priorities included.
pub find_sender-best :
    (k : Kernel) (rcv from_spec u : ℕ) {o : Option ℕ} {f : Flags}
    → find k from_spec ≡ ok none
    → find_sender k rcv from_spec ≡ ok (o, f)
    → contains u (k.timeout_waiting_snd ++ k.send_threads) ≡ true
    → IsGoodSender k rcv from_spec u
    → Reaches k rcv from_spec o (prio_max (k.threads u))
find_sender-best k rcv from_spec u n h c i =
    let (a, b, e₁, e₂, e) = find_sender-any k rcv from_spec n h in
    let either : (contains u k.timeout_waiting_snd || contains u k.send_threads) ≡ true =
      sym (contains-append u k.timeout_waiting_snd k.send_threads) ∙ c in
    subst (λ (x : Option ℕ × Flags). Reaches k rcv from_spec x.0 (prio_max (k.threads u))) e
      (Reaches-choose k rcv from_spec a b (prio_max (k.threads u))
        (elim (Bool-cases (contains u k.timeout_waiting_snd)) [
          | inl t ↦
              inl (find_highest-best k rcv from_spec k.timeout_waiting_snd none no_flags u t i e₁)
          | inr t ↦
              inr (
                find_highest-best k rcv from_spec k.send_threads none no_flags u (ground arith) i
                  e₂)
        ]))
