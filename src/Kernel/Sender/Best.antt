-- ===== src/Kernel/Sender/Best.antt =====
-- krn/threads.h, class Threads_t: which sender the search finds.
use wrmos.Base.{
  ℕ, ◌≤◌, ◌≡◌, refl, sym, ap, subst, ◌⊎◌, inl, inr, Bool, true, false, ◌&&◌, Option, none, some,
  List, [], ◌∷◌, ltb, if◌then◌else◌, contains, arith, ok, >>=-eq-ok, Bool-cases, eq-cases,
}
use wrmos.Kernel.State.{Kernel}
use wrmos.Kernel.Prio.{prio_max}
use wrmos.Kernel.Sender.{
  Flags, is_addressed, virtual_sender, is_accepted, is_good_sender_for, is_better,
  find_highest_from, choose,
}

-- The thread `u` sends to `rcv`, and the receiver takes what it sends.
abbrev pub IsGoodSender : Kernel → ℕ → ℕ → ℕ → Type 0
IsGoodSender k rcv from_spec u =
    (is_addressed k rcv u ≡ true)
    × (s : ℕ × Bool) × (virtual_sender k rcv u ≡ ok s)
    × (is_accepted k rcv from_spec s.0 ≡ true)

some-eq : {a b : ℕ} → some a ≡ some b → a ≡ b
some-eq e = cc

module _ (k : Kernel) (rcv from_spec : ℕ) where
  pub good-IsGoodSender :
      (u : ℕ) (f : Flags) {f' : Flags}
      → is_good_sender_for k rcv from_spec u f ≡ ok (true, f')
      → IsGoodSender k rcv from_spec u
  unfolding is_good_sender_for
  good-IsGoodSender u f h = ground arith

  IsGoodSender-good :
      (u : ℕ) (f : Flags) {f' : Flags} {b : Bool}
      → IsGoodSender k rcv from_spec u
      → is_good_sender_for k rcv from_spec u f ≡ ok (b, f')
      → b ≡ true
  unfolding is_good_sender_for
  IsGoodSender-good u f (a, s, v, c) h = ground arith

  -- One step of the loop, for the thread `t` and the best thread so far.
  step :
      (t : ℕ) (ts : List ℕ) (res : Option ℕ) (f : Flags) {o : Option ℕ} {f' : Flags}
      → find_highest_from k rcv from_spec (t ∷ ts) res f ≡ ok (o, f')
      → (g : Bool × Flags) × (is_good_sender_for k rcv from_spec t f ≡ ok g)
        × (find_highest_from k rcv from_spec ts
              (if g.0 && is_better k res t then some t else res)
              g.1
            ≡ ok (o, f'))
  unfolding find_highest_from
  step t ts res f h = >>=-eq-ok (is_good_sender_for k rcv from_spec t f) _ h

  -- A thread was found whose priority is at least `p`.
  abbrev pub Reaches : Option ℕ → ℕ → Type 0
  Reaches o p = (t : ℕ) × (o ≡ some t) × (p ≤ prio_max (k.threads t))

  Reaches-step :
      (good : Bool) (res : Option ℕ) (t p : ℕ)
      → Reaches res p
      → Reaches (if good && is_better k res t then some t else res) p
  unfolding is_better
  Reaches-step false res t p r = r
  Reaches-step true none t p (r, e, l) = absurd cc
  Reaches-step true (some q) t p (r, e, l) =
      elim (Bool-cases (ltb (prio_max (k.threads q)) (prio_max (k.threads t)))) [
        | inl b ↦
            rw b
              (t, refl, ground (arith, e, ap (λ (x : ℕ). prio_max (k.threads x)) {x = q} {y = r}))
        | inr b ↦ rw b (r, e, l)
      ]

  -- A good sender is at most as good as the best thread after it.
  Reaches-new :
      (good : Bool) (res : Option ℕ) (t : ℕ)
      → good ≡ true
      → Reaches (if good && is_better k res t then some t else res) (prio_max (k.threads t))
  unfolding is_better
  Reaches-new good none t e = rw e (t, refl, omega arith)
  Reaches-new good (some q) t e =
      elim (Bool-cases (ltb (prio_max (k.threads q)) (prio_max (k.threads t)))) [
        | inl b ↦ rw (e, b) (t, refl, omega arith)
        | inr b ↦ rw (e, b) (q, refl, ground arith)
      ]

  -- The best thread so far is only replaced by a better one.
  find_highest-Reaches :
      (list : List ℕ) (res : Option ℕ) (f : Flags) (p : ℕ) {o : Option ℕ} {f' : Flags}
      → Reaches res p
      → find_highest_from k rcv from_spec list res f ≡ ok (o, f')
      → Reaches o p
  unfolding find_highest_from
  find_highest-Reaches [] res f p (r, e, l) h = (r, cc, l)
  find_highest-Reaches (t ∷ ts) res f p r h =
      let (g, _, next) = step t ts res f h in
      find_highest-Reaches ts _ g.1 p (Reaches-step g.0 res t p r) next

  pub find_highest-best :
      (list : List ℕ) (res : Option ℕ) (f : Flags) (u : ℕ) {o : Option ℕ} {f' : Flags}
      → contains u list ≡ true
      → IsGoodSender k rcv from_spec u
      → find_highest_from k rcv from_spec list res f ≡ ok (o, f')
      → Reaches o (prio_max (k.threads u))
  unfolding contains
  find_highest-best [] res f u c i h = cc
  find_highest-best (t ∷ ts) res f u c i h =
      let (g, now, next) = step t ts res f h in
      elim (eq-cases t u) [
        | inl e ↦
            let good = IsGoodSender-good t f (subst (IsGoodSender k rcv from_spec) (sym e) i) now in
            find_highest-Reaches ts _ g.1 (prio_max (k.threads u))
              (subst
                (λ x.
                  Reaches (if g.0 && is_better k res t then some t else res)
                    (prio_max (k.threads x)))
                e (Reaches-new g.0 res t good))
              next
        | inr ne ↦ find_highest-best ts _ g.1 u (ground arith) i next
      ]

  replaced :
      (x : ℕ) (xs : List ℕ) (res : Option ℕ) (f : Flags) (t : ℕ) (g : Bool × Flags)
      → is_good_sender_for k rcv from_spec x f ≡ ok g
      → (if g.0 && is_better k res x then some x else res) ≡ some t
      → (res ≡ some t) ⊎ ((contains t (x ∷ xs) ≡ true) × IsGoodSender k rcv from_spec t)
  unfolding contains
  replaced x xs res f t (false, g) now e = inl e
  replaced x xs res f t (true, g) now e = elim (Bool-cases (is_better k res x)) [
    | inl b ↦
        let same : x ≡ t = some-eq (rw b at e) in
        inr (ground arith, subst (IsGoodSender k rcv from_spec) same (good-IsGoodSender x f now))
    | inr b ↦ inl (rw b at e)
  ]

  -- What the loop returns is the thread that it started with, or a good sender of the list.
  pub find_highest_sound :
      (list : List ℕ) (res : Option ℕ) (f : Flags) (t : ℕ) {f' : Flags}
      → find_highest_from k rcv from_spec list res f ≡ ok (some t, f')
      → (res ≡ some t) ⊎ ((contains t list ≡ true) × IsGoodSender k rcv from_spec t)
  unfolding find_highest_from contains
  find_highest_sound [] res f t h = inl cc
  find_highest_sound (x ∷ xs) res f t h =
      let (g, now, next) = step x xs res f h in
      elim (find_highest_sound xs _ g.1 t next) [
        | inl e ↦ replaced x xs res f t g now e
        | inr (c, i) ↦ inr (ground arith, i)
      ]

  Reaches-le : (t p : ℕ) → Reaches (some t) p → p ≤ prio_max (k.threads t)
  Reaches-le t p (r, e, l) = subst (λ (x : ℕ). p ≤ prio_max (k.threads x)) (sym (some-eq e)) l

  pub Reaches-choose :
      (a b : Option ℕ × Flags) (p : ℕ) → Reaches a.0 p ⊎ Reaches b.0 p → Reaches (choose k a b).0 p
  unfolding choose
  Reaches-choose (none, f) (none, g) p (inl (t, e, l)) = absurd cc
  Reaches-choose (none, f) (none, g) p (inr (t, e, l)) = absurd cc
  Reaches-choose (some s, f) (none, g) p (inl r) = r
  Reaches-choose (some s, f) (none, g) p (inr (t, e, l)) = absurd cc
  Reaches-choose (none, f) (some t, g) p (inl (s, e, l)) = absurd cc
  Reaches-choose (none, f) (some t, g) p (inr r) = r
  Reaches-choose (some s, f) (some t, g) p h =
      elim (Bool-cases (ltb (prio_max (k.threads s)) (prio_max (k.threads t)))) [
        | inl b ↦ rw b (
          t,
          refl,
          elim h [ inl r ↦ ground (arith, Reaches-le s p r, b) | inr r ↦ Reaches-le t p r ],
        )
        | inr b ↦ rw b (
          s,
          refl,
          elim h [ inl r ↦ Reaches-le s p r | inr r ↦ ground (arith, Reaches-le t p r, b) ],
        )
      ]
