-- ===== src/Kernel/Timeouts/Wakes.antt =====
-- krn/threads.h: what the check of the timeouts does to the threads, as one function on all of them.
use wrmos.Base.{
  update, ℕ, ◌≤◌, ◌≡◌, refl, ap, ◌∙◌, inl, inr, false, ◌&&◌, List, [], ◌∷◌, arith, ◌==◌, ltb, leb,
  if◌then◌else◌, Bool-cases, contains, count, contains-count,
}
use wrmos.Kernel.State.{ready, Thread}
use wrmos.Kernel.Transition.Relink.{in_state}
use wrmos.Kernel.Timeouts.{timed_out}
use wrmos.Kernel.Timeouts.Sorted.{IsSorted, IsSorted-ext, All-contains}

-- The thread is ready again, and its operation has failed.
abbrev pub woken : Thread → Thread
woken th = in_state ready (timed_out th)

-- The loop, on the threads alone.
unfoldable pub wake_all : ℕ → List ℕ → (ℕ → Thread) → ℕ → Thread
wake_all now [] th = th
wake_all now (t ∷ ts) th =
    if ltb now (th t).timeout then th else wake_all now ts (update th t (woken (th t)))

wake_all_out :
    (now : ℕ) (l : List ℕ) (th : ℕ → Thread) (u : ℕ)
    → contains u l ≡ false
    → wake_all now l th u ≡ th u
unfolding wake_all contains
wake_all_out now [] th u h = refl
wake_all_out now (t ∷ ts) th u h = elim (Bool-cases (ltb now (th t).timeout)) [
  | inl e ↦ rw e
  | inr e ↦ rw e (wake_all_out now ts (update th t (woken (th t))) u (ground arith) ∙ ground arith)
]

-- No thread stands twice in the list.
abbrev pub IsOnce : List ℕ → Type 0
IsOnce l = (u : ℕ) → count u l ≤ 1

module _ (now : ℕ) (th : ℕ → Thread) (t : ℕ) (ts : List ℕ) (once : IsOnce (t ∷ ts)) where
  pub IsOnce-out : contains t ts ≡ false
  unfolding count
  IsOnce-out = ground (arith, once t, contains-count t ts)

  pub IsOnce-tail : IsOnce ts
  unfolding count
  IsOnce-tail u = ground (arith, once u)

  IsSorted-update : IsSorted th (t ∷ ts) → IsSorted (update th t (woken (th t))) ts
  IsSorted-update (p, s) =
      IsSorted-ext th (update th t (woken (th t))) ts (λ u h. ground (arith, IsOnce-out)) s

-- Of an ordered list, the threads are woken whose time has come, and no others.
pub wake_all_lem :
    (now : ℕ) (l : List ℕ) (th : ℕ → Thread) (u : ℕ)
    → IsSorted th l
    → IsOnce l
    → wake_all now l th u ≡ (if contains u l && leb (th u).timeout now then woken (th u) else th u)
unfolding wake_all contains
wake_all_lem now [] th u s once = refl
wake_all_lem now (t ∷ ts) th u (p, s) once = elim (Bool-cases (ltb now (th t).timeout)) [
  | inl e ↦ rw e (ground (arith, All-contains th (th t).timeout u ts p, ap th {x = t} {y = u}))
  | inr e ↦ rw e (elim (Bool-cases (t == u)) [
    | inl d ↦
        wake_all_out now ts (update th t (woken (th t))) u (
          ground
            (arith, IsOnce-out now th t ts once, ap (λ (v : ℕ). contains v ts) {x = t} {y = u}))
        ∙ ground (arith, ap th {x = t} {y = u})
    | inr d ↦
        wake_all_lem now ts (update th t (woken (th t))) u (IsSorted-update now th t ts once (p, s))
          (IsOnce-tail now th t ts once)
        ∙ rw d
  ])
]
