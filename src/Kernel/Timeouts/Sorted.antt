-- ===== src/Kernel/Timeouts/Sorted.antt =====
-- krn/threads.h: the lists of the waiting threads are ordered by the time at which the wait ends.
use wrmos.Base.{ℕ, ◌≤◌, ◌≡◌, ap, true, List, [], ◌∷◌, arith, All, contains, remove}
use wrmos.Kernel.State.{Thread}
use wrmos.Kernel.Queues.{insert_by_timeout}

-- Nobody in the list expires before a thread that stands before it.
abbrev pub IsSorted : (ℕ → Thread) → List ℕ → Type 0
IsSorted th [] = Unit
IsSorted th (x ∷ xs) = All (λ y. (th x).timeout ≤ (th y).timeout) xs × IsSorted th xs

All-weaken :
    (th : ℕ → Thread) (a b : ℕ) (l : List ℕ)
    → a ≤ b
    → All (λ y. b ≤ (th y).timeout) l
    → All (λ y. a ≤ (th y).timeout) l
All-weaken th a b [] h all = tt
All-weaken th a b (x ∷ l) h (p, all) = (omega arith, All-weaken th a b l h all)

All-insert :
    (th : ℕ → Thread) (a t : ℕ) (l : List ℕ)
    → a ≤ (th t).timeout
    → All (λ y. a ≤ (th y).timeout) l
    → All (λ y. a ≤ (th y).timeout) (insert_by_timeout th t l)
unfolding insert_by_timeout
All-insert th a t [] h all = (h, tt)
All-insert th a t (x ∷ l) h (p, all) = ground (arith, All-insert th a t l h all)

-- A new thread finds its place in the order.
pub insert_by_timeout-IsSorted :
    (th : ℕ → Thread) (t : ℕ) (l : List ℕ) → IsSorted th l → IsSorted th (insert_by_timeout th t l)
unfolding insert_by_timeout
insert_by_timeout-IsSorted th t [] s = (tt, tt)
insert_by_timeout-IsSorted th t (x ∷ l) (p, s) = ground (
  arith,
  insert_by_timeout-IsSorted th t l s,
  All-weaken th (th t).timeout (th x).timeout l,
  All-insert th (th x).timeout t l,
)

All-remove :
    (th : ℕ → Thread) (a t : ℕ) (l : List ℕ)
    → All (λ y. a ≤ (th y).timeout) l
    → All (λ y. a ≤ (th y).timeout) (remove t l)
unfolding remove
All-remove th a t [] all = tt
All-remove th a t (x ∷ l) (p, all) = ground (arith, All-remove th a t l all)

pub remove-IsSorted :
    (th : ℕ → Thread) (t : ℕ) (l : List ℕ) → IsSorted th l → IsSorted th (remove t l)
unfolding remove
remove-IsSorted th t [] s = tt
remove-IsSorted th t (x ∷ l) (p, s) =
    ground (arith, All-remove th (th x).timeout t l p, remove-IsSorted th t l s)

pub All-contains :
    (th : ℕ → Thread) (a u : ℕ) (l : List ℕ)
    → All (λ y. a ≤ (th y).timeout) l
    → contains u l ≡ true
    → a ≤ (th u).timeout
unfolding contains
All-contains th a u [] all h = cc
All-contains th a u (x ∷ l) (p, all) h =
    ground (arith, All-contains th a u l all, ap th {x = x} {y = u})

-- The order speaks of the threads of the list only.
All-ext :
    (f g : ℕ → Thread) (a : ℕ) (l : List ℕ)
    → ((u : ℕ) → contains u l ≡ true → (f u).timeout ≡ (g u).timeout)
    → All (λ y. a ≤ (f y).timeout) l
    → All (λ y. a ≤ (g y).timeout) l
unfolding contains
All-ext f g a [] e all = tt
All-ext f g a (x ∷ l) e (p, all) =
    (ground (arith, e x), All-ext f g a l (λ u h. e u (ground arith)) all)

pub IsSorted-ext :
    (f g : ℕ → Thread) (l : List ℕ)
    → ((u : ℕ) → contains u l ≡ true → (f u).timeout ≡ (g u).timeout)
    → IsSorted f l
    → IsSorted g l
unfolding contains
IsSorted-ext f g [] e s = tt
IsSorted-ext f g (x ∷ l) e (p, s) = (
  All-weaken g (g x).timeout (f x).timeout l (ground (arith, e x))
      (All-ext f g (f x).timeout l (λ u h. e u (ground arith)) p),
  IsSorted-ext f g l (λ u h. e u (ground arith)) s,
)
