-- ===== src/Kernel/Syscalls/Spaces/Areas.antt =====
-- krn/syscalls.cpp: where `syscall_space_control` lets the areas of a task be.
use wrmos.Base.{
  update, ℕ, ◌+◌, ◌%◌, ◌^◌, ◌≤◌, ◌<◌, ◌≡◌, refl, sym, ap, ◌∙◌, inl, inr, ◌⊎◌, Bool, true, false,
  not, Option, none, some, arith, ◌==◌, if◌then◌else◌, Bool-cases, ==_refl, ok, ◌/◌, ok-eq,
  >>=-eq-ok, ◌>>=◌, wassert, Ensures, returns, Ensures-if, Ensures-skip, Ensures-ok,
}
use wrmos.L4.Thrid
use wrmos.L4.Fpage
use wrmos.L4.Fpage.Ranges.{is_aligned-multiple}
use wrmos.Containers.Bitmap.{init}
use wrmos.Kernel.State.{Task, Kernel}
use wrmos.Kernel.Task.{page_sz, set_task, is_empty, active_threads, set_kip_area, set_utcb_area}
use wrmos.Kernel.Syscalls.Frame.{reg, set_result, set_error, is_privileged}
use wrmos.Kernel.Syscalls.Spaces.{
  acc_rw, acc_rx, find_space, is_bad_utcb_area, is_bad_kip_area, set_redirector, configure_space,
  syscall_space_control,
}

-- No address lies in both pages.
abbrev pub IsApart : ℕ → ℕ → Type 0
IsApart p q =
    (a : ℕ)
    → Fpage.addr p ≤ a
    → a < Fpage.addr p + Fpage.size p
    → Fpage.addr q ≤ a
    → a < Fpage.addr q + Fpage.size q
    → ⊥

-- The areas of a task that has been given them. Pages that reach the end of the address space may meet.
pub record Areas (t : Task) : Type 0 where
  pub kip_whole : Fpage.addr t.kip_area % page_sz ≡ 0
  pub kip_page : Fpage.size t.kip_area ≡ page_sz
  pub kip_access : Fpage.access t.kip_area ≡ acc_rx
  pub utcb_whole : Fpage.addr t.utcb_area % page_sz ≡ 0
  pub utcb_pages : Fpage.size t.utcb_area % page_sz ≡ 0
  pub utcb_access : Fpage.bit_and 32 (Fpage.access t.utcb_area) acc_rw ≡ acc_rw
  pub apart :
      Fpage.addr t.kip_area + Fpage.size t.kip_area < 2 ^ 32
      → Fpage.addr t.utcb_area + Fpage.size t.utcb_area < 2 ^ 32
      → IsApart t.kip_area t.utcb_area

-- Each task has no areas, or areas as they should be.
abbrev pub IsLaidOut : Kernel → Type 0
IsLaidOut k = (t : ℕ) → ((k.tasks t).utcb_area ≡ Fpage.nil) ⊎ Areas (k.tasks t)

is_aligned-page : (n : ℕ) → Fpage.is_aligned n page_sz ≡ true → n % page_sz ≡ 0
is_aligned-page n h = (is_aligned-multiple 12 n page_sz (omega arith) (omega arith) refl h).0

is_cross-IsApart :
    (p q : ℕ)
    → Fpage.is_cross p q ≡ false
    → Fpage.addr p + Fpage.size p < 2 ^ 32
    → Fpage.addr q + Fpage.size q < 2 ^ 32
    → IsApart p q
unfolding Fpage.is_cross Fpage.end
is_cross-IsApart p q e hp hq a b c d f = ground arith

checked-Areas :
    (t : Task)
    → is_bad_utcb_area t.utcb_area ≡ false
    → is_bad_kip_area t.kip_area t.utcb_area ≡ false
    → Areas t
unfolding is_bad_utcb_area is_bad_kip_area
checked-Areas t u k = record {
  kip_whole = is_aligned-page (Fpage.addr t.kip_area) (ground arith);
  kip_page = ground arith;
  kip_access = ground arith;
  utcb_whole = is_aligned-page (Fpage.addr t.utcb_area) (ground arith);
  utcb_pages = is_aligned-page (Fpage.size t.utcb_area) (ground arith);
  utcb_access = ground arith;
  apart = λ hp hq. is_cross-IsApart t.kip_area t.utcb_area (ground arith) hp hq;
}

same-Areas :
    (t t' : Task) → t'.kip_area ≡ t.kip_area → t'.utcb_area ≡ t.utcb_area → Areas t → Areas t'
same-Areas t t' e f a = record {
  kip_whole = rw e a.kip_whole;
  kip_page = rw e a.kip_page;
  kip_access = rw e a.kip_access;
  utcb_whole = rw f a.utcb_whole;
  utcb_pages = rw f a.utcb_pages;
  utcb_access = rw f a.utcb_access;
  apart = rw (e, f) a.apart;
}

-- A task that is as it should be is put in the place of another.
set_task-IsLaidOut :
    (k : Kernel) (t : ℕ) (task : Task)
    → (task.utcb_area ≡ Fpage.nil) ⊎ Areas task
    → IsLaidOut k
    → IsLaidOut (set_task k t task)
set_task-IsLaidOut k t task a l u = elim (Bool-cases (t == u)) [
  | inl e ↦ rw e a
  | inr e ↦ rw e (l u)
]

set_redirector-IsLaidOut :
    (k : Kernel) (cur tsk r : ℕ) → IsLaidOut k → IsLaidOut (set_redirector k cur tsk r)
unfolding set_redirector
set_redirector-IsLaidOut k cur tsk r l = go (Thrid.is_nil r)
  where
    moved :
        (b : ((k.tasks tsk).utcb_area ≡ Fpage.nil) ⊎ Areas (k.tasks tsk))
        → ((k.tasks tsk).utcb_area ≡ Fpage.nil) ⊎ Areas (record (k.tasks tsk) { redirector = r })
    moved (inl e) = inl e
    moved (inr a) =
        inr (same-Areas (k.tasks tsk) (record (k.tasks tsk) { redirector = r }) refl refl a)

    go :
        (b : Bool)
        → IsLaidOut (
            set_result
              (if not b then set_task k tsk (record (k.tasks tsk) { redirector = r }) else k)
              cur
              1)
    go true = l
    go false = set_task-IsLaidOut k tsk (record (k.tasks tsk) { redirector = r }) (moved (l tsk)) l

set_kip_area-tasks :
    (k k' : Kernel) (t fpage : ℕ)
    → set_kip_area k t fpage ≡ ok k'
    → k'.tasks ≡ update k.tasks t (record (k.tasks t) { kip_area = fpage })
unfolding set_kip_area
set_kip_area-tasks k k' t fpage h =
    let (_, _, h₁) = >>=-eq-ok (wassert (is_empty (k.tasks t))) _ h in
    let (_, _, h₂) = >>=-eq-ok (wassert (not (fpage == Fpage.nil))) _ h₁ in
    ap (λ (x : Kernel). x.tasks) (sym (ok-eq h₂))

-- The task with its UTCB area.
abbrev with_utcbs : Task → ℕ → Task
with_utcbs task fpage = record task {
  utcb_area = fpage;
  utcbs_bitmap = (init 64 task.utcbs_bitmap (Fpage.size fpage / page_sz)).0;
}

set_utcb_area-tasks :
    (k k' : Kernel) (t fpage : ℕ)
    → set_utcb_area k t fpage ≡ ok k'
    → k'.tasks ≡ update k.tasks t (with_utcbs (k.tasks t) fpage)
unfolding set_utcb_area
set_utcb_area-tasks k k' t fpage h =
    let (_, _, h₁) = >>=-eq-ok (wassert (is_empty (k.tasks t))) _ h in
    ap (λ (x : Kernel). x.tasks) (sym (ok-eq h₁))

-- Both areas are written.
written-IsLaidOut :
    (k k₁ k₂ : Kernel) (tsk kip utcb : ℕ)
    → is_bad_utcb_area utcb ≡ false
    → is_bad_kip_area kip utcb ≡ false
    → IsLaidOut k
    → k₁.tasks ≡ update k.tasks tsk (record (k.tasks tsk) { kip_area = kip })
    → k₂.tasks ≡ update k₁.tasks tsk (with_utcbs (k₁.tasks tsk) utcb)
    → IsLaidOut k₂
written-IsLaidOut k k₁ k₂ tsk kip utcb u b l e f t = elim (Bool-cases (tsk == t)) [
  | inl d ↦
      let at₁ : (k₁.tasks tsk).kip_area ≡ kip =
        ap (λ (g : ℕ → Task). (g tsk).kip_area) e ∙ rw (==_refl tsk) refl in
      let at₂ : k₂.tasks t ≡ with_utcbs (k₁.tasks tsk) utcb =
        ap (λ (g : ℕ → Task). g t) f ∙ rw d refl in
      rw at₂ (inr (checked-Areas (with_utcbs (k₁.tasks tsk) utcb) u (rw at₁ b)))
  | inr d ↦
      let same : k₂.tasks t ≡ k.tasks t =
        ap (λ (g : ℕ → Task). g t) f ∙ rw d (ap (λ (g : ℕ → Task). g t) e ∙ rw d refl) in
      rw same (l t)
]

assign-IsLaidOut :
    (k : Kernel) (cur tsk kip utcb r : ℕ)
    → is_bad_utcb_area utcb ≡ false
    → is_bad_kip_area kip utcb ≡ false
    → IsLaidOut k
    → Ensures IsLaidOut (
        set_kip_area k tsk kip >>= λ k₁.
        set_utcb_area k₁ tsk utcb >>= λ k₂. ok (set_redirector k₂ cur tsk r))
assign-IsLaidOut k cur tsk kip utcb r u b l =
    Ensures-skip IsLaidOut (set_kip_area k tsk kip) λ k₁ e₁.
      Ensures-skip IsLaidOut (set_utcb_area k₁ tsk utcb) λ k₂ e₂. returns _ (
        set_redirector-IsLaidOut k₂ cur tsk r (
          written-IsLaidOut k k₁ k₂ tsk kip utcb u b l (set_kip_area-tasks k k₁ tsk kip e₁)
            (set_utcb_area-tasks k₁ k₂ tsk utcb e₂)))

configure-IsLaidOut :
    (k : Kernel) (cur tsk kip utcb r : ℕ)
    → IsLaidOut k
    → Ensures IsLaidOut (configure_space k cur tsk kip utcb r)
unfolding configure_space
configure-IsLaidOut k cur tsk kip utcb r l =
    Ensures-if IsLaidOut (active_threads (k.tasks tsk))
      (returns _ (set_redirector-IsLaidOut k cur tsk r l))
      (elim (Bool-cases (is_bad_utcb_area utcb)) [
        | inl e ↦ rw e (returns _ l)
        | inr e ↦ rw e (elim (Bool-cases (is_bad_kip_area kip utcb)) [
          | inl f ↦ rw f (returns _ l)
          | inr f ↦ rw f (assign-IsLaidOut k cur tsk kip utcb r e f l)
        ])
      ])

-- Over a call of `syscall_space_control` that returns, every task keeps to this: it has no UTCB area, or its
-- kernel interface page is one readable and executable page and its UTCB area whole pages that can be read
-- and written, and no address is in both unless one of them reaches the end of the address space.
pub space_control-IsLaidOut :
    (k k' : Kernel) (cur : ℕ) → IsLaidOut k → syscall_space_control k cur ≡ ok k' → IsLaidOut k'
unfolding syscall_space_control
space_control-IsLaidOut k k' cur l h = Ensures-ok IsLaidOut (syscall_space_control k cur) whole h
  where
    go :
        (thr : Option ℕ)
        → Ensures IsLaidOut (elim thr [
          | none ↦ ok (set_error (set_result k cur 0) cur 3)
          | some t ↦
              if ((set_result k cur 0).threads t).task == 0
              then ok (set_error (set_result k cur 0) cur 3)
              else configure_space
                  (set_result k cur 0)
                  cur
                  ((set_result k cur 0).threads t).task
                  (reg (k.threads cur) 2)
                  (reg (k.threads cur) 3)
                  (reg (k.threads cur) 4)
        ])
    go none = returns _ l
    go (some t) = Ensures-if IsLaidOut (((set_result k cur 0).threads t).task == 0) (returns _ l) (
        configure-IsLaidOut (set_result k cur 0) cur ((set_result k cur 0).threads t).task
          (reg (k.threads cur) 2) (reg (k.threads cur) 3) (reg (k.threads cur) 4) l)

    whole : Ensures IsLaidOut (syscall_space_control k cur)
    whole = Ensures-if IsLaidOut (not (is_privileged (k.threads cur).globid)) (returns _ l) (
        Ensures-skip IsLaidOut (find_space (set_result k cur 0) cur (reg (k.threads cur) 0))
          (λ thr _. go thr))
