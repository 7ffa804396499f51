-- ===== src/Kernel/Ipc/Keeps/Replies.antt =====
-- krn/ipc.cpp: the lists of threads over a reply to a fault and the other messages that the kernel handles
-- itself, and the state of the sender.
use wrmos.Base.{
  ℕ, ◌%◌, ◌-◌, ◌≡◌, refl, subst, inl, inr, Bool, not, ◌&&◌, ◌||◌, ◌==◌, ltb, if◌then◌else◌,
  Bool-cases, if-both, ok, panic, ok-eq, >>=-eq-ok, wassert,
}
use wrmos.L4.Thrid
use wrmos.L4.Fpage
use wrmos.Kernel.State.{
  active, ready, receive_ipc, is, Kernel, Call, ints_max, eoi, clear_irq, unmask_irq, map_page,
  unmap_page, find, not_null,
}
use wrmos.Kernel.Transition.{set_state}
use wrmos.Kernel.Transition.Well.{IsWell}
use wrmos.Kernel.Ipc.Faults.{process_pfault, process_exception}
use wrmos.Kernel.Ipc.Send.{
  Env, Sent, returned, proceeds, switched, call, reenable_interrupt, define_pager, start, resume,
  map_reply, map_reply_again, mmu_exception, bit_or, item_type, pf_reply, trigger_sw_irq,
}
use wrmos.Kernel.Ipc.Keeps.{IsRunning, edit-IsRunning, elsewhere-IsRunning, set_ready-IsRunning}
use wrmos.Kernel.Ipc.Keeps.Faults.{process_pfault-IsWell, process_exception-IsWell}

-- How a phase may end for the sender `cur`.
abbrev pub IsSent : ℕ → Sent → Type 0
IsSent cur (returned k) = IsRunning k cur
IsSent cur (proceeds k partner) = IsRunning k cur
IsSent cur (switched k point) = IsWell k

pub not_panic {ℓ} : {A : Type ℓ} {a : A} → panic ≡ ok a → ⊥
not_panic e = cc

call-IsRunning : {k : Kernel} {cur : ℕ} (c : Call) → IsRunning k cur → IsRunning (call k c) cur
call-IsRunning {k} c r = elsewhere-IsRunning k.int_threads _ r

pub resume-IsSent :
    {k : Kernel} {cur : ℕ} (dst : ℕ) {s : Sent}
    → IsRunning k cur
    → resume k dst ≡ ok s
    → IsSent cur s
unfolding resume
resume-IsSent {k} {cur} dst r h =
    let (k₁, e₁, h₁) = >>=-eq-ok (set_state k dst ready) _ h in
    let (_, _, h₂) = >>=-eq-ok (wassert (Thrid.is_nil (k₁.threads dst).prio_heir)) _ h₁ in
    subst (IsSent cur) (ok-eq h₂) (set_ready-IsRunning dst r e₁)

define_pager-IsRunning :
    {k k' : Kernel} {cur : ℕ} (t : ℕ)
    → IsRunning k cur
    → define_pager k t ≡ ok k'
    → IsRunning k' cur
unfolding define_pager
define_pager-IsRunning {k} {k'} {cur} t r h =
    let (_, _, h₁) = >>=-eq-ok (wassert (not (Thrid.is_nil (k.threads t).pagerid))) _ h in
    let (_, _, h₂) = >>=-eq-ok (wassert (not (Thrid.is_nil (k.threads t).schedid))) _ h₁ in
    let (p, _, h₃) = >>=-eq-ok (find k (k.threads t).pagerid) _ h₂ in
    let (s, _, h₄) = >>=-eq-ok (find k (k.threads t).schedid) _ h₃ in
    let (pager, _, h₅) = >>=-eq-ok (not_null p) _ h₄ in
    let (sched, _, h₆) = >>=-eq-ok (not_null s) _ h₅ in
    subst (λ (x : Kernel). IsRunning x cur) (ok-eq h₆) (edit-IsRunning t _ refl refl refl r)

pub start-IsRunning :
    {k k' : Kernel} {cur : ℕ} (t ip sp : ℕ)
    → IsRunning k cur
    → start k t ip sp ≡ ok k'
    → IsRunning k' cur
unfolding start
start-IsRunning {k} {k'} {cur} t ip sp r h =
    let (_, _, h₁) = >>=-eq-ok (wassert (is (k.threads t).state active)) _ h in
    let (k₁, e, h₂) = >>=-eq-ok (if t == 1 then ok k else define_pager k t) _ h₁ in
    let linked : IsRunning k₁ cur = elim (Bool-cases (t == 1)) [
      | inl one ↦ subst (λ (x : Kernel). IsRunning x cur) (ok-eq (rw one at e)) r
      | inr other ↦ define_pager-IsRunning t r (rw other at e)
    ] in
    let (_, _, h₃) = >>=-eq-ok (wassert (not ((k₁.threads t).localid == 0))) _ h₂ in
    let (_, _, h₄) = >>=-eq-ok (wassert (not (ip == 0))) _ h₃ in
    set_ready-IsRunning t (call-IsRunning _ linked) h₄

pub trigger_sw_irq-IsSent :
    {k : Kernel} {cur : ℕ} (dst : ℕ) {s : Sent}
    → IsRunning k cur
    → trigger_sw_irq k cur dst ≡ ok s
    → IsSent cur s
unfolding trigger_sw_irq
trigger_sw_irq-IsSent {k} {cur} dst r h =
    let (_, _, h₁) = >>=-eq-ok (wassert (not (cur == dst))) _ h in
    elim (Bool-cases (
      is (k.threads dst).state receive_ipc
      && (k.threads dst).ipc_from_spec == (k.threads dst).globid)) [
        | inl e ↦
            let (k₁, e₁, h₂) = >>=-eq-ok (set_state _ dst ready) _ (rw e at h₁) in
            subst (IsSent cur) (ok-eq h₂)
              (set_ready-IsRunning dst (edit-IsRunning dst _ refl refl refl r) e₁)
        | inr e ↦ subst (IsSent cur) (ok-eq (rw e at h₁)) (edit-IsRunning dst _ refl refl refl r)
      ]

pub reenable_interrupt-IsSent :
    (env : Env) {k : Kernel} {cur : ℕ} (tag to : ℕ)
    → IsRunning k cur
    → IsSent cur (reenable_interrupt env k cur tag to)
unfolding reenable_interrupt
reenable_interrupt-IsSent env {k} {cur} tag to r =
    let served = call-IsRunning (eoi (Thrid.number to)) r in
    let cleared =
      if-both (λ (x : Kernel). IsRunning x cur) ((k.threads cur).mr 1 % 2 == 1)
        (call-IsRunning (clear_irq (Thrid.number to)) served) served in
    if-both (IsSent cur)
      (not (ltb (Thrid.number to) ints_max)
        || not ((k.threads cur).globid == (k.int_threads (Thrid.number to)).handler))
      (edit-IsRunning cur _ refl refl refl r)
      (if-both (IsSent cur) (env.is_pending _ (Thrid.number to)) (elsewhere-IsRunning _ _ cleared)
        (call-IsRunning (unmask_irq (Thrid.number to)) cleared))

map_reply-IsSent :
    (env : Env) {k : Kernel} {cur : ℕ} (dst fpage : ℕ) {s : Sent}
    → IsRunning k cur
    → map_reply env k cur dst fpage ≡ ok s
    → IsSent cur s
unfolding map_reply
map_reply-IsSent env {k} {cur} dst fpage r h =
    let pa : ℕ = env.walk k.calls (k.threads cur).task (Fpage.addr fpage) (Fpage.size fpage) in
    let (_, _, h₁) = >>=-eq-ok (wassert (not (pa == 0))) _ h in
    let (_, _, h₂) = >>=-eq-ok (wassert (not (cur == 1) || pa == Fpage.addr fpage)) _ h₁ in
    let va : ℕ = (k.threads dst).pf_addr - (k.threads dst).pf_addr % 4096 in
    let mapped =
      call-IsRunning (map_page (k.threads dst).task va pa (Fpage.size fpage) (Fpage.access fpage))
        r in
    let unmap : Call = unmap_page (k.threads dst).task (Fpage.addr fpage) (Fpage.size fpage) in
    resume-IsSent dst
      (if-both (λ (x : Kernel). IsRunning x cur) (item_type ((k.threads cur).mr 1) == 5)
        (call-IsRunning unmap mapped) mapped)
      h₂

pub map_reply_again-IsSent :
    (env : Env) {k : Kernel} {cur : ℕ} (dst fpage : ℕ) {s : Sent}
    → IsRunning k cur
    → map_reply_again env k cur dst fpage ≡ ok s
    → IsSent cur s
unfolding map_reply_again
map_reply_again-IsSent env {k} {cur} dst fpage r h =
    elim (Bool-cases (env.is_inside_acc k.calls (k.threads cur).task fpage)) [
      | inl e ↦ map_reply-IsSent env dst fpage r (rw e at h)
      | inr e ↦ absurd (not_panic (rw e at h))
    ]

set_ioperm-IsSent :
    {k : Kernel} {cur : ℕ} (dst : ℕ) (b : Bool) (to_dst from_cur : Call) {s : Sent}
    → IsRunning k cur
    → resume (if b then call (call k to_dst) from_cur else call k to_dst) dst ≡ ok s
    → IsSent cur s
set_ioperm-IsSent {k} {cur} dst b to_dst from_cur r h =
    resume-IsSent dst
      (if-both (λ (x : Kernel). IsRunning x cur) b
        (call-IsRunning from_cur (call-IsRunning to_dst r)) (call-IsRunning to_dst r))
      h

pub pf_reply-IsSent :
    (env : Env) {k : Kernel} {cur : ℕ} (now dst : ℕ) {s : Sent}
    → IsRunning k cur
    → pf_reply env k now cur dst ≡ ok s
    → IsSent cur s
unfolding pf_reply
pf_reply-IsSent env {k} {cur} now dst r h =
    let item : ℕ = item_type ((k.threads cur).mr 1) in
    let fpage : ℕ = (k.threads cur).mr 2 in
    let (_, _, h₁) = >>=-eq-ok (wassert (item == 4 || item == 5)) _ h in
    elim (Bool-cases (Fpage.is_complete fpage)) [
      | inl e ↦
          let fault = bit_or (k.threads dst).pf_addr (k.threads dst).pf_access in
          let (k₁, e₁, h₂) =
            >>=-eq-ok (process_exception k now dst mmu_exception fault) _ (rw e at h₁) in
          subst (IsSent cur) (ok-eq h₂)
            (process_exception-IsWell k k₁ now dst mmu_exception fault r.well e₁)
      | inr e ↦ elim (Bool-cases (Fpage.is_io fpage)) [
        | inl io ↦
            let (_, _, h₂) =
              >>=-eq-ok
                (wassert (
                  env.is_ioperm k.calls (k.threads cur).task (Fpage.io_port fpage)
                    (Fpage.io_size fpage)))
                _ (rw (e, io) at h₁) in
            set_ioperm-IsSent dst (item == 5) _ _ r h₂
        | inr memory ↦ elim (Bool-cases (fpage == Fpage.nil)) [
          | inl empty ↦ resume-IsSent dst r (rw (e, memory, empty) at h₁)
          | inr page ↦ elim (Bool-cases (env.is_inside_acc k.calls (k.threads cur).task fpage)) [
            | inl inside ↦ map_reply-IsSent env dst fpage r (rw (e, memory, page, inside) at h₁)
            | inr alien ↦
                let (k₁, e₁, h₂) =
                  >>=-eq-ok
                    (process_pfault k now cur (Fpage.addr fpage) (Fpage.access fpage)
                      (Fpage.addr fpage))
                    _ (rw (e, memory, page, alien) at h₁) in
                subst (IsSent cur) (ok-eq h₂) (
                  process_pfault-IsWell k k₁ now cur (Fpage.addr fpage) (Fpage.access fpage)
                    (Fpage.addr fpage) r.well e₁)
          ]
        ]
      ]
    ]
