-- ===== src/Kernel/Transition/Lending.antt =====
-- krn/thread.h: the lists of threads while a priority is lent and taken back.
use wrmos.Base.{ℕ, ◌≡◌, refl, sym, subst, Bool-cases, inl, inr, arith, ok, >>=-eq-ok}
use wrmos.L4.Thrid
use wrmos.Kernel.State.{Kernel, set_thread, find, not_null}
use wrmos.Kernel.Prio.{
  insert_sort, erase_owner, prio_max, inherit_prio_add, inherit_prio_del, return_prio,
}
use wrmos.Kernel.Transition.Well.{IsWell, set_thread-IsWell}

pub inherit_prio_add-eq :
    (k : Kernel) (t owner priority : ℕ) {k' : Kernel}
    → inherit_prio_add k t owner priority ≡ ok k'
    → k'
      ≡ set_thread k t (record (k.threads t) {
        inherited_prios =
            insert_sort (record { owner = owner; prio = priority }) (k.threads t).inherited_prios;
      })
unfolding inherit_prio_add
inherit_prio_add-eq k t owner priority h = ground arith

pub inherit_prio_del-eq :
    (k : Kernel) (t owner priority : ℕ) {k' : Kernel}
    → inherit_prio_del k t owner priority ≡ ok k'
    → k'
      ≡ set_thread k t (record (k.threads t) {
        inherited_prios = erase_owner (k.threads t).inherited_prios owner;
      })
unfolding inherit_prio_del
inherit_prio_del-eq k t owner priority h = ground arith

pub inherit_prio_add-IsWell :
    {k k' : Kernel} (t owner priority : ℕ)
    → IsWell k
    → inherit_prio_add k t owner priority ≡ ok k'
    → IsWell k'
inherit_prio_add-IsWell {k} t owner priority w h =
    subst IsWell (sym (inherit_prio_add-eq k t owner priority h))
      (set_thread-IsWell t _ refl (w.prios t) w)

inherit_prio_del-IsWell :
    {k k' : Kernel} (t owner priority : ℕ)
    → IsWell k
    → inherit_prio_del k t owner priority ≡ ok k'
    → IsWell k'
inherit_prio_del-IsWell {k} t owner priority w h =
    subst IsWell (sym (inherit_prio_del-eq k t owner priority h))
      (set_thread-IsWell t _ refl (w.prios t) w)

-- A thread that has lent no priority has none to take back; else the two entries are cleared.
pub return_prio-IsWell : {k k' : Kernel} (t : ℕ) → IsWell k → return_prio k t ≡ ok k' → IsWell k'
unfolding return_prio
return_prio-IsWell {k} {k'} t w h = elim (Bool-cases (Thrid.is_nil (k.threads t).prio_heir)) [
  | inl e ↦ subst IsWell (ground arith) w
  | inr e ↦
      let (thr, _, h₁) = >>=-eq-ok (find k (k.threads t).prio_heir) _ (rw e at h) in
      let (p, _, h₂) = >>=-eq-ok (not_null thr) _ h₁ in
      let (k₁, d, h₃) =
        >>=-eq-ok (inherit_prio_del k p (k.threads t).globid (prio_max (k.threads t))) _ h₂ in
      let w₁ = inherit_prio_del-IsWell p (k.threads t).globid (prio_max (k.threads t)) w d in
      subst IsWell {x = set_thread k₁ t (record (k₁.threads t) { prio_heir = Thrid.nil })}
        (ground arith) (set_thread-IsWell t _ refl (w₁.prios t) w₁)
]

pub return_prio-nil :
    (k : Kernel) (t : ℕ) → (k.threads t).prio_heir ≡ Thrid.nil → return_prio k t ≡ ok k
unfolding return_prio
return_prio-nil k t e = rw (return_prio, e)
