-- ===== src/Kernel/Prio.antt =====
-- krn/thread.h: inherited priorities. A thread that waits for another lends it its priority.
use wrmos.Base.{
  ℕ, true, false, not, Option, none, some, List, [], ◌∷◌, ◌==◌, ltb, length, max, if◌then◌else◌,
  Run, ok, ◌>>=◌, ◌>>◌, wassert,
}
use wrmos.L4.Thrid
use wrmos.Kernel.State.{InheritedPrio, Thread, Kernel, set_thread, find, not_null}

-- The capacity of `inhprios_t`.
abbrev pub inherited_max : ℕ
inherited_max = 2

-- `inherit_prio_find`: the first entry of an owner.
unfoldable pub inherit_prio_find : List InheritedPrio → ℕ → Option InheritedPrio
inherit_prio_find [] owner = none
inherit_prio_find (e ∷ es) owner = if e.owner == owner then some e else inherit_prio_find es owner

-- `list_t::insert_sort`: before the first entry that is not smaller, or at the end.
unfoldable pub insert_sort : InheritedPrio → List InheritedPrio → List InheritedPrio
insert_sort v [] = v ∷ []
insert_sort v (e ∷ es) = if not (ltb e.prio v.prio) then v ∷ e ∷ es else e ∷ insert_sort v es

-- `list_t::erase` of the entry that `inherit_prio_find` has found.
unfoldable pub erase_owner : List InheritedPrio → ℕ → List InheritedPrio
erase_owner [] owner = []
erase_owner (e ∷ es) owner = if e.owner == owner then es else e ∷ erase_owner es owner

-- `_inherited_prios.back().prio`.
unfoldable pub back_prio : InheritedPrio → List InheritedPrio → ℕ
back_prio e [] = e.prio
back_prio e (f ∷ fs) = back_prio f fs

unfoldable pub prio_max : Thread → ℕ
unfolding back_prio
prio_max th = elim th.inherited_prios [ [] ↦ th.prio | e ∷ es ↦ max th.prio (back_prio e es) ]

-- A full list stops the kernel (`list_t::check_for_alloc`).
unfoldable pub inherit_prio_add : Kernel → ℕ → ℕ → ℕ → Run Kernel
inherit_prio_add k t owner priority = do
  wassert (not (owner == (k.threads t).globid))
  wassert (elim (inherit_prio_find (k.threads t).inherited_prios owner) [ none ↦ true | _ ↦ false ])
  wassert (ltb (length (k.threads t).inherited_prios) inherited_max)
  ok (
      set_thread k t (record (k.threads t) {
        inherited_prios =
            insert_sort (record { owner = owner; prio = priority }) (k.threads t).inherited_prios;
      }))

unfoldable pub inherit_prio_del : Kernel → ℕ → ℕ → ℕ → Run Kernel
inherit_prio_del k t owner priority = do
  wassert (not (owner == (k.threads t).globid))
  it ← not_null (inherit_prio_find (k.threads t).inherited_prios owner)
  wassert (it.prio == priority)
  ok (
      set_thread k t (record (k.threads t) {
        inherited_prios = erase_owner (k.threads t).inherited_prios owner;
      }))

-- The end of `Thread_t::state`: take back the priority that the thread has lent.
unfoldable pub return_prio : Kernel → ℕ → Run Kernel
return_prio k t = if Thrid.is_nil (k.threads t).prio_heir then ok k else do
  thr ← find k (k.threads t).prio_heir
  h ← not_null thr
  k' ← inherit_prio_del k h (k.threads t).globid (prio_max (k.threads t))
  ok (set_thread k' t (record (k'.threads t) { prio_heir = Thrid.nil }))
