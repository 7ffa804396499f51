-- ===== src/L4/MsgTag.antt =====
-- lib/l4/inc/l4_types.h, class L4_msgtag_t: the message tag as a 32-bit word, its fields laid out as on
-- a big-endian machine, where the first field is the highest. A negative label is cut to its width.
use wrmos.Base.{ℕ, ◌-◌, ◌^◌, ◌<◌, ◌≡◌, Bool, false, ◌&&◌, arith, ◌==◌}
use wrmos.L4.Field.{field, set_field}

-- Labels, as a proto message carries them: `Pagefault` is -2 and `Io_pagefault` is -3 in ten bits.
abbrev pub pagefault : ℕ
pagefault = 2 ^ 10 - 2

abbrev pub io_pagefault : ℕ
io_pagefault = 2 ^ 10 - 3

abbrev pub thread_start : ℕ
thread_start = 0

unfoldable pub untyped : ℕ → ℕ
untyped raw = field raw 0 8

unfoldable pub typed : ℕ → ℕ
typed raw = field raw 8 6

unfoldable pub propagated : ℕ → Bool
propagated raw = field raw 14 1 == 1

unfoldable pub ipc_is_failed : ℕ → Bool
ipc_is_failed raw = field raw 17 1 == 1

unfoldable pub ipc_label : ℕ → ℕ
ipc_label raw = field raw 18 14

unfoldable pub proto_label : ℕ → ℕ
proto_label raw = field raw 22 10

unfoldable pub pfault_access : ℕ → ℕ
pfault_access raw = field raw 18 3

unfoldable pub ipc_set_ok : ℕ → ℕ
ipc_set_ok raw = set_field raw 17 1 0

unfoldable pub ipc_set_failed : ℕ → ℕ
ipc_set_failed raw = set_field raw 17 1 1

unfoldable pub set_ipc : ℕ → ℕ → ℕ → ℕ
set_ipc label u t = set_field (set_field (set_field 0 18 14 label) 8 6 t) 0 8 u

unfoldable pub set_proto : ℕ → ℕ → ℕ → ℕ → ℕ
set_proto raw label u t =
    set_field (set_field (set_field (set_field raw 22 10 label) 14 8 0) 8 6 t) 0 8 u

unfoldable pub set_proto_pf : ℕ → ℕ → ℕ → ℕ → ℕ → ℕ
set_proto_pf raw label access u t =
    set_field
      (set_field
        (set_field (set_field (set_field (set_field raw 22 10 label) 21 1 0) 18 3 access) 14 4 0) 8
        6 t)
      0 8 u

unfoldable pub is_thread_start : ℕ → Bool
unfolding ipc_label typed untyped
is_thread_start raw = ipc_label raw == thread_start && typed raw == 0 && untyped raw == 3

unfoldable pub is_pf_request : ℕ → Bool
unfolding proto_label typed untyped
is_pf_request raw = proto_label raw == pagefault && typed raw == 2 && untyped raw == 0

unfoldable pub is_io_pf_request : ℕ → Bool
unfolding proto_label typed untyped
is_io_pf_request raw = proto_label raw == io_pagefault && typed raw == 2 && untyped raw == 0

unfoldable pub is_pf_reply : ℕ → Bool
unfolding ipc_label typed untyped
is_pf_reply raw = ipc_label raw == 0 && typed raw == 2 && untyped raw == 0

unfoldable pub is_exc_reply : ℕ → Bool
unfolding ipc_label typed untyped
is_exc_reply raw = ipc_label raw == 0 && typed raw == 0 && untyped raw == 133

-- A page-fault message that is built from any tag carries the label, the access and the counts that it
-- is given, where they fit their fields.
pub set_proto_pf_fields :
    (raw label access u t : ℕ)
    → label < 2 ^ 10
    → access < 2 ^ 3
    → u < 2 ^ 8
    → t < 2 ^ 6
    → (proto_label (set_proto_pf raw label access u t) ≡ label)
      × (pfault_access (set_proto_pf raw label access u t) ≡ access)
      × (untyped (set_proto_pf raw label access u t) ≡ u)
      × (typed (set_proto_pf raw label access u t) ≡ t)
unfolding set_proto_pf proto_label pfault_access untyped typed
set_proto_pf_fields raw label access u t hl ha hu ht = omega arith

-- The kernel builds its page-fault messages with two untyped words and no typed one, and
-- `is_pf_request` looks for two typed words and no untyped one: it recognises none of them.
pub is_pf_request_misses :
    (raw access : ℕ) → is_pf_request (set_proto_pf raw pagefault access 2 0) ≡ false
unfolding is_pf_request set_proto_pf
is_pf_request_misses raw access = ground arith
