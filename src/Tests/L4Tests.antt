-- ===== src/Tests/L4Tests.antt =====
-- lib/l4: tests and examples.
use wrmos.Base.{ℕ, ◌+◌, ◌*◌, ◌-◌, ◌%◌, ◌<◌, ◌≤◌, ◌≡◌, ◌⊎◌, ◌↔◌, true, false, arith}
use wrmos.L4.MsgTag.{
  pagefault, untyped, typed, proto_label, pfault_access, set_proto_pf, is_pf_request,
  set_proto_pf_fields, is_pf_request_misses,
}
use wrmos.L4.Time.{big_endian, little_endian, is_zero, rel_usec, create_rel}
use wrmos.L4.Time.Rounding.{create_rel_exact, create_rel_rounds, sixteen_is_zero}
use wrmos.L4.Fpage.{
  shifted_one, log2sz, halvings, is_aligned, bit_and, nil, null_bit, addr, size, access, set_mem,
  is_cross,
}
use wrmos.L4.Fpage.Ranges.{set_mem_total, is_cross_iff}

set_proto_pf_fields_example :
    (proto_label (set_proto_pf 0 pagefault 5 2 0) ≡ pagefault)
    × (pfault_access (set_proto_pf 0 pagefault 5 2 0) ≡ 5)
    × (untyped (set_proto_pf 0 pagefault 5 2 0) ≡ 2)
    × (typed (set_proto_pf 0 pagefault 5 2 0) ≡ 0)
set_proto_pf_fields_example =
    set_proto_pf_fields 0 pagefault 5 2 0 (omega arith) (omega arith) (omega arith) (omega arith)

is_pf_request_misses_example : is_pf_request (set_proto_pf 0 pagefault 5 2 0) ≡ false
is_pf_request_misses_example = is_pf_request_misses 0 5

set_mem_total_example :
    (set_mem 0 0x40000 0x4000 5 ≡ nil)
    ⊎ ((addr (set_mem 0 0x40000 0x4000 5) ≡ 0x40000)
        × (size (set_mem 0 0x40000 0x4000 5) ≡ 0x4000)
        × (access (set_mem 0 0x40000 0x4000 5) ≡ 5)
        × (null_bit (set_mem 0 0x40000 0x4000 5) ≡ 0)
        × (0x40000 % 0x4000 ≡ 0))
set_mem_total_example = set_mem_total 0 0x40000 0x4000 5 (omega arith) (omega arith)

-- Two pages of 4096 bytes, of which the second starts where the first ends.
is_cross_iff_example : (is_cross (set_mem 0 0x1000 0x1000 7) (set_mem 0 0x2000 0x1000 7) ≡ true) ↔ (
    (a : ℕ) × (addr (set_mem 0 0x1000 0x1000 7) ≤ a)
    × (a < addr (set_mem 0 0x1000 0x1000 7) + size (set_mem 0 0x1000 0x1000 7))
    × (addr (set_mem 0 0x2000 0x1000 7) ≤ a)
    × (a < addr (set_mem 0 0x2000 0x1000 7) + size (set_mem 0 0x2000 0x1000 7)))
unfolding set_mem addr size shifted_one log2sz halvings is_aligned bit_and
is_cross_iff_example =
    is_cross_iff (set_mem 0 0x1000 0x1000 7) (set_mem 0 0x2000 0x1000 7) (omega arith) (omega arith)
      (omega arith) (omega arith)

create_rel_exact_example : rel_usec big_endian (create_rel big_endian 800) ≡ 800
create_rel_exact_example = create_rel_exact 800 (omega arith) (omega arith)

create_rel_rounds_example :
    (rel_usec big_endian (create_rel big_endian 1000001) ≤ 1000001)
    × (512 * (1000001 - rel_usec big_endian (create_rel big_endian 1000001)) < 1000001)
create_rel_rounds_example = create_rel_rounds 1000001 (omega arith) (omega arith)

sixteen_is_zero_example : is_zero (create_rel little_endian 16) ≡ true
sixteen_is_zero_example = sixteen_is_zero 16 (omega arith)
