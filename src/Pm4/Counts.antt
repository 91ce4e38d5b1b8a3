-- ===== src/Pm4/Counts.antt =====
-- What the counts of the census say.
use wosrecomp.Base.{
  ℕ, ◌+◌, ◌%◌, ◌^◌, ◌≤◌, ◌≡◌, Bool, some, List, [], ◌∷◌, if◌then◌else◌, Option-cases, inl, inr,
  length, length-append, arith,
}
use wosrecomp.Pm4.{
  is_draw, OpcodeStat, RegisterStat, Census, max_registers, count_opcode, record_packet,
  update_register, record_register,
}

-- How many packets the rows count whose opcode passes the test.
abbrev pub total : (ℕ → Bool) → List OpcodeStat → ℕ
total p [] = 0
total p (o ∷ os) = (if p o.opcode then o.count else 0) + total p os

-- Recording a packet adds one, on 64 bits, to the packets of each class that its opcode is in, and
-- nothing to the others.
pub total-count_opcode :
    (p : ℕ → Bool) (os : List OpcodeStat) (opcode : ℕ)
    → total p (count_opcode os opcode) % 2 ^ 64
      ≡ (total p os + (if p opcode then 1 else 0)) % 2 ^ 64
unfolding count_opcode
total-count_opcode p [] opcode = ground arith
total-count_opcode p (o ∷ os) opcode = ground (arith, total-count_opcode p os opcode)

-- The draws counted are, on 64 bits, the packets counted under the opcodes that draw.
abbrev pub CountsDraws : Census → Type 0
CountsDraws c = c.draws ≡ total is_draw c.opcodes_seen % 2 ^ 64

-- Recording a packet keeps the draw counter equal to the packets counted under drawing opcodes.
pub record_packet-CountsDraws :
    (c : Census) (opcode : ℕ) → CountsDraws c → CountsDraws (record_packet c opcode)
unfolding record_packet
record_packet-CountsDraws c opcode h =
    ground (arith, total-count_opcode is_draw c.opcodes_seen opcode)

update_register-length :
    (rs rs' : List RegisterStat) (reg value : ℕ)
    → update_register rs reg value ≡ some rs'
    → length rs' ≡ length rs
unfolding update_register
update_register-length [] rs' reg value e = ground arith
update_register-length (r ∷ rs) rs' reg value e =
    elim (Option-cases (update_register rs reg value)) [
      | inl n ↦ ground (arith, e, n)
      | inr (qs, n) ↦ ground (arith, e, n, update_register-length rs qs reg value n)
    ]

-- The register table never has more rows than its bound.
pub record_register-bounded :
    (c : Census) (reg value : ℕ)
    → length c.registers_seen ≤ max_registers
    → length (record_register c reg value).registers_seen ≤ max_registers
unfolding record_register
record_register-bounded c reg value h =
    elim (Option-cases (update_register c.registers_seen reg value)) [
      | inl e ↦ ground (
        arith,
        e,
        length-append c.registers_seen (record { reg = reg; last_value = value; writes = 1 } ∷ []),
      )
      | inr (rs, e) ↦ ground (arith, e, update_register-length c.registers_seen rs reg value e)
    ]
