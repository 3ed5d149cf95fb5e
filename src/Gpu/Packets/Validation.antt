-- ===== src/Gpu/Packets/Validation.antt =====
-- Validating a command buffer: it comes to an end, inside the buffer.
use qemu_dll_shadps.Base.{
  ℕ, zero, suc, ◌+◌, ◌-◌, ◌≤◌, ◌≡◌, refl, sym, ap, ◌∙◌, inl, inr, Bool, true, false, ◌&&◌, ◌||◌,
  Option, none, some, List, [], ◌∷◌, ltb, ◌==◌, if◌then◌else◌, length, get_elem?_in, slice_at, take,
  drop, Bool-cases, Option-cases, Result, ok, err, arith,
}
use qemu_dll_shadps.Gpu.Registers.{set_registers, write_registers, length-write_registers}
use qemu_dll_shadps.Gpu.Packets.{
  IsReported, Reason, ParseError, parse_fail, is_filler, is_tail_padding, packet_type, opcode_of,
  payload_count, Registers, count_packet, execute_type3, packet, packet_loop, parse_pm4,
}

-- The register files are as long as before.
pub record SameFiles (s t : Registers) : Type 0 where
  pub context : length t.context ≡ length s.context
  pub shader : length t.shader ≡ length s.shader

-- What validation may come to.
abbrev pub Validated : Registers → Result ParseError Registers → Type 0
Validated s (ok t) = SameFiles s t
Validated s (err e) = IsReported e

length-set_registers :
    (registers payload : List ℕ) {after : List ℕ}
    → set_registers registers payload ≡ some after
    → length after ≡ length registers
unfolding set_registers
length-set_registers registers [] e = cc
length-set_registers registers (offset ∷ values) {after} e =
    let made : write_registers registers offset values ≡ after = ground arith in
    ap length (sym made) ∙ length-write_registers registers offset values

SameFiles-refl : (s : Registers) → SameFiles s s
SameFiles-refl s = record { context = refl; shader = refl }

execute_type3-SameFiles :
    (opcode : ℕ) (payload : List ℕ) (s : Registers) {t : Registers}
    → execute_type3 opcode payload s ≡ some t
    → SameFiles s t
unfolding execute_type3
execute_type3-SameFiles opcode payload s {t} e = record {
  context = elim (Option-cases (set_registers s.context payload)) [
    | inl out ↦ ground arith
    | inr (context, p) ↦ let l = length-set_registers s.context payload p in ground arith
  ];
  shader = elim (Option-cases (set_registers s.shader payload)) [
    | inl out ↦ ground arith
    | inr (shader, p) ↦ let l = length-set_registers s.shader payload p in ground arith
  ];
}

Validated-if :
    (s : Registers) (b : Bool) (x y : Result ParseError Registers)
    → Validated s x
    → Validated s y
    → Validated s (if b then x else y)
Validated-if s true x y h k = h
Validated-if s false x y h k = k

IsReported-if :
    (b : Bool) (offset header : ℕ)
    → IsReported (record {
      offset = offset;
      header = header;
      reason = if b then Reason.truncated_type0_or_type1 else Reason.truncated_type3;
    })
IsReported-if true offset header = (λ e. cc, λ e. cc)
IsReported-if false offset header = (λ e. cc, λ e. cc)

pub payload_in :
    (commands : List ℕ) (offset n : ℕ)
    → ltb offset (length commands) ≡ true
    → ltb (length commands - offset - 1) n ≡ false
    → (payload : List ℕ) × (slice_at commands (offset + 1) n ≡ some payload)
unfolding slice_at
payload_in commands offset n in' fits = (take n (drop (offset + 1) commands), ground arith)

packet-Validated :
    (commands : List ℕ) (offset header : ℕ) (s : Registers)
    → ltb offset (length commands) ≡ true
    → Validated s (packet commands offset header s)
unfolding packet
packet-Validated commands offset header s in' =
    let same : SameFiles s (count_packet s) = record { context = refl; shader = refl } in
    Validated-if s (packet_type header == 2) _ _ same
      (elim (Bool-cases (ltb (length commands - offset - 1) (payload_count header))) [
        | inl short ↦
            rw short
              (IsReported-if (packet_type header == 0 || packet_type header == 1) offset header)
        | inr fits ↦
            let (payload, p) = payload_in commands offset (payload_count header) in' fits in
            rw (fits, p)
              (Validated-if s (packet_type header == 0 || packet_type header == 1) _ _ same (
                run (execute_type3 (opcode_of header) payload s)
                  (λ t e. execute_type3-SameFiles (opcode_of header) payload s e)))
      ])
  where
    run :
        (r : Option Registers)
        → ((t : Registers) → r ≡ some t → SameFiles s t)
        → Validated s (elim r [
          | none ↦ parse_fail offset header Reason.invalid_register_packet
          | some s' ↦ ok (count_packet s')
        ])
    run none k = (λ e. cc, λ e. cc)
    run (some t) k = let h = k t refl in record { context = h.context; shader = h.shader }

Validated-then :
    (s : Registers) (r : Result ParseError Registers)
    (next : Registers → Result ParseError Registers)
    → Validated s r
    → ((t : Registers) → Validated t (next t))
    → Validated s (elim r [ err e ↦ err e | ok t ↦ next t ])
Validated-then s (err e) next h k = h
Validated-then s (ok t) next h k = widen (next t) (k t)
  where
    widen : (r : Result ParseError Registers) → Validated t r → Validated s r
    widen (err e) v = v
    widen (ok u) v = record { context = v.context ∙ h.context; shader = v.shader ∙ h.shader }

packet_loop-Validated :
    (n : ℕ) (commands : List ℕ) (offset : ℕ) (s : Registers)
    → length commands ≤ offset + n
    → Validated s (packet_loop n commands offset s)
unfolding packet_loop
packet_loop-Validated zero commands offset s h =
    let e : ltb offset (length commands) ≡ false = ground arith in rw e (SameFiles-refl s)
packet_loop-Validated (suc n) commands offset s h =
    elim (Bool-cases (ltb offset (length commands))) [
      | inr past ↦ rw past (SameFiles-refl s)
      | inl in' ↦
          let (header, g) = get_elem?_in commands offset (ground arith) in
          rw (in', g, packet_loop)
            (Validated-if s (is_filler header && is_tail_padding (drop offset commands)) _ _
              (SameFiles-refl s)
              (Validated-then s (packet commands offset header s)
                (λ t. packet_loop n commands (offset + payload_count header + 1) t)
                (packet-Validated commands offset header s in')
                (λ t.
                  packet_loop-Validated n commands (offset + payload_count header + 1) t
                    (omega arith))))
    ]

-- Validating a command buffer always comes to an end within the buffer: no word outside it is read,
-- and the rounds suffice. It either leaves register files as long as before or reports one of the
-- source's reasons.
pub parse_pm4-Validated : (commands : List ℕ) (s : Registers) → Validated s (parse_pm4 commands s)
unfolding parse_pm4
parse_pm4-Validated commands s = packet_loop-Validated (length commands) commands 0 s (omega arith)
