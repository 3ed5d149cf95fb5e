-- ===== src/Gpu/Registers.antt =====
-- shadps4_gpu_set_registers: a packet's payload into a register file.
use qemu_dll_shadps.Base.{
  ℕ, zero, suc, ◌+◌, ◌-◌, ◌≤◌, ◌<◌, ◌≡◌, refl, sym, ap, ◌∙◌, inl, inr, ◌||◌, Option, none, some,
  List, [], ◌∷◌, leb, ltb, if◌then◌else◌, length, length-set, get_elem?, get_elem?-set_self,
  get_elem?-set_ne, set, Bool-cases, arith,
}

-- `for (i = 1; ...) registers[offset + i - 1] = payload[i]`.
unfoldable pub write_registers : List ℕ → ℕ → List ℕ → List ℕ
write_registers registers offset [] = registers
write_registers registers offset (v ∷ vs) = write_registers (set registers offset v) (offset + 1) vs

-- `none` is `false`, with nothing written.
unfoldable pub set_registers : List ℕ → List ℕ → Option (List ℕ)
set_registers registers [] = none
set_registers registers (offset ∷ values) =
    if ltb (length (offset ∷ values)) 2
    then none
    else if leb (length registers) offset
        || ltb (length registers - offset) (length (offset ∷ values) - 1)
    then none
    else some (write_registers registers offset values)

pub length-write_registers :
    (registers : List ℕ) (offset : ℕ) (values : List ℕ)
    → length (write_registers registers offset values) ≡ length registers
unfolding write_registers
length-write_registers registers offset [] = refl
length-write_registers registers offset (v ∷ vs) =
    length-write_registers (set registers offset v) (offset + 1) vs ∙ length-set registers offset v

-- A register below the window keeps its value.
write_registers_below :
    (registers : List ℕ) (offset : ℕ) (values : List ℕ) (k : ℕ)
    → k < offset
    → get_elem? (write_registers registers offset values) k ≡ get_elem? registers k
unfolding write_registers
write_registers_below registers offset [] k h = refl
write_registers_below registers offset (v ∷ vs) k h =
    write_registers_below (set registers offset v) (offset + 1) vs k (omega arith)
    ∙ get_elem?-set_ne registers offset k v (λ e. omega arith)

write_registers_above :
    (registers : List ℕ) (offset : ℕ) (values : List ℕ) (k : ℕ)
    → offset + length values ≤ k
    → get_elem? (write_registers registers offset values) k ≡ get_elem? registers k
unfolding write_registers
write_registers_above registers offset [] k h = refl
write_registers_above registers offset (v ∷ vs) k h =
    write_registers_above (set registers offset v) (offset + 1) vs k (omega arith)
    ∙ get_elem?-set_ne registers offset k v (λ e. omega arith)

write_registers_in :
    (registers : List ℕ) (offset : ℕ) (values : List ℕ) (i : ℕ)
    → offset + length values ≤ length registers
    → i < length values
    → get_elem? (write_registers registers offset values) (offset + i) ≡ get_elem? values i
unfolding write_registers
write_registers_in registers offset [] i fits h = absurd (omega arith)
write_registers_in registers offset (v ∷ vs) zero fits h =
    let e : offset + 0 ≡ offset = omega arith in
    ap (λ k. get_elem? (write_registers (set registers offset v) (offset + 1) vs) k) e
    ∙ write_registers_below (set registers offset v) (offset + 1) vs offset (omega arith)
    ∙ get_elem?-set_self registers offset v (omega arith)
write_registers_in registers offset (v ∷ vs) (suc i) fits h =
    let e : offset + suc i ≡ offset + 1 + i = omega arith in
    ap (λ k. get_elem? (write_registers (set registers offset v) (offset + 1) vs) k) e
    ∙ write_registers_in (set registers offset v) (offset + 1) vs i
        (omega (arith, length-set registers offset v)) (omega arith)

-- The register file after a packet, register by register.
pub window : List ℕ → ℕ → List ℕ → ℕ → Option ℕ
window registers offset values k =
    if ltb k offset || leb (offset + length values) k
    then get_elem? registers k
    else get_elem? values (k - offset)

-- A register packet that is accepted writes its values to consecutive registers from its offset on,
-- all of which exist, and leaves every other register and the number of registers alone.
pub set_registers_lem :
    (registers : List ℕ) (offset : ℕ) (values : List ℕ) (k : ℕ) {after : List ℕ}
    → set_registers registers (offset ∷ values) ≡ some after
    → (offset + length values ≤ length registers)
      × (length after ≡ length registers)
      × (get_elem? after k ≡ window registers offset values k)
unfolding set_registers window
set_registers_lem registers offset values k {after} e =
    let made : write_registers registers offset values ≡ after = ground arith in
    let fits : offset + length values ≤ length registers = ground arith in
    (
      fits,
      ap length (sym made) ∙ length-write_registers registers offset values,
      ap (λ xs. get_elem? xs k) (sym made) ∙ at fits,
    )
  where
    at :
        offset + length values ≤ length registers
        → get_elem? (write_registers registers offset values) k ≡ window registers offset values k
    at fits = elim (Bool-cases (ltb k offset)) [
      | inl low ↦ rw (low, window) (write_registers_below registers offset values k (ground arith))
      | inr from ↦ elim (Bool-cases (leb (offset + length values) k)) [
        | inl high ↦
            rw (from, high, window) (write_registers_above registers offset values k (ground arith))
        | inr in' ↦
            let e : offset + (k - offset) ≡ k = ground arith in
            rw (from, in', window)
              (ap (λ x. get_elem? (write_registers registers offset values) x) (sym e)
                ∙ write_registers_in registers offset values (k - offset) fits (ground arith))
      ]
    ]
