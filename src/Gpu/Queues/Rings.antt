-- ===== src/Gpu/Queues/Rings.antt =====
-- What holds of every compute queue that is mapped.
use qemu_dll_shadps.Base.{
  ℕ, zero, suc, ◌+◌, ◌-◌, ◌*◌, ◌/◌, ◌%◌, ◌^◌, ◌≤◌, ◌<◌, ◌≡◌, inl, inr, false, ◌==◌, Bool-cases,
  arith,
}
use native.Mathlib.Nat.{pow-suc}
use qemu_dll_shadps.Gpu.Flatten.{max_command_dwords}
use qemu_dll_shadps.Gpu.State.{Queue}
use qemu_dll_shadps.Gpu.Queues.{bit_and, bad_ring, map_ring}

-- A ring in guest memory whose size is a power of two, with an offset inside it.
pub record IsRing (q : Queue) : Type 0 where
  pub exponent : ℕ
  pub power : q.ring_dwords ≡ 2 ^ exponent
  pub size : q.ring_dwords ≤ max_command_dwords
  pub inside : q.read_offset < q.ring_dwords
  pub placed : 0 < q.ring_addr
  pub aligned : q.ring_addr % 0x100 ≡ 0
  pub ends : q.ring_addr + q.ring_dwords * 4 < 2 ^ 64
  pub pointer : 0 < q.read_ptr_addr
  pub pointer_aligned : q.read_ptr_addr % 4 ≡ 0

pub data IsQueue (q : Queue) : Type 0 where
  unused : q.mapped ≡ false → IsQueue q
  in_use : IsRing q → IsQueue q

bit_and_self : (w n : ℕ) → n < 2 ^ w → bit_and w n n ≡ 0 → n ≡ 0
unfolding bit_and
bit_and_self zero n h e = omega arith
bit_and_self (suc w) n h e =
    let p = pow-suc 2 w in
    let half = bit_and_self w (n / 2) (omega arith) (grind arith) in grind arith

-- `n & (n - 1)` is zero for powers of two alone.
pub bit_and_pred : (w n : ℕ) → 0 < n → n < 2 ^ w → bit_and w n (n - 1) ≡ 0 → (k : ℕ) × (n ≡ 2 ^ k)
unfolding bit_and
bit_and_pred zero n some' h e = absurd (omega arith)
bit_and_pred (suc w) n some' h e =
    let p = pow-suc 2 w in
    elim (Bool-cases (n % 2 == 0)) [
      | inl even ↦
          let before : (n - 1) / 2 ≡ n / 2 - 1 = ground arith in
          let e' : n % 2 * ((n - 1) % 2) + 2 * bit_and w (n / 2) (n / 2 - 1) ≡ 0 =
            (rw before at e) in
          let (k, q) = bit_and_pred w (n / 2) (ground arith) (omega arith) (grind arith) in
          let r = pow-suc 2 k in (suc k, ground arith)
      | inr odd ↦
          let before : (n - 1) / 2 ≡ n / 2 = ground arith in
          let e' : n % 2 * ((n - 1) % 2) + 2 * bit_and w (n / 2) (n / 2) ≡ 0 = (rw before at e) in
          let z = bit_and_self w (n / 2) (omega arith) (grind arith) in (0, ground arith)
    ]

pub map_ring-IsRing :
    (pipe_id queue_id ring_addr ring_dwords read_ptr_addr : ℕ) (q : Queue)
    → bad_ring pipe_id queue_id ring_addr ring_dwords read_ptr_addr ≡ false
    → IsRing (map_ring ring_addr ring_dwords read_ptr_addr q)
unfolding bad_ring
map_ring-IsRing pipe_id queue_id ring_addr ring_dwords read_ptr_addr q h =
    let some' : 0 < ring_dwords = ground arith in
    let small : ring_dwords ≤ max_command_dwords = ground arith in
    let (k, p) = bit_and_pred 32 ring_dwords some' (omega arith) (ground arith) in
    record {
      exponent = k;
      power = p;
      size = small;
      inside = some';
      placed = ground arith;
      aligned = ground arith;
      ends = ground arith;
      pointer = ground arith;
      pointer_aligned = ground arith;
    }
