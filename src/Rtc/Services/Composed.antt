-- ===== src/Rtc/Services/Composed.antt =====
-- The services of hw/i386/shadps4-hle.c that turn a tick into a date and a date into a tick, one
-- after the other through guest memory.
use qemu_dll_shadps.Base.{
  ℕ, ◌≤◌, ◌≡◌, ◌≢◌, ◌∙◌, refl, sym, ap, subst, inl, inr, Bool, true, false, some, ◌==◌, Bool-cases,
  Option-cases, Result-cases, ok, ok-injective, le_bytes, arith,
}
use qemu_dll_shadps.Gpu.Guest.{GuestMemory, IsGuest}
use qemu_dll_shadps.Gpu.Guest.Words.{Holds}
use qemu_dll_shadps.Rtc.Dates.{
  RtcError, datetime_uninitialized, invalid_pointer, invalid_value, bad_parse, invalid_year,
  invalid_month, invalid_day, invalid_hour, invalid_minute, invalid_second, invalid_microsecond,
  error_code, RtcDateTime, IsDateTime,
}
use qemu_dll_shadps.Rtc.Ticks.{max_ticks, date_to_tick, tick_to_date}
use qemu_dll_shadps.Rtc.Ticks.Inverse.{date_to_tick-tick_to_date}
use qemu_dll_shadps.Rtc.Memory.{read_date, write_date, read_tick, write_tick, Reply, refuse, answer}
use qemu_dll_shadps.Rtc.Memory.Stored.{read_date-write_date, write_tick-Holds}
use qemu_dll_shadps.Rtc.Services.{set_tick, get_tick}

-- An error is not the code of success.
pub error_code-ne_0 : (e : RtcError) → error_code e ≢ 0
unfolding error_code
error_code-ne_0 datetime_uninitialized h = absurd (omega arith)
error_code-ne_0 invalid_pointer h = absurd (omega arith)
error_code-ne_0 invalid_value h = absurd (omega arith)
error_code-ne_0 bad_parse h = absurd (omega arith)
error_code-ne_0 invalid_year h = absurd (omega arith)
error_code-ne_0 invalid_month h = absurd (omega arith)
error_code-ne_0 invalid_day h = absurd (omega arith)
error_code-ne_0 invalid_hour h = absurd (omega arith)
error_code-ne_0 invalid_minute h = absurd (omega arith)
error_code-ne_0 invalid_second h = absurd (omega arith)
error_code-ne_0 invalid_microsecond h = absurd (omega arith)

tick_to_date-le : (tick : ℕ) {date : RtcDateTime} → tick_to_date tick ≡ ok date → tick ≤ max_ticks
unfolding tick_to_date
tick_to_date-le tick h = ground arith

-- An answer of success is one of a write that succeeded.
answer-success :
    {M : Type 0} (w : Bool × M) → (answer w).value ≡ 0 → (w.0 ≡ true) × ((answer w).memory ≡ w.1)
answer-success (true, m) h = (refl, refl)
answer-success (false, m) h = absurd (error_code-ne_0 invalid_pointer h)

not_refused : {M : Type 0} (r : Reply M) (e : RtcError) (m : M) → r ≡ refuse e m → r.value ≢ 0
not_refused r e m same h = error_code-ne_0 e (ap (λ (x : Reply _). x.value) (sym same) ∙ h)

answered :
    {M : Type 0} (r : Reply M) (w : Bool × M)
    → r ≡ answer w
    → r.value ≡ 0
    → (w.0 ≡ true) × (r.memory ≡ w.1)
answered r w same h =
    let (written, left) = answer-success w (ap (λ (x : Reply _). x.value) (sym same) ∙ h) in
    (written, ap (λ (x : Reply _). x.memory) same ∙ left)

module _ {M : Type 0} (guest : GuestMemory M) where
  -- What a service that succeeds has read, found and written.
  pub record SetTick (m : M) (a0 a1 : ℕ) : Type 0 where
    pub tick : ℕ
    pub date : RtcDateTime
    pub reads : read_tick guest m a1 ≡ some tick
    pub finds : tick_to_date tick ≡ ok date
    pub writes : (write_date guest m a0 date).0 ≡ true
    pub leaves : (set_tick guest m a0 a1).memory ≡ (write_date guest m a0 date).1

  set_tick-SetTick : (m : M) (a0 a1 : ℕ) → (set_tick guest m a0 a1).value ≡ 0 → SetTick m a0 a1
  unfolding set_tick
  set_tick-SetTick m a0 a1 h =
      let r = set_tick guest m a0 a1 in
      elim (Bool-cases (a0 == 0)) [
        | inl null ↦ absurd (not_refused r invalid_pointer m (rw null refl) h)
        | inr mapped ↦ elim (Option-cases (read_tick guest m a1)) [
          | inl unread ↦ absurd (not_refused r invalid_pointer m (rw (mapped, unread) refl) h)
          | inr (tick, reads) ↦ elim (Result-cases (tick_to_date tick)) [
            | inr (e, fails) ↦ absurd (not_refused r e m (rw (mapped, reads, fails) refl) h)
            | inl (date, finds) ↦
                let w = write_date guest m a0 date in
                let (writes, leaves) = answered r w (rw (mapped, reads, finds) refl) h in
                record {
                  tick = tick;
                  date = date;
                  reads = reads;
                  finds = finds;
                  writes = writes;
                  leaves = leaves;
                }
          ]
        ]
      ]

  pub record GetTick (m : M) (a0 a1 : ℕ) : Type 0 where
    pub tick : ℕ
    pub date : RtcDateTime
    pub reads : read_date guest m a0 ≡ some date
    pub finds : date_to_tick date ≡ ok tick
    pub writes : (write_tick guest m a1 tick).0 ≡ true
    pub leaves : (get_tick guest m a0 a1).memory ≡ (write_tick guest m a1 tick).1

  get_tick-GetTick : (m : M) (a0 a1 : ℕ) → (get_tick guest m a0 a1).value ≡ 0 → GetTick m a0 a1
  unfolding get_tick
  get_tick-GetTick m a0 a1 h =
      let r = get_tick guest m a0 a1 in
      elim (Option-cases (read_date guest m a0)) [
        | inl unread ↦ absurd (not_refused r invalid_pointer m (rw unread refl) h)
        | inr (date, reads) ↦ elim (Bool-cases (a1 == 0)) [
          | inl null ↦ absurd (not_refused r invalid_pointer m (rw (reads, null) refl) h)
          | inr mapped ↦ elim (Result-cases (date_to_tick date)) [
            | inr (e, fails) ↦ absurd (not_refused r e m (rw (reads, mapped, fails) refl) h)
            | inl (tick, finds) ↦
                let w = write_tick guest m a1 tick in
                let (writes, leaves) = answered r w (rw (reads, mapped, finds) refl) h in
                record {
                  tick = tick;
                  date = date;
                  reads = reads;
                  finds = finds;
                  writes = writes;
                  leaves = leaves;
                }
          ]
        ]
      ]

module _ {M : Type 0} (guest : GuestMemory M) (peek : M → ℕ → ℕ)
    (is_guest : IsGuest guest peek) where
  -- A tick that is turned into a date at `a0`, and back from there into a tick at `a2`, is the tick
  -- that was read at `a1`, when both services report success.
  pub get_tick-set_tick :
      (m : M) (a0 a1 a2 : ℕ)
      → (set_tick guest m a0 a1).value ≡ 0
      → (get_tick guest (set_tick guest m a0 a1).memory a0 a2).value ≡ 0
      → (tick : ℕ) × (read_tick guest m a1 ≡ some tick)
        × Holds
            (peek (get_tick guest (set_tick guest m a0 a1).memory a0 a2).memory)
            a2
            (le_bytes 8 tick)
  get_tick-set_tick m a0 a1 a2 h k =
      let s = set_tick-SetTick guest m a0 a1 h in
      let g = get_tick-GetTick guest (set_tick guest m a0 a1).memory a0 a2 k in
      let (date, finds, valid, back) =
        date_to_tick-tick_to_date s.tick (tick_to_date-le s.tick s.finds) in
      let same : date ≡ s.date = ok-injective (sym finds ∙ s.finds) in
      let read_back : read_date guest (write_date guest m a0 s.date).1 a0 ≡ some g.date =
        ap (λ (m' : M). read_date guest m' a0) (sym s.leaves) ∙ g.reads in
      let unchanged : g.date ≡ s.date =
        read_date-write_date guest peek is_guest m a0 s.date (subst IsDateTime same valid) s.writes
          read_back in
      let ticks : g.tick ≡ s.tick =
        ok-injective (sym g.finds ∙ ap date_to_tick (unchanged ∙ sym same) ∙ back) in
      (
        s.tick,
        s.reads,
        subst (λ (m' : M). Holds (peek m') a2 (le_bytes 8 s.tick)) (sym g.leaves)
            (subst
              (λ (t : ℕ).
                Holds (peek (write_tick guest (set_tick guest m a0 a1).memory a2 g.tick).1) a2
                  (le_bytes 8 t))
              ticks
              (write_tick-Holds guest peek is_guest (set_tick guest m a0 a1).memory a2 g.tick
                g.writes)),
      )
