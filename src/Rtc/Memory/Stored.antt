-- ===== src/Rtc/Memory/Stored.antt =====
-- What the RTC of hw/i386/shadps4-hle.c writes to guest memory is what it reads back.
use qemu_dll_shadps.Base.{
  ℕ, ◌+◌, ◌^◌, ◌<◌, ◌≡◌, ◌∙◌, refl, sym, ap, subst, Bool, true, false, some, List, [], ◌∷◌, ltb,
  ◌==◌, if◌then◌else◌, length, inl, inr, Bool-cases, Option-cases, le_at, le_bytes, length-le_bytes,
  arith,
}
use qemu_dll_shadps.Gpu.Flatten.{guest_read}
use qemu_dll_shadps.Gpu.Guest.{GuestMemory, IsGuest, guest_write}
use qemu_dll_shadps.Gpu.Guest.Words.{Holds, Holds-get_elem?, guest_read-length, guest_write-Holds}
use qemu_dll_shadps.Rtc.Dates.{RtcDateTime, IsDateTime}
use qemu_dll_shadps.Rtc.Ticks.Inverse.{date-eq, days_in_month-le}
use qemu_dll_shadps.Rtc.Memory.{
  guest_user_min, field, date_bytes, date_from, user_read, user_write, read_date, write_date,
  read_tick, write_tick,
}

Holds-unique :
    (byte : ℕ → ℕ) (a : ℕ) (bs cs : List ℕ)
    → Holds byte a bs
    → Holds byte a cs
    → length bs ≡ length cs
    → bs ≡ cs
Holds-unique byte a [] [] h k e = refl
Holds-unique byte a [] (c ∷ cs) h k e = absurd (omega arith)
Holds-unique byte a (b ∷ bs) [] h k e = absurd (omega arith)
Holds-unique byte a (b ∷ bs) (c ∷ cs) h k e =
    let head : b ≡ c = sym h.0 ∙ k.0 in
    let tail = Holds-unique byte (a + 1) bs cs h.1 k.1 (omega arith) in rw (head, tail) refl

field-le_bytes : (v : ℕ) → v < 2 ^ 64 → field 8 0 (le_bytes 8 v) ≡ v
unfolding le_at le_bytes
field-le_bytes v h = omega arith

length-date_bytes : (date : RtcDateTime) → length (date_bytes date) ≡ 16
unfolding le_bytes
length-date_bytes date = refl

date_from-date_bytes : (date : RtcDateTime) → IsDateTime date → date_from (date_bytes date) ≡ date
unfolding le_at le_bytes
date_from-date_bytes date valid =
    let le = days_in_month-le date.year date.month valid.of_day.month_in in
    date-eq (omega (arith, valid.of_day.year_in)) (omega (arith, valid.of_day.month_in))
      (omega (arith, valid.of_day.day_in)) (omega (arith, valid.of_time.hour_in))
      (omega (arith, valid.of_time.minute_in)) (omega (arith, valid.of_time.second_in))
      (omega (arith, valid.of_time.microsecond_in))

module _ {M : Type 0} (guest : GuestMemory M) (peek : M → ℕ → ℕ)
    (is_guest : IsGuest guest peek) where
  guest_read-Holds :
      (m : M) (a n : ℕ) {bs : List ℕ}
      → guest_read (guest.read m) a n ≡ some bs
      → Holds (peek m) a bs
  unfolding guest_read
  guest_read-Holds m a n {bs} h = elim (Bool-cases (n == 0)) [
    | inl empty ↦ let e : ◌≡◌ {A = List ℕ} [] bs = ground arith in rw (← e) tt
    | inr some' ↦
        let r : guest.read m a n ≡ some bs = ground arith in
        Holds-get_elem? (peek m) a bs (λ i b q. sym (is_guest.read_bytes m a n bs i b r q))
  ]

  -- The bytes of a read are those of the memory.
  pub user_read-Holds :
      (m : M) (a n : ℕ) {bs : List ℕ}
      → 0 < n
      → user_read guest m a n ≡ some bs
      → (length bs ≡ n) × Holds (peek m) a bs
  unfolding user_read
  user_read-Holds m a n {bs} some' h =
      let r : guest_read (guest.read m) a n ≡ some bs = ground arith in
      (guest_read-length guest peek is_guest m a n r, guest_read-Holds m a n r)

  -- A write that succeeds stores its bytes.
  pub user_write-Holds :
      (m : M) (a : ℕ) (bs : List ℕ)
      → 0 < length bs
      → (user_write guest m a bs).0 ≡ true
      → Holds (peek (user_write guest m a bs).1) a bs
  unfolding user_write
  user_write-Holds m a bs some' h =
      let full : (length bs == 0) ≡ false = ground arith in
      elim (Bool-cases (ltb a guest_user_min)) [
        | inl low ↦ absurd (ground arith)
        | inr high ↦
            let h' : (guest_write guest m a bs).0 ≡ true = ground arith in
            rw (full, high) (guest_write-Holds guest peek is_guest m a bs h')
      ]

  user_read-user_write :
      (m : M) (a n : ℕ) (bs : List ℕ) {cs : List ℕ}
      → 0 < n
      → length bs ≡ n
      → (user_write guest m a bs).0 ≡ true
      → user_read guest (user_write guest m a bs).1 a n ≡ some cs
      → cs ≡ bs
  user_read-user_write m a n bs {cs} some' l h k =
      let (lc, hc) = user_read-Holds (user_write guest m a bs).1 a n some' k in
      Holds-unique (peek (user_write guest m a bs).1) a cs bs hc
        (user_write-Holds m a bs (omega arith) h) (omega arith)

  -- A write at an address that is not null, of a struct's bytes.
  checked_write : (m : M) (a : ℕ) (bs : List ℕ) → Bool × M
  checked_write m a bs = if a == 0 then (false, m) else user_write guest m a bs

  checked_write-eq :
      (m : M) (a : ℕ) (bs : List ℕ)
      → (checked_write m a bs).0 ≡ true
      → checked_write m a bs ≡ user_write guest m a bs
  unfolding checked_write
  checked_write-eq m a bs h = elim (Bool-cases (a == 0)) [
    | inl null ↦ absurd (ground arith)
    | inr mapped ↦ rw mapped refl
  ]

  read_tick-field :
      (m : M) (a : ℕ) {tick : ℕ}
      → read_tick guest m a ≡ some tick
      → (bs : List ℕ) × (user_read guest m a 8 ≡ some bs) × (field 8 0 bs ≡ tick)
  unfolding read_tick
  read_tick-field m a h = elim (Option-cases (user_read guest m a 8)) [
    | inl none_read ↦ absurd (ground arith)
    | inr (bs, r) ↦ (bs, r, ground arith)
  ]

  read_date-fields :
      (m : M) (a : ℕ) {date : RtcDateTime}
      → read_date guest m a ≡ some date
      → (bs : List ℕ) × (user_read guest m a 16 ≡ some bs) × (date_from bs ≡ date)
  unfolding read_date
  read_date-fields m a h = elim (Option-cases (user_read guest m a 16)) [
    | inl none_read ↦ absurd (ground arith)
    | inr (bs, r) ↦ (bs, r, ground arith)
  ]

  -- A tick that was stored is the one that is read, if the read succeeds.
  pub read_tick-write_tick :
      (m : M) (a tick : ℕ) {found : ℕ}
      → tick < 2 ^ 64
      → (write_tick guest m a tick).0 ≡ true
      → read_tick guest (write_tick guest m a tick).1 a ≡ some found
      → found ≡ tick
  unfolding write_tick checked_write
  read_tick-write_tick m a tick {found} fits h k =
      let e = checked_write-eq m a (le_bytes 8 tick) h in
      let (bs, r, f) = read_tick-field (write_tick guest m a tick).1 a k in
      let h' : (user_write guest m a (le_bytes 8 tick)).0 ≡ true =
        ap (λ (x : Bool × M). x.0) (sym e) ∙ h in
      let r' : user_read guest (user_write guest m a (le_bytes 8 tick)).1 a 8 ≡ some bs =
        ap (λ (x : Bool × M). user_read guest x.1 a 8) (sym e) ∙ r in
      let same =
        user_read-user_write m a 8 (le_bytes 8 tick) (omega arith) (length-le_bytes 8 tick) h' r' in
      sym f ∙ ap (field 8 0) same ∙ field-le_bytes tick fits

  -- A date whose fields fit is read back as it was stored, if the read succeeds.
  pub read_date-write_date :
      (m : M) (a : ℕ) (date : RtcDateTime) {found : RtcDateTime}
      → IsDateTime date
      → (write_date guest m a date).0 ≡ true
      → read_date guest (write_date guest m a date).1 a ≡ some found
      → found ≡ date
  unfolding write_date checked_write
  read_date-write_date m a date {found} valid h k =
      let e = checked_write-eq m a (date_bytes date) h in
      let (bs, r, f) = read_date-fields (write_date guest m a date).1 a k in
      let h' : (user_write guest m a (date_bytes date)).0 ≡ true =
        ap (λ (x : Bool × M). x.0) (sym e) ∙ h in
      let r' : user_read guest (user_write guest m a (date_bytes date)).1 a 16 ≡ some bs =
        ap (λ (x : Bool × M). user_read guest x.1 a 16) (sym e) ∙ r in
      let same =
        user_read-user_write m a 16 (date_bytes date) (omega arith) (length-date_bytes date) h'
          r' in
      sym f ∙ ap date_from same ∙ date_from-date_bytes date valid

  -- A tick that was stored is in memory, lowest byte first.
  pub write_tick-Holds :
      (m : M) (a tick : ℕ)
      → (write_tick guest m a tick).0 ≡ true
      → Holds (peek (write_tick guest m a tick).1) a (le_bytes 8 tick)
  unfolding write_tick checked_write
  write_tick-Holds m a tick h =
      let bs = le_bytes 8 tick in
      let e = checked_write-eq m a bs h in
      let some' : 0 < length bs = omega (arith, length-le_bytes 8 tick) in
      subst (λ (x : Bool × M). Holds (peek x.1) a bs) (sym e)
        (user_write-Holds m a bs some' (ap (λ (x : Bool × M). x.0) (sym e) ∙ h))
