-- ===== src/Rtc/Calls/Frame.antt =====
-- What an RTC service of hw/i386/shadps4-hle.c can do to guest memory: nothing, or one write to the
-- user's part of it.
use qemu_dll_shadps.Base.{
  ℕ, ◌<◌, ◌≡◌, refl, inl, inr, Bool, true, false, Option, none, some, List, ltb, ◌==◌,
  if◌then◌else◌, length, Bool-cases, Result, ok, err, arith,
}
use qemu_dll_shadps.Gpu.Guest.{GuestMemory, IsGuest}
use qemu_dll_shadps.Gpu.Guest.Words.{guest_write-frame}
use qemu_dll_shadps.Rtc.Dates.{RtcError, RtcDateTime}
use qemu_dll_shadps.Rtc.Memory.{
  guest_user_min, user_write, write_date, write_tick, Reply, answer, reading, given, unless,
}

module _ {M : Type 0} (guest : GuestMemory M) (peek : M → ℕ → ℕ)
    (is_guest : IsGuest guest peek) where
  -- The two memories have the same bytes below the user's part.
  pub record Keeps (m m' : M) : Type 0 where
    pub same : (x : ℕ) → x < guest_user_min → peek m' x ≡ peek m x

  pub Keeps-refl : (m : M) → Keeps m m
  Keeps-refl m = record { same = λ x h. refl }

  pub user_write-Keeps : (m : M) (a : ℕ) (bs : List ℕ) → Keeps m (user_write guest m a bs).1
  unfolding user_write
  user_write-Keeps m a bs = record {
    same = λ x h. elim (Bool-cases (length bs == 0)) [
      | inl empty ↦ rw empty refl
      | inr some' ↦ elim (Bool-cases (ltb a guest_user_min)) [
        | inl low ↦ rw (some', low) refl
        | inr high ↦
            rw (some', high) (guest_write-frame guest peek is_guest m a bs x (inl (ground arith)))
      ]
    ];
  }

  -- A write that is not done at a null pointer.
  pub checked-Keeps :
      (m : M) (a : ℕ) (w : Bool × M) → Keeps m w.1 → Keeps m (if a == 0 then (false, m) else w).1
  checked-Keeps m a w h = elim (Bool-cases (a == 0)) [
    | inl null ↦ rw null (Keeps-refl m)
    | inr mapped ↦ rw mapped h
  ]

  pub write_date-Keeps :
      (m : M) (a : ℕ) (date : RtcDateTime) → Keeps m (write_date guest m a date).1
  unfolding write_date
  write_date-Keeps m a date = checked-Keeps m a (user_write guest m a _) (user_write-Keeps m a _)

  pub write_tick-Keeps : (m : M) (a tick : ℕ) → Keeps m (write_tick guest m a tick).1
  unfolding write_tick
  write_tick-Keeps m a tick = checked-Keeps m a (user_write guest m a _) (user_write-Keeps m a _)

  pub answer-Keeps : (m : M) (w : Bool × M) → Keeps m w.1 → Keeps m (answer w).memory
  answer-Keeps m (true, m') h = h
  answer-Keeps m (false, m') h = h

  pub reading-Keeps {ℓ} :
      {A : Type ℓ} (o : Option A) (m : M) (next : A → Reply M)
      → ((a : A) → Keeps m (next a).memory)
      → Keeps m (reading o m next).memory
  reading-Keeps none m next h = Keeps-refl m
  reading-Keeps (some a) m next h = h a

  pub given-Keeps {ℓ} :
      {A : Type ℓ} (r : Result RtcError A) (m : M) (next : A → Reply M)
      → ((a : A) → Keeps m (next a).memory)
      → Keeps m (given r m next).memory
  given-Keeps (err e) m next h = Keeps-refl m
  given-Keeps (ok a) m next h = h a

  pub unless-Keeps :
      (test : Bool) (e : RtcError) (m : M) (rest : Reply M)
      → Keeps m rest.memory
      → Keeps m (unless test e m rest).memory
  unless-Keeps true e m rest h = Keeps-refl m
  unless-Keeps false e m rest h = h

  -- The end of a service that stores what it made, and of one that first reads.
  pub stores :
      {A : Type 0} (r : Result RtcError A) (m : M) (w : A → Bool × M)
      → ((a : A) → Keeps m (w a).1)
      → Keeps m (given r m (λ a. answer (w a))).memory
  stores r m w h = given-Keeps r m (λ a. answer (w a)) (λ a. answer-Keeps m (w a) (h a))
