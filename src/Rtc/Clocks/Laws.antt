-- ===== src/Rtc/Clocks/Laws.antt =====
-- The clocks of the RTC of hw/i386/shadps4-hle.c after they have been set.
use qemu_dll_shadps.Base.{
  ℕ, ◌+◌, ◌-◌, ◌/◌, ◌%◌, ◌^◌, ◌≤◌, ◌<◌, ◌≡◌, ◌≢◌, ◌∙◌, refl, ap, Option, none, some, length,
  length-set, get_elem?-set_self, get_elem?-set_ne, arith,
}
use qemu_dll_shadps.Rtc.Clocks.{
  Rtc, reset_rtc, Clock, user, network, debug, ad, index, offset_of, now, set_clock, set_conf,
}

pub record IsRtc (rtc : Rtc) : Type 0 where
  pub clocks : length rtc.tick_offset ≡ 4

-- The calls that change the RTC but do not set the clock `clock`, in any order.
pub data Others (clock : Clock) : Rtc → Rtc → Type 0 where
  none_more : (rtc : Rtc) → Others clock rtc rtc
  sets :
      (ns tick : ℕ) (other : Clock) {rtc rtc' : Rtc}
      → index other ≢ index clock
      → Others clock (set_clock ns rtc other tick) rtc'
      → Others clock rtc rtc'
  configures :
      (a2 a3 : ℕ) {rtc rtc' : Rtc} → Others clock (set_conf a2 a3 rtc) rtc' → Others clock rtc rtc'

pub reset_rtc-IsRtc : IsRtc reset_rtc
unfolding reset_rtc
reset_rtc-IsRtc = record { clocks = refl }

pub set_clock-IsRtc :
    (ns : ℕ) (rtc : Rtc) (clock : Clock) (tick : ℕ)
    → IsRtc rtc
    → IsRtc (set_clock ns rtc clock tick)
unfolding set_clock
set_clock-IsRtc ns rtc clock tick h = record { clocks = length-set rtc.tick_offset _ _ ∙ h.clocks }

index-lt : (clock : Clock) → index clock < 4
index-lt user = omega arith
index-lt network = omega arith
index-lt debug = omega arith
index-lt ad = omega arith

abbrev shown : Option ℕ → ℕ
shown o = elim o [ none ↦ 0 | some offset ↦ offset ]

offset_of-set_self :
    (ns : ℕ) (rtc : Rtc) (clock : Clock) (tick : ℕ)
    → IsRtc rtc
    → offset_of (set_clock ns rtc clock tick) clock
      ≡ (offset_of rtc clock + (tick + (2 ^ 64 - now ns rtc clock))) % 2 ^ 64
unfolding offset_of set_clock
offset_of-set_self ns rtc clock tick h =
    ap shown
      (get_elem?-set_self rtc.tick_offset (index clock) _ (omega (arith, h.clocks, index-lt clock)))

offset_of-set_other :
    (ns : ℕ) (rtc : Rtc) (other clock : Clock) (tick : ℕ)
    → index other ≢ index clock
    → offset_of (set_clock ns rtc other tick) clock ≡ offset_of rtc clock
unfolding offset_of set_clock
offset_of-set_other ns rtc other clock tick h =
    ap shown (get_elem?-set_ne rtc.tick_offset (index other) (index clock) _ h)

offset_of-Others :
    (clock : Clock) {rtc rtc' : Rtc}
    → Others clock rtc rtc'
    → offset_of rtc' clock ≡ offset_of rtc clock
unfolding offset_of set_conf
offset_of-Others clock (none_more rtc) = refl
offset_of-Others clock (sets ns tick other {rtc} h rest) =
    offset_of-Others clock rest ∙ offset_of-set_other ns rtc other clock tick h
offset_of-Others clock (configures a2 a3 rest) = offset_of-Others clock rest

-- Of four clocks, one that was set to a tick goes on from there: whatever other clocks are set
-- afterwards, and however SHADPS4_HLE_RTC_SET_CONF is called, it shows that tick and the microseconds
-- that have gone by since, as long as the host's clock does not go back and the sum is below 2 ^ 64.
pub now-set_clock :
    (ns ns' : ℕ) (rtc rtc' : Rtc) (clock : Clock) (tick : ℕ)
    → IsRtc rtc
    → ns ≤ ns'
    → tick + (ns' / 1000 - ns / 1000) < 2 ^ 64
    → Others clock (set_clock ns rtc clock tick) rtc'
    → now ns' rtc' clock ≡ tick + (ns' / 1000 - ns / 1000)
unfolding now
now-set_clock ns ns' rtc rtc' clock tick h later fits others =
    let e = offset_of-Others clock others ∙ offset_of-set_self ns rtc clock tick h in
    rw e (omega arith)
