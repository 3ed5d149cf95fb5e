-- ===== src/Rtc.antt =====
-- The RTC services of hw/i386/shadps4-hle.c.
pub mod Dates
pub mod Days
pub mod Ticks
pub mod Memory
pub mod Services
pub mod Clocks
pub mod Shift
pub mod Text
pub mod Calls
mod Tests
