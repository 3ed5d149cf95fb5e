-- ===== src/Io.antt =====
-- hw/i386/shadps4-io.c: the bridge between the guest and the host's sound. An `int` is its 32-bit
-- pattern, so a negative number is above every upper bound.
pub mod Queues
pub mod Audio
mod Tests
