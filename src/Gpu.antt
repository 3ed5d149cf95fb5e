-- ===== src/Gpu.antt =====
-- hw/i386/shadps4-gpu.c: the front end of the GPU, its PM4 command buffers, queues and flips. Command
-- words are numbers below 2^32, already in the host's byte order.
pub mod Registers
pub mod Packets
pub mod Flatten
pub mod Guest
pub mod Execute
pub mod State
pub mod Submit
pub mod Queues
pub mod Tiling
pub mod Flips
pub mod Calls
pub mod Tests
