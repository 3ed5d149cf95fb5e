-- ===== src/Loader.antt =====
-- hw/i386/shadps4-loader.c: the ELF/SELF image loader and linker.
pub mod Types
pub mod Range
pub mod EncodeId
pub mod Memory
pub mod HostFile
pub mod SelfMap
pub mod Dynamic
pub mod Relocate
pub mod Process
pub mod Link
pub mod Load
mod Tests
