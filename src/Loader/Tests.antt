-- ===== src/Loader/Tests.antt =====
-- Concrete runs of the loader: files, modules and memories on which its properties apply.
pub mod Memories
mod Files
mod Tables
mod Relocations
mod Linking
mod Images
