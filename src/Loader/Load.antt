-- ===== src/Loader/Load.antt =====
-- shadps4_load_module: the containers' headers, the loadable segments, and what follows from them.
pub mod Headers
pub mod Segments
pub mod Loop
pub mod Finish
pub mod Module
pub mod Layout
