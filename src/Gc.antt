-- ===== src/Gc.antt =====
-- The garbage collector, src/m_gc_*.c.
pub mod Root
pub mod Bitmap
pub mod Obj
pub mod Map
pub mod Buf
pub mod Startup
pub mod Sweep
pub mod Collect
pub mod Unmarked
pub mod Api
