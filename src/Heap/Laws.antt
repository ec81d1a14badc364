-- ===== src/Heap/Laws.antt =====
-- The laws of the heap: what a run of the functions on it leaves in use.
mod Judgement
mod Blocks
mod Calls
mod Compose
pub use Judgement.*
pub use Blocks.*
pub use Calls.*
pub use Compose.*
