-- ===== src/Protocol.antt =====
-- protocol.py: the documents of the boot protocol and the planner.
pub mod Errors
pub mod Modes
pub mod Checks
pub mod Entry
pub mod Menu
pub mod Manifest
pub mod Token
pub mod Plan
pub mod Sorted
