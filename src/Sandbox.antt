-- ===== src/Sandbox.antt =====
-- What both sandboxes of ephemora_cell share, of ephemora_cell/_sandbox_common.py: which directories a
-- guest may be given, and how much it may write.
pub mod Dirs
pub mod Output
