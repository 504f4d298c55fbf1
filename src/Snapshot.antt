-- ===== src/Snapshot.antt =====
-- code/process_snapshot/process_snapshot.c: the snapshot of the running processes and the rotation
-- of its files.
pub mod Filter
pub mod Files
pub mod Rotate
pub mod Proc
pub mod Collect
pub mod Lifecycle
pub mod Clock
pub mod Run
