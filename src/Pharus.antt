-- ===== src/Pharus.antt =====
-- Manager/AmpharosManager/AmpharosManager.{h,cc}: the manager of the divide-and-conquer mode.
-- A handler takes what its worker sends with tag TAG_PHARUS, in order, and returns the new state
-- beside what it answers; it blocks when a message is missing. Unit literals under assumption do
-- not occur: `pharusSendULs` has an empty body, `nbULs` stays 0 and so do the lists in the tree, so
-- that `addULs` and `pharusPushUpULsUNSAT` change nothing. Printing is left out.
pub mod Field
pub mod Transmission
pub mod Handlers
pub mod Deleted
pub mod Keeps
pub mod Refute
pub mod Split
pub mod FromRoot
pub mod Listener
pub mod Inherited
pub mod Rootless
pub mod Judged
pub mod Steps
pub mod Verdict
mod Tests
