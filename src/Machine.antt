-- ===== src/Machine.antt =====
-- What every function of myfsck runs on: the globals of common.h, the disk image behind the
-- descriptor `device`, what has been printed, and the ways in which a run can end early.
pub mod Memory
pub mod State
pub mod Run
pub mod Frame
