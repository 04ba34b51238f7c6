-- ===== src/TwoPhase.antt =====
-- lab3/src_2pc: the key-value store with two-phase commit.
pub mod Message
pub mod Database
pub mod Receive
pub mod Participant
pub mod Coordinator
