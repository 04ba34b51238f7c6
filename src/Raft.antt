-- ===== src/Raft.antt =====
-- lab3/src_raft: the key-value store that is replicated by a leader.
pub mod Message
pub mod Node
pub mod Steps
pub mod Running
pub mod Leadership
pub mod Votes
pub mod Election
pub mod Exchange
pub mod Replication
pub mod Requests
