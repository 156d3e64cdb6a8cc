-- ===== src/Handover.antt =====
-- Both sides of a prepare and commit at once: the messages that endpoint/agent.go writes, handled by
-- poller/session.go, and the answers of the session, handled by the agent.
pub mod Declared
pub mod Entered
pub mod Blocks
pub mod Held
pub mod Prepare
pub mod Commit
