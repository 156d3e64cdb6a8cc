-- ===== src/Session.antt =====
-- poller/session.go: one session between the poller and an endpoint server.
-- The session's goroutines share one struct; each of them handles one message, tick or timer at a
-- time, which is one step here. A channel is the list of what waits in it (its capacity is not
-- modelled), and what the session hands to others (frames, events, prepared checks) is recorded in
-- the state.
pub mod State
pub mod Prepare
pub mod Exchange
pub mod Heartbeat
pub mod Loop
pub mod Coherence
pub mod Crashes
pub mod Versions
pub mod Hazards
pub mod Correlation
pub mod Measured
