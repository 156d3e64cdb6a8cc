-- ===== src/Examples.antt =====
-- Concrete states and messages, and the theorems at them.
mod Connections
mod Configs
mod Data
mod Handover
mod Preparing
mod Sessions
mod Agents
mod Schedulers
mod Streams
mod Messages
mod Trackers
mod Pings
mod Runs
mod Posts
mod Connected
mod Plugins
