-- ===== src/Session/Hazards.antt =====
-- Histories that bring the frame handling of poller/session.go to a stop.
use rackspace_monitoring_pol.Session.State.{Session}
