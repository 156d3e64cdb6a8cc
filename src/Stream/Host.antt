-- ===== src/Stream/Host.antt =====
-- runHostConnection (poller/connection_stream.go): the goroutine that keeps one address connected, as
-- a step relation. What it puts into the registrations channel is recorded in order; the lengths of
-- its sleeps, which the backoff decides, play no part.
use rackspace_monitoring_pol.Base.{Bool, true, false, List, [], ◌∷◌, ◌++◌}

pub data Registration : Type 0 where
  register deregister : Registration

pub data Phase : Type 0 where
  -- at the head of the reconnect loop
  connecting : Phase
  -- in the inner select; whether the connection is registered (`pendingAuth` is nil then)
  waiting : Bool → Phase
  sleeping : Phase
  -- returned; whether a registered connection was left behind
  exited : Bool → Phase

pub record Host : Type 0 where
  pub phase : Phase
  pub registrations : List Registration

abbrev pub new_host : Host
new_host = record { phase = connecting; registrations = [] }

abbrev pub enter : Phase → Host → Host
enter p h = record h { phase = p }

abbrev pub announce : Registration → Phase → Host → Host
announce r p h = record { phase = p; registrations = h.registrations ++ r ∷ [] }

pub data Step : Host → Host → Type 0 where
  no_connection : (h : Host) → Step (enter connecting h) (enter (exited false) h)
  connect_failed : (h : Host) → Step (enter connecting h) (enter sleeping h)
  connected : (h : Host) → Step (enter connecting h) (enter (waiting false) h)
  authenticated : (h : Host) → Step (enter (waiting false) h) (announce register (waiting true) h)
  too_old : (r : Bool) (h : Host) → Step (enter (waiting r) h) (enter (waiting r) h)
  cancelled : (r : Bool) (h : Host) → Step (enter (waiting r) h) (enter (exited r) h)
  closed : (r : Bool) (h : Host) → Step (enter (waiting r) h) (announce deregister sleeping h)
  cancelled_asleep : (h : Host) → Step (enter sleeping h) (enter (exited false) h)
  slept : (h : Host) → Step (enter sleeping h) (enter connecting h)

pub data Reachable : Host → Type 0 where
  start : Reachable new_host
  next : (h h' : Host) → Reachable h → Step h h' → Reachable h'
