-- ===== src/Stream/Phases.antt =====
-- The registrations of one address (runHostConnection of poller/connection_stream.go).
use rackspace_monitoring_pol.Base.{
  ◌≡◌, refl, ◌∙◌, Bool, true, false, Option, none, some, List, [], ◌∷◌, ◌++◌,
}
use rackspace_monitoring_pol.Stream.Host.{
  Registration, register, deregister, Phase, connecting, waiting, sleeping, exited, Host, Step,
  no_connection, connect_failed, connected, authenticated, too_old, cancelled, closed,
  cancelled_asleep, slept, Reachable, start, next,
}

-- What one more registration makes of whether the address is registered; none if it is registered
-- twice.
abbrev pub after : Option Bool → Registration → Option Bool
after none r = none
after (some true) register = none
after (some false) register = some true
after (some b) deregister = some false

abbrev pub after_all : Option Bool → List Registration → Option Bool
after_all o [] = o
after_all o (r ∷ rs) = after_all (after o r) rs

after_all-append :
    (o : Option Bool) (rs : List Registration) (r : Registration)
    → after_all o (rs ++ r ∷ []) ≡ after (after_all o rs) r
after_all-append o [] r = refl
after_all-append o (x ∷ rs) r = after_all-append (after o x) rs r

-- Whether the phase has a registered connection.
abbrev pub is_open : Phase → Bool
is_open connecting = false
is_open (waiting r) = r
is_open sleeping = false
is_open (exited r) = r

abbrev pub Consistent : Host → Type 0
Consistent h = after_all (some false) h.registrations ≡ some (is_open h.phase)

Step-Consistent : (h h' : Host) → Step h h' → Consistent h → Consistent h'
Step-Consistent h h' (no_connection k) c = c
Step-Consistent h h' (connect_failed k) c = c
Step-Consistent h h' (connected k) c = c
Step-Consistent h h' (authenticated k) c =
    after_all-append (some false) k.registrations register ∙ rw c refl
Step-Consistent h h' (too_old r k) c = c
Step-Consistent h h' (cancelled r k) c = c
Step-Consistent h h' (closed false k) c =
    after_all-append (some false) k.registrations deregister ∙ rw c refl
Step-Consistent h h' (closed true k) c =
    after_all-append (some false) k.registrations deregister ∙ rw c refl
Step-Consistent h h' (cancelled_asleep k) c = c
Step-Consistent h h' (slept k) c = c

-- In every run for one address: no connection is registered while one is registered, every
-- registration but the last is followed by a deregistration, and the last one is not exactly while
-- (or if the goroutine returned while) a registered connection is open.
pub Reachable-Consistent : (h : Host) → Reachable h → Consistent h
Reachable-Consistent h start = refl
Reachable-Consistent h (next k h' r s) = Step-Consistent k h' s (Reachable-Consistent k r)
