-- ===== src/Examples/Connected.antt =====
-- The theorem on endpoint/basic_server.go, at a poller that is greeted, answers, and sends what is not
-- supported.
use rackspace_monitoring_pol.Base.{ℕ, Option, none, List, [], ◌∷◌}
use rackspace_monitoring_pol.Base.Int.{pos}
use rackspace_monitoring_pol.Base.Dict.{string_eq, nat_eq}
use rackspace_monitoring_pol.Json.{Value}
use rackspace_monitoring_pol.Protocol.Frame.{empty_frame}
use rackspace_monitoring_pol.Protocol.Methods.{method_heartbeat_post}
use rackspace_monitoring_pol.Protocol.Messages.{HandshakeParameters}
use rackspace_monitoring_pol.Tracker.{
  Tracked, Tracker, new_agent_tracker, new_agent_from_hello, greet_next,
}
use rackspace_monitoring_pol.Tracker.Serve.{Served, Incoming, decoded}
use rackspace_monitoring_pol.Tracker.Left.{Left}

abbrev poller : Tracked
poller = record { handle = 1; source_id = "poller" }

abbrev registered : Tracker ℕ
registered = greet_next (new_agent_from_hello 10 poller ("zone" ∷ []) new_agent_tracker)

abbrev served : Served ℕ
served = record { tracker = registered; replies = [] }

abbrev read_hello : Option Value → Option HandshakeParameters
read_hello v = none

abbrev read_post : Option Value → Option ℕ
read_post v = none

abbrev frames : List Incoming
frames =
    decoded 2 (pos 5) (record empty_frame { id = 1; method = method_heartbeat_post })
    ∷ decoded 2 (pos 5) (record empty_frame { id = 4; source = "poller" })
    ∷ decoded 3 (pos 6) (record empty_frame { id = 2; method = "poller.unknown" })
    ∷ []
