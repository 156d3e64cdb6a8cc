-- ===== src/Tracker/Left.antt =====
-- What a connection leaves behind in the registry (endpoint/basic_server.go).
use rackspace_monitoring_pol.Base.{
  ℕ, String, Option, some, none, length, false, ◌+◌, ◌≤◌, ◌≡◌, ◌≢◌, ◌↔◌,
}
use rackspace_monitoring_pol.Base.Dict.{nat_eq, string_eq, lookup}
use rackspace_monitoring_pol.Base.Outcome.{Outcome}
use rackspace_monitoring_pol.Json.{Value}
use rackspace_monitoring_pol.Protocol.Messages.{HandshakeParameters}
use rackspace_monitoring_pol.Tracker.{
  Tracked, Tracker, is_closed, greeter_chan_size, metrics_posts_chan_size, Reachable,
}
use rackspace_monitoring_pol.Tracker.Serve.{Served, End, finished}

-- For so many frames, the two channels have room.
abbrev pub HasRoom : {M : Type 0} → ℕ → Tracker M → Type 0
HasRoom n t =
    (n + length t.agents_to_greet ≤ greeter_chan_size)
    × (n + length t.metrics_posts ≤ metrics_posts_chan_size)

-- No agent that is kept under a source was closed.
abbrev pub AreOpen : {M : Type 0} → Tracker M → Type 0
AreOpen t =
    (s : String) (a : Tracked)
    → lookup s t.agents_by_source ≡ some a
    → is_closed a t.notices ≡ false

module _ {M : Type 0} (addr : ℕ) where
  -- Reachable, registered under the address, with room, and with open agents.
  abbrev Kept : ℕ → Tracker M → Type 0
  Kept n t = Reachable t × (lookup addr t.agents_by_addr ≢ none) × HasRoom n t × AreOpen t

  module _ (read_hello : Option Value → Option HandshakeParameters)
      (read_post : Option Value → Option M) where
    -- The registry is as far as it can be reached, and holds the address unless the frames have ended.
    abbrev pub Left : Served M × End → Type 0
    Left (s, e) =
        Reachable s.tracker × ((lookup addr s.tracker.agents_by_addr ≡ none) ↔ (e ≡ finished))
