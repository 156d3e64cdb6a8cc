-- ===== src/Examples/Trackers.antt =====
-- The theorems on endpoint/agent_tracker.go, at runs of two pollers.
use rackspace_monitoring_pol.Base.{ℕ, ◌≡◌, refl, arith, some, none, [], ◌∷◌, ◌++◌}
use rackspace_monitoring_pol.Base.Dict.{string_eq, nat_eq, lookup}
use rackspace_monitoring_pol.Base.Outcome.{blocked}
use rackspace_monitoring_pol.Protocol.Frame.{empty_frame}
use rackspace_monitoring_pol.Tracker.{
  handle_response, Tracked, Tracker, closed, already_observed, new_agent_tracker,
  new_agent_from_hello, close_agent_by_addr, handle_greeted_agent, greet_next, hello, greet,
  Reachable, start, next,
}
use rackspace_monitoring_pol.Tracker.Filed.{IsRouted, Reachable-IsRouted}
use rackspace_monitoring_pol.Tracker.Blocked.{greeted_late, late_greeting_blocks, duplicate_orphans}

abbrev first_agent : Tracked
first_agent = record { handle = 1; source_id = "poller" }

abbrev second_agent : Tracked
second_agent = record { handle = 2; source_id = "poller" }

abbrev no_agents : Tracker ℕ
no_agents = record {
  agents_by_source = [];
  agents_by_addr = [];
  agents_to_greet = [];
  metrics_posts = [];
  metrics = [];
  responses = [];
  notices = [];
}

abbrev two_agents : Tracker ℕ
two_agents = record no_agents {
  agents_by_source = ("poller", first_agent) ∷ [];
  agents_by_addr = (10, first_agent) ∷ (20, second_agent) ∷ [];
}

abbrev after_hello : Tracker ℕ
after_hello = new_agent_from_hello 10 first_agent ("zone" ∷ []) new_agent_tracker

after_hello-Reachable : Reachable (greet_next after_hello)
unfolding new_agent_tracker
after_hello-Reachable =
    next after_hello _
      (next new_agent_tracker _ start
        (hello 10 first_agent ("zone" ∷ []) new_agent_tracker (omega arith)))
      (greet after_hello)

Reachable-IsRouted_example : IsRouted (greet_next after_hello)
Reachable-IsRouted_example = Reachable-IsRouted (greet_next after_hello) after_hello-Reachable

late_greeting_blocks_example :
    let late = greeted_late 10 first_agent "zone" [] no_agents in
    (lookup "poller" late.agents_by_source ≡ some first_agent)
    × (lookup 10 late.agents_by_addr ≡ none)
    × (late.notices ≡ closed first_agent ∷ [])
    × (handle_greeted_agent second_agent late
        ≡ record late { notices = late.notices ++ already_observed second_agent ∷ [] })
    × (handle_response (record empty_frame { source = "poller" }) late ≡ blocked)
late_greeting_blocks_example =
    late_greeting_blocks 10 first_agent second_agent "zone" [] no_agents
      (record empty_frame { source = "poller" }) refl refl refl

duplicate_orphans_example :
    let t' = close_agent_by_addr 20 (handle_greeted_agent second_agent two_agents) in
    (lookup "poller" t'.agents_by_source ≡ none)
    × (lookup 10 t'.agents_by_addr ≡ some first_agent)
    × (t'.notices ≡ already_observed second_agent ∷ closed second_agent ∷ [])
unfolding lookup
duplicate_orphans_example =
    duplicate_orphans 10 20 first_agent second_agent two_agents refl refl refl (omega arith) refl
