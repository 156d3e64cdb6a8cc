-- ===== src/Tracker.antt =====
-- endpoint/agent_tracker.go: the endpoint's registry of the pollers that said hello, and what
-- endpoint/basic_server.go calls of it for one connection. The goroutine of each connection and that
-- of the tracker interleave: a run is a sequence of steps of either.
pub mod Decompose
pub mod Routed
pub mod Serve
pub mod Left
pub mod Filed
pub mod Blocked
use rackspace_monitoring_pol.Base.{
  ℕ, ◌<◌, String, Bool, true, false, Option, some, none, List, [], ◌∷◌, ◌++◌, length, ◌==◌, ◌||◌,
  ◌≡◌, if◌then◌else◌,
}
use rackspace_monitoring_pol.Base.Dict.{Dict, string_eq, nat_eq, lookup, insert, delete}
use rackspace_monitoring_pol.Base.Outcome.{Outcome, ok, blocked}
use rackspace_monitoring_pol.Protocol.Frame.{FrameMsg}

-- What the tracker uses of a *agent: which object it is, and the source of its hello.
pub record Tracked : Type 0 where
  pub handle : ℕ
  pub source_id : String

-- An error sent to an agent's channel, or its Close.
pub data Notice : Type 0 where
  missing_zones : Notice
  already_observed : Tracked → Notice
  closed : Tracked → Notice

-- Whether Close of that agent object was called.
unfoldable pub is_closed : Tracked → List Notice → Bool
is_closed a [] = false
is_closed a (closed b ∷ ns) = b.handle == a.handle || is_closed a ns
is_closed a (missing_zones ∷ ns) = is_closed a ns
is_closed a (already_observed b ∷ ns) = is_closed a ns

-- The content of a metrics post is only passed on: a type M. An address is the object that the
-- connection returns as its RemoteAddr, which is what Go compares. `responses` and `metrics` are what
-- was sent to the agents' response channels and to the decomposer.
pub record Tracker {ℓ} (M : Type ℓ) : Type ℓ where
  pub agents_by_source : Dict String Tracked
  pub agents_by_addr : Dict ℕ Tracked
  pub agents_to_greet : List Tracked
  pub metrics_posts : List (String × M)
  pub metrics : List (Tracked × M)
  pub responses : List (Tracked × FrameMsg)
  pub notices : List Notice

abbrev pub greeter_chan_size : ℕ
greeter_chan_size = 10

abbrev pub metrics_posts_chan_size : ℕ
metrics_posts_chan_size = 50

module _ {ℓ} {M : Type ℓ} where
  unfoldable pub new_agent_tracker : Tracker M
  new_agent_tracker = record {
    agents_by_source = [];
    agents_by_addr = [];
    agents_to_greet = [];
    metrics_posts = [];
    metrics = [];
    responses = [];
    notices = [];
  }

  abbrev pub tell : Notice → Tracker M → Tracker M
  tell n t = record t { notices = t.notices ++ n ∷ [] }

  -- NewAgentFromHello: newAgent refuses a hello without zones. The send blocks on a full channel, which
  -- is a condition of the step.
  unfoldable pub new_agent_from_hello : ℕ → Tracked → List String → Tracker M → Tracker M
  new_agent_from_hello addr a [] t = tell missing_zones t
  new_agent_from_hello addr a (zone ∷ zones) t = record t {
    agents_to_greet = t.agents_to_greet ++ a ∷ [];
    agents_by_addr = insert addr a t.agents_by_addr;
  }

  unfoldable pub close_agent_by_addr : ℕ → Tracker M → Tracker M
  close_agent_by_addr addr t = elim (lookup addr t.agents_by_addr) [
    | none ↦ t
    | some a ↦ tell (closed a) (record t {
      agents_by_addr = delete addr t.agents_by_addr;
      agents_by_source = delete a.source_id t.agents_by_source;
    })
  ]

  -- The goroutine that applies the initial checks is left out: it reads files and hands a bundle to
  -- the agent.
  unfoldable pub handle_greeted_agent : Tracked → Tracker M → Tracker M
  handle_greeted_agent a t = elim (lookup a.source_id t.agents_by_source) [
    | some other ↦ tell (already_observed a) t
    | none ↦ record t { agents_by_source = insert a.source_id a t.agents_by_source }
  ]

  unfoldable pub handle_metrics_post_req : String → M → Tracker M → Tracker M
  handle_metrics_post_req source p t = elim (lookup source t.agents_by_source) [
    | none ↦ t
    | some a ↦ record t { metrics = t.metrics ++ (a, p) ∷ [] }
  ]

  -- agent.HandleResponse sends on a channel without a buffer. The agent's goroutine receives from it
  -- until its Close has cancelled it: the send to a closed agent blocks for ever. (While the agent is
  -- open the send waits at most for the goroutine's turn.)
  unfoldable pub handle_response : FrameMsg → Tracker M → Outcome (Tracker M)
  unfolding is_closed
  handle_response f t = elim (lookup f.source t.agents_by_source) [
    | none ↦ ok t
    | some a ↦
        if is_closed a t.notices
        then blocked
        else ok (record t { responses = t.responses ++ (a, f) ∷ [] })
  ]

  unfoldable pub handle_check_metrics_post : String → M → Tracker M → Tracker M
  handle_check_metrics_post source p t = record t {
    metrics_posts = t.metrics_posts ++ (source, p) ∷ [];
  }

  -- One turn of runAgentInteractions on its first channel, and on its second.
  unfoldable pub greet_next : Tracker M → Tracker M
  unfolding handle_greeted_agent
  greet_next t = elim t.agents_to_greet [
    | [] ↦ t
    | a ∷ queue ↦ handle_greeted_agent a (record t { agents_to_greet = queue })
  ]

  unfoldable pub post_next : Tracker M → Tracker M
  unfolding handle_metrics_post_req
  post_next t = elim t.metrics_posts [
    | [] ↦ t
    | post ∷ queue ↦ handle_metrics_post_req post.0 post.1 (record t { metrics_posts = queue })
  ]

  -- The steps of the connections' goroutines (a hello, a metrics post, a response, the end of the
  -- frames) and those of the tracker's. A hello's send and its write are one step: the tracker's
  -- goroutine never reads agentsByAddr.
  pub data Step : Tracker M → Tracker M → Type ℓ where
    hello :
        (addr : ℕ) (a : Tracked) (zones : List String) (t : Tracker M)
        → length t.agents_to_greet < greeter_chan_size
        → Step t (new_agent_from_hello addr a zones t)
    refused_hello :
        (addr : ℕ) (a : Tracked) (t : Tracker M) → Step t (new_agent_from_hello addr a [] t)
    post :
        (source : String) (p : M) (t : Tracker M)
        → length t.metrics_posts < metrics_posts_chan_size
        → Step t (handle_check_metrics_post source p t)
    respond : (f : FrameMsg) (t t' : Tracker M) → handle_response f t ≡ ok t' → Step t t'
    finish : (addr : ℕ) (t : Tracker M) → Step t (close_agent_by_addr addr t)
    greet : (t : Tracker M) → Step t (greet_next t)
    forward : (t : Tracker M) → Step t (post_next t)

  pub data Reachable : Tracker M → Type ℓ where
    start : Reachable new_agent_tracker
    next : (t t' : Tracker M) → Reachable t → Step t t' → Reachable t'
