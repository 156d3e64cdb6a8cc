-- ===== src/Tracker/Blocked.antt =====
-- What the tracker of endpoint/agent_tracker.go does when connections end early or twice.
use rackspace_monitoring_pol.Base.{
  ℕ, String, ◌≡◌, ◌≢◌, refl, true, some, none, List, [], ◌∷◌, ◌++◌, arith,
}
use rackspace_monitoring_pol.Base.Dict.{
  string_eq, nat_eq, lookup, insert, delete, lookup-insert, lookup-delete, ==_refl,
}
use rackspace_monitoring_pol.Base.Outcome.{blocked}
use rackspace_monitoring_pol.Protocol.Frame.{FrameMsg}
use rackspace_monitoring_pol.Tracker.{
  Tracked, Tracker, Notice, missing_zones, closed, is_closed, handle_response, already_observed,
  new_agent_from_hello, close_agent_by_addr, handle_greeted_agent, greet_next,
}

is_closed-told : (a : Tracked) (ns : List Notice) → is_closed a (ns ++ closed a ∷ []) ≡ true
unfolding is_closed
is_closed-told a [] = rw (==_refl a.handle) refl
is_closed-told a (missing_zones ∷ ns) = is_closed-told a ns
is_closed-told a (already_observed b ∷ ns) = is_closed-told a ns
is_closed-told a (closed b ∷ ns) = rw (is_closed-told a ns) (ground arith)

module _ {ℓ} {M : Type ℓ} where
  greeted-refused :
      (a b : Tracked) (t : Tracker M)
      → lookup b.source_id t.agents_by_source ≡ some a
      → handle_greeted_agent b t ≡ record t { notices = t.notices ++ already_observed b ∷ [] }
  unfolding handle_greeted_agent
  greeted-refused a b t e = rw (handle_greeted_agent, e) refl

  greeted-kept :
      (a : Tracked) (t : Tracker M)
      → lookup a.source_id t.agents_by_source ≡ none
      → handle_greeted_agent a t
        ≡ record t { agents_by_source = insert a.source_id a t.agents_by_source }
  unfolding handle_greeted_agent
  greeted-kept a t e = rw (handle_greeted_agent, e) refl

  closed_by :
      (addr : ℕ) (a : Tracked) (t : Tracker M)
      → lookup addr t.agents_by_addr ≡ some a
      → close_agent_by_addr addr t ≡ record t {
        agents_by_addr = delete addr t.agents_by_addr;
        agents_by_source = delete a.source_id t.agents_by_source;
        notices = t.notices ++ closed a ∷ [];
      }
  unfolding close_agent_by_addr
  closed_by addr a t e = rw (close_agent_by_addr, e) refl

  -- The tracker after a connection said hello and ended before the agent was greeted.
  abbrev pub greeted_late : ℕ → Tracked → String → List String → Tracker M → Tracker M
  greeted_late addr a zone zones t =
      greet_next (close_agent_by_addr addr (new_agent_from_hello addr a (zone ∷ zones) t))

  said_hello :
      (addr : ℕ) (a : Tracked) (zone : String) (zones : List String) (t : Tracker M)
      → close_agent_by_addr addr (new_agent_from_hello addr a (zone ∷ zones) t) ≡ record t {
        agents_to_greet = t.agents_to_greet ++ a ∷ [];
        agents_by_addr = delete addr (insert addr a t.agents_by_addr);
        agents_by_source = delete a.source_id t.agents_by_source;
        notices = t.notices ++ closed a ∷ [];
      }
  unfolding new_agent_from_hello
  said_hello addr a zone zones t = closed_by addr a _ (rw (lookup-insert, ==_refl) refl)

  late_state :
      (addr : ℕ) (a : Tracked) (zone : String) (zones : List String) (t : Tracker M)
      → t.agents_to_greet ≡ []
      → greeted_late addr a zone zones t ≡ record t {
        agents_to_greet = [];
        agents_by_addr = delete addr (insert addr a t.agents_by_addr);
        agents_by_source = insert a.source_id a (delete a.source_id t.agents_by_source);
        notices = t.notices ++ closed a ∷ [];
      }
  unfolding greet_next
  late_state addr a zone zones t q =
      rw (said_hello, q) (greeted-kept a _ (rw (lookup-delete, ==_refl) refl))

  closed-hangs :
      (f : FrameMsg) (a : Tracked) (t : Tracker M)
      → lookup f.source t.agents_by_source ≡ some a
      → is_closed a t.notices ≡ true
      → handle_response f t ≡ blocked
  unfolding handle_response
  closed-hangs f a t e gone = rw (handle_response, e, gone) refl

  -- If nobody waits to be greeted, a poller that says hello and whose connection ends before the
  -- tracker's goroutine greets the agent leaves the agent closed and observed, with no address to
  -- remove it by; a later agent of the same source is refused; and a response with that source blocks
  -- the connection that brings it for ever.
  pub late_greeting_blocks :
      (addr : ℕ) (a b : Tracked) (zone : String) (zones : List String) (t : Tracker M)
      (f : FrameMsg)
      → t.agents_to_greet ≡ []
      → b.source_id ≡ a.source_id
      → f.source ≡ a.source_id
      → let late = greeted_late addr a zone zones t in
        (lookup a.source_id late.agents_by_source ≡ some a)
        × (lookup addr late.agents_by_addr ≡ none)
        × (late.notices ≡ t.notices ++ closed a ∷ [])
        × (handle_greeted_agent b late
            ≡ record late { notices = late.notices ++ already_observed b ∷ [] })
        × (handle_response f late ≡ blocked)
  late_greeting_blocks addr a b zone zones t f q same same' =
      rw (late_state addr a zone zones t q) (
        rw (lookup-insert, ==_refl) refl,
        rw (lookup-delete, ==_refl) refl,
        refl,
        greeted-refused a b _ (rw (same, lookup-insert, ==_refl) refl),
        closed-hangs f a _ (rw (same', lookup-insert, ==_refl) refl) (is_closed-told a t.notices),
      )

  -- If an agent of the same source is observed and stands under another address, then the end of the
  -- connection of an agent that was refused as already observed makes the tracker forget the source:
  -- the first agent, which was not closed, is only left under its address.
  pub duplicate_orphans :
      (first addr : ℕ) (a b : Tracked) (t : Tracker M)
      → lookup a.source_id t.agents_by_source ≡ some a
      → lookup first t.agents_by_addr ≡ some a
      → lookup addr t.agents_by_addr ≡ some b
      → addr ≢ first
      → b.source_id ≡ a.source_id
      → let t' = close_agent_by_addr addr (handle_greeted_agent b t) in
        (lookup a.source_id t'.agents_by_source ≡ none)
        × (lookup first t'.agents_by_addr ≡ some a)
        × (t'.notices ≡ (t.notices ++ already_observed b ∷ []) ++ closed b ∷ [])
  duplicate_orphans first addr a b t o f l other same =
      let refused = record t { notices = t.notices ++ already_observed b ∷ [] } in
      rw (greeted-refused a b t (rw same o), closed_by addr b refused l)
        (
          rw (same, lookup-delete, ==_refl) refl,
          ground (arith, lookup-delete addr first t.agents_by_addr, nat_eq.equal_iff addr first),
          refl,
        )
