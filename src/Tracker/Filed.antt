-- ===== src/Tracker/Filed.antt =====
-- Under which source the tracker of endpoint/agent_tracker.go keeps an agent, in any run.
use mathlib.Core.Path.{subst}
use rackspace_monitoring_pol.Base.{
  ℕ, String, ◌≡◌, some, List, [], ◌∷◌, arith, Option-cases, Bool-cases, inl, inr, All, All-append,
}
use rackspace_monitoring_pol.Base.Dict.{
  Dict, string_eq, nat_eq, lookup, insert, delete, lookup-insert, lookup-delete,
}
use rackspace_monitoring_pol.Base.Outcome.{ok, IfReturns}
use rackspace_monitoring_pol.Protocol.Frame.{FrameMsg}
use rackspace_monitoring_pol.Tracker.{
  Tracked, Tracker, is_closed, new_agent_tracker, new_agent_from_hello, close_agent_by_addr,
  handle_greeted_agent, handle_metrics_post_req, handle_response, handle_check_metrics_post,
  greet_next, post_next, Step, hello, refused_hello, post, respond, finish, greet, forward,
  Reachable, start, next,
}

-- Every agent stands under the source of its own hello.
abbrev pub Filed : Dict String Tracked → Type 0
Filed m = (s : String) (a : Tracked) → lookup s m ≡ some a → a.source_id ≡ s

insert-Filed : (a : Tracked) (m : Dict String Tracked) → Filed m → Filed (insert a.source_id a m)
insert-Filed a m f s b l =
    ground (arith, rw lookup-insert at l, string_eq.equal_iff a.source_id s, f s b)

delete-Filed : (k : String) (m : Dict String Tracked) → Filed m → Filed (delete k m)
delete-Filed k m f s b l = ground (arith, rw lookup-delete at l, f s b)

abbrev pub IsRouted {ℓ} : {M : Type ℓ} → Tracker M → Type 0
IsRouted t = Filed t.agents_by_source × All (λ r. r.0.source_id ≡ r.1.source) t.responses

module _ {ℓ} {M : Type ℓ} where
  close-IsRouted : (addr : ℕ) (t : Tracker M) → IsRouted t → IsRouted (close_agent_by_addr addr t)
  unfolding close_agent_by_addr
  close-IsRouted addr t c = elim (Option-cases (lookup addr t.agents_by_addr)) [
    | inl e ↦ rw (close_agent_by_addr, e) c
    | inr (a, e) ↦
        rw (close_agent_by_addr, e) (delete-Filed a.source_id t.agents_by_source c.0, c.1)
  ]

  greeted-IsRouted :
      (a : Tracked) (t : Tracker M) → IsRouted t → IsRouted (handle_greeted_agent a t)
  unfolding handle_greeted_agent
  greeted-IsRouted a t c = elim (Option-cases (lookup a.source_id t.agents_by_source)) [
    | inl e ↦ rw (handle_greeted_agent, e) (insert-Filed a t.agents_by_source c.0, c.1)
    | inr (b, e) ↦ rw (handle_greeted_agent, e) c
  ]

  handle_response-IsRouted :
      (f : FrameMsg) (t : Tracker M) → IsRouted t → IfReturns (handle_response f t) IsRouted
  unfolding handle_response
  handle_response-IsRouted f t c = elim (Option-cases (lookup f.source t.agents_by_source)) [
    | inl e ↦ rw (handle_response, e) c
    | inr (a, e) ↦ elim (Bool-cases (is_closed a t.notices)) [
      | inl gone ↦ rw (handle_response, e, gone) tt
      | inr alive ↦
          rw (handle_response, e, alive)
            (c.0, All-append _ t.responses _ c.1 (c.0 f.source a e, tt))
    ]
  ]

  respond-IsRouted :
      (f : FrameMsg) (t t' : Tracker M) → handle_response f t ≡ ok t' → IsRouted t → IsRouted t'
  respond-IsRouted f t t' h c = subst (λ m. IfReturns m IsRouted) h (handle_response-IsRouted f t c)

  metrics-IsRouted :
      (s : String) (p : M) (t : Tracker M) → IsRouted t → IsRouted (handle_metrics_post_req s p t)
  unfolding handle_metrics_post_req
  metrics-IsRouted s p t c = elim (Option-cases (lookup s t.agents_by_source)) [
    | inl e ↦ rw (handle_metrics_post_req, e) c
    | inr (a, e) ↦ rw (handle_metrics_post_req, e) c
  ]

  greet_queue-IsRouted :
      (queue : List Tracked) (t : Tracker M)
      → IsRouted t
      → IsRouted (greet_next (record t { agents_to_greet = queue }))
  unfolding greet_next
  greet_queue-IsRouted [] t c = c
  greet_queue-IsRouted (a ∷ queue) t c = greeted-IsRouted a (record t { agents_to_greet = queue }) c

  post_queue-IsRouted :
      (queue : List (String × M)) (t : Tracker M)
      → IsRouted t
      → IsRouted (post_next (record t { metrics_posts = queue }))
  unfolding post_next
  post_queue-IsRouted [] t c = c
  post_queue-IsRouted ((s, p) ∷ queue) t c =
      metrics-IsRouted s p (record t { metrics_posts = queue }) c

  hello-IsRouted :
      (addr : ℕ) (a : Tracked) (zones : List String) (t : Tracker M)
      → IsRouted t
      → IsRouted (new_agent_from_hello addr a zones t)
  unfolding new_agent_from_hello
  hello-IsRouted addr a [] t c = c
  hello-IsRouted addr a (z ∷ zones) t c = c

  Step-IsRouted : (t t' : Tracker M) → Step t t' → IsRouted t → IsRouted t'
  unfolding handle_check_metrics_post
  Step-IsRouted t t' (hello addr a zones k room) c = hello-IsRouted addr a zones k c
  Step-IsRouted t t' (refused_hello addr a k) c = hello-IsRouted addr a [] k c
  Step-IsRouted t t' (post s p k room) c = c
  Step-IsRouted t t' (respond f k k' h) c = respond-IsRouted f k k' h c
  Step-IsRouted t t' (finish addr k) c = close-IsRouted addr k c
  Step-IsRouted t t' (greet k) c = greet_queue-IsRouted k.agents_to_greet k c
  Step-IsRouted t t' (forward k) c = post_queue-IsRouted k.metrics_posts k c

  -- In every run of the connections' goroutines with that of the tracker, each agent that is kept
  -- stands under the source of its own hello, and each response was handed to an agent whose hello had
  -- the response's source.
  pub Reachable-IsRouted : (t : Tracker M) → Reachable t → IsRouted t
  unfolding new_agent_tracker lookup
  Reachable-IsRouted t start = (λ s a l. cc, tt)
  Reachable-IsRouted t (next k t' r s) = Step-IsRouted k t' s (Reachable-IsRouted k r)
