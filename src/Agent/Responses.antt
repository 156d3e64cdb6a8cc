-- ===== src/Agent/Responses.antt =====
-- The answers to the agent's own prepares and commits (endpoint/agent.go).
use rackspace_monitoring_pol.Base.{
  ℕ, String, ◌≡◌, ◌≢◌, refl, ◌∙◌, eq_iff, ◌==◌, arith, Bool-cases, inl, inr, if◌then◌else◌, true,
  false, some, none, [], ◌∷◌, ◌++◌, str_eq,
}
use rackspace_monitoring_pol.Base.Words.{signed}
use rackspace_monitoring_pol.Base.Dict.{
  Dict, insert, string_eq, lookup, delete, nat_eq, lookup-insert, lookup-delete, ==_refl,
}
use rackspace_monitoring_pol.Protocol.Frame.{FrameMsg}
use rackspace_monitoring_pol.Protocol.Messages.{
  PollerPrepareResult, decode_prepare_result, encode_commit,
}
use rackspace_monitoring_pol.Protocol.Methods.{method_poller_commit}
use rackspace_monitoring_pol.Agent.{
  Agent, PendingPrepare, frame_to, next_id, handle_response, dispatch_result,
  handle_prepare_response, handle_commit_response,
}

-- The pending messages, without the one of an id.
abbrev pub Forgets : ℕ → Agent → Agent → Type 0
Forgets id a a' =
    (k : ℕ) → lookup k a'.pending_prepares ≡ (if k == id then none else lookup k a.pending_prepares)

-- The pending messages, in which the commit `next` of a pending prepare takes the place of `id`.
abbrev pub Replaces : ℕ → ℕ → PendingPrepare → Agent → Agent → Type 0
Replaces id next pending a a' =
    (k : ℕ)
    → lookup k a'.pending_prepares ≡ (
        if k == next
        then some (record pending { committing = true })
        else if k == id
        then none
        else lookup k a.pending_prepares)

pub Replaces-next :
    (id next : ℕ) (pending : PendingPrepare) (a a' : Agent)
    → Replaces id next pending a a'
    → lookup next a'.pending_prepares ≡ some (record pending { committing = true })
Replaces-next id next pending a a' h = h next ∙ rw (==_refl next) refl

-- What the answer `r` under the id `id` to the agent's message leads to.
abbrev pub ResponseEffect : ℕ → PollerPrepareResult → PendingPrepare → Agent → Agent → Type 0
ResponseEffect id r pending a a' =
    (pending.committing ≡ false
      → r.status ≡ "prepared"
      → (a'.sent
          ≡ a.sent
            ++ frame_to (next_id a.out_msg_id) method_poller_commit
                (encode_commit (record { zone_id = ""; version = signed pending.version }))
              ∷ [])
        × Replaces id (next_id a.out_msg_id) pending a a'
        × (a'.committed_checks ≡ a.committed_checks))
    × (pending.committing ≡ false
        → r.status ≢ "prepared"
        → (a'.sent ≡ a.sent) × Forgets id a a' × (a'.committed_checks ≡ a.committed_checks))
    × (pending.committing ≡ true
        → r.status ≡ "committed"
        → (a'.sent ≡ a.sent) × Forgets id a a' × (a'.committed_checks ≡ some pending.check_ids))
    × (pending.committing ≡ true → r.status ≢ "committed" → a' ≡ a)

other_status : (s t : String) → s ≢ t → str_eq s t ≡ false
other_status s t h = elim (Bool-cases (str_eq s t)) [
  | inl e ↦ absurd (h ((eq_iff s t).0 e))
  | inr e ↦ e
]

forgets :
    (id : ℕ) (a : Agent)
    → Forgets id a (record a { pending_prepares = delete id a.pending_prepares })
forgets id a k = ground (arith, lookup-delete id k a.pending_prepares)

replaces :
    (id next k : ℕ) (commit : PendingPrepare) (m : Dict ℕ PendingPrepare)
    → lookup k (insert next commit (delete id m))
      ≡ (if k == next then some commit else if k == id then none else lookup k m)
replaces id next k commit m =
    ground (arith, lookup-insert next k commit (delete id m), lookup-delete id k m)

dispatched-effect :
    (f : FrameMsg) (r : PollerPrepareResult) (pending : PendingPrepare) (a : Agent)
    → ResponseEffect f.id r pending a (
        if pending.committing
        then handle_commit_response f r pending a
        else handle_prepare_response f r pending a)
unfolding handle_prepare_response handle_commit_response
dispatched-effect f r pending a =
    let id = next_id a.out_msg_id in
    let commit : PendingPrepare = record pending { committing = true } in
    (
      λ c s. rw (c, s) (refl, λ k. replaces f.id id k commit a.pending_prepares, refl),
      λ c s. rw (c, other_status r.status "prepared" s) (refl, forgets f.id a, refl),
      λ c s. rw (c, s) (refl, forgets f.id a, refl),
      λ c s. rw (c, other_status r.status "committed" s) refl,
    )

-- The response with the id of a pending message: when it is the answer `prepared` to a prepare, the
-- agent writes the commit of that version, and the commit, under its own id, takes the place of the
-- prepare among the pending messages; any other status removes the prepare and writes nothing. When
-- it is the answer `committed` to a commit, the checks of that prepare become the committed checks
-- and the commit is removed; any other status to a commit changes nothing, so it stays pending. All
-- other pending messages stay as they are.
pub handle_response-effect :
    (f : FrameMsg) (r : PollerPrepareResult) (pending : PendingPrepare) (a : Agent)
    → lookup f.id a.pending_prepares ≡ some pending
    → decode_prepare_result f.raw_result ≡ some r
    → ResponseEffect f.id r pending a (handle_response f a)
unfolding handle_response
handle_response-effect f r pending a e d =
    rw (handle_response, e, dispatch_result, d) (dispatched-effect f r pending a)
