-- ===== src/Handover/Commit.antt =====
-- The answer `prepared` at the agent (endpoint/agent.go), its commit at the session
-- (poller/session.go), and the answer to that at the agent.
use rackspace_monitoring_pol.Base.{
  ℕ, ◌+◌, ◌%◌, ◌^◌, String, ◌≡◌, refl, ap, ◌∙◌, true, false, Option, none, some, List, [], ◌∷◌,
  ◌++◌, arith,
}
use rackspace_monitoring_pol.Base.Int.{ℤ}
use rackspace_monitoring_pol.Base.Words.{signed, InRange}
use rackspace_monitoring_pol.Base.Dict.{lookup, nat_eq, lookup-insert, ==_refl}
use rackspace_monitoring_pol.Base.Outcome.{ok}
use rackspace_monitoring_pol.Protocol.Frame.{
  FrameMsg, set_source, set_target, set_response_frame_msg,
}
use rackspace_monitoring_pol.Protocol.Checks.{CheckIn}
use rackspace_monitoring_pol.Protocol.Messages.{
  PollerPrepareResult, PollerCommitParams, encode_commit,
}
use rackspace_monitoring_pol.Protocol.Methods.{method_poller_commit, prepare_result_status_prepared}
use rackspace_monitoring_pol.Protocol.Roundtrip.{decode-encode_commit, decode-encode_prepare_result}
use rackspace_monitoring_pol.Preparation.{ChecksPreparation, eq_ℤ}
use rackspace_monitoring_pol.Session.State.{Session}
use rackspace_monitoring_pol.Session.Prepare.{
  result_of, commit, commit_prepare, handle_poller_commit, accept_commit,
}
use rackspace_monitoring_pol.Session.Exchange.{respond}
use rackspace_monitoring_pol.Session.Loop.{handle_frame}
use rackspace_monitoring_pol.Session.Versions.{reply, committed_result}
use rackspace_monitoring_pol.Agent.{
  Agent, PendingPrepare, frame_to, next_id, prepare_checks, handle_response, check_ids_of, announce,
}
use rackspace_monitoring_pol.Agent.Blocks.{start_frame, send_blocks-split}
use rackspace_monitoring_pol.Agent.Responses.{handle_response-effect, Replaces-next}
use rackspace_monitoring_pol.Handover.Blocks.{signed-InRange, eq_ℤ_refl}
use rackspace_monitoring_pol.Handover.Prepare.{concluded}

-- A result as the session addresses it.
abbrev pub addressed : Session → FrameMsg → PollerPrepareResult → FrameMsg
addressed s f result = set_source s.guid (set_target "endpoint" (reply f result))

abbrev commit_params : ℤ → PollerCommitParams
commit_params v = record { zone_id = ""; version = v }

abbrev pub commit_frame : ℕ → ℤ → FrameMsg
commit_frame id v = frame_to id method_poller_commit (encode_commit (commit_params v))

-- The agent awaits the answer to the prepare that it has just sent.
prepare_checks-pending :
    (to_start to_restart : List CheckIn) (a : Agent)
    → lookup (next_id a.out_msg_id) (prepare_checks to_start to_restart a).pending_prepares
      ≡ some (record {
        version = (a.checks_version + 1) % 2 ^ 64;
        check_ids = check_ids_of (to_start ++ to_restart);
        committing = false;
      })
unfolding prepare_checks
prepare_checks-pending to_start to_restart a =
    let id = next_id a.out_msg_id in
    rw
      (
        send_blocks-split (to_start ++ to_restart) [] (announce to_start to_restart a),
        lookup-insert id id
            (record {
              version = (a.checks_version + 1) % 2 ^ 64;
              check_ids = check_ids_of (to_start ++ to_restart);
              committing = false;
            })
            a.pending_prepares,
        ==_refl id,
      )
      refl

-- The session after the commit.
abbrev pub committed : ℤ → FrameMsg → ChecksPreparation → Session → Session
committed v f cp s = commit cp (respond (reply f (committed_result (commit_params v))) s)

commit_prepare_step :
    (v : ℤ) (g f : FrameMsg) (cp : ChecksPreparation) (s : Session)
    → cp.version ≡ v
    → commit_prepare g (commit_params v) (concluded v f cp s)
      ≡ ok (committed v g cp (concluded v f cp s))
unfolding commit_prepare
commit_prepare_step v g f cp s e = rw (ap (λ z. eq_ℤ z v) e ∙ eq_ℤ_refl v, accept_commit) refl

module _ (validate_checks : ChecksPreparation → Option String) where
  commit_step :
      (id : ℕ) (v : ℤ) (f : FrameMsg) (cp : ChecksPreparation) (s : Session)
      → InRange v
      → cp.version ≡ v
      → handle_frame validate_checks (commit_frame id v) (concluded v f cp s)
        ≡ ok (committed v (commit_frame id v) cp (concluded v f cp s))
  unfolding handle_frame handle_poller_commit
  commit_step id v f cp s r e =
      ap (λ p. commit_prepare (commit_frame id v) p (concluded v f cp s))
        (decode-encode_commit (commit_params v) r)
      ∙ commit_prepare_step v (commit_frame id v) f cp s e

  -- The answers and the commit that follow a preparation `cp` that the session has concluded.
  abbrev pub Committed : List CheckIn → List CheckIn → Agent → ChecksPreparation → Session → Type 0
  Committed to_start to_restart a cp s =
      let v = signed ((a.checks_version + 1) % 2 ^ 64) in
      let s₁ = concluded v (start_frame to_start to_restart a) cp s in
      let a₁ = prepare_checks to_start to_restart a in
      (answer c answer' : FrameMsg) × (s₂ : Session) × (s₁.send_ch ≡ s.send_ch ++ answer ∷ [])
      × ((handle_response answer a₁).sent ≡ a₁.sent ++ c ∷ [])
      × (handle_frame validate_checks c s₁ ≡ ok s₂)
      × (s₂.reconciled ≡ s.reconciled ++ cp ∷ [])
      × (s₂.prep.active_prep ≡ none)
      × (s₂.send_ch ≡ s₁.send_ch ++ answer' ∷ [])
      × ((handle_response answer' (handle_response answer a₁)).committed_checks
          ≡ some (check_ids_of (to_start ++ to_restart)))

  -- After the agent has sent its checks and the session has prepared them: the session's answer makes
  -- the agent send one commit, for the same version; the session takes it, hands the preparation to
  -- the reconciler, has no active preparation any more and gives one answer; and that answer makes
  -- the checks the committed checks of the agent.
  pub commit-Committed :
      (to_start to_restart : List CheckIn) (a : Agent) (cp : ChecksPreparation) (s : Session)
      → cp.version ≡ signed ((a.checks_version + 1) % 2 ^ 64)
      → Committed to_start to_restart a cp s
  unfolding set_response_frame_msg respond commit
  commit-Committed to_start to_restart a cp s e =
      let n = (a.checks_version + 1) % 2 ^ 64 in
      let v = signed n in
      let range = signed-InRange n (omega arith) in
      let f = start_frame to_start to_restart a in
      let s₁ = concluded v f cp s in
      let a₁ = prepare_checks to_start to_restart a in
      let id = next_id a₁.out_msg_id in
      let c = commit_frame id v in
      let pending : PendingPrepare = record {
        version = n;
        check_ids = check_ids_of (to_start ++ to_restart);
        committing = false;
      } in
      let result = result_of cp.zone_id v prepare_result_status_prepared "" in
      let answer = addressed s f result in
      let answer' = addressed s c (committed_result (commit_params v)) in
      let a₂ = handle_response answer a₁ in
      let first =
        handle_response-effect answer result pending a₁
          (prepare_checks-pending to_start to_restart a)
          (decode-encode_prepare_result result range) in
      let second =
        handle_response-effect answer' (committed_result (commit_params v))
          (record pending { committing = true }) a₂
          (Replaces-next f.id id pending a₁ a₂ (first.0 refl refl).1)
          (decode-encode_prepare_result (committed_result (commit_params v)) range) in
      (
        answer,
        c,
        answer',
        committed v c cp s₁,
        refl,
        (first.0 refl refl).0,
        commit_step id v f cp s range e,
        refl,
        refl,
        refl,
        (second.2 refl refl).2,
      )
