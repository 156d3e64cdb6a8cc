-- ===== src/Handover/Prepare.antt =====
-- The frames of one prepareChecks (endpoint/agent.go) in an idle session (poller/session.go).
use mathlib.Core.List.{flatten}
use rackspace_monitoring_pol.Base.{
  ℕ, ◌+◌, ◌%◌, ◌^◌, ◌<◌, String, ◌≡◌, refl, sym, ap, ◌∙◌, true, false, Option, none, some, List, [],
  ◌∷◌, ◌++◌, arith, All,
}
use rackspace_monitoring_pol.Base.Int.{ℤ, leb_ℤ}
use rackspace_monitoring_pol.Base.Words.{signed, InRange}
use rackspace_monitoring_pol.Base.Outcome.{ok, ◌>>=◌, >>=-assoc, >>=-ext}
use rackspace_monitoring_pol.Protocol.Frame.{FrameMsg}
use rackspace_monitoring_pol.Protocol.Checks.{CheckIn}
use rackspace_monitoring_pol.Protocol.Messages.{PollerPrepareStartParams, PollerPrepareEndParams}
use rackspace_monitoring_pol.Protocol.Methods.{
  prepare_directive_prepare, prepare_result_status_prepared,
}
use rackspace_monitoring_pol.Protocol.Roundtrip.{
  IsWritable, decode-encode_prepare_start, decode-encode_prepare_end,
}
use rackspace_monitoring_pol.Preparation.{
  ChecksPreparation, prepared, new_checks_preparation, validate,
}
use rackspace_monitoring_pol.Preparation.Manifest.{
  new_checks_preparation-supported, new_checks_preparation-declared,
}
use rackspace_monitoring_pol.Session.State.{Session, with_prep}
use rackspace_monitoring_pol.Session.Exchange.{respond}
use rackspace_monitoring_pol.Session.Prepare.{
  start_prepare, end_prepare, handle_poller_prepare, handle_poller_prepare_end, finish_prepare,
  accept_preparation, result_of,
}
use rackspace_monitoring_pol.Session.Loop.{handle_frame, handle_frames}
use rackspace_monitoring_pol.Session.Versions.{reply}
use rackspace_monitoring_pol.Agent.{Agent, next_id, manifest_of, prepare_checks}
use rackspace_monitoring_pol.Agent.Blocks.{
  start_frame, end_frame, block_frames, split, ids_after, prepare_checks-frames,
}
use rackspace_monitoring_pol.Handover.Declared.{manifest_of-IsSupported}
use rackspace_monitoring_pol.Handover.Held.{Holds, with_definitions-Holds}
use rackspace_monitoring_pol.Handover.Blocks.{
  in_progress, with_definitions, blocks_step, signed-InRange,
}

-- The session after the end of a preparation: it is answered, and marked as prepared.
abbrev pub concluded : ℤ → FrameMsg → ChecksPreparation → Session → Session
concluded v f cp s = respond (reply f (result_of cp.zone_id v prepare_result_status_prepared "")) (
    with_prep s (record s.prep {
      active_prep = some cp;
      src_prep_msg = some f;
      prepared = true;
      prepare_to_end_timer = none;
    }))

-- No preparation is under way, and the version is a new one.
abbrev pub IsIdle : ℤ → Session → Type 0
IsIdle v s = (s.prep.active_prep ≡ none) × (leb_ℤ v s.prep.newest_committed_version ≡ false)

handle_frames-append :
    (validate_checks : ChecksPreparation → Option String) (fs gs : List FrameMsg) (s : Session)
    → handle_frames validate_checks (fs ++ gs) s
      ≡ (handle_frames validate_checks fs s >>= handle_frames validate_checks gs)
unfolding handle_frames
handle_frames-append validate_checks [] gs s = refl
handle_frames-append validate_checks (f ∷ fs) gs s =
    let step = handle_frame validate_checks f s in
    let now = handle_frames validate_checks fs in
    let later = handle_frames validate_checks gs in
    >>=-ext step (λ s'. handle_frames-append validate_checks fs gs s')
    ∙ sym (>>=-assoc step now later)

end_step :
    (f g : FrameMsg) (v : ℤ) (cp : ChecksPreparation) (s : Session)
    → validate cp v ≡ none
    → end_prepare g
        (record { zone_id = ""; version = v; directive = prepare_directive_prepare })
        (in_progress f cp s)
      ≡ ok (concluded v f cp s)
unfolding end_prepare
end_step f g v cp s h = rw (finish_prepare, h) refl

module _ (validate_checks : ChecksPreparation → Option String) where
  start_step :
      (f : FrameMsg) (p : PollerPrepareStartParams) (cp : ChecksPreparation) (s : Session)
      → IsIdle p.version s
      → new_checks_preparation p.zone_id p.version p.manifest ≡ prepared cp
      → validate_checks cp ≡ none
      → start_prepare validate_checks f p s ≡ ok (in_progress f cp s)
  unfolding start_prepare
  start_step f p cp s h e v = rw (h.0, h.1, accept_preparation, e, v) refl

  handle_frames-cons :
      (f : FrameMsg) (fs : List FrameMsg) (s : Session)
      → handle_frames validate_checks (f ∷ fs) s
        ≡ (handle_frame validate_checks f s >>= λ s'. handle_frames validate_checks fs s')
  unfolding handle_frames
  handle_frames-cons f fs s = refl

  handle_frames-nil : (s : Session) → handle_frames validate_checks [] s ≡ ok s
  unfolding handle_frames
  handle_frames-nil s = refl

  run_frames :
      (f g : FrameMsg) (fs : List FrameMsg) (s s₁ s₂ s₃ : Session)
      → handle_frame validate_checks f s ≡ ok s₁
      → handle_frames validate_checks fs s₁ ≡ ok s₂
      → handle_frame validate_checks g s₂ ≡ ok s₃
      → handle_frames validate_checks (f ∷ (fs ++ g ∷ [])) s ≡ ok s₃
  run_frames f g fs s s₁ s₂ s₃ first middle last =
      rw
        (
          handle_frames-cons f (fs ++ g ∷ []) s,
          first,
          handle_frames-append validate_checks fs (g ∷ []) s₁,
          middle,
          handle_frames-cons g [] s₂,
          last,
          handle_frames-nil s₃,
        )
        refl

  end_frame_step :
      (id : ℕ) (f : FrameMsg) (v : ℤ) (cp : ChecksPreparation) (s : Session)
      → InRange v
      → validate cp v ≡ none
      → handle_frame validate_checks (end_frame id v) (in_progress f cp s) ≡ ok (concluded v f cp s)
  unfolding handle_frame handle_poller_prepare_end
  end_frame_step id f v cp s r h =
      let params : PollerPrepareEndParams = record {
        zone_id = "";
        version = v;
        directive = prepare_directive_prepare;
      } in
      ap (λ p. end_prepare (end_frame id v) p (in_progress f cp s))
        (decode-encode_prepare_end params r)
      ∙ end_step f (end_frame id v) v cp s h

  start_frame_step :
      (to_start to_restart : List CheckIn) (a : Agent) (cp : ChecksPreparation) (s : Session)
      → let v = signed ((a.checks_version + 1) % 2 ^ 64) in
        IsIdle v s
        → new_checks_preparation "" v (manifest_of to_start to_restart) ≡ prepared cp
        → validate_checks cp ≡ none
        → handle_frame validate_checks (start_frame to_start to_restart a) s
          ≡ ok (in_progress (start_frame to_start to_restart a) cp s)
  unfolding handle_frame handle_poller_prepare
  start_frame_step to_start to_restart a cp s h e ok_checks =
      let f = start_frame to_start to_restart a in
      let n = (a.checks_version + 1) % 2 ^ 64 in
      let params : PollerPrepareStartParams = record {
        zone_id = "";
        version = signed n;
        manifest = manifest_of to_start to_restart;
      } in
      ap (λ p. start_prepare validate_checks f p s)
        (decode-encode_prepare_start params (signed-InRange n (omega arith)))
      ∙ start_step f params cp s h e ok_checks

  -- The frames that the agent writes for the checks, handled by the session.
  abbrev pub Handled : List CheckIn → List CheckIn → Agent → Session → Type 0
  Handled to_start to_restart a s =
      let v = signed ((a.checks_version + 1) % 2 ^ 64) in
      (frames : List FrameMsg) × (cp : ChecksPreparation) × ((prepare_checks to_start to_restart
          a).sent
        ≡ a.sent ++ frames)
      × (handle_frames validate_checks frames s
          ≡ ok (concluded v (start_frame to_start to_restart a) cp s))
      × Holds v to_start to_restart cp

  -- An agent with a positive block size prepares checks that can be written, and a session takes the
  -- messages one after the other. If the session has no preparation under way, if the version is
  -- above its newest committed one, and if its reconciler accepts the preparation that the manifest
  -- makes, then nothing goes wrong: the session ends up with a preparation that is marked as
  -- prepared and holds the version and all the checks, and `prepared` is its one answer.
  pub prepare_checks-Handled :
      (to_start to_restart : List CheckIn) (a : Agent) (s : Session)
      → 0 < a.prepare_block_size
      → All IsWritable (to_start ++ to_restart)
      → IsIdle (signed ((a.checks_version + 1) % 2 ^ 64)) s
      → ((cp : ChecksPreparation)
          → new_checks_preparation ""
              (signed ((a.checks_version + 1) % 2 ^ 64))
              (manifest_of to_start to_restart)
            ≡ prepared cp
          → validate_checks cp ≡ none)
      → Handled to_start to_restart a s
  prepare_checks-Handled to_start to_restart a s size w idle accepts =
      let n = (a.checks_version + 1) % 2 ^ 64 in
      let v = signed n in
      let range = signed-InRange n (omega arith) in
      let f = start_frame to_start to_restart a in
      let bs = split a.prepare_block_size (to_start ++ to_restart) [] in
      let written = prepare_checks-frames to_start to_restart a size in
      let made =
        new_checks_preparation-supported "" v (manifest_of to_start to_restart)
          (manifest_of-IsSupported to_start to_restart) in
      let cp = with_definitions (flatten bs) made.0 in
      let holds : Holds v to_start to_restart cp =
        rw written.1 (with_definitions-Holds v to_start to_restart made.0 made.1) in
      let version_kept =
        (new_checks_preparation-declared "" v (manifest_of to_start to_restart) made.1).2 in
      (
        _,
        cp,
        written.3,
        run_frames f (end_frame (next_id (ids_after (next_id a.out_msg_id) bs)) v)
            (block_frames v (next_id a.out_msg_id) bs) s (in_progress f made.0 s)
            (in_progress f cp s) (concluded v f cp s)
            (start_frame_step to_start to_restart a made.0 s idle made.1 (accepts made.0 made.1))
            (blocks_step validate_checks bs (next_id a.out_msg_id) f v made.0 s range
              (rw written.1 w) version_kept)
            (end_frame_step (next_id (ids_after (next_id a.out_msg_id) bs)) f v cp s range holds.1),
        holds,
      )
