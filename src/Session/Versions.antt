-- ===== src/Session/Versions.antt =====
-- Which preparation is active, and what is handed to the reconciler (poller/session.go).
use rackspace_monitoring_pol.Base.{
  ◌≡◌, ◌⊎◌, Bool, true, false, Option, none, some, List, [], ◌∷◌, ◌++◌, arith,
}
use rackspace_monitoring_pol.Base.Int.{leb_ℤ}
use rackspace_monitoring_pol.Base.Outcome.{Returns}
use rackspace_monitoring_pol.Protocol.Frame.{
  FrameMsg, empty_frame, set_response_frame_msg, set_source, set_target,
}
use rackspace_monitoring_pol.Protocol.Messages.{
  PollerPrepareStartParams, PollerCommitParams, PollerPrepareResult, encode_prepare_result,
}
use rackspace_monitoring_pol.Protocol.Methods.{
  prepare_result_status_committed, prepare_result_status_ignored,
}
use rackspace_monitoring_pol.Preparation.{
  ChecksPreparation, wrong_version, Prepared, prepared, refused, new_checks_preparation,
  version_applies, is_older,
}
use rackspace_monitoring_pol.Session.State.{Session, clear}
use rackspace_monitoring_pol.Session.Prepare.{result_of, commit_prepare}

-- The response frame to a request, with a result.
abbrev pub reply : FrameMsg → PollerPrepareResult → FrameMsg
reply f result = record (set_response_frame_msg empty_frame f) {
  raw_result = some (encode_prepare_result result);
}

-- How the reply stands in the queue of frames to send.
abbrev pub staged : Session → FrameMsg → PollerPrepareResult → List FrameMsg
staged s f result = s.send_ch ++ set_source s.guid (set_target "endpoint" (reply f result)) ∷ []

abbrev pub as_prepared : Option ChecksPreparation → Prepared
as_prepared none = refused wrong_version
as_prepared (some cp) = prepared cp

-- The same preparation is active as before, or one that the manifest made, whose version is above
-- the newest committed one and not below that of the preparation that it replaces.
abbrev pub Advances : PollerPrepareStartParams → Session → Session → Type 0
Advances p s s' =
    (s'.prep.active_prep ≡ s.prep.active_prep)
    ⊎ ((new_checks_preparation p.zone_id p.version p.manifest ≡ as_prepared s'.prep.active_prep)
        × (leb_ℤ p.version s.prep.newest_committed_version ≡ false)
        × (is_older s.prep.active_prep p.version ≡ false))

abbrev pub committed_result : PollerCommitParams → PollerPrepareResult
committed_result p = result_of p.zone_id p.version prepare_result_status_committed ""

abbrev pub ignored_result : PollerCommitParams → PollerPrepareResult
ignored_result p =
    result_of p.zone_id p.version prepare_result_status_ignored
      "Poller commit request specified non-applicable version"

-- The effect of a commit, by the active preparation and by whether the commit names its version.
abbrev pub CommitEffect :
    FrameMsg → PollerCommitParams → Session → Option ChecksPreparation → Bool → Session → Type 0
CommitEffect f p s (some cp) true s' =
    (s'.reconciled ≡ s.reconciled ++ cp ∷ [])
    × (s'.prep ≡ clear s.prep)
    × (s'.send_ch ≡ staged s f (committed_result p))
CommitEffect f p s _ _ s' =
    (s'.reconciled ≡ s.reconciled)
    × (s'.prep ≡ s.prep)
    × (s'.send_ch ≡ staged s f (ignored_result p))

-- A poller.commit always goes through. If it names the version of the active preparation, that is
-- handed to the reconciler and cleared, and the reply is "committed"; otherwise nothing changes and
-- the reply is "ignored". Whether the preparation was ever concluded plays no part.
pub commit_prepare-CommitEffect :
    (f : FrameMsg) (p : PollerCommitParams) (s : Session)
    → Returns
        (commit_prepare f p s)
        (CommitEffect f p s s.prep.active_prep (version_applies s.prep.active_prep p.version))
unfolding commit_prepare
commit_prepare-CommitEffect f p s = ground arith
