-- ===== src/Handover/Blocks.antt =====
-- A session (poller/session.go) takes the blocks of endpoint/agent.go.
use rackspace_monitoring_pol.Base.{
  ℕ, ◌^◌, ◌<◌, String, ◌≡◌, refl, sym, ap, ◌∙◌, true, Option, some, List, [], ◌∷◌, ◌++◌, map, arith,
  All, All-left, All-right,
}
use mathlib.Core.List.{flatten}
use rackspace_monitoring_pol.Base.Int.{ℤ}
use rackspace_monitoring_pol.Base.Words.{signed, InRange}
use rackspace_monitoring_pol.Base.Dict.{Dict}
use rackspace_monitoring_pol.Base.Outcome.{ok}
use rackspace_monitoring_pol.Protocol.Frame.{FrameMsg}
use rackspace_monitoring_pol.Protocol.Checks.{CheckIn}
use rackspace_monitoring_pol.Protocol.Messages.{encode_prepare_block, PollerPrepareBlockParams}
use rackspace_monitoring_pol.Protocol.Methods.{method_poller_prepare_block}
use rackspace_monitoring_pol.Protocol.Roundtrip.{IsWritable, decode-encode_prepare_block}
use rackspace_monitoring_pol.Preparation.{
  ActionableCheck, ChecksPreparation, define, define_all, eq_ℤ,
}
use rackspace_monitoring_pol.Session.State.{Session, running, with_prep}
use rackspace_monitoring_pol.Session.Prepare.{handle_poller_prepare_block, block_prepare}
use rackspace_monitoring_pol.Session.Loop.{handle_frame, handle_frames}
use rackspace_monitoring_pol.Agent.{frame_to, next_id}
use rackspace_monitoring_pol.Agent.Blocks.{block_frames}

pub signed-InRange : (n : ℕ) → n < 2 ^ 64 → InRange (signed n)
signed-InRange n h = ground arith

pub eq_ℤ_refl : (z : ℤ) → eq_ℤ z z ≡ true
eq_ℤ_refl z = ground arith

-- The definitions of a block without null entries, one after the other.
abbrev pub define_list : List CheckIn → Dict String ActionableCheck → Dict String ActionableCheck
define_list [] m = m
define_list (ch ∷ chs) m = define_list chs (define ch m)

pub define_all-some :
    (chs : List CheckIn) (m : Dict String ActionableCheck)
    → define_all (map some chs) m ≡ ok (define_list chs m)
unfolding define_all
define_all-some [] m = refl
define_all-some (ch ∷ chs) m = define_all-some chs (define ch m)

define_list-append :
    (xs ys : List CheckIn) (m : Dict String ActionableCheck)
    → define_list ys (define_list xs m) ≡ define_list (xs ++ ys) m
define_list-append [] ys m = refl
define_list-append (x ∷ xs) ys m = define_list-append xs ys (define x m)

abbrev pub with_definitions : List CheckIn → ChecksPreparation → ChecksPreparation
with_definitions chs cp = record cp { actions = define_list chs cp.actions }

-- A session that has the preparation `cp` of the request `f` under way.
abbrev pub in_progress : FrameMsg → ChecksPreparation → Session → Session
in_progress f cp s = with_prep s (record s.prep {
  prepare_to_end_timer = some running;
  src_prep_msg = some f;
  active_prep = some cp;
})

abbrev block_params : ℤ → List CheckIn → PollerPrepareBlockParams
block_params v b = record { zone_id = ""; version = v; block = map some b }

block_prepare-step :
    (f : FrameMsg) (v : ℤ) (b : List CheckIn) (cp : ChecksPreparation) (s : Session)
    → cp.version ≡ v
    → block_prepare (block_params v b) (in_progress f cp s)
      ≡ ok (in_progress f (with_definitions b cp) s)
unfolding block_prepare
block_prepare-step f v b cp s e =
    rw (sym e, eq_ℤ_refl cp.version, define_all-some b cp.actions) refl

module _ (validate_checks : ChecksPreparation → Option String) where
  block_step :
      (id : ℕ) (f : FrameMsg) (v : ℤ) (b : List CheckIn) (cp : ChecksPreparation) (s : Session)
      → InRange v
      → All IsWritable b
      → cp.version ≡ v
      → handle_frame validate_checks
          (frame_to id method_poller_prepare_block (encode_prepare_block (block_params v b)))
          (in_progress f cp s)
        ≡ ok (in_progress f (with_definitions b cp) s)
  unfolding handle_frame handle_poller_prepare_block
  block_step id f v b cp s r w e =
      ap (λ p. block_prepare p (in_progress f cp s))
        (decode-encode_prepare_block (block_params v b) b r refl w)
      ∙ block_prepare-step f v b cp s e

  -- All the blocks of a cut: together they define its checks.
  pub blocks_step :
      (bs : List (List CheckIn)) (id : ℕ) (f : FrameMsg) (v : ℤ) (cp : ChecksPreparation)
      (s : Session)
      → InRange v
      → All IsWritable (flatten bs)
      → cp.version ≡ v
      → handle_frames validate_checks (block_frames v id bs) (in_progress f cp s)
        ≡ ok (in_progress f (with_definitions (flatten bs) cp) s)
  unfolding handle_frames flatten
  blocks_step [] id f v cp s r w e = refl
  blocks_step (b ∷ bs) id f v cp s r w e =
      rw
        (
          block_step (next_id id) f v b cp s r (All-left IsWritable b (flatten bs) w) e,
          blocks_step bs (next_id id) f v (with_definitions b cp) s r
              (All-right IsWritable b (flatten bs) w) e,
          define_list-append b (flatten bs) cp.actions,
        )
        refl
