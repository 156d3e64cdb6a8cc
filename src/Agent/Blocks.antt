-- ===== src/Agent/Blocks.antt =====
-- The blocks into which prepareChecks (endpoint/agent.go) cuts the checks.
use rackspace_monitoring_pol.Base.{
  ℕ, ◌+◌, ◌%◌, ◌^◌, ◌≤◌, ◌<◌, ◌≡◌, refl, ◌∙◌, List, [], ◌∷◌, ◌++◌, map, some, arith, leb, leb→le,
  length, length-append, if◌then◌else◌, Bool-cases, inl, inr,
}
use rackspace_monitoring_pol.Base.Int.{ℤ}
use rackspace_monitoring_pol.Protocol.Frame.{FrameMsg}
use rackspace_monitoring_pol.Protocol.Checks.{CheckIn}
use rackspace_monitoring_pol.Protocol.Messages.{
  encode_prepare_block, encode_prepare_start, encode_prepare_end,
}
use rackspace_monitoring_pol.Protocol.Methods.{
  method_poller_prepare_block, method_poller_prepare, method_poller_prepare_end,
  prepare_directive_prepare,
}
use rackspace_monitoring_pol.Agent.{
  Agent, frame_to, next_id, prepare_checks, announce, manifest_of, send_block, send_blocks,
  version_of,
}
use rackspace_monitoring_pol.Base.Words.{signed}
use mathlib.Core.List.{append-nil, append_assoc, flatten}

abbrev pub rest_block : List CheckIn → List (List CheckIn)
rest_block [] = []
rest_block (c ∷ block) = (c ∷ block) ∷ []

-- The cut: the checks still to come, and the block that is being filled.
abbrev pub split : ℕ → List CheckIn → List CheckIn → List (List CheckIn)
split size [] block = rest_block block
split size (ch ∷ chs) block =
    let full = (block ++ ch ∷ []) ∷ split size chs [] in
    let open_block = split size chs (block ++ ch ∷ []) in
    if leb size (length (block ++ ch ∷ [])) then full else open_block

-- The frames that carry the blocks, numbered from the last id that was given out.
abbrev pub block_frames : ℤ → ℕ → List (List CheckIn) → List FrameMsg
block_frames v id [] = []
block_frames v id (b ∷ bs) =
    frame_to (next_id id) method_poller_prepare_block
      (encode_prepare_block (record { zone_id = ""; version = v; block = map some b }))
    ∷ block_frames v (next_id id) bs

abbrev pub ids_after : ℕ → List (List CheckIn) → ℕ
ids_after id [] = id
ids_after id (b ∷ bs) = ids_after (next_id id) bs

-- Every block but the last has the given size, and the last is not empty and no larger.
abbrev pub IsCut : ℕ → List (List CheckIn) → Type 0
IsCut size [] = Unit
IsCut size (b ∷ []) = (0 < length b) × (length b ≤ size)
IsCut size (b ∷ c ∷ bs) = (length b ≡ size) × IsCut size (c ∷ bs)

IsCut-cons :
    (size : ℕ) (b : List CheckIn) (bs : List (List CheckIn))
    → 0 < size
    → length b ≡ size
    → IsCut size bs
    → IsCut size (b ∷ bs)
IsCut-cons size b [] p e h = (omega arith, omega arith)
IsCut-cons size b (c ∷ bs) p e h = (e, h)

split-IsCut :
    (size : ℕ) (chs block : List CheckIn) → length block < size → IsCut size (split size chs block)
split-IsCut size [] [] h = tt
split-IsCut size [] (c ∷ block) h = (omega arith, omega arith)
split-IsCut size (ch ∷ chs) block h =
    let grown = length-append block (ch ∷ []) in
    elim (Bool-cases (leb size (length (block ++ ch ∷ [])))) [
      | inl e ↦ rw e (
          IsCut-cons size (block ++ ch ∷ []) (split size chs []) (omega arith)
            (omega (arith, leb→le size (length (block ++ ch ∷ [])) e))
            (split-IsCut size chs [] (omega arith)))
      | inr e ↦ rw e (split-IsCut size chs (block ++ ch ∷ []) (ground arith))
    ]

pub flatten-split :
    (size : ℕ) (chs block : List CheckIn) → flatten (split size chs block) ≡ block ++ chs
unfolding flatten
flatten-split size [] [] = refl
flatten-split size [] (c ∷ block) = refl
flatten-split size (ch ∷ chs) block = elim (Bool-cases (leb size (length (block ++ ch ∷ [])))) [
  | inl e ↦ rw e (rw (flatten-split size chs []) (append_assoc block (ch ∷ []) chs))
  | inr e ↦ rw e (flatten-split size chs (block ++ ch ∷ []) ∙ append_assoc block (ch ∷ []) chs)
]

-- The loop writes the frames of the cut.
pub send_blocks-split :
    (chs block : List CheckIn) (a : Agent)
    → let bs = split a.prepare_block_size chs block in
      send_blocks chs block a ≡ record a {
        out_msg_id = ids_after a.out_msg_id bs;
        sent = a.sent ++ block_frames (version_of a) a.out_msg_id bs;
      }
unfolding send_blocks
send_blocks-split [] [] a = rw (append-nil a.sent) refl
send_blocks-split [] (c ∷ block) a = refl
send_blocks-split (ch ∷ chs) block a =
    elim (Bool-cases (leb a.prepare_block_size (length (block ++ ch ∷ [])))) [
      | inl e ↦
          rw (e, send_blocks-split chs [] (send_block (block ++ ch ∷ []) a))
            (rw
              (append_assoc a.sent
                (frame_to (next_id a.out_msg_id) method_poller_prepare_block (
                    encode_prepare_block (record {
                      zone_id = "";
                      version = version_of a;
                      block = map some (block ++ ch ∷ []);
                    }))
                  ∷ [])
                (block_frames (version_of a) (next_id a.out_msg_id)
                  (split a.prepare_block_size chs [])))
              refl)
      | inr e ↦ rw e (send_blocks-split chs (block ++ ch ∷ []) a)
    ]

abbrev pub start_frame : List CheckIn → List CheckIn → Agent → FrameMsg
start_frame to_start to_restart a = frame_to (next_id a.out_msg_id) method_poller_prepare (
    encode_prepare_start (record {
      zone_id = "";
      version = signed ((a.checks_version + 1) % 2 ^ 64);
      manifest = manifest_of to_start to_restart;
    }))

abbrev pub end_frame : ℕ → ℤ → FrameMsg
end_frame id v = frame_to id method_poller_prepare_end (
    encode_prepare_end
      (record { zone_id = ""; version = v; directive = prepare_directive_prepare }))

-- For a positive block size, prepareChecks gives the checks the next version and writes, after what
-- was sent before: the prepare message with the manifest of all the checks, under the next id; then
-- blocks of that version, all of the configured size but the last, which is not empty and no
-- larger, that together carry all the checks in their order; then the end message. The ids follow
-- one another.
pub prepare_checks-frames :
    (to_start to_restart : List CheckIn) (a : Agent)
    → 0 < a.prepare_block_size
    → let bs = split a.prepare_block_size (to_start ++ to_restart) [] in
      let v = (a.checks_version + 1) % 2 ^ 64 in
      let id = next_id a.out_msg_id in
      let a' = prepare_checks to_start to_restart a in
      IsCut a.prepare_block_size bs
      × (flatten bs ≡ to_start ++ to_restart)
      × (a'.checks_version ≡ v)
      × (a'.sent
          ≡ a.sent
            ++ start_frame to_start to_restart a
              ∷ (block_frames (signed v) id bs
                  ++ end_frame (next_id (ids_after id bs)) (signed v) ∷ []))
unfolding prepare_checks
prepare_checks-frames to_start to_restart a h =
    let checks = to_start ++ to_restart in
    let announced = announce to_start to_restart a in
    let loop = send_blocks-split checks [] announced in
    (
      split-IsCut a.prepare_block_size checks [] h,
      flatten-split a.prepare_block_size checks [],
      rw loop refl,
      rw loop (
          append_assoc (announced.sent)
            (block_frames (version_of announced) announced.out_msg_id
              (split a.prepare_block_size checks []))
            _
          ∙ append_assoc a.sent (start_frame to_start to_restart a ∷ []) _),
    )
