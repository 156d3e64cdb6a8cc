-- ===== src/Agent/Fresh.antt =====
-- The pending prepares of endpoint/agent.go under the ids that it gives out.
use rackspace_monitoring_pol.Base.{
  ℕ, ◌+◌, ◌≤◌, ◌<◌, ◌%◌, ◌^◌, ==_iff, ◌≡◌, ◌≢◌, ◌∙◌, false, none, List, [], ◌∷◌, ◌++◌, arith,
  length, leb, length-append, Bool-cases, inl, inr,
}
use rackspace_monitoring_pol.Base.Dict.{Dict, lookup, insert, nat_eq, lookup-insert}
use rackspace_monitoring_pol.Protocol.Checks.{CheckIn}
use rackspace_monitoring_pol.Agent.{
  Agent, PendingPrepare, next_id, prepare_checks, announce, check_ids_of,
}
use rackspace_monitoring_pol.Agent.Blocks.{split, ids_after, send_blocks-split}

-- Nothing is pending under an id that is still to be given out.
abbrev pub IsFresh : Agent → Type 0
IsFresh a = (k : ℕ) → a.out_msg_id < k → lookup k a.pending_prepares ≡ none

ids_after-length :
    (id : ℕ) (bs : List (List CheckIn)) → id + length bs < 2 ^ 64 → ids_after id bs ≡ id + length bs
ids_after-length id [] h = omega arith
ids_after-length id (b ∷ bs) h = ground (arith, ids_after-length (next_id id) bs)

length-split :
    (size : ℕ) (chs block : List CheckIn)
    → length (split size chs block) ≤ length chs + length block
length-split size [] [] = omega arith
length-split size [] (c ∷ block) = omega arith
length-split size (ch ∷ chs) block =
    let grown = length-append block (ch ∷ []) in
    elim (Bool-cases (leb size (length (block ++ ch ∷ [])))) [
      | inl e ↦ rw e (omega (arith, length-split size chs []))
      | inr e ↦ rw e (omega (arith, length-split size chs (block ++ ch ∷ [])))
    ]

lookup-insert_other :
    (j k : ℕ) (p : PendingPrepare) (m : Dict ℕ PendingPrepare)
    → k ≢ j
    → lookup k (insert j p m) ≡ lookup k m
lookup-insert_other j k p m other = ground (arith, lookup-insert j k p m, ==_iff j k, other)

-- The ids do not wrap during one prepareChecks.
abbrev pub HasRoom : ℕ → Agent → Type 0
HasRoom n a = a.out_msg_id + n + 2 < 2 ^ 64

-- As long as the 64-bit ids do not wrap, prepareChecks puts its own prepare under an id under which
-- nothing was pending, leaves every other pending prepare as it was, and keeps later ids free.
pub prepare_checks-IsFresh :
    (to_start to_restart : List CheckIn) (a : Agent)
    → IsFresh a
    → HasRoom (length (to_start ++ to_restart)) a
    → let a' = prepare_checks to_start to_restart a in
      IsFresh a'
      × (lookup (next_id a.out_msg_id) a.pending_prepares ≡ none)
      × ((k : ℕ)
          → k ≢ next_id a.out_msg_id
          → lookup k a'.pending_prepares ≡ lookup k a.pending_prepares)
unfolding prepare_checks
prepare_checks-IsFresh to_start to_restart a fresh room =
    let bs = split a.prepare_block_size (to_start ++ to_restart) [] in
    let cut = length-split a.prepare_block_size (to_start ++ to_restart) [] in
    let ids = ids_after-length (next_id a.out_msg_id) bs (omega (arith, cut, room)) in
    let pending : PendingPrepare = record {
      version = (a.checks_version + 1) % 2 ^ 64;
      check_ids = check_ids_of (to_start ++ to_restart);
      committing = false;
    } in
    let elsewhere = λ (k : ℕ) (other : k ≢ next_id a.out_msg_id).
      lookup-insert_other (next_id a.out_msg_id) k pending a.pending_prepares other in
    rw (send_blocks-split (to_start ++ to_restart) [] (announce to_start to_restart a)) (
      λ k later.
          elsewhere k (λ e. omega (arith, ids, cut, room))
          ∙ fresh k (omega (arith, ids, cut, room)),
      fresh (next_id a.out_msg_id) (omega arith),
      elsewhere,
    )
