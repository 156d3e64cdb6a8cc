-- ===== src/Agent/Classification.antt =====
-- The classification of the checks that the file watcher hands to the coordinator of
-- endpoint/agent.go.
use mathlib.Core.List.{Perm, perm_middle}
use mathlib.Core.List.Perm
use rackspace_monitoring_pol.Base.{
  ◌≡◌, refl, true, false, Option, some, none, List, [], ◌∷◌, ◌++◌, All, Bool-cases, inl, inr, ◌↔◌,
  arith, String,
}
use rackspace_monitoring_pol.Base.Keys.{contains}
use rackspace_monitoring_pol.Base.Outcome.{ok, panic, ◌>>=◌}
use rackspace_monitoring_pol.Protocol.Checks.{CheckIn}
use rackspace_monitoring_pol.Agent.{
  Agent, PrepareBundle, classify, classify_bundle, take_bundle, prepare_checks,
}

-- Every check that is committed goes to the checks to start, and every other one to those to
-- restart; together they are the checks that were given, in some order.
pub classify-parts :
    (committed : List String) (chs : List CheckIn)
    → let (to_start, to_restart) = classify committed chs in
      All (λ ch. contains committed ch.id ≡ true) to_start
      × All (λ ch. contains committed ch.id ≡ false) to_restart
      × Perm (to_start ++ to_restart) chs
unfolding classify
classify-parts committed [] = (tt, tt, Perm.refl [])
classify-parts committed (ch ∷ chs) =
    let rest = classify-parts committed chs in
    let (to_start, to_restart) = classify committed chs in
    elim (Bool-cases (contains committed ch.id)) [
      | inl e ↦ rw e ((e, rest.0), rest.1, Perm.cons ch rest.2)
      | inr e ↦
          rw e (
            rest.0,
            (e, rest.1),
            Perm.trans (perm_middle to_start to_restart) (Perm.cons ch rest.2),
          )
    ]

asked_nil :
    (committed : Option (List String)) (ch : CheckIn) (chs : List CheckIn)
    (k : List CheckIn × List CheckIn → Agent)
    → ((classify_bundle committed (ch ∷ chs) >>= λ p. ok (k p)) ≡ panic) ↔ (committed ≡ none)
unfolding classify_bundle
asked_nil none ch chs k = (λ e. refl, λ e. refl)
asked_nil (some committed) ch chs k = ground arith

-- Before the first commit was confirmed, an unclassified bundle with a check crashes the
-- coordinator; an empty one, and one that is already classified, does not.
pub take_bundle_crash :
    (b : PrepareBundle) (a : Agent) (ch : CheckIn) (chs : List CheckIn)
    → b.unclassified ≡ some (ch ∷ chs)
    → (take_bundle b a ≡ panic) ↔ (a.committed_checks ≡ none)
unfolding take_bundle
take_bundle_crash b a ch chs e =
    rw e (asked_nil a.committed_checks ch chs (λ p. prepare_checks p.0 p.1 a))
