-- ===== src/Run/Reported.antt =====
-- The set of results of a plugin's run by what the plugin said (check/check_plugin.go).
use Prim.Native.String.{◌++◌ as text_append}
use rackspace_monitoring_pol.Base.{
  String, Bool, true, false, Option, none, some, List, [], ◌∷◌, ◌≡◌, refl, ap, ◌∙◌, map, All,
  str_eq, Bool-cases, inl, inr, if◌then◌else◌,
}
use rackspace_monitoring_pol.Base.Dict.{string_eq}
use rackspace_monitoring_pol.Base.Text.{crop, trim_space}
use rackspace_monitoring_pol.Base.Lines.{fields, split_by, scan_lines}
use rackspace_monitoring_pol.Base.Pattern.{
  behind, blanks, one_of, greedy_group, match_parts, match_blanks,
}
use rackspace_monitoring_pol.Base.Pattern.Words.{
  starts_solid, is_line, starts_solid-append, match_blanks-one, match_greedy-rest, behind-append,
}
use rackspace_monitoring_pol.Results.{Metric, text, new_metric}
use rackspace_monitoring_pol.Run.Plugin.{
  status_regex, status_of_line, state_of_line, metric_of_line, run_plugin,
}
use rackspace_monitoring_pol.Run.Printed.{printed, metric_of_line-printed}
use rackspace_monitoring_pol.Run.Said.{
  Level, err, warn, fine, level_word, Said, status, state, metric, remark, print, IsSayable,
  status_after, state_after, metric_after, behind-diverge, behind-none,
}
use rackspace_monitoring_pol.Run.Outcomes.{
  Told, Told-same, last_given, kept, named, run_plugin-Told,
}

abbrev status_tail : Level → String → String
status_tail l t = String.◌∷◌ " " (text_append (level_word l) (String.◌∷◌ " " t))

abbrev metric_tail : String → String → String → String
metric_tail name unit value =
    String.◌∷◌ " " (text_append name (String.◌∷◌ " " (text_append unit (String.◌∷◌ " " value))))

-- What a single line says, for each of the three.
abbrev status_in : Said → Option String
status_in (status l t) = some t
status_in (state available) = none
status_in (metric name unit value type) = none
status_in (remark s) = none

abbrev state_in : Said → Option Bool
state_in (status l t) = none
state_in (state available) = some available
state_in (metric name unit value type) = none
state_in (remark s) = none

match_level :
    (l : Level) (t : String)
    → starts_solid t ≡ true
    → is_line t ≡ true
    → match_parts
        (one_of ("err" ∷ "warn" ∷ "ok" ∷ []) ∷ blanks ∷ greedy_group ∷ [])
        (text_append (level_word l) (String.◌∷◌ " " t))
      ≡ some (level_word l ∷ t ∷ [])
unfolding match_parts
match_level err t solid line =
    rw
      (
        behind-append "err" (String.◌∷◌ " " t),
        match_blanks-one (match_parts (greedy_group ∷ [])) " " t refl solid,
        match_greedy-rest t line,
      )
      refl
match_level warn t solid line =
    rw
      (
        behind-diverge "err" "warn" (String.◌∷◌ " " t) refl,
        behind-append "warn" (String.◌∷◌ " " t),
        match_blanks-one (match_parts (greedy_group ∷ [])) " " t refl solid,
        match_greedy-rest t line,
      )
      refl
match_level fine t solid line =
    rw
      (
        behind-diverge "err" "ok" (String.◌∷◌ " " t) refl,
        behind-diverge "warn" "ok" (String.◌∷◌ " " t) refl,
        behind-append "ok" (String.◌∷◌ " " t),
        match_blanks-one (match_parts (greedy_group ∷ [])) " " t refl solid,
        match_greedy-rest t line,
      )
      refl

match_status :
    (l : Level) (t : String)
    → starts_solid t ≡ true
    → is_line t ≡ true
    → match_parts status_regex (print (status l t)) ≡ some (level_word l ∷ t ∷ [])
unfolding match_parts
match_status l t solid line =
    let rest = text_append (level_word l) (String.◌∷◌ " " t) in
    let later = match_parts (one_of ("err" ∷ "warn" ∷ "ok" ∷ []) ∷ blanks ∷ greedy_group ∷ []) in
    ap (λ o. elim o [ none ↦ none | some r ↦ match_blanks later r ])
      (behind-append "status" (String.◌∷◌ " " rest))
    ∙ match_blanks-one later " " rest refl
        (starts_solid-append (level_word l) (String.◌∷◌ " " t) (level_solid l))
    ∙ match_level l t solid line
  where
    level_solid : (l : Level) → starts_solid (level_word l) ≡ true
    level_solid err = refl
    level_solid warn = refl
    level_solid fine = refl

-- strings.ToLower leaves the words of a status and a state as they are.
abbrev pub KeepsWords : (String → String) → Type 0
KeepsWords lower =
    ((l : Level) → lower (level_word l) ≡ level_word l)
    × (lower "available" ≡ "available")
    × (lower "unavailable" ≡ "unavailable")

-- The values that lines give, one after the other.
abbrev last_of : {A : Type 0} → (String → Option A) → List String → A → A
last_of f [] a = a
last_of f (line ∷ lines) a = last_of f lines (elim (f line) [ none ↦ a | some b ↦ b ])

last_of-print :
    {A : Type 0} (f : String → Option A) (x : Said) (said : List Said) (a : A) {o : Option A}
    → f (print x) ≡ o
    → last_of f (map print (x ∷ said)) a
      ≡ last_of f (map print said) (elim o [ none ↦ a | some b ↦ b ])
last_of-print f x said a e =
    ap (λ o. last_of f (map print said) (elim o [ none ↦ a | some b ↦ b ])) e

last_given-trimmed :
    {A : Type 0} (f : String → Option A) (lines : List String) (a : A)
    → last_given f lines a ≡ last_of f (map trim_space lines) a
last_given-trimmed f [] a = refl
last_given-trimmed f (line ∷ lines) a = last_given-trimmed f lines _

state_fields :
    (fields "state available" ≡ "state" ∷ "available" ∷ [])
    × (fields "state unavailable" ≡ "state" ∷ "unavailable" ∷ [])
unfolding fields split_by
state_fields = (refl, refl)

module _ (lower : String → String) where
  unmatched-status : (s : String) → behind "status" s ≡ none → status_of_line lower s ≡ none
  unfolding status_of_line match_parts
  unmatched-status s e = rw (status_of_line, e) refl

  unmatched-state : (s : String) → behind "state" s ≡ none → state_of_line lower s ≡ none
  unfolding state_of_line match_parts
  unmatched-state s e = rw (state_of_line, e) refl

  unmatched-metric : (s : String) → behind "metric" s ≡ none → metric_of_line lower s ≡ none
  unfolding metric_of_line match_parts
  unmatched-metric s e = rw (metric_of_line, e) refl

  abbrev metric_in : Said → Option Metric
  metric_in (status l t) = none
  metric_in (state available) = none
  metric_in (metric name unit value type) = some (new_metric name "" type (text value) (lower unit))
  metric_in (remark s) = none

  abbrev kept_status : String → Option String
  kept_status line = kept (status_of_line lower line)

  abbrev metric_named : String → String → Option (Option Metric)
  metric_named k line = named k (metric_of_line lower line)

  module _ (keeps : KeepsWords lower) where
    status_of_line-print :
        (x : Said) → IsSayable lower x → status_of_line lower (print x) ≡ status_in x
    unfolding status_of_line
    status_of_line-print (status err t) (solid, line) =
        rw (status_of_line, match_status err t solid line, keeps.0 err) refl
    status_of_line-print (status warn t) (solid, line) =
        rw (status_of_line, match_status warn t solid line, keeps.0 warn) refl
    status_of_line-print (status fine t) (solid, line) =
        rw (status_of_line, match_status fine t solid line, keeps.0 fine) refl
    status_of_line-print (state true) h = unmatched-status "state available" refl
    status_of_line-print (state false) h = unmatched-status "state unavailable" refl
    status_of_line-print (metric name unit value type) h =
        unmatched-status (printed name unit value)
          (behind-diverge "status" "metric" (metric_tail name unit value) refl)
    status_of_line-print (remark s) h = unmatched-status s (behind-none "status" s (λ r. (h r).0))

    state_of_line-print :
        (x : Said) → IsSayable lower x → state_of_line lower (print x) ≡ state_in x
    unfolding state_of_line match_parts
    state_of_line-print (status l t) h =
        unmatched-state (print (status l t))
          (behind-diverge "state" "status" (status_tail l t) refl)
    state_of_line-print (state true) h = rw (state_of_line, state_fields.0, keeps.1) refl
    state_of_line-print (state false) h = rw (state_of_line, state_fields.1, keeps.2) refl
    state_of_line-print (metric name unit value type) h =
        unmatched-state (printed name unit value)
          (behind-diverge "state" "metric" (metric_tail name unit value) refl)
    state_of_line-print (remark s) h = unmatched-state s (behind-none "state" s (λ r. (h r).1))

    metric_of_line-print :
        (x : Said) → IsSayable lower x → metric_of_line lower (print x) ≡ metric_in x
    metric_of_line-print (status l t) h =
        unmatched-metric (print (status l t))
          (behind-diverge "metric" "status" (status_tail l t) refl)
    metric_of_line-print (state true) h = unmatched-metric "state available" refl
    metric_of_line-print (state false) h = unmatched-metric "state unavailable" refl
    metric_of_line-print (metric name unit value type) (a, b, c, d, e, f, g) =
        metric_of_line-printed lower name unit value type a b c d e f g
    metric_of_line-print (remark s) h = unmatched-metric s (behind-none "metric" s (λ r. (h r).2))

    last_of-status :
        (said : List Said) (s : String)
        → All (IsSayable lower) said
        → last_of kept_status (map print said) s ≡ status_after lower said s
    unfolding crop
    last_of-status [] s h = refl
    last_of-status (status l t ∷ said) s (h, hs) =
        last_of-print kept_status (status l t) said s
          (ap kept (status_of_line-print (status l t) h))
        ∙ last_of-status said _ hs
    last_of-status (state available ∷ said) s (h, hs) =
        last_of-print kept_status (state available) said s
          (ap kept (status_of_line-print (state available) h))
        ∙ last_of-status said s hs
    last_of-status (metric name unit value type ∷ said) s (h, hs) =
        last_of-print kept_status (metric name unit value type) said s
          (ap kept (status_of_line-print (metric name unit value type) h))
        ∙ last_of-status said s hs
    last_of-status (remark line ∷ said) s (h, hs) =
        last_of-print kept_status (remark line) said s
          (ap kept (status_of_line-print (remark line) h))
        ∙ last_of-status said s hs

    last_of-state :
        (said : List Said) (s : Bool)
        → All (IsSayable lower) said
        → last_of (state_of_line lower) (map print said) s ≡ state_after lower said s
    last_of-state [] s h = refl
    last_of-state (status l t ∷ said) s (h, hs) =
        last_of-print (state_of_line lower) (status l t) said s (state_of_line-print (status l t) h)
        ∙ last_of-state said s hs
    last_of-state (state available ∷ said) s (h, hs) =
        last_of-print (state_of_line lower) (state available) said s
          (state_of_line-print (state available) h)
        ∙ last_of-state said available hs
    last_of-state (metric name unit value type ∷ said) s (h, hs) =
        last_of-print (state_of_line lower) (metric name unit value type) said s
          (state_of_line-print (metric name unit value type) h)
        ∙ last_of-state said s hs
    last_of-state (remark line ∷ said) s (h, hs) =
        last_of-print (state_of_line lower) (remark line) said s
          (state_of_line-print (remark line) h)
        ∙ last_of-state said s hs

    last_of-metric :
        (k : String) (said : List Said) (o : Option Metric)
        → All (IsSayable lower) said
        → last_of (metric_named k) (map print said) o ≡ metric_after lower k said o
    unfolding new_metric
    last_of-metric k [] o h = refl
    last_of-metric k (status l t ∷ said) o (h, hs) =
        last_of-print (metric_named k) (status l t) said o
          (ap (named k) (metric_of_line-print (status l t) h))
        ∙ last_of-metric k said o hs
    last_of-metric k (state available ∷ said) o (h, hs) =
        last_of-print (metric_named k) (state available) said o
          (ap (named k) (metric_of_line-print (state available) h))
        ∙ last_of-metric k said o hs
    last_of-metric k (metric name unit value type ∷ said) o (h, hs) =
        elim (Bool-cases (str_eq name k)) [
          | inl same ↦
              last_of-print (metric_named k) (metric name unit value type) said o
                (ap (named k) (metric_of_line-print (metric name unit value type) h))
              ∙ rw same (last_of-metric k said _ hs)
          | inr other ↦
              last_of-print (metric_named k) (metric name unit value type) said o
                (ap (named k) (metric_of_line-print (metric name unit value type) h))
              ∙ rw other (last_of-metric k said _ hs)
        ]
    last_of-metric k (remark line ∷ said) o (h, hs) =
        last_of-print (metric_named k) (remark line) said o
          (ap (named k) (metric_of_line-print (remark line) h))
        ∙ last_of-metric k said o hs

  metrics_said :
      (keeps : KeepsWords lower) (lines : List String) (said : List Said)
      → map trim_space lines ≡ map print said
      → All (IsSayable lower) said
      → (k : String) → last_given (metric_named k) lines none ≡ metric_after lower k said none
  metrics_said keeps lines said e h k =
      last_given-trimmed (metric_named k) lines none
      ∙ ap (λ ls. last_of (metric_named k) ls none) e
      ∙ last_of-metric keeps k said none h

  -- A plugin whose output, line by line and without the blanks around, is what it said: a status that is
  -- ok, warn or err, a state, a metric with a unit of the agent's types, or lines that do not begin as
  -- these do. When the process ended without an error, the status is the last one said, of which 256
  -- bytes are kept, "unknown error" without one; the target is available unless the last state said is
  -- "unavailable"; and the single result has for each name the last metric of that name that was said.
  -- When the process ended with an error, the metrics are the same, but the target is unavailable with
  -- the status of a failed exit. strings.ToLower is to keep the words of a status and a state.
  pub run_plugin-Reports {ℓ} :
      {C : Type ℓ} (keeps : KeepsWords lower) (stdout : String) (said : List Said) (failed : Bool)
      (check : C)
      → map trim_space (scan_lines stdout) ≡ map print said
      → All (IsSayable lower) said
      → Told lower
          (run_plugin lower none false stdout failed check)
          (if failed
            then "Plugin exited with non-zero status code"
            else status_after lower said "unknown error")
          (if failed then false else state_after lower said true)
          (λ k. metric_after lower k said none)
  run_plugin-Reports keeps stdout said true check e h =
      Told-same lower (run_plugin lower none false stdout true check)
        (run_plugin-Told lower stdout true check) refl refl
        (metrics_said keeps (scan_lines stdout) said e h)
  run_plugin-Reports keeps stdout said false check e h =
      let lines = scan_lines stdout in
      Told-same lower (run_plugin lower none false stdout false check)
        (run_plugin-Told lower stdout false check)
        (last_given-trimmed kept_status lines "unknown error"
          ∙ ap (λ ls. last_of kept_status ls "unknown error") e
          ∙ last_of-status keeps said "unknown error" h)
        (last_given-trimmed (state_of_line lower) lines true
          ∙ ap (λ ls. last_of (state_of_line lower) ls true) e
          ∙ last_of-state keeps said true h)
        (metrics_said keeps lines said e h)
