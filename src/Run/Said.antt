-- ===== src/Run/Said.antt =====
-- What a plugin says line by line, as the agent's documentation of custom plugins has it: a status, a
-- state, a metric, or something that is none of these (check/check_plugin.go).
use Prim.Native.Char.{code}
use Prim.Native.String.{len, slice, ◌++◌ as text_append}
use package.text.Mathlib.TextEquality.{Char-path}
use package.text.Mathlib.TextLemmas.{nil-append, cons-append}
use rackspace_monitoring_pol.Base.{
  String, Bool, true, false, Option, none, some, List, [], ◌∷◌, ◌≡◌, ◌≢◌, refl, ◌==◌, ltb, str_eq,
  arith, Bool-cases, Option-cases, inl, inr, if◌then◌else◌,
}
use rackspace_monitoring_pol.Base.Dict.{string_eq}
use rackspace_monitoring_pol.Base.Pattern.{behind}
use rackspace_monitoring_pol.Base.Pattern.Words.{is_solid, starts_solid, is_line}
use rackspace_monitoring_pol.Results.{MetricType, Metric, text, new_metric}
use rackspace_monitoring_pol.Run.Plugin.{poller_type}
use rackspace_monitoring_pol.Run.Printed.{printed}

pub data Level : Type 0 where
  err : Level
  warn : Level
  fine : Level

abbrev pub level_word : Level → String
level_word err = "err"
level_word warn = "warn"
level_word fine = "ok"

pub data Said : Type 0 where
  status : Level → String → Said
  state : Bool → Said
  -- its name, unit, value and type
  metric : String → String → String → MetricType → Said
  remark : String → Said

abbrev pub print : Said → String
print (status l t) =
    text_append "status" (String.◌∷◌ " " (text_append (level_word l) (String.◌∷◌ " " t)))
print (state true) = "state available"
print (state false) = "state unavailable"
print (metric name unit value type) = printed name unit value
print (remark s) = s

module _ (lower : String → String) where
  -- A status and a value are of one line and do not begin with a blank, a name and a unit are words, the
  -- unit is one of those of the type, and a remark does not begin as the other lines do.
  abbrev pub IsSayable : Said → Type 0
  IsSayable (status l t) = (starts_solid t ≡ true) × (is_line t ≡ true)
  IsSayable (state available) = Unit
  IsSayable (metric name unit value type) =
      (is_solid name ≡ true)
      × (starts_solid name ≡ true)
      × (is_solid unit ≡ true)
      × (starts_solid unit ≡ true)
      × (starts_solid value ≡ true)
      × (is_line value ≡ true)
      × (poller_type (lower unit) ≡ some type)
  IsSayable (remark s) =
      (r : String)
      → (s ≢ text_append "status" r) × (s ≢ text_append "state" r) × (s ≢ text_append "metric" r)

  -- The status after what was said, of which 256 bytes are kept.
  abbrev pub status_after : List Said → String → String
  status_after [] kept = kept
  status_after (status l t ∷ said) kept =
      status_after said (if ltb 256 (len t) then slice t 0 256 else t)
  status_after (state available ∷ said) kept = status_after said kept
  status_after (metric name unit value type ∷ said) kept = status_after said kept
  status_after (remark s ∷ said) kept = status_after said kept

  abbrev pub state_after : List Said → Bool → Bool
  state_after [] kept = kept
  state_after (status l t ∷ said) kept = state_after said kept
  state_after (state available ∷ said) kept = state_after said available
  state_after (metric name unit value type ∷ said) kept = state_after said kept
  state_after (remark s ∷ said) kept = state_after said kept

  -- The metric of a name after what was said.
  abbrev pub metric_after : String → List Said → Option Metric → Option Metric
  metric_after k [] kept = kept
  metric_after k (status l t ∷ said) kept = metric_after k said kept
  metric_after k (state available ∷ said) kept = metric_after k said kept
  metric_after k (metric name unit value type ∷ said) kept =
      metric_after k said
        (if str_eq name k then some (new_metric name "" type (text value) (lower unit)) else kept)
  metric_after k (remark s ∷ said) kept = metric_after k said kept

-- The two texts differ at a character of both.
abbrev pub diverge : String → String → Bool
diverge String.[] s = false
diverge (String.◌∷◌ c w) String.[] = false
diverge (String.◌∷◌ c w) (String.◌∷◌ d s) =
    let rest = diverge w s in if code c == code d then rest else true

pub behind-diverge : (w p s : String) → diverge w p ≡ true → behind w (text_append p s) ≡ none
behind-diverge String.[] p s h = cc
behind-diverge (String.◌∷◌ c w) String.[] s h = cc
behind-diverge (String.◌∷◌ c w) (String.◌∷◌ d p) s h = elim (Bool-cases (code c == code d)) [
  | inl same ↦ rw (cons-append d p s, same, behind-diverge w p s (rw same at h)) refl
  | inr other ↦ rw (cons-append d p s, other) refl
]

behind-some : (w s r : String) → behind w s ≡ some r → s ≡ text_append w r
behind-some String.[] s r h = rw (nil-append r) (cc)
behind-some (String.◌∷◌ c w) String.[] r h = cc
behind-some (String.◌∷◌ c w) (String.◌∷◌ d s) r h = elim (Bool-cases (code c == code d)) [
  | inl same ↦
      rw (cons-append c w r, behind-some w s r (rw same at h), Char-path c d (ground (arith, same)))
        refl
  | inr other ↦ cc (rw other at h)
]

pub behind-none : (w s : String) → ((r : String) → s ≢ text_append w r) → behind w s ≡ none
behind-none w s h = elim (Option-cases (behind w s)) [
  | inl e ↦ e
  | inr (r, e) ↦ absurd (h r (behind-some w s r e))
]
