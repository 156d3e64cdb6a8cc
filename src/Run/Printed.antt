-- ===== src/Run/Printed.antt =====
-- What the lines that a plugin prints come to (check/check_plugin.go).
use Prim.Native.Char.{Char}
use Prim.Native.String.{◌++◌ as text_append}
use rackspace_monitoring_pol.Base.{String, true, none, some, [], ◌∷◌, ◌≡◌, ◌∙◌, refl, ap}
use rackspace_monitoring_pol.Base.Dict.{string_eq}
use rackspace_monitoring_pol.Base.Pattern.{
  blanks, lazy_group, greedy_group, match_parts, match_lazy, match_blanks,
}
use rackspace_monitoring_pol.Base.Pattern.Words.{
  is_solid, starts_solid, is_line, starts_solid-append, match_blanks-one, match_lazy-word,
  match_greedy-rest, behind-append,
}
use rackspace_monitoring_pol.Results.{MetricType, text, new_metric}
use rackspace_monitoring_pol.Run.Plugin.{metric_of_line, poller_type, metric_regex}

abbrev blank : Char
blank = " "

-- "metric NAME UNIT VALUE"
abbrev pub printed : String → String → String → String
printed name unit value = text_append "metric" (
    String.◌∷◌ blank
      (text_append name (String.◌∷◌ blank (text_append unit (String.◌∷◌ blank value)))))

match_unit :
    (unit value : String)
    → is_solid unit ≡ true
    → starts_solid value ≡ true
    → is_line value ≡ true
    → match_parts
        (lazy_group ∷ blanks ∷ greedy_group ∷ [])
        (text_append unit (String.◌∷◌ blank value))
      ≡ some (unit ∷ value ∷ [])
unfolding match_parts
match_unit unit value u v line =
    match_lazy-word (match_parts (greedy_group ∷ [])) unit blank value (value ∷ []) u refl v
      (match_greedy-rest value line)

match_printed :
    (name unit value : String)
    → is_solid name ≡ true
    → starts_solid name ≡ true
    → is_solid unit ≡ true
    → starts_solid unit ≡ true
    → starts_solid value ≡ true
    → is_line value ≡ true
    → match_parts metric_regex (printed name unit value) ≡ some (name ∷ unit ∷ value ∷ [])
unfolding match_parts
match_printed name unit value n n0 u u0 v line =
    let later_parts = match_parts (lazy_group ∷ blanks ∷ greedy_group ∷ []) in
    let unit_value = text_append unit (String.◌∷◌ blank value) in
    let name_on = text_append name (String.◌∷◌ blank unit_value) in
    ap
      (λ o. elim o [
        | none ↦ none
        | some rest ↦ match_blanks (match_lazy (match_blanks later_parts)) rest
      ])
      (behind-append "metric" (String.◌∷◌ blank name_on))
    ∙ match_blanks-one (match_lazy (match_blanks later_parts)) blank name_on refl
        (starts_solid-append name (String.◌∷◌ blank unit_value) n0)
    ∙ match_lazy-word later_parts name blank unit_value (unit ∷ value ∷ []) n refl
        (starts_solid-append unit (String.◌∷◌ blank value) u0) (match_unit unit value u v line)

module _ (lower : String → String) where
  -- A line "metric NAME UNIT VALUE", whose name and unit are words and whose value is the rest of the
  -- line, with a unit that stands for a type of metric in lower case, gives the metric of that name,
  -- type, unit and value.
  pub metric_of_line-printed :
      (name unit value : String) (type : MetricType)
      → is_solid name ≡ true
      → starts_solid name ≡ true
      → is_solid unit ≡ true
      → starts_solid unit ≡ true
      → starts_solid value ≡ true
      → is_line value ≡ true
      → poller_type (lower unit) ≡ some type
      → metric_of_line lower (printed name unit value)
        ≡ some (new_metric name "" type (text value) (lower unit))
  unfolding metric_of_line
  metric_of_line-printed name unit value type n n0 u u0 v line known =
      rw (metric_of_line, match_printed name unit value n n0 u u0 v line, known) refl
