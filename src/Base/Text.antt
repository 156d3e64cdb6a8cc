-- ===== src/Base/Text.antt =====
-- What the source uses of Go's package strings, on texts: TrimSpace, LastIndex and a slice up to a
-- bound in bytes (a character that the bound cuts is left out, where Go keeps its first bytes).
use Prim.Native.Char.{code}
use Prim.Native.String.{len, slice}
use rackspace_monitoring_pol.Base.{
  ℕ, String, Bool, ◌||◌, ◌&&◌, Option, none, some, leb, ltb, ◌==◌, if◌then◌else◌,
}

-- unicode.IsSpace
abbrev pub is_space : ℕ → Bool
is_space c =
    (leb 9 c && leb c 13)
    || c == 32
    || c == 133
    || c == 160
    || c == 5760
    || (leb 8192 c && leb c 8202)
    || c == 8232
    || c == 8233
    || c == 8239
    || c == 8287
    || c == 12288

abbrev pub trim_left : String → String
trim_left String.[] = String.[]
trim_left (String.◌∷◌ c s) =
    let rest = trim_left s in if is_space (code c) then rest else String.◌∷◌ c s

abbrev pub trim_right : String → String
trim_right String.[] = String.[]
trim_right (String.◌∷◌ c s) = elim (trim_right s) [
  | String.[] ↦ if is_space (code c) then String.[] else String.◌∷◌ c String.[]
  | String.◌∷◌ d r ↦ String.◌∷◌ c (String.◌∷◌ d r)
]

unfoldable pub trim_space : String → String
trim_space s = trim_left (trim_right s)

-- What stands behind the last `sep`, if there is one: `s[strings.LastIndex(s, sep)+1:]`.
unfoldable pub after_last : ℕ → String → Option String
after_last sep String.[] = none
after_last sep (String.◌∷◌ c s) = elim (after_last sep s) [
  | some r ↦ some r
  | none ↦ if code c == sep then some s else none
]

-- if len(s) > limit { s = s[:limit] }
unfoldable pub crop : ℕ → String → String
crop limit s = if ltb limit (len s) then slice s 0 limit else s
