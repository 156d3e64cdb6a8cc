-- ===== src/Base/Lines.antt =====
-- What the source uses of Go's strings.Split and strings.Fields, and of bufio.Scanner over lines.
pub mod Parts
use Prim.Native.Char.{code}
use Prim.Native.String.{len}
use rackspace_monitoring_pol.Base.{
  ℕ, String, Bool, not, List, [], ◌∷◌, ltb, ◌==◌, if◌then◌else◌, str_eq,
}
use rackspace_monitoring_pol.Base.Text.{is_space}

-- The parts between the separators, which are one at least.
unfoldable pub split_by : (ℕ → Bool) → String → List String
split_by sep String.[] = "" ∷ []
split_by sep (String.◌∷◌ c s) = elim (split_by sep s) [
  | [] ↦ String.◌∷◌ c "" ∷ []
  | part ∷ parts ↦ if sep (code c) then "" ∷ part ∷ parts else String.◌∷◌ c part ∷ parts
]

abbrev pub split : ℕ → String → List String
split sep = split_by (λ c. c == sep)

abbrev pub nonempty : List String → List String
nonempty [] = []
nonempty (s ∷ ss) = let rest = nonempty ss in if str_eq s "" then rest else s ∷ rest

-- strings.Fields
unfoldable pub fields : String → List String
fields s = nonempty (split_by is_space s)

-- bufio.ScanLines: a carriage return before the line's end is dropped, and so is an empty last line.
unfoldable pub drop_cr : String → String
drop_cr String.[] = ""
drop_cr (String.◌∷◌ c s) = elim (drop_cr s) [
  | String.◌∷◌ d r ↦ String.◌∷◌ c (String.◌∷◌ d r)
  | String.[] ↦
      if str_eq s "" then (if code c == 13 then "" else String.◌∷◌ c "") else String.◌∷◌ c ""
]

-- bufio.MaxScanTokenSize: a line that fills the scanner's buffer ends the scan, with an error that
-- only Scanner.Err tells.
abbrev pub max_scan_token_size : ℕ
max_scan_token_size = 65536

abbrev pub scan_raw : List String → List String
scan_raw [] = []
scan_raw (s ∷ ss) =
    let rest = scan_raw ss in if ltb (len s) max_scan_token_size then drop_cr s ∷ rest else []

abbrev pub drop_last_empty : List String → List String
drop_last_empty [] = []
drop_last_empty (s ∷ []) = if str_eq s "" then [] else s ∷ []
drop_last_empty (s ∷ (t ∷ ss)) = s ∷ drop_last_empty (t ∷ ss)

unfoldable pub scan_lines : String → List String
scan_lines s = scan_raw (drop_last_empty (split 10 s))
