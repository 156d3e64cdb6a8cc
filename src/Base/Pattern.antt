-- ===== src/Base/Pattern.antt =====
-- What the source uses of Go's regular expressions, at a text's start: a word, blanks (as many as
-- possible), one of some words, and groups that take as little or as much as possible. Of all ways to
-- match, the first in this order is taken.
pub mod Words
use Prim.Native.Char.{Char, code}
use rackspace_monitoring_pol.Base.{
  ℕ, String, Bool, true, false, ◌||◌, Option, none, some, List, [], ◌∷◌, leb, ◌&&◌, ◌==◌,
  if◌then◌else◌, str_eq,
}

-- \s
abbrev pub is_blank : ℕ → Bool
is_blank c = c == 32 || c == 9 || c == 10 || c == 12 || c == 13

pub data Part : Type 0 where
  word : String → Part
  -- \s+
  blanks : Part
  -- (a|b|…)
  one_of : List String → Part
  -- (.*?)
  lazy_group : Part
  -- (.*)
  greedy_group : Part

abbrev Groups : Type 0
Groups = Option (List String)

abbrev first_of : Groups → Groups → Groups
first_of none second = second
first_of (some m) second = some m

abbrev group : String → Groups → Groups
group m none = none
group m (some ms) = some (m ∷ ms)

-- The group gets one character more in front.
abbrev lengthen : Char → Groups → Groups
lengthen c none = none
lengthen c (some []) = none
lengthen c (some (m ∷ ms)) = some (String.◌∷◌ c m ∷ ms)

-- The text behind the word.
abbrev pub behind : String → String → Option String
behind String.[] s = some s
behind (String.◌∷◌ c w) String.[] = none
behind (String.◌∷◌ c w) (String.◌∷◌ d s) =
    let rest = behind w s in if code c == code d then rest else none

module _ (later : String → Groups) where
  abbrev pub match_word : String → String → Groups
  match_word w s = elim (behind w s) [ none ↦ none | some rest ↦ later rest ]

  abbrev pub match_blanks : String → Groups
  match_blanks String.[] = none
  match_blanks (String.◌∷◌ c s) =
      let more = match_blanks s in if is_blank (code c) then first_of more (later s) else none

  abbrev pub match_one_of : List String → String → Groups
  match_one_of [] s = none
  match_one_of (w ∷ ws) s =
      first_of (elim (behind w s) [ none ↦ none | some rest ↦ group w (later rest) ])
        (match_one_of ws s)

  abbrev pub match_lazy : String → Groups
  match_lazy String.[] = group "" (later "")
  match_lazy (String.◌∷◌ c s) =
      let more = match_lazy s in
      first_of (group "" (later (String.◌∷◌ c s))) (if code c == 10 then none else lengthen c more)

  abbrev pub match_greedy : String → Groups
  match_greedy String.[] = group "" (later "")
  match_greedy (String.◌∷◌ c s) =
      let more = match_greedy s in
      first_of (if code c == 10 then none else lengthen c more) (group "" (later (String.◌∷◌ c s)))

-- The groups of the match, if there is one.
unfoldable pub match_parts : List Part → String → Option (List String)
match_parts [] s = some []
match_parts (word w ∷ ps) s = match_word (match_parts ps) w s
match_parts (blanks ∷ ps) s = match_blanks (match_parts ps) s
match_parts (one_of ws ∷ ps) s = match_one_of (match_parts ps) ws s
match_parts (lazy_group ∷ ps) s = match_lazy (match_parts ps) s
match_parts (greedy_group ∷ ps) s = match_greedy (match_parts ps) s
