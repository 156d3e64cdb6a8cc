-- ===== src/Base/Pattern/Words.antt =====
-- A pattern's blanks and groups at a text of words.
use Prim.Native.Char.{Char, code}
use Prim.Native.String.{◌++◌ as text_append}
use text.Mathlib.TextLemmas.{nil-append, cons-append}
use rackspace_monitoring_pol.Base.{
  ℕ, String, Bool, true, false, not, ◌&&◌, Option, none, some, List, [], ◌∷◌, ◌==◌, ◌≡◌, refl, ap,
  arith,
}
use rackspace_monitoring_pol.Base.Pattern.{
  behind, is_blank, greedy_group, match_parts, match_blanks, match_lazy,
}

-- No character is a blank.
abbrev pub is_solid : String → Bool
is_solid String.[] = true
is_solid (String.◌∷◌ c s) = not (is_blank (code c)) && is_solid s

-- The first character is there, and is no blank.
abbrev pub starts_solid : String → Bool
starts_solid String.[] = false
starts_solid (String.◌∷◌ c s) = not (is_blank (code c))

-- One line.
abbrev pub is_line : String → Bool
is_line String.[] = true
is_line (String.◌∷◌ c s) = not (code c == 10) && is_line s

pub starts_solid-append :
    (s t : String) → starts_solid s ≡ true → starts_solid (text_append s t) ≡ true
starts_solid-append String.[] t h = cc
starts_solid-append (String.◌∷◌ c s) t h = rw (cons-append c s t) h

solid-head :
    (d : Char) (n : String)
    → is_solid (String.◌∷◌ d n) ≡ true
    → (is_blank (code d) ≡ false) × (is_solid n ≡ true)
solid-head d n h = both (is_blank (code d)) (is_solid n) h
  where
    both : (a b : Bool) → (not a && b) ≡ true → (a ≡ false) × (b ≡ true)
    both true b h = cc
    both false b h = (refl, h)

line-head :
    (d : Char) (n : String)
    → is_line (String.◌∷◌ d n) ≡ true
    → ((code d == 10) ≡ false) × (is_line n ≡ true)
line-head d n h = both (code d == 10) (is_line n) h
  where
    both : (a b : Bool) → (not a && b) ≡ true → (a ≡ false) × (b ≡ true)
    both true b h = cc
    both false b h = (refl, h)

not_newline : (k : ℕ) → is_blank k ≡ false → (k == 10) ≡ false
not_newline k h = ground arith

module _ (later : String → Option (List String)) where
  match_blanks-none : (s : String) → starts_solid s ≡ true → match_blanks later s ≡ none
  match_blanks-none String.[] h = refl
  match_blanks-none (String.◌∷◌ c s) h = ground arith

  -- One blank in front of a word is taken.
  pub match_blanks-one :
      (c : Char) (s : String)
      → is_blank (code c) ≡ true
      → starts_solid s ≡ true
      → match_blanks later (String.◌∷◌ c s) ≡ later s
  match_blanks-one c s h solid = rw (h, match_blanks-none s solid) refl

  -- A lazy group in front of a blank takes the word before it.
  pub match_lazy-word :
      (n : String) (c : Char) (s : String) (ms : List String)
      → is_solid n ≡ true
      → is_blank (code c) ≡ true
      → starts_solid s ≡ true
      → later s ≡ some ms
      → match_lazy (match_blanks later) (text_append n (String.◌∷◌ c s)) ≡ some (n ∷ ms)
  match_lazy-word String.[] c s ms solid blank word found =
      rw (nil-append (String.◌∷◌ c s), match_blanks-one c s blank word, found) refl
  match_lazy-word (String.◌∷◌ d n) c s ms solid blank word found =
      let (head, tail) = solid-head d n solid in
      rw
        (
          cons-append d n (String.◌∷◌ c s),
          head,
          not_newline (code d) head,
          match_lazy-word n c s ms tail blank word found,
        )
        refl

-- A greedy group at the end takes the rest of the line.
pub match_greedy-rest :
    (s : String) → is_line s ≡ true → match_parts (greedy_group ∷ []) s ≡ some (s ∷ [])
unfolding match_parts
match_greedy-rest String.[] h = refl
match_greedy-rest (String.◌∷◌ c s) h =
    let (head, tail) = line-head c s h in rw (head, match_greedy-rest s tail) refl

same_code : (k : ℕ) → (k == k) ≡ true
same_code k = ground arith

pub behind-append : (w s : String) → behind w (text_append w s) ≡ some s
behind-append String.[] s = ap some (nil-append s)
behind-append (String.◌∷◌ c w) s =
    rw (cons-append c w s, same_code (code c), behind-append w s) refl
