-- ===== src/Base/Lines/Parts.antt =====
-- The parts of a text, and a scan that a line ends.
use Prim.Native.Char.{Char, code}
use Prim.Native.String.{len, ◌++◌ as text_append}
use text.Mathlib.TextLemmas.{nil-append, cons-append}
use mathlib.Core.List.{append-nil}
use rackspace_monitoring_pol.Base.{
  ℕ, String, Bool, true, List, [], ◌∷◌, ◌++◌, ◌≡◌, ◌≢◌, refl, ap, ◌∙◌, ◌≤◌, sym, ◌==◌, str_eq,
  eq_iff, All, arith, Bool-cases, inl, inr,
}
use rackspace_monitoring_pol.Base.Text.{is_space}
use rackspace_monitoring_pol.Base.Lines.{
  split_by, split, nonempty, fields, drop_last_empty, scan_raw, scan_lines, max_scan_token_size,
}

-- There is one part at least.
pub split_by-cons :
    (sep : ℕ → Bool) (s : String)
    → (part : String) × (parts : List String) × (split_by sep s ≡ part ∷ parts)
unfolding split_by
split_by-cons sep String.[] = ("", [], refl)
split_by-cons sep (String.◌∷◌ c s) =
    let (part, parts, e) = split_by-cons sep s in
    elim (Bool-cases (sep (code c))) [
      | inl here ↦ ("", part ∷ parts, rw (split_by, e, here) refl)
      | inr other ↦ (String.◌∷◌ c part, parts, rw (split_by, e, other) refl)
    ]

-- A separator divides the parts.
split_by-append :
    (sep : ℕ → Bool) (c : Char) (a b : String)
    → sep (code c) ≡ true
    → split_by sep (text_append a (String.◌∷◌ c b)) ≡ split_by sep a ++ split_by sep b
unfolding split_by
split_by-append sep c String.[] b h =
    let (part, parts, e) = split_by-cons sep b in
    rw (nil-append (String.◌∷◌ c b), split_by, e, h) refl
split_by-append sep c (String.◌∷◌ d a) b h =
    let (part, parts, e) = split_by-cons sep a in
    elim (Bool-cases (sep (code d))) [
      | inl here ↦
          rw (cons-append d a (String.◌∷◌ c b), split_by, split_by-append sep c a b h, e, here) refl
      | inr other ↦
          rw (cons-append d a (String.◌∷◌ c b), split_by, split_by-append sep c a b h, e, other)
            refl
    ]

drop_last_empty-append :
    (xs : List String) (y : String) (ys : List String)
    → drop_last_empty (xs ++ y ∷ ys) ≡ xs ++ drop_last_empty (y ∷ ys)
drop_last_empty-append [] y ys = refl
drop_last_empty-append (x ∷ []) y ys = refl
drop_last_empty-append (x ∷ (z ∷ xs)) y ys = ap (x ∷◌) (drop_last_empty-append (z ∷ xs) y ys)

-- A line too long ends the scan.
scan_raw-long :
    (xs : List String) (long : String) (ys : List String)
    → max_scan_token_size ≤ len long
    → scan_raw (xs ++ long ∷ ys) ≡ scan_raw xs
scan_raw-long [] long ys h = ground arith
scan_raw-long (x ∷ xs) long ys h = rw (scan_raw-long xs long ys h) refl

nonempty-All : (ss : List String) → All (λ s. s ≢ "") (nonempty ss)
nonempty-All [] = tt
nonempty-All (s ∷ ss) = elim (Bool-cases (str_eq s "")) [
  | inl e ↦ rw e (nonempty-All ss)
  | inr e ↦ rw e (λ h. cc ((eq_iff s "").1 h), nonempty-All ss)
]

-- No field is empty.
pub fields-All : (s : String) → All (λ f. f ≢ "") (fields s)
unfolding fields
fields-All s = nonempty-All (split_by is_space s)

-- A text whose line is too long is scanned up to that line.
pub scan_lines-long :
    (c : Char) (before long rest : String)
    → code c ≡ 10
    → split 10 long ≡ long ∷ []
    → max_scan_token_size ≤ len long
    → scan_lines (text_append before (String.◌∷◌ c (text_append long (String.◌∷◌ c rest))))
      ≡ scan_lines (text_append before (String.◌∷◌ c ""))
unfolding scan_lines split_by
scan_lines-long c before long rest nl one_line too_long =
    let is_sep = (ap (λ n. n == 10) nl) in
    let (part, parts, e) = split_by-cons (λ n. n == 10) rest in
    rw
      (
        split_by-append (λ n. n == 10) c before (text_append long (String.◌∷◌ c rest)) is_sep,
        split_by-append (λ n. n == 10) c long rest is_sep,
        split_by-append (λ n. n == 10) c before "" is_sep,
        one_line,
        e,
        drop_last_empty-append (split 10 before) long (part ∷ parts),
        drop_last_empty-append (split 10 before) "" [],
      )
      (scan_raw-long (split 10 before) long _ too_long
        ∙ ap scan_raw (sym (append-nil (split 10 before))))
