-- ===== src/Results/Status.antt =====
-- The status of a set of results (SetStatus and SetStatusFromError of check/checkresult.go).
use Prim.Native.Char.{Char, code, len_utf8}
use Prim.Native.Nat.{compare, Ordering}
use Prim.Native.String.{fits, len, slice, ◌++◌ as text_append}
use Prim.Native.String.len.{nil as len-nil, cons as len-cons}
use Prim.Native.String.slice.{nil as slice-nil, cons-zero as slice-cons}
use text.Mathlib.TextLemmas.{nil-append, cons-append}
use rackspace_monitoring_pol.Base.{
  ℕ, zero, ◌-◌, ◌≤◌, String, ◌≡◌, refl, true, false, none, some, arith, ◌==◌,
}
use rackspace_monitoring_pol.Base.Text.{after_last, crop, trim_space}
use rackspace_monitoring_pol.Results.{States, set_status, set_state, set_status_from_error}

-- The text has no character with that code.
abbrev pub Lacks : ℕ → String → Type 0
Lacks sep String.[] = Unit
Lacks sep (String.◌∷◌ c s) = ((code c == sep) ≡ false) × Lacks sep s

len-fits-le :
    (o : Ordering) (c : Char) (s : String) (b : ℕ)
    → compare (len_utf8 c) b ≡ o
    → len s ≤ b - len_utf8 c
    → len (fits o c s) ≤ b
len-fits-le Ordering.lt c s b e h = rw (len-cons c s) (ground arith)
len-fits-le Ordering.eq c s b e h = rw (len-cons c s) (ground arith)
len-fits-le Ordering.gt c s b e h = rw len-nil (omega arith)

len-slice-le : (s : String) (b : ℕ) → len (slice s zero b) ≤ b
len-slice-le String.[] b = rw (slice-nil zero b, len-nil) (omega arith)
len-slice-le (String.◌∷◌ c s) b =
    rw (slice-cons c s b) (len-fits-le _ c _ b refl (len-slice-le s (b - len_utf8 c)))

pub len-crop-le : (limit : ℕ) (s : String) → len (crop limit s) ≤ limit
unfolding crop
len-crop-le limit s = ground (arith, len-slice-le s limit)

pub crop_short : (limit : ℕ) (s : String) → len s ≤ limit → crop limit s ≡ s
unfolding crop
crop_short limit s h = ground arith

after_last-Lacks : (sep : ℕ) (s : String) → Lacks sep s → after_last sep s ≡ none
unfolding after_last
after_last-Lacks sep String.[] h = refl
after_last-Lacks sep (String.◌∷◌ c s) h = rw (after_last-Lacks sep s h.1, h.0) refl

after_last-append :
    (sep : ℕ) (before : String) (c : Char) (rest : String)
    → (code c == sep) ≡ true
    → Lacks sep rest
    → after_last sep (text_append before (String.◌∷◌ c rest)) ≡ some rest
unfolding after_last
after_last-append sep String.[] c rest e h =
    rw (nil-append, after_last, after_last-Lacks sep rest h, e) refl
after_last-append sep (String.◌∷◌ d s) c rest e h =
    rw (cons-append, after_last, after_last-append sep s c rest e h) refl

-- SetStatusFromError keeps what stands behind the last colon of the error's text, without the white
-- space around it, and an error without a colon whole, however long it is; SetStatus and SetState keep
-- a text of at most 256 bytes, and cut a longer one to at most 256. None of them changes the other
-- field.
pub set_status-Kept :
    (before rest whole : String) (c : Char) (st : States)
    → code c ≡ 58
    → Lacks 58 rest
    → Lacks 58 whole
    → (set_status_from_error (text_append before (String.◌∷◌ c rest)) st
        ≡ record st { status = trim_space rest })
      × (set_status_from_error whole st ≡ record st { status = whole })
      × ((s : String)
          → ((len s ≤ 256 → set_status s st ≡ record st { status = s })
              × (len (set_status s st).status ≤ 256)
              × ((set_status s st).state ≡ st.state))
            × ((len s ≤ 256 → set_state s st ≡ record st { state = s })
                × (len (set_state s st).state ≤ 256)
                × ((set_state s st).status ≡ st.status)))
unfolding set_status_from_error set_status set_state
set_status-Kept before rest whole c st e r w = (
  rw (set_status_from_error, after_last-append 58 before c rest (ground (arith, e)) r) refl,
  rw (set_status_from_error, after_last-Lacks 58 whole w) refl,
  λ s. (
    (λ h. rw (crop_short 256 s h) refl, len-crop-le 256 s, refl),
    (λ h. rw (crop_short 256 s h) refl, len-crop-le 256 s, refl),
  ),
)
