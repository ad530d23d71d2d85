-- ===== src/Miracast/Select.antt =====
-- crates/castr-wifidirect-win/src/select.rs and failure.rs: which display a name means, and what
-- Windows says of a failure.
pub mod Matching
use castr.Base.{
  ℕ, ◌-◌, Bool, true, false, not, Option, none, some, List, [], ◌∷◌, map, ltb, ◌||◌, if◌then◌else◌,
  Result, ok, err, is_empty,
}
use castr.Base.Bytes.{Bytes, bytes_eq}
use castr.Base.Text.{ascii}
use castr.Base.Strings.{
  to_lower, eq_ignore_ascii_case, starts_with, strip_prefix, contains, trim, lines,
}
use castr.Miracast.Wfd.{DeviceCaps, DeviceKind, source}
use castr.Miracast.Wfd.Methods.{ConfigMethods}

pub record Candidate : Type 0 where
  pub id : Bytes
  pub name : Bytes
  pub caps : Option DeviceCaps
  pub pairing : Option ConfigMethods

shows : DeviceKind → Bool
shows source = false
shows _ = true

unfoldable pub is_display : Candidate → Bool
unfolding shows
is_display c = elim c.caps [ none ↦ false | some d ↦ shows d.kind ]

pub data NoMatch : Type 0 where
  not_found : NoMatch
  not_a_display : Bytes → NoMatch
  ambiguous : List Bytes → NoMatch

-- `filter`
unfoldable pub keep : (Candidate → Bool) → List Candidate → List Candidate
keep p [] = []
keep p (c ∷ cs) = let rest = keep p cs in if p c then c ∷ rest else rest

abbrev pub is_exact : Bytes → Candidate → Bool
is_exact name c = bytes_eq c.name name

abbrev pub is_insensitive : Bytes → Candidate → Bool
is_insensitive name c = eq_ignore_ascii_case c.name name

abbrev pub has_prefix : Bytes → Candidate → Bool
has_prefix name c = starts_with (map to_lower name) (map to_lower c.name)

-- The candidates of the strictest reading that any fits.
unfoldable pub hits : List Candidate → Bytes → List Candidate
hits candidates name =
    let exact = keep (is_exact name) candidates in
    let insensitive = keep (is_insensitive name) candidates in
    if not (is_empty exact)
    then exact
    else if not (is_empty insensitive)
    then insensitive
    else keep (has_prefix name) candidates

unfoldable pub judge_hits : List Candidate → Result Candidate NoMatch
judge_hits [] = err not_found
judge_hits (c ∷ []) = if is_display c then ok c else err (not_a_display c.name)
judge_hits (c ∷ d ∷ cs) = err (ambiguous (map (λ x. x.name) (c ∷ d ∷ cs)))

unfoldable pub match_by_name : List Candidate → Bytes → Result Candidate NoMatch
match_by_name candidates name = judge_hits (hits candidates name)

pub record WaitPolicy : Type 0 where
  pub timeout : ℕ

unfoldable pub keep_waiting : WaitPolicy → ℕ → ℕ → Bool
keep_waiting w since now = ltb (now - since) w.timeout

pub data Stage : Type 0 where
  discovery pairing association address : Stage

unfoldable pub stage_text : Stage → Bytes
stage_text discovery = ascii "discovery"
stage_text pairing = ascii "pairing"
stage_text association = ascii "association"
stage_text address = ascii "address"

-- The line of the failure, if it is one.
failure_line : Bytes → Option Bytes
failure_line l = strip_prefix (ascii "Failure Reason:") (trim l)

first_failure : List Bytes → Option Bytes
unfolding failure_line
first_failure [] = none
first_failure (l ∷ ls) =
    let rest = first_failure ls in elim (failure_line l) [ none ↦ rest | some r ↦ some r ]

unfoldable pub parse_wlan_failure : Bytes → Option Bytes
unfolding first_failure
parse_wlan_failure text = elim (first_failure (lines text)) [
  | none ↦ none
  | some r ↦ if is_empty (trim r) then none else some (trim r)
]

unfoldable pub looks_like_stale_credentials : Bytes → Bool
looks_like_stale_credentials reason =
    let r = map to_lower reason in
    contains (ascii "not available") r
    || contains (ascii "cannot be found") r
    || contains (ascii "not found") r
