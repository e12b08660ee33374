-- ===== src/Text.antt =====
-- What the service uses of Go's package strings. A text is the list of its characters, which are
-- its bytes where it is ASCII, as a URL is.
pub mod Search
pub mod Slashes
pub mod Decimal
use Prim.Native.Char.{code}
use Prim.Native.String
use mathlib.Core.Option
use nc_kyutai_live_transcrip.Prelude.{
  Bool, List, Option, String, [], false, if◌then◌else◌, map, none, some, suc, true, zero, ℕ, ◌&&◌,
  ◌==◌, ◌∷◌,
}

-- `s == ""`
abbrev pub is_nil : String → Bool
is_nil String.[] = true
is_nil (String.◌∷◌ c s) = false

-- `s + t`, by recursion on `s`. It is the native append, which computes at literals only.
abbrev pub join : String → String → String
join String.[] t = t
join (String.◌∷◌ c s) t = String.◌∷◌ c (join s t)

-- What stands behind a pattern, if the text starts with it
unfoldable pub behind : String → String → Option String
behind String.[] s = some s
behind (String.◌∷◌ p ps) String.[] = none
behind (String.◌∷◌ p ps) (String.◌∷◌ c s) =
    let rest = behind ps s in if code p == code c then rest else none

-- `strings.Replace(s, old, new, 1)`, for an `old` that is not empty
unfoldable pub replace_first : String → String → String → String
unfolding behind
replace_first old new String.[] = String.[]
replace_first old new (String.◌∷◌ c s) =
    let later = String.◌∷◌ c (replace_first old new s) in
    elim (behind old (String.◌∷◌ c s)) [ some rest ↦ join new rest | none ↦ later ]

-- `s[:strings.Index(s, p)]`, where `p`, which is not empty, occurs
unfoldable pub before : String → String → Option String
unfolding behind
before p String.[] = none
before p (String.◌∷◌ c s) =
    let later = Option.map (String.◌∷◌ c) (before p s) in
    elim (behind p (String.◌∷◌ c s)) [ some rest ↦ some String.[] | none ↦ later ]

-- `s[n:]`; `none` is the panic of a slice out of range.
unfoldable pub slice_from : ℕ → String → Option String
slice_from zero s = some s
slice_from (suc n) String.[] = none
slice_from (suc n) (String.◌∷◌ c s) = slice_from n s

-- `s[:n]`, for an `n` within the text
unfoldable pub slice_to : ℕ → String → String
slice_to zero s = String.[]
slice_to (suc n) String.[] = String.[]
slice_to (suc n) (String.◌∷◌ c s) = String.◌∷◌ c (slice_to n s)

-- `strings.HasSuffix(s, "/")`
unfoldable pub ends_with_slash : String → Bool
ends_with_slash String.[] = false
ends_with_slash (String.◌∷◌ c s) =
    let later = ends_with_slash s in if is_nil s then code c == 47 else later

-- `strings.TrimRight(s, "/")`
unfoldable pub trim_right : String → String
trim_right String.[] = String.[]
trim_right (String.◌∷◌ c s) =
    let rest = trim_right s in
    if is_nil rest && (code c == 47) then String.[] else String.◌∷◌ c rest

-- `strings.Trim(s, "/")`
unfoldable pub trim_left : String → String
trim_left String.[] = String.[]
trim_left (String.◌∷◌ c s) = let rest = trim_left s in if code c == 47 then rest else String.◌∷◌ c s

unfoldable pub trim : String → String
unfolding trim_left trim_right
trim s = trim_right (trim_left s)

-- `strings.Split(s, "/")`: the first part, and the others.
unfoldable pub split_first : String → String × List String
split_first String.[] = (String.[], [])
split_first (String.◌∷◌ c s) =
    let (part, parts) = split_first s in
    if code c == 47 then (String.[], part ∷ parts) else (String.◌∷◌ c part, parts)

-- `parts[len(parts)-1]` of that
unfoldable pub last_part : String × List String → String
last_part (part, []) = part
last_part (part, next ∷ parts) = last_part (next, parts)
