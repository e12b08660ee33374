-- ===== src/Text/Search.antt =====
-- Where a pattern occurs in a text of Go's package strings that is put together from parts.
use Prim.Native.Char.{Char, code}
use Prim.Native.String
use text.Mathlib.TextLemmas.{nil-append as nil-append_lem, cons-append}
use nc_kyutai_live_transcrip.Prelude.{
  Bool, Option-cases, String, ap, arith, false, inl, inr, none, refl, some, ◌==◌, ◌||◌, ◌∙◌, ◌≡◌,
  ◌≢◌,
}
use nc_kyutai_live_transcrip.Text.{join, behind, replace_first, before}

-- The native append is the one that computes.
pub append-eq-join : (s t : String) → String.◌++◌ s t ≡ join s t
append-eq-join String.[] t = nil-append_lem t
append-eq-join (String.◌∷◌ c s) t = cons-append c s t ∙ ap (String.◌∷◌ c) (append-eq-join s t)

pub join_assoc : (s t u : String) → join (join s t) u ≡ join s (join t u)
join_assoc String.[] t u = refl
join_assoc (String.◌∷◌ c s) t u = ap (String.◌∷◌ c) (join_assoc s t u)

-- The text has a slash.
abbrev pub has_slash : String → Bool
has_slash String.[] = false
has_slash (String.◌∷◌ c s) = (code c == 47) || has_slash s

-- It is empty, or a slash and what is no slash: what can follow a host.
abbrev pub IsPath : String → Type 0
IsPath String.[] = Unit {0}
IsPath (String.◌∷◌ c String.[]) = code c ≡ 47
IsPath (String.◌∷◌ c (String.◌∷◌ d s)) = (code c ≡ 47) × (code d ≢ 47)

-- No text without a slash is the start of the pattern, with the path behind it.
abbrev Absent : String → String → Type 0
Absent p path = (s : String) → has_slash s ≡ false → behind p (join s path) ≡ none

Absent-slashes : (path : String) → IsPath path → Absent "//" path
unfolding behind
Absent-slashes String.[] w String.[] h = refl
Absent-slashes (String.◌∷◌ c String.[]) w String.[] h = ground arith
Absent-slashes (String.◌∷◌ c (String.◌∷◌ d s)) w String.[] h = ground arith
Absent-slashes path w (String.◌∷◌ c s) h = ground arith

Absent-cons :
    (p : Char) (ps path : String)
    → code p ≢ 47
    → IsPath path
    → Absent ps path
    → Absent (String.◌∷◌ p ps) path
unfolding behind
Absent-cons p ps String.[] n w a String.[] h = refl
Absent-cons p ps (String.◌∷◌ c String.[]) n w a String.[] h = ground arith
Absent-cons p ps (String.◌∷◌ c (String.◌∷◌ d s)) n w a String.[] h = ground arith
Absent-cons p ps path n w a (String.◌∷◌ c s) h = ground (arith, a s)

pub Absent-ws : (path : String) → IsPath path → Absent "ws://" path
Absent-ws path w = Absent-cons "w" "s://" path (omega arith) w (
    Absent-cons "s" "://" path (omega arith) w
      (Absent-cons ":" "//" path (omega arith) w (Absent-slashes path w)))

pub Absent-wss : (path : String) → IsPath path → Absent "wss://" path
Absent-wss path w = Absent-cons "w" "ss://" path (omega arith) w (
    Absent-cons "s" "s://" path (omega arith) w (
      Absent-cons "s" "://" path (omega arith) w
        (Absent-cons ":" "//" path (omega arith) w (Absent-slashes path w))))

-- Nothing is replaced in a host.
pub replace_first-host :
    (old new host path : String)
    → Absent old path
    → has_slash host ≡ false
    → replace_first old new (join host path) ≡ join host (replace_first old new path)
unfolding replace_first
replace_first-host old new String.[] path a h = refl
replace_first-host old new (String.◌∷◌ c s) path a h =
    rw (a (String.◌∷◌ c s) h, replace_first)
      (ap (String.◌∷◌ c) (replace_first-host old new s path a (ground arith)))

-- What follows a host, once something was replaced in it, is empty or starts with a slash.
abbrev pub Follows : String → Type 0
Follows String.[] = Unit {0}
Follows (String.◌∷◌ c s) = code c ≡ 47

-- A slash occurs first behind the host.
pub before-host :
    (host tail : String) (c : Char)
    → has_slash host ≡ false
    → code c ≡ 47
    → before "/" (join host (String.◌∷◌ c tail)) ≡ some host
unfolding before
before-host String.[] tail c h e = ground arith
before-host (String.◌∷◌ d s) tail c h e = ground (arith, before-host s tail c)

pub before-none : (host : String) → has_slash host ≡ false → before "/" host ≡ none
unfolding before
before-none String.[] h = refl
before-none (String.◌∷◌ d s) h = ground (arith, before-none s)

-- A pattern without a slash that a text does not start with, no longer one starts with either, if
-- it goes on with a slash.
pub behind-none :
    (p s tail : String) (c : Char)
    → has_slash p ≡ false
    → code c ≡ 47
    → behind p s ≡ none
    → behind p (join s (String.◌∷◌ c tail)) ≡ none
unfolding behind
behind-none String.[] s tail c h e n = cc
behind-none (String.◌∷◌ p ps) String.[] tail c h e n = ground arith
behind-none (String.◌∷◌ p ps) (String.◌∷◌ d s) tail c h e n =
    ground (arith, behind-none ps s tail c)

pub behind-join : (p s : String) → behind p (join p s) ≡ some s
unfolding behind
behind-join String.[] s = refl
behind-join (String.◌∷◌ c p) s = ground (arith, behind-join p s)

-- A pattern that starts with a slash occurs first at the path behind a host.
pub before_at_path :
    (host ps rest : String)
    → has_slash host ≡ false
    → before (join "/" ps) (join host (join (join "/" ps) rest)) ≡ some host
unfolding before
before_at_path String.[] ps rest h = ground (arith, behind-join ps rest)
before_at_path (String.◌∷◌ d s) ps rest h = ground (arith, before_at_path s ps rest)

pub IsPath-Follows : (path : String) → IsPath path → Follows path
IsPath-Follows String.[] w = tt
IsPath-Follows (String.◌∷◌ c String.[]) w = w
IsPath-Follows (String.◌∷◌ c (String.◌∷◌ d s)) w = w.0

behind-differs :
    (p c : Char) (ps s : String)
    → code p ≢ code c
    → behind (String.◌∷◌ p ps) (String.◌∷◌ c s) ≡ none
unfolding behind
behind-differs p c ps s n = ground arith

-- What replaces a scheme in a path leaves a path.
pub replace_first-IsPath :
    (p n : Char) (ps new path : String)
    → code p ≢ 47
    → code n ≢ 47
    → IsPath path
    → IsPath (replace_first (String.◌∷◌ p ps) (String.◌∷◌ n new) path)
unfolding replace_first
replace_first-IsPath p n ps new String.[] hp hn w = tt
replace_first-IsPath p n ps new (String.◌∷◌ c String.[]) hp hn w =
    rw (behind-differs p c ps String.[] (λ e. hp (e ∙ w)), replace_first) w
replace_first-IsPath p n ps new (String.◌∷◌ c (String.◌∷◌ d s)) hp hn w =
    rw (behind-differs p c ps (String.◌∷◌ d s) (λ e. hp (e ∙ w.0)), replace_first)
      (elim (Option-cases (behind (String.◌∷◌ p ps) (String.◌∷◌ d s))) [
        | inl stays ↦ rw (stays, replace_first) w
        | inr (rest, replaced) ↦ rw (replaced, replace_first) (w.0, hn)
      ])

pub join-nil : (s : String) → join s String.[] ≡ s
join-nil String.[] = refl
join-nil (String.◌∷◌ c s) = ap (String.◌∷◌ c) (join-nil s)
