-- ===== src/Text/Slashes.antt =====
-- The slashes at the end of a text, and between its parts.
use Prim.Native.Char.{Char, code}
use nc_kyutai_live_transcrip.Prelude.{
  Bool, Bool-cases, List, String, [], ap, arith, false, inl, inr, refl, sym, true, ◌&&◌, ◌++◌, ◌==◌,
  ◌∙◌, ◌∷◌, ◌≡◌,
}
use nc_kyutai_live_transcrip.Text.{
  join, ends_with_slash, trim_right, trim_left, trim, split_first, last_part,
}
use nc_kyutai_live_transcrip.Text.Search.{has_slash, join_assoc}

pub ends_with_slash-no_slash : (s : String) → has_slash s ≡ false → ends_with_slash s ≡ false
unfolding ends_with_slash
ends_with_slash-no_slash String.[] h = refl
ends_with_slash-no_slash (String.◌∷◌ c s) h = ground (arith, ends_with_slash-no_slash s)

-- The end of a text decides, where it is not empty.
pub ends_with_slash-join :
    (s : String) (c : Char) (t : String)
    → ends_with_slash (join s (String.◌∷◌ c t)) ≡ ends_with_slash (String.◌∷◌ c t)
unfolding ends_with_slash
ends_with_slash-join String.[] c t = refl
ends_with_slash-join (String.◌∷◌ d String.[]) c t = refl
ends_with_slash-join (String.◌∷◌ d (String.◌∷◌ e s)) c t = ends_with_slash-join (String.◌∷◌ e s) c t

-- A text that does not end with a slash is left as it is.
pub trim_right_lem : (s : String) → ends_with_slash s ≡ false → trim_right s ≡ s
unfolding trim_right ends_with_slash
trim_right_lem String.[] h = refl
trim_right_lem (String.◌∷◌ c String.[]) h = ground arith
trim_right_lem (String.◌∷◌ c (String.◌∷◌ d s)) h = rw (trim_right_lem (String.◌∷◌ d s) h)

abbrev pub only_slashes : String → Bool
only_slashes String.[] = true
only_slashes (String.◌∷◌ c s) = (code c == 47) && only_slashes s

pub trim_right-slashes : (s : String) → only_slashes s ≡ true → trim_right s ≡ ""
unfolding trim_right
trim_right-slashes String.[] h = refl
trim_right-slashes (String.◌∷◌ c s) h =
    rw (trim_right-slashes s (ground arith), trim_right) (ground arith)

pub trim_left-slashes : (s : String) → only_slashes s ≡ true → trim_left s ≡ ""
unfolding trim_left
trim_left-slashes String.[] h = refl
trim_left-slashes (String.◌∷◌ c s) h = ground (arith, trim_left-slashes s)

-- The slashes at the end are cut off, and no more.
pub trim_right-join :
    (c : Char) (s tail : String)
    → ends_with_slash (String.◌∷◌ c s) ≡ false
    → only_slashes tail ≡ true
    → trim_right (join (String.◌∷◌ c s) tail) ≡ String.◌∷◌ c s
unfolding trim_right ends_with_slash
trim_right-join c String.[] tail h k = rw (trim_right-slashes tail k, trim_right) (ground arith)
trim_right-join c (String.◌∷◌ d s) tail h k = rw (trim_right-join d s tail h k, trim_right) refl

split_first-no_slash : (s : String) → has_slash s ≡ false → split_first s ≡ (s, [])
unfolding split_first
split_first-no_slash String.[] h = refl
split_first-no_slash (String.◌∷◌ c s) h = ground (arith, split_first-no_slash s)

-- The parts of the text behind a slash are the last ones.
split_first-join :
    (s t : String)
    → (part : String) × (front : List String) × (split_first (join s (String.◌∷◌ "/" t))
        ≡ (part, front ++ (split_first t).0 ∷ (split_first t).1))
unfolding split_first
split_first-join String.[] t = ("", [], refl)
split_first-join (String.◌∷◌ c s) t =
    let (part, front, e) = split_first-join s t in
    elim (Bool-cases (code c == 47)) [
      | inl slash ↦ ("", part ∷ front, rw (slash, split_first) (rw (e, split_first) refl))
      | inr plain ↦ (String.◌∷◌ c part, front, rw (plain, split_first) (rw (e, split_first) refl))
    ]

last_part-append :
    (part next : String) (front parts : List String)
    → last_part (part, front ++ next ∷ parts) ≡ last_part (next, parts)
unfolding last_part
last_part-append part next [] parts = refl
last_part-append part next (p ∷ front) parts = last_part-append p next front parts

-- The last part is what stands behind the last slash.
last_part-join :
    (s t : String) → has_slash t ≡ false → last_part (split_first (join s (String.◌∷◌ "/" t))) ≡ t
unfolding last_part
last_part-join s t h =
    let (part, front, e) = split_first-join s t in
    rw e (
      last_part-append part (split_first t).0 front (split_first t).1
      ∙ ap last_part (split_first-no_slash t h))

module _ (c : Char) (s tail : String) where
  -- A name, and slashes behind it
  abbrev named : String
  named = join (String.◌∷◌ c s) tail

  module _ (h : has_slash (String.◌∷◌ c s) ≡ false) (k : only_slashes tail ≡ true) where
    trimmed_name : trim named ≡ String.◌∷◌ c s
    unfolding trim
    trimmed_name =
        let first : trim_left named ≡ named = ground arith in
        ap trim_right first
        ∙ trim_right-join c s tail (ends_with_slash-no_slash (String.◌∷◌ c s) h) k

    trimmed_path :
        (d : Char) (front : String)
        → (code d == 47) ≡ false
        → trim (join (String.◌∷◌ d front) (String.◌∷◌ "/" named))
          ≡ join (String.◌∷◌ d front) (String.◌∷◌ "/" (String.◌∷◌ c s))
    unfolding trim ends_with_slash
    trimmed_path d front plain =
        let whole = join (String.◌∷◌ d front) (String.◌∷◌ "/" (String.◌∷◌ c s)) in
        let first : trim_left (join (String.◌∷◌ d front) (String.◌∷◌ "/" named))
            ≡ join (String.◌∷◌ d front) (String.◌∷◌ "/" named) =
          rw (plain, trim_left) refl in
        ap trim_right
          (first ∙ sym (join_assoc (String.◌∷◌ d front) (String.◌∷◌ "/" (String.◌∷◌ c s)) tail))
        ∙ trim_right-join d (join front (String.◌∷◌ "/" (String.◌∷◌ c s))) tail
            (ends_with_slash-join (String.◌∷◌ d front) "/" (String.◌∷◌ c s)
              ∙ ends_with_slash-no_slash (String.◌∷◌ c s) h)
            k

    -- The last part of a path, behind whatever stands before it and before slashes.
    pub last_part-path :
        (front : String)
        → last_part (split_first (trim (join front (String.◌∷◌ "/" named)))) ≡ String.◌∷◌ c s
    unfolding trim last_part
    last_part-path String.[] =
        ap (λ t. last_part (split_first t)) trimmed_name
        ∙ ap last_part (split_first-no_slash (String.◌∷◌ c s) h)
    last_part-path (String.◌∷◌ d front) = elim (Bool-cases (code d == 47)) [
      | inl slash ↦ rw (slash, trim_left) (last_part-path front)
      | inr plain ↦
          ap (λ t. last_part (split_first t)) (trimmed_path d front plain)
          ∙ last_part-join (String.◌∷◌ d front) (String.◌∷◌ c s) h
    ]
