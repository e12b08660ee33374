-- ===== src/Session/Transcriber/Captions.antt =====
-- What viewers get from the caption side of a transcriber, over any sequence of events.
use Prim.Native.String
use text.Mathlib.TextLemmas.{
  nil-append, append-nil as string_append-nil, append_assoc as string_append_assoc,
  append-eq-nil_iff,
}
use nc_kyutai_live_transcrip.Prelude.{
  List, String, [], ap, arith, false, if◌then◌else◌, refl, str_eq_iff, sym, true, ℕ, ◌++◌, ◌∙◌, ◌∷◌,
  ◌≡◌,
}
use nc_kyutai_live_transcrip.Modal.Client.{is_empty}
use nc_kyutai_live_transcrip.Session.Transcriber.{
  Captioner, Caption, CaptionEvent, transcript, tick, ending, caption_step, caption_run,
  new_captioner,
}

-- The texts of the final captions, one after the other.
abbrev pub final_text : List Caption → String
final_text [] = ""
final_text (c ∷ cs) = if c.final then String.◌++◌ c.text (final_text cs) else final_text cs

-- The text of a token; ends and ticks carry none.
abbrev pub token_text : CaptionEvent → String
token_text (transcript tr) = if tr.final then "" else tr.text
token_text tick = ""
token_text ending = ""

abbrev pub spoken : List (ℕ × CaptionEvent) → String
spoken [] = ""
spoken ((now, e) ∷ es) = String.◌++◌ (token_text e) (spoken es)

final_text-append :
    (xs ys : List Caption) → final_text (xs ++ ys) ≡ String.◌++◌ (final_text xs) (final_text ys)
final_text-append [] ys = sym (nil-append _)
final_text-append (c ∷ xs) ys =
    ground
      (arith, final_text-append xs ys, string_append_assoc c.text (final_text xs) (final_text ys))

step_conserves :
    (now : ℕ) (e : CaptionEvent) (t : Captioner)
    → t.can_broadcast ≡ true
    → let (t', out) = caption_step now e t in
      (String.◌++◌ (final_text out) t'.pending_text ≡ String.◌++◌ t.pending_text (token_text e))
      × (t'.can_broadcast ≡ true)
unfolding caption_step
step_conserves now (transcript tr) t h = ground (
  arith,
  str_eq_iff t.pending_text "",
  str_eq_iff tr.text "",
  string_append-nil t.pending_text,
  nil-append t.pending_text,
  nil-append (String.◌++◌ t.pending_text tr.text),
  string_append-nil (String.◌++◌ t.pending_text ""),
)
step_conserves now tick t h =
    ground (arith, string_append-nil t.pending_text, nil-append t.pending_text)
step_conserves now ending t h = ground (
  arith,
  str_eq_iff t.pending_text "",
  string_append-nil t.pending_text,
  nil-append t.pending_text,
  string_append-nil (String.◌++◌ t.pending_text ""),
)

-- While the callback is set, no token is lost, repeated or moved by the throttling: the final
-- captions, followed by the text still pending, are what was pending and then the tokens in order.
pub captions_lossless :
    (t : Captioner) (es : List (ℕ × CaptionEvent))
    → t.can_broadcast ≡ true
    → let (last, out) = caption_run t es in
      String.◌++◌ (final_text out) last.pending_text ≡ String.◌++◌ t.pending_text (spoken es)
unfolding caption_run
captions_lossless t [] h = nil-append t.pending_text ∙ sym (string_append-nil t.pending_text)
captions_lossless t ((now, e) ∷ es) h =
    let t' = (caption_step now e t).0 in
    let out = (caption_step now e t).1 in
    let (kept, can) = step_conserves now e t h in
    let last = caption_run t' es in
    ap (λ s. String.◌++◌ s last.0.pending_text) (final_text-append out last.1)
    ∙ string_append_assoc (final_text out) (final_text last.1) last.0.pending_text
    ∙ ap (String.◌++◌ (final_text out)) (captions_lossless t' es can)
    ∙ sym (string_append_assoc (final_text out) t'.pending_text (spoken es))
    ∙ ap (λ s. String.◌++◌ s (spoken es)) kept
    ∙ string_append_assoc t.pending_text (token_text e) (spoken es)

-- The specification of the final captions: the tokens, cut at the ends of utterances, the empty
-- pieces left out. It knows no clock, no throttling and no ticks.
abbrev pub close_utterance : String → String × List String
close_utterance text = if is_empty text then (text, []) else ("", text ∷ [])

abbrev pub segment_step : CaptionEvent → String → String × List String
segment_step (transcript tr) text =
    if tr.final then close_utterance text else (String.◌++◌ text tr.text, [])
segment_step tick text = (text, [])
segment_step ending text = close_utterance text

abbrev pub segments : String → List (ℕ × CaptionEvent) → String × List String
segments text [] = (text, [])
segments text ((now, e) ∷ es) =
    let (text', done) = segment_step e text in
    let (last, more) = segments text' es in (last, done ++ more)

abbrev pub finals : List Caption → List String
finals [] = []
finals (c ∷ cs) = if c.final then c.text ∷ finals cs else finals cs

pub finals-append : (xs ys : List Caption) → finals (xs ++ ys) ≡ finals xs ++ finals ys
finals-append [] ys = refl
finals-append (c ∷ xs) ys = ground (arith, finals-append xs ys)

step_refines :
    (now : ℕ) (e : CaptionEvent) (t : Captioner)
    → t.can_broadcast ≡ true
    → let (t', out) = caption_step now e t in
      (t'.pending_text ≡ (segment_step e t.pending_text).0)
      × (finals out ≡ (segment_step e t.pending_text).1)
      × (t'.can_broadcast ≡ true)
unfolding caption_step
step_refines now (transcript tr) t h =
    ground
      (arith, str_eq_iff t.pending_text "", str_eq_iff tr.text "", string_append-nil t.pending_text)
step_refines now tick t h = ground arith
step_refines now ending t h = ground (arith, str_eq_iff t.pending_text "")

-- While the callback is set, whatever the times of the events and wherever the ticks fall, from any
-- pending text: the final captions are the utterances into which the specification cuts that text
-- and the tokens behind it, and the pending text is its unfinished one.
pub captions_refine :
    (t : Captioner) (es : List (ℕ × CaptionEvent))
    → t.can_broadcast ≡ true
    → let (last, out) = caption_run t es in
      (last.pending_text ≡ (segments t.pending_text es).0)
      × (finals out ≡ (segments t.pending_text es).1)
unfolding caption_run
captions_refine t [] h = (refl, refl)
captions_refine t ((now, e) ∷ es) h =
    let t' = (caption_step now e t).0 in
    let out = (caption_step now e t).1 in
    let (p, f, can) = step_refines now e t h in
    let (q, g) = captions_refine t' es can in
    (
      q ∙ ap (λ s. (segments s es).0) p,
      finals-append out (caption_run t' es).1
          ∙ ap (λ l. l ++ finals (caption_run t' es).1) f
          ∙ ap (λ l. (segment_step e t.pending_text).1 ++ l) (g ∙ ap (λ s. (segments s es).1) p),
    )

-- What a viewer sees of the utterance in progress: the last caption, until a final one closes it.
abbrev pub shown : String → List Caption → String
shown text [] = text
shown text (c ∷ cs) = shown (if c.final then "" else c.text) cs

shown-append :
    (text : String) (xs ys : List Caption) → shown text (xs ++ ys) ≡ shown (shown text xs) ys
shown-append text [] ys = refl
shown-append text (c ∷ xs) ys = shown-append (if c.final then "" else c.text) xs ys

-- Text that is not marked as unsent is on the viewers' screens, and only text is so marked.
pub record IsFresh (text : String) (t : Captioner) : Type 0 where
  pub can : t.can_broadcast ≡ true
  pub sent : t.broadcast_dirty ≡ false → text ≡ t.pending_text
  pub unsent : t.pending_text ≡ "" → t.broadcast_dirty ≡ false

append-eq-nil : (a b : String) → String.◌++◌ a b ≡ "" → b ≡ ""
append-eq-nil a b h = (append-eq-nil_iff.0 h).1

step-IsFresh :
    (text : String) (now : ℕ) (e : CaptionEvent) (t : Captioner)
    → IsFresh text t
    → let (t', out) = caption_step now e t in IsFresh (shown text out) t'
unfolding caption_step
step-IsFresh text now (transcript tr) t h = ground (
  arith,
  str_eq_iff t.pending_text "",
  str_eq_iff tr.text "",
  append-eq-nil t.pending_text tr.text,
)
step-IsFresh text now tick t h = ground arith
step-IsFresh text now ending t h = ground (arith, str_eq_iff t.pending_text "")

pub run-IsFresh :
    (text : String) (t : Captioner) (es : List (ℕ × CaptionEvent))
    → IsFresh text t
    → let (last, out) = caption_run t es in IsFresh (shown text out) last
unfolding caption_run
run-IsFresh text t [] h = h
run-IsFresh text t ((now, e) ∷ es) h =
    let out = (caption_step now e t).1 in
    rw (shown-append text out (caption_run (caption_step now e t).0 es).1)
      (run-IsFresh (shown text out) (caption_step now e t).0 es (step-IsFresh text now e t h))

tick_fresh :
    (text : String) (now later : ℕ) (t : Captioner)
    → IsFresh text t
    → let (t', sent) = caption_step now tick t in
      (shown text sent ≡ t.pending_text)
      × (t'.pending_text ≡ t.pending_text)
      × ((caption_step later tick t').1 ≡ [])
unfolding caption_step
tick_fresh text now later t h = ground (arith, str_eq_iff t.pending_text "")

-- After any events a tick brings the viewers up to date: what they then see is the whole pending
-- text, however the throttle treated the tokens. A second tick sends nothing.
pub tick_catches_up :
    (es : List (ℕ × CaptionEvent)) (now later : ℕ)
    → let (t, out) = caption_run new_captioner es in
      let (t', sent) = caption_step now tick t in
      (shown "" (out ++ sent) ≡ t.pending_text)
      × (t'.pending_text ≡ t.pending_text)
      × ((caption_step later tick t').1 ≡ [])
tick_catches_up es now later =
    let t = (caption_run new_captioner es).0 in
    let out = (caption_run new_captioner es).1 in
    let fresh =
      run-IsFresh "" new_captioner es
        (record { can = refl; sent = λ _. refl; unsent = λ _. refl }) in
    let (seen, kept, quiet) = tick_fresh (shown "" out) now later t fresh in
    (shown-append "" out (caption_step now tick t).1 ∙ seen, kept, quiet)
