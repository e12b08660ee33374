-- ===== src/Session/Voice/Says.antt =====
-- What the rounds of a transcriber's `run` make of the transcripts that wait for it.
use nc_kyutai_live_transcrip.Prelude.{
  Bool, Bool-cases, LeavesOut, LeavesOut-append, LeavesOut-between, LeavesOut-more, LeavesOut-offer,
  LeavesOut-refl, LeavesOut-trans, List, Option, Option-cases, [], ap, append-nil, append_assoc,
  arith, false, inl, inr, leb, none, not, refl, some, str_eq, suc, sym, true, ℕ, ◌&&◌, ◌++◌, ◌==◌,
  ◌||◌, ◌∙◌, ◌∷◌, ◌≡◌,
}
use nc_kyutai_live_transcrip.Json.{Fields}
use nc_kyutai_live_transcrip.Modal.Client.{
  Client, ModalError, Transcript, transcript_cap, token_or_end, connect, report_read_error,
  mark_disconnected, on_text, is_normal_close, is_connected,
}
use nc_kyutai_live_transcrip.Modal.Reading.{transcript_of, type_of}
use nc_kyutai_live_transcrip.Session.Transcriber.{
  Captioner, Caption, CaptionEvent, transcript, tick, ending, caption_step, caption_run,
}
use nc_kyutai_live_transcrip.Session.Run.{
  Runner, max_attempts, on_transcript, on_error, on_modal_error, try_reconnect,
}
use nc_kyutai_live_transcrip.Session.Run.System.{System, system_step}
use nc_kyutai_live_transcrip.Session.Voice.Settled.{system_step-captioner}
use nc_kyutai_live_transcrip.Session.Voice.{
  ServiceEvent, connects, reports, marks, hears_back, service_event,
}

-- The transcripts among caption events
abbrev pub transcripts_in : List (ℕ × CaptionEvent) → List Transcript
transcripts_in [] = []
transcripts_in ((now, transcript t) ∷ es) = t ∷ transcripts_in es
transcripts_in ((now, tick) ∷ es) = transcripts_in es
transcripts_in ((now, ending) ∷ es) = transcripts_in es

transcripts_in-append :
    (es fs : List (ℕ × CaptionEvent))
    → transcripts_in (es ++ fs) ≡ transcripts_in es ++ transcripts_in fs
transcripts_in-append [] fs = refl
transcripts_in-append ((now, transcript t) ∷ es) fs = ap (◌∷◌ t) (transcripts_in-append es fs)
transcripts_in-append ((now, tick) ∷ es) fs = transcripts_in-append es fs
transcripts_in-append ((now, ending) ∷ es) fs = transcripts_in-append es fs

caption_run-append :
    (c : Captioner) (es fs : List (ℕ × CaptionEvent))
    → let (middle, out) = caption_run c es in
      ((caption_run c (es ++ fs)).0 ≡ (caption_run middle fs).0)
      × ((caption_run c (es ++ fs)).1 ≡ out ++ (caption_run middle fs).1)
unfolding caption_run
caption_run-append c [] fs = (refl, refl)
caption_run-append c ((now, e) ∷ es) fs =
    let (c', out) = caption_step now e c in
    let (p, q) = caption_run-append c' es fs in
    (p, ap (λ l. out ++ l) q ∙ sym (append_assoc out (caption_run c' es).1 _))

-- From one runner to a later one, captions are broadcast as if its loop handled some caption
-- events, whose transcripts, followed by those that still wait, are those that waited and the new
-- ones, in their order, less some that are left out.
pub record Says (new : List Transcript) (r : Runner) (out : List Caption) (r' : Runner)
    : Type 0 where
  pub events : List (ℕ × CaptionEvent)
  pub captioner : r'.captioner ≡ (caption_run r.captioner events).0
  pub captions : out ≡ (caption_run r.captioner events).1
  pub order :
      LeavesOut (transcripts_in events ++ r'.client.transcript_ch) (r.client.transcript_ch ++ new)

pub Says-trans :
    (new more : List Transcript) (out out' : List Caption) (r r' r'' : Runner)
    → Says new r out r'
    → Says more r' out' r''
    → Says (new ++ more) r (out ++ out') r''
Says-trans new more out out' r r' r'' a b =
    let (p, q) = caption_run-append r.captioner a.events b.events in
    let waiting = r.client.transcript_ch in
    let later = r''.client.transcript_ch in
    record {
      events = a.events ++ b.events;
      captioner = b.captioner ∙ ap (λ c. (caption_run c b.events).0) a.captioner ∙ sym p;
      captions =
          ap (λ l. l ++ out') a.captions
          ∙ ap (λ l. (caption_run r.captioner a.events).1 ++ l)
              (b.captions ∙ ap (λ c. (caption_run c b.events).1) a.captioner)
          ∙ sym q;
      order =
          LeavesOut-between
            (ap (λ l. l ++ later) (transcripts_in-append a.events b.events)
              ∙ append_assoc (transcripts_in a.events) (transcripts_in b.events) later)
            (LeavesOut-trans
              (LeavesOut-between refl
                (LeavesOut-append (LeavesOut-refl (transcripts_in a.events)) b.order)
                (sym (append_assoc (transcripts_in a.events) r'.client.transcript_ch more)))
              (LeavesOut-append a.order (LeavesOut-refl more)))
            (append_assoc waiting new more);
    }

-- A step that leaves captions and transcripts alone
pub Says-nothing :
    (r r' : Runner)
    → r'.captioner ≡ r.captioner
    → r'.client.transcript_ch ≡ r.client.transcript_ch
    → Says [] r [] r'
unfolding caption_run
Says-nothing r r' same waiting = record {
  events = [];
  captioner = same;
  captions = refl;
  order = LeavesOut-between waiting (LeavesOut-more r.client.transcript_ch []) refl;
}

-- A step that handles one caption event, which takes the given transcripts from the channel
pub Says-one :
    (now : ℕ) (e : CaptionEvent) (r r' : Runner)
    → r'.captioner ≡ (caption_step now e r.captioner).0
    → transcripts_in ((now, e) ∷ []) ++ r'.client.transcript_ch ≡ r.client.transcript_ch
    → Says [] r (caption_step now e r.captioner).1 r'
unfolding caption_run
Says-one now e r r' same waiting = record {
  events = (now, e) ∷ [];
  captioner = same;
  captions = sym (append-nil (caption_step now e r.captioner).1);
  order = LeavesOut-between waiting (LeavesOut-more r.client.transcript_ch []) refl;
}

try_reconnect-quiet :
    (dialled : Bool) (r : Runner)
    → let r' = (try_reconnect dialled r).0 in
      (r'.captioner ≡ r.captioner) × (r'.client.transcript_ch ≡ r.client.transcript_ch)
unfolding try_reconnect connect
try_reconnect-quiet true r = (refl, refl)
try_reconnect-quiet false r = (refl, refl)

module _ {ℓ} (A : Type ℓ) where
  pub on_transcript-Says :
      (now : ℕ) (waiting : List Transcript) (r : Runner)
      → r.client.transcript_ch ≡ waiting
      → let (r', effects) = on_transcript {A = A} now waiting r in Says [] r effects.captions r'
  unfolding on_transcript caption_step
  on_transcript-Says now [] r e = Says-nothing r r refl refl
  on_transcript-Says now (t ∷ rest) r e = Says-one now (transcript t) r _ refl (sym e)

  pub on_error-Says :
      (now : ℕ) (dialled : Bool) (errors : List ModalError) (r : Runner)
      → let (r', effects) = on_error {A = A} now dialled errors r in Says [] r effects.captions r'
  unfolding on_error on_modal_error caption_step
  on_error-Says now dialled [] r = Says-nothing r r refl refl
  on_error-Says now dialled (e ∷ rest) r =
      let r' : Runner = record r { client = record (r.client) { err_ch = rest } } in
      elim (Bool-cases (is_normal_close e)) [
        | inl normal ↦ simp (normal) (Says-one now ending r _ refl refl)
        | inr broken ↦
            elim (Bool-cases
              (not (is_connected r'.client) && leb (suc r.modal_connect_attempts) max_attempts)) [
                | inl again ↦
                    let (captions, transcripts) = try_reconnect-quiet dialled r' in
                    simp (broken, again) (Says-nothing r _ captions transcripts)
                | inr done ↦ simp (broken, done) (Says-nothing r r' refl refl)
              ]
      ]

on_text-order :
    (quit : Bool) (m : Option Fields) (c : Client)
    → LeavesOut (on_text quit m c).transcript_ch (c.transcript_ch ++ transcript_of m)
unfolding on_text
on_text-order quit none c = LeavesOut-more c.transcript_ch []
on_text-order quit (some msg) c = elim (Option-cases (token_or_end (type_of msg) msg)) [
  | inr (t, is) ↦
      rw (is, on_text, transcript_of)
        (elim (Bool-cases (quit && c.cancelled)) [
          | inl given_up ↦ rw given_up (LeavesOut-more c.transcript_ch (t ∷ []))
          | inr stays ↦ rw stays (LeavesOut-offer transcript_cap c.transcript_ch t)
        ])
  | inl other ↦
      rw (other, on_text, transcript_of)
        (elim (Bool-cases (str_eq (type_of msg) "error")) [
          | inl bad ↦ rw bad (LeavesOut-more c.transcript_ch [])
          | inr unknown ↦ rw unknown (LeavesOut-more c.transcript_ch [])
        ])
]

-- The transcripts that an event of the service brings
abbrev pub brings : ServiceEvent → List Transcript
brings (connects dialled) = []
brings (reports normal) = []
brings marks = []
brings (hears_back quit msg) = transcript_of msg

connect-waiting :
    (dialled : Bool) (c : Client) → (connect dialled c).0.transcript_ch ≡ c.transcript_ch
unfolding connect
connect-waiting true c = refl
connect-waiting false c = refl

module _ {ℓ} (A : Type ℓ) where
  service-order :
      (cancelled : Bool) (e : ServiceEvent) (s : System)
      → LeavesOut
          (system_step {A = A} (service_event cancelled e) s).runner.client.transcript_ch
          (s.runner.client.transcript_ch ++ brings e)
  unfolding system_step report_read_error mark_disconnected
  service-order cancelled (connects dialled) s =
      LeavesOut-between (ground (arith, connect-waiting (dialled && not cancelled) s.runner.client))
        (LeavesOut-more s.runner.client.transcript_ch []) refl
  service-order cancelled (reports normal) s =
      LeavesOut-between (ground arith) (LeavesOut-more s.runner.client.transcript_ch []) refl
  service-order cancelled marks s =
      LeavesOut-between (ground arith) (LeavesOut-more s.runner.client.transcript_ch []) refl
  service-order cancelled (hears_back quit msg) s =
      elim (Bool-cases (s.runner.client.reading == 0 || s.dying)) [
        | inl gone ↦ rw gone (LeavesOut-more s.runner.client.transcript_ch (transcript_of msg))
        | inr reading ↦ rw reading (on_text-order quit msg s.runner.client)
      ]

  pub service-Says :
      (cancelled : Bool) (e : ServiceEvent) (s : System)
      → Says (brings e) s.runner [] (system_step {A = A} (service_event cancelled e) s).runner
  unfolding caption_run
  service-Says cancelled e s = record {
    events = [];
    captioner = system_step-captioner A cancelled e s;
    captions = refl;
    order = service-order cancelled e s;
  }
