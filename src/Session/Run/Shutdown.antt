-- ===== src/Session/Run/Shutdown.antt =====
-- The shutdown of a transcriber.
use nc_kyutai_live_transcrip.Prelude.{
  List, String, [], ap, append-nil, append_assoc, arith, if◌then◌else◌, length, refl, str_eq_iff,
  sym, true, ℕ, ◌&&◌, ◌++◌, ◌+◌, ◌==◌, ◌∙◌, ◌∷◌, ◌≡◌,
}
use nc_kyutai_live_transcrip.Modal.Client.{Client, send_audio, is_connected}
use nc_kyutai_live_transcrip.Session.Transcriber.{
  Captioner, CaptionEvent, transcript, ending, caption_step, caption_run, handle_transcript,
  flush_pending_final,
}
use nc_kyutai_live_transcrip.Session.Transcriber.Captions.{
  segments, segment_step, finals, captions_refine,
}
use nc_kyutai_live_transcrip.Session.Run.{
  DrainEvent, drained_chunk, drained_transcript, drained_error, send_audio_chunk, drain_from,
  drain_on_shutdown,
}

module _ {ℓ} {A : Type ℓ} where
  -- The transcripts among what the drain takes, and then its end.
  abbrev pub drained : List (ℕ × DrainEvent A) → ℕ → List (ℕ × CaptionEvent)
  drained [] timer = (timer, ending) ∷ []
  drained ((now, drained_chunk chunk) ∷ es) timer = drained es timer
  drained ((now, drained_transcript tr) ∷ es) timer = (now, transcript tr) ∷ drained es timer
  drained ((now, drained_error e) ∷ es) timer = drained es timer

  drain_captions :
      (count : ℕ) (client : Client) (c : Captioner) (es : List (ℕ × DrainEvent A)) (timer : ℕ)
      → let (last, captions, sent) = drain_from count client c es in
        let (done, out) = flush_pending_final timer last in
        (done ≡ (caption_run c (drained es timer)).0)
        × (captions ++ out ≡ (caption_run c (drained es timer)).1)
  unfolding drain_from caption_run caption_step
  drain_captions count client c [] timer = (refl, sym (append-nil _))
  drain_captions count client c ((now, drained_chunk chunk) ∷ es) timer =
      drain_captions (send_audio_chunk chunk count client).0 client c es timer
  drain_captions count client c ((now, drained_transcript tr) ∷ es) timer =
      let (c', out) = handle_transcript now tr c in
      let (p, q) = drain_captions count client c' es timer in
      (p, append_assoc out _ _ ∙ ap (◌++◌ out) q)
  drain_captions count client c ((now, drained_error e) ∷ es) timer =
      drain_captions count client c es timer

  segments-drained :
      (text : String) (es : List (ℕ × DrainEvent A)) (timer : ℕ)
      → (segments text (drained es timer)).0 ≡ ""
  segments-drained text [] timer = ground (arith, str_eq_iff text "")
  segments-drained text ((now, drained_chunk chunk) ∷ es) timer = segments-drained text es timer
  segments-drained text ((now, drained_transcript tr) ∷ es) timer =
      segments-drained (segment_step (transcript tr) text).0 es timer
  segments-drained text ((now, drained_error e) ∷ es) timer = segments-drained text es timer

  -- The audio among what the drain takes: the chunks with a sample.
  abbrev pub drained_audio : List (ℕ × DrainEvent A) → List (List A)
  drained_audio [] = []
  drained_audio ((now, drained_chunk chunk) ∷ es) =
      if length chunk == 0 then drained_audio es else chunk ∷ drained_audio es
  drained_audio ((now, drained_transcript tr) ∷ es) = drained_audio es
  drained_audio ((now, drained_error e) ∷ es) = drained_audio es

  drain_audio :
      (count : ℕ) (client : Client) (c : Captioner) (es : List (ℕ × DrainEvent A))
      → (drain_from count client c es).2
        ≡ (if client.connected && client.has_conn then drained_audio es else [])
  unfolding drain_from send_audio_chunk send_audio is_connected
  drain_audio count client c [] = ground arith
  drain_audio count client c ((now, drained_chunk chunk) ∷ es) =
      ground (arith, drain_audio count client c es, drain_audio (count + 1) client c es)
  drain_audio count client c ((now, drained_transcript tr) ∷ es) =
      drain_audio count client (handle_transcript now tr c).0 es
  drain_audio count client c ((now, drained_error e) ∷ es) = drain_audio count client c es

  -- While the callback is set, a shutdown leaves no text pending, and its final captions are the
  -- pending text and the trailing tokens, cut into utterances, the unfinished one included. If the
  -- service is connected, every chunk with a sample that is taken goes to it, in order, and if it
  -- is not, none does.
  pub drain_flushes :
      (client : Client) (c : Captioner) (es : List (ℕ × DrainEvent A)) (timer : ℕ)
      → c.can_broadcast ≡ true
      → let (done, captions, sent) = drain_on_shutdown client c es timer in
        (done.pending_text ≡ "")
        × (finals captions ≡ (segments c.pending_text (drained es timer)).1)
        × (sent ≡ (if client.connected && client.has_conn then drained_audio es else []))
  unfolding drain_on_shutdown
  drain_flushes client c es timer can =
      let (p, q) = drain_captions 0 client c es timer in
      let (last, said) = captions_refine c (drained es timer) can in
      (
        ap (λ (d : Captioner). d.pending_text) p ∙ last ∙ segments-drained c.pending_text es timer,
        ap finals q ∙ said,
        drain_audio 0 client c es,
      )
