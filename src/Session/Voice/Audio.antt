-- ===== src/Session/Voice/Audio.antt =====
-- The audio goroutine neither reorders nor repeats what it hears, whatever its channels drop.
use nc_kyutai_live_transcrip.Prelude.{
  Bool-cases, LeavesOut, LeavesOut-append, LeavesOut-concat, LeavesOut-more, LeavesOut-none,
  LeavesOut-offer, LeavesOut-refl, LeavesOut-trans, List, Option, [], ap, append-nil, append_assoc,
  arith, concat, concat-append, inl, inr, keeps, leb, length, none, nothing, offer, refl, skips,
  some, suc, sym, ℕ, ◌++◌, ◌+◌, ◌==◌, ◌||◌, ◌∙◌, ◌∷◌, ◌≡◌,
}
use nc_kyutai_live_transcrip.Audio.Floats.{Floats}
use nc_kyutai_live_transcrip.Audio.ChunkBuffer.{flush}
use nc_kyutai_live_transcrip.Audio.ChunkBuffer.Exact.{add-IsCut}
use nc_kyutai_live_transcrip.Audio.Pipeline.{Pipeline, process_frame}
use nc_kyutai_live_transcrip.Session.AudioLoop.{
  Selects, later, takes_done, audio_out_cap, enqueue_audio_chunks, send_tail, AudioLoop,
  buffer_and_enqueue, process_input_frame, process_frames, drain_audio_input,
  flush_audio_cache_tail, finish,
}
use nc_kyutai_live_transcrip.Session.AudioLoop.Bounded.{
  IsSound, process_frame_total, length-enqueue, length-send_tail,
}

module _ {ℓ} {A : Type ℓ} where
  enqueue-order :
      (sel : Selects) (chunks out : List (List A))
      → LeavesOut (enqueue_audio_chunks sel chunks out) (out ++ chunks)
  unfolding enqueue_audio_chunks
  enqueue-order sel [] out = LeavesOut-more out []
  enqueue-order sel (chunk ∷ chunks) out =
      let rest = enqueue-order (later sel) chunks (offer audio_out_cap out chunk) in
      elim (Bool-cases (takes_done sel 0 (leb audio_out_cap (length out)))) [
        | inl quit ↦ rw quit (LeavesOut-more out (chunk ∷ chunks))
        | inr on ↦ rw on (
            LeavesOut-trans rest (
              rw (sym (append_assoc out (chunk ∷ []) chunks)) (
                LeavesOut-append (LeavesOut-offer audio_out_cap out chunk)
                  (LeavesOut-refl chunks))))
      ]

  send_tail-order :
      (sel : Selects) (tail : List A) (out : List (List A))
      → LeavesOut (send_tail sel tail out) (out ++ tail ∷ [])
  unfolding send_tail
  send_tail-order sel tail out =
      elim (Bool-cases ((length tail == 0) || takes_done sel 0 (leb audio_out_cap (length out)))) [
        | inl quit ↦ rw quit (LeavesOut-more out (tail ∷ []))
        | inr on ↦ rw on (LeavesOut-offer audio_out_cap out tail)
      ]

abbrev or_empty {ℓ} : {A : Type ℓ} → Option (List A) → List A
or_empty none = []
or_empty (some xs) = xs

module _ (F : Floats) where
  open F use {F32}

  -- What the pipeline makes of a frame, and of frames one after the other.
  abbrev pub as_heard : Pipeline F → List F32 → List F32
  as_heard p frame = or_empty (process_frame F p frame)

  abbrev pub all_heard : Pipeline F → List (List F32) → List F32
  all_heard p [] = []
  all_heard p (frame ∷ frames) = as_heard p frame ++ all_heard p frames

  pub all_heard-append :
      (p : Pipeline F) (xs ys : List (List F32))
      → all_heard p (xs ++ ys) ≡ all_heard p xs ++ all_heard p ys
  all_heard-append p [] ys = refl
  all_heard-append p (x ∷ xs) ys =
      rw (all_heard-append p xs ys, append_assoc (as_heard p x) (all_heard p xs) (all_heard p ys))
        refl

  pub all_heard-order :
      (p : Pipeline F) {xs ys : List (List F32)}
      → LeavesOut xs ys
      → LeavesOut (all_heard p xs) (all_heard p ys)
  all_heard-order p nothing = nothing
  all_heard-order p (keeps q) = LeavesOut-append (LeavesOut-refl _) (all_heard-order p q)
  all_heard-order p (skips q) = LeavesOut-append (LeavesOut-none _) (all_heard-order p q)

  -- The samples that wait in the output channel and in the buffer
  abbrev pub held : AudioLoop F → List F32
  held s = concat s.audio_out_ch ++ s.audio_cache.buffer

  -- From one state to a later one: of what was held and the given samples nothing is reordered.
  pub record Took (s : AudioLoop F) (samples : List F32) (t : AudioLoop F) : Type 0 where
    pub order : LeavesOut (held t) (held s ++ samples)
    pub same_pipe : t.audio_pipe ≡ s.audio_pipe
    pub same_input : t.audio_input_ch ≡ s.audio_input_ch
    pub sound : IsSound F t

  Took-nothing : (s : AudioLoop F) → IsSound F s → Took s [] s
  Took-nothing s v = record {
    order = LeavesOut-more (held s) [];
    same_pipe = refl;
    same_input = refl;
    sound = v;
  }

  Took-trans :
      (s t u : AudioLoop F) (xs ys : List F32) → Took s xs t → Took t ys u → Took s (xs ++ ys) u
  Took-trans s t u xs ys a b = record {
    order =
        LeavesOut-trans b.order
          (rw (sym (append_assoc (held s) xs ys)) (LeavesOut-append a.order (LeavesOut-refl ys)));
    same_pipe = b.same_pipe ∙ a.same_pipe;
    same_input = b.same_input ∙ a.same_input;
    sound = b.sound;
  }

  buffer-Took :
      (sel : Selects) (xs : List F32) (s : AudioLoop F)
      → IsSound F s
      → (t : AudioLoop F) × (buffer_and_enqueue F sel xs s ≡ some t) × Took s xs t
  unfolding buffer_and_enqueue
  buffer-Took sel xs s v =
      let (chunks, rest, e, c) = add-IsCut s.audio_cache xs v.positive in
      let out = s.audio_out_ch in
      let out' = enqueue_audio_chunks sel chunks out in
      let whole : concat (out ++ chunks) ++ rest ≡ held s ++ xs =
        ap (λ l. l ++ rest) (concat-append out chunks)
        ∙ append_assoc (concat out) (concat chunks) rest
        ∙ ap (λ l. concat out ++ l) c.whole
        ∙ sym (append_assoc (concat out) s.audio_cache.buffer xs) in
      (
        record s { audio_cache = record (s.audio_cache) { buffer = rest }; audio_out_ch = out' },
        rw e refl,
        record {
          order = rw (sym whole) (
              LeavesOut-append (LeavesOut-concat (enqueue-order sel chunks out))
                (LeavesOut-refl rest));
          same_pipe = refl;
          same_input = refl;
          sound = record {
            queued = length-enqueue sel chunks out v.queued;
            positive = v.positive;
            short = c.short;
          };
        },
      )

  pub frame-Took :
      (sel : Selects) (frame : List F32) (s : AudioLoop F)
      → IsSound F s
      → (t : AudioLoop F) × (process_input_frame F sel frame s ≡ some t)
        × Took s (as_heard s.audio_pipe frame) t
  unfolding process_input_frame process_frame
  frame-Took sel [] s v = (s, refl, Took-nothing s v)
  frame-Took sel (x ∷ xs) s v =
      let (out, e) = process_frame_total F s.audio_pipe (x ∷ xs) in
      let (t, f, a) =
        buffer-Took sel out (record s { frame_count = s.frame_count + 1 })
          (record { queued = v.queued; positive = v.positive; short = v.short }) in
      (
        t,
        rw e f,
        record {
          order = rw e a.order;
          same_pipe = a.same_pipe;
          same_input = a.same_input;
          sound = a.sound;
        },
      )

  frames-Took :
      (sels : ℕ → Selects) (frames : List (List F32)) (s : AudioLoop F)
      → IsSound F s
      → (t : AudioLoop F) × (process_frames F sels frames s ≡ some t)
        × Took s (all_heard s.audio_pipe frames) t
  unfolding process_frames
  frames-Took sels [] s v = (s, refl, Took-nothing s v)
  frames-Took sels (frame ∷ frames) s v =
      let (t, e, a) = frame-Took (sels 0) frame s v in
      let (u, f, b) = frames-Took (λ k. sels (suc k)) frames t a.sound in
      (u, rw e f, Took-trans s t u _ _ a (rw a.same_pipe at b))

  -- The end of the audio goroutine empties the input channel and the buffer.
  pub finish-Took :
      (sels : ℕ → Selects) (sel : Selects) (s : AudioLoop F)
      → IsSound F s
      → (t : AudioLoop F) × (finish F sels sel s ≡ some t)
        × LeavesOut (held t) (held s ++ all_heard s.audio_pipe s.audio_input_ch)
        × (t.audio_pipe ≡ s.audio_pipe)
        × (t.audio_input_ch ≡ [])
        × IsSound F t
  unfolding finish drain_audio_input flush_audio_cache_tail flush
  finish-Took sels sel s v =
      let (t, e, a) =
        frames-Took sels s.audio_input_ch (record s { audio_input_ch = [] })
          (record { queued = v.queued; positive = v.positive; short = v.short }) in
      let tail = t.audio_cache.buffer in
      let out = t.audio_out_ch in
      let flushed = send_tail sel tail out in
      let whole : concat (out ++ tail ∷ []) ≡ held t =
        concat-append out (tail ∷ []) ∙ ap (λ l. concat out ++ l) (append-nil tail) in
      (
        record t { audio_cache = record (t.audio_cache) { buffer = [] }; audio_out_ch = flushed },
        rw e refl,
        LeavesOut-trans
            (rw (append-nil (concat flushed), sym whole)
              (LeavesOut-concat (send_tail-order sel tail out)))
            a.order,
        a.same_pipe,
        a.same_input,
        record {
          queued = length-send_tail sel tail out a.sound.queued;
          positive = a.sound.positive;
          short = omega (arith, a.sound.positive);
        },
      )
