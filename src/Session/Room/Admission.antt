-- ===== src/Session/Room/Admission.antt =====
-- Who becomes a speaker, and who stops being one.
use nc_kyutai_live_transcrip.Prelude.{
  Bool, String, arith, false, has, if◌then◌else◌, is_some, length, lookup-delete, lookup-insert,
  ltb, pos, refl, str_eq, str_eq_iff, true, ℕ, ◌&&◌, ◌||◌, ◌↔◌, ◌≡◌, ◌≢◌,
}
use nc_kyutai_live_transcrip.Json.{Fields, get_field, string_or_empty, is_true}
use nc_kyutai_live_transcrip.Audio.Floats.{Floats}
use nc_kyutai_live_transcrip.Audio.Pipeline.{new_pipeline}
use nc_kyutai_live_transcrip.Webrtc.Manager.{create_peer}
use nc_kyutai_live_transcrip.Session.Participant.{
  Verdict, skip, mark_internal, discard, admit, session_of, in_call_flags, speaks, is_stale,
  display_name, judge,
}
use nc_kyutai_live_transcrip.Session.Room.{
  Room, Environment, max_room_speakers, note_internal, is_internal, remove_speaker, enter_speaker,
  add_speaker, with_webrtc, apply_verdict, handle_user,
}

-- Whether a session is a speaker after an entry for it was judged so.
abbrev pub speaker_after : Environment → Verdict → Bool → ℕ → String → Bool
speaker_after env skip was count s = was
speaker_after env mark_internal was count s = false
speaker_after env discard was count s = false
speaker_after env admit was count s = was || (ltb count max_room_speakers && env.peer_made s)

pub remove_speaker-speakers :
    (k s : String) (r : Room)
    → has s (remove_speaker k r).0.speakers ≡ (if str_eq k s then false else has s r.speakers)
unfolding remove_speaker
remove_speaker-speakers k s r = ground (arith, lookup-delete k s r.speakers, str_eq_iff k s)

enter_speaker-speakers :
    (k user_id name s : String) (r : Room)
    → has s (enter_speaker k user_id name r).speakers
      ≡ (if str_eq k s then true else has s r.speakers)
unfolding enter_speaker
enter_speaker-speakers k user_id name s r = ground (
  arith,
  lookup-insert k s (record { session_id = k; user_id = user_id; name = name }) r.speakers,
)

pub session_pipeline : (F : Floats) → is_some (new_pipeline F (pos 48000) (pos 24000)) ≡ true
unfolding new_pipeline
session_pipeline F = refl

module _ (env : Environment) where
  add_speaker-speakers :
      (k user_id name s : String) (r : Room)
      → has s (add_speaker env k user_id name r).0.speakers ≡ (
          if str_eq k s
          then speaker_after env admit (has k r.speakers) (length r.speakers) k
          else has s r.speakers)
  unfolding add_speaker create_peer
  add_speaker-speakers k user_id name s r = ground (
    arith,
    session_pipeline env.floats,
    str_eq_iff k s,
    enter_speaker-speakers k user_id name s
        (with_webrtc (create_peer (env.peer_made k) k r.webrtc_mgr).0 r),
  )

  apply_verdict-speakers :
      (d : Verdict) (user : Fields) (r : Room) (s : String)
      → has s (apply_verdict env d user r).speakers ≡ (
          if str_eq (session_of user) s
          then speaker_after env d (has s r.speakers) (length r.speakers) s
          else has s r.speakers)
  unfolding apply_verdict
  apply_verdict-speakers skip user r s = ground arith
  apply_verdict-speakers mark_internal user r s =
      remove_speaker-speakers (session_of user) s (note_internal (session_of user) r)
  apply_verdict-speakers discard user r s = remove_speaker-speakers (session_of user) s r
  apply_verdict-speakers admit user r s = ground (
    arith,
    str_eq_iff (session_of user) s,
    add_speaker-speakers (session_of user) (string_or_empty (get_field "userId" user))
        (display_name user) s r,
  )

  -- One entry of a participants update changes who is a speaker for its own session only, and there
  -- by its verdict: an entry that is skipped changes nothing, the bot's own sessions, stale ones
  -- and those out of the call stop being speakers, and one in the call with audio is a speaker
  -- afterwards if it was one, or if there are fewer than a hundred and its peer connection is made.
  pub handle_user-speakers :
      (now : ℕ) (user : Fields) (r : Room) (s : String)
      → has s (handle_user env now user r).speakers ≡ (
          if str_eq (session_of user) s
          then speaker_after env
              (judge (is_internal r) now user)
              (has s r.speakers)
              (length r.speakers)
              s
          else has s r.speakers)
  unfolding handle_user
  handle_user-speakers now user r s =
      apply_verdict-speakers (judge (is_internal r) now user) user r s

-- An entry leads to a speaker exactly when it names a session, the session is not the bot's own,
-- neither by its flag nor by an earlier note, its last ping is not stale, and it is in the call
-- with audio.
pub judge-eq-admit_iff :
    (known : String → Bool) (now : ℕ) (user : Fields)
    → (judge known now user ≡ admit) ↔ (
        (session_of user ≢ "")
        × (is_true (get_field "internal" user) ≡ false)
        × (known (session_of user) ≡ false)
        × (is_stale now user ≡ false)
        × (speaks (in_call_flags user) ≡ true))
unfolding judge
judge-eq-admit_iff known now user = (
  λ e. ground (arith, str_eq_iff (session_of user) ""),
  λ h. ground (arith, str_eq_iff (session_of user) ""),
)
