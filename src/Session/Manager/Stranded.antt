-- ===== src/Session/Manager/Stranded.antt =====
-- `LeaveRoom` does not wait for the loop of the room before it collects the speakers, so what the
-- loop was handling may still run when the room is gone.
use mathlib.Core.Path.{subst}
use mathlib.Core.Option.{some-injective}
use nc_kyutai_live_transcrip.Prelude.{
  List, String, [], ap, arith, has, has_empty, length, lookup, lookup-insert, none, refl, some,
  str_eq_refl, sym, true, ℕ, ◌+◌, ◌∙◌, ◌∷◌, ◌≡◌,
}
use nc_kyutai_live_transcrip.Json.{Fields, get_field, string_or_empty}
use nc_kyutai_live_transcrip.Webrtc.Manager.{create_peer, new_peer}
use nc_kyutai_live_transcrip.Session.Participant.{admit, judge, session_of, display_name}
use nc_kyutai_live_transcrip.Session.Room.{
  Room, Environment, Speaker, started, sent, request_offer, is_internal, enter_speaker, add_speaker,
  apply_verdict, handle_user,
}
use nc_kyutai_live_transcrip.Session.Room.Synchrony.{
  InSync, starts, stops, starts-append, stops-append,
}
use nc_kyutai_live_transcrip.Session.Room.Admission.{session_pipeline}
use nc_kyutai_live_transcrip.Session.Manager.{Manager, leave_room}
use nc_kyutai_live_transcrip.Session.Manager.Leaving.{VisitsAll, IsClean, leave_room-IsClean}

forgets :
    (order : List String → List String) (token : String) (m : Manager)
    → lookup token m.rooms ≡ none
    → (leave_room order token m).1 ≡ none
unfolding leave_room
forgets order token m absent = rw (absent, leave_room) refl

-- A session with a peer connection and a transcriber that nothing stopped
pub record IsStranded (k : String) (r : Room) : Type 0 where
  pub speaker : has k r.speakers ≡ true
  pub peer : has k r.webrtc_mgr.peers ≡ true
  pub running : starts k r.trace ≡ stops k r.trace + 1

module _ (env : Environment) where
  -- A session that is added to a room without speakers
  added_to_empty :
      (k user_id name : String) (r : Room)
      → r.speakers ≡ []
      → env.peer_made k ≡ true
      → let late = (add_speaker env k user_id name r).0 in
        (has k late.speakers ≡ true)
        × (has k late.webrtc_mgr.peers ≡ true)
        × (starts k late.trace ≡ starts k r.trace + 1)
        × (stops k late.trace ≡ stops k r.trace)
  unfolding add_speaker enter_speaker create_peer
  added_to_empty k user_id name r empty made =
      let absent = has_empty k r.speakers empty in
      let few = ap length empty in
      let speaker : Speaker = record { session_id = k; user_id = user_id; name = name } in
      (
        ground (
          arith,
          absent,
          few,
          made,
          session_pipeline env.floats,
          lookup-insert k k speaker r.speakers,
          str_eq_refl k,
        ),
        ground (
          arith,
          absent,
          few,
          made,
          session_pipeline env.floats,
          lookup-insert k k (new_peer k) r.webrtc_mgr.peers,
          str_eq_refl k,
        ),
        ground (
          arith,
          absent,
          few,
          made,
          session_pipeline env.floats,
          starts-append k r.trace (started k ∷ sent (request_offer k) ∷ []),
          str_eq_refl k,
        ),
        ground (
          arith,
          absent,
          few,
          made,
          session_pipeline env.floats,
          stops-append k r.trace (started k ∷ sent (request_offer k) ∷ []),
          str_eq_refl k,
        ),
      )

  -- A room that is joined and in sync is left, in whatever order its speakers are visited, if all
  -- are, while its loop handles a participants update, which goes on to admit an entry after the
  -- speakers were removed. If a peer connection can be made for it, the entry's session is then a
  -- speaker of the room that was left, with a peer connection that is still open and a transcriber
  -- that was started and that no removal stopped, and leaving the room again is an error.
  pub late_speaker-IsStranded :
      (order : List String → List String) (token : String) (m : Manager) (r left : Room) (now : ℕ)
      (user : Fields)
      → VisitsAll order
      → lookup token m.rooms ≡ some r
      → InSync r
      → (leave_room order token m).1 ≡ some left
      → judge (is_internal left) now user ≡ admit
      → env.peer_made (session_of user) ≡ true
      → IsStranded (session_of user) (handle_user env now user left)
        × ((leave_room order token (leave_room order token m).0).1 ≡ none)
  unfolding handle_user apply_verdict
  late_speaker-IsStranded order token m r left now user visits joined v gone admitted made =
      let k = session_of user in
      let (left', same, clean, others) = leave_room-IsClean order token m r visits joined v in
      let tidy : IsClean left = subst IsClean (some-injective left' left (sym same ∙ gone)) clean in
      let (speaker, peer, begun, ended) =
        added_to_empty k (string_or_empty (get_field "userId" user)) (display_name user) left
          tidy.no_speakers made in
      let forgotten : lookup token (leave_room order token m).0.rooms ≡ none =
        others token ∙ rw (str_eq_refl token) refl in
      (
        rw admitted (record {
          speaker = speaker;
          peer = peer;
          running = omega (arith, begun, ended, tidy.all_stopped k);
        }),
        forgets order token (leave_room order token m).0 forgotten,
      )
