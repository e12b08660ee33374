-- ===== src/Session/RoomTests.antt =====
-- Rooms on small inputs, and their properties at them.
use nc_kyutai_live_transcrip.Prelude.{
  List, String, [], false, has, if◌then◌else◌, inl, insert, keys, lookup, none, pos, refl, some,
  str_eq, true, ℕ, ◌↔◌, ◌∷◌, ◌≡◌, ◌≢◌,
}
use nc_kyutai_live_transcrip.Json.{
  Value, Fields, field, string, number, bool, end, get_field, is_true,
}
use nc_kyutai_live_transcrip.Audio.Halves.{halves}
use nc_kyutai_live_transcrip.Modal.Client.{Config}
use nc_kyutai_live_transcrip.Hpb.Types.{HpbMessage, event, bye}
use nc_kyutai_live_transcrip.Session.Participant.{
  admit, session_of, is_stale, in_call_flags, speaks, judge,
}
use nc_kyutai_live_transcrip.Session.Room.{
  Room, Environment, is_internal, note_internal, handle_user,
}
use nc_kyutai_live_transcrip.Session.Room.Handlers.{handle_messages}
use nc_kyutai_live_transcrip.Hpb.Types.{MessageMessage}
use nc_kyutai_live_transcrip.Json.{object}
use nc_kyutai_live_transcrip.Session.Room.Synchrony.{InSync}
use nc_kyutai_live_transcrip.Session.Room.Messages.{handle_messages-InSync}
use nc_kyutai_live_transcrip.Session.Room.Admission.{
  speaker_after, handle_user-speakers, judge-eq-admit_iff,
}
use nc_kyutai_live_transcrip.Session.Room.Internal.{IsOut, handle_messages-IsOut}
use nc_kyutai_live_transcrip.Session.Manager.{
  Manager, ManagerConfig, new_room, delivered, leave_room, room_step,
}
use nc_kyutai_live_transcrip.Webrtc.Manager.{new_manager}
use nc_kyutai_live_transcrip.Session.Manager.Stranded.{IsStranded, late_speaker-IsStranded}
use nc_kyutai_live_transcrip.Session.Manager.{closed_down}
use nc_kyutai_live_transcrip.Session.Room.Handlers.{remove_all}
use nc_kyutai_live_transcrip.Session.Manager.Leaving.{IsClean, leave_room-IsClean}
use nc_kyutai_live_transcrip.Session.Manager.Rooms.{IsServed, new_room-IsServed, room_step-IsServed}

abbrev pub service : Config
service = record { workspace = "acme"; stream_url = ""; key = "k1"; secret = "s1" }

abbrev pub lab : Environment
lab = record { floats = halves; peer_made = λ s. true; answer_to = λ s sdp. some "answer" }

abbrev whole_number : ℕ → Value
whole_number n = number (record { negative = false; whole = n; has_fraction = false })

-- A participant who is in the call with audio
abbrev pub alice : Fields
alice =
    field "sessionId" (string "s1")
      (field "userId" (string "alice") (field "inCall" (whole_number 3) end))

abbrev pub bot : Fields
bot =
    field "sessionId" (string "b1")
      (field "internal" (bool true) (field "inCall" (whole_number 3) end))

-- The same session when it is no longer flagged
abbrev bot_unflagged : Fields
bot_unflagged = field "sessionId" (string "b1") (field "inCall" (whole_number 3) end)

abbrev pub update_of : List Fields → HpbMessage
update_of users = event (record {
  target = "participants";
  joins = [];
  leaves = [];
  update = some (record { in_call = none; all = false; changed = []; users = users });
})

abbrev traffic : List (ℕ × HpbMessage)
traffic =
    (5, update_of (alice ∷ bot ∷ []))
    ∷ (6, update_of (alice ∷ bot_unflagged ∷ []))
    ∷ (7, bye (record { session_id = "s1"; reason = "" }))
    ∷ []

abbrev fresh : Room
fresh = new_room "t1" "en" [] service

abbrev fresh-IsServed : IsServed "t1" fresh
fresh-IsServed = new_room-IsServed "t1" "en" [] service (inl refl)

abbrev pub busy : Room
busy = room_step lab (delivered 5 (update_of (alice ∷ bot ∷ []))) fresh

abbrev busy-InSync : InSync busy
busy-InSync =
    (room_step-IsServed lab (delivered 5 (update_of (alice ∷ bot ∷ []))) "t1" fresh
      fresh-IsServed).sync

handle_messages-InSync_example : InSync (handle_messages lab traffic fresh)
handle_messages-InSync_example = handle_messages-InSync lab traffic fresh fresh-IsServed.sync

handle_user-speakers_example : has "s1" (handle_user lab 5 alice fresh).speakers ≡ (
    if str_eq (session_of alice) "s1"
    then speaker_after lab (judge (is_internal fresh) 5 alice) false 0 "s1"
    else false)
unfolding lookup
handle_user-speakers_example = handle_user-speakers lab 5 alice fresh "s1"

judge-eq-admit_iff_example : (judge (λ s. false) 5 alice ≡ admit) ↔ (
    (session_of alice ≢ "")
    × (is_true (get_field "internal" alice) ≡ false)
    × (false ≡ false)
    × (is_stale 5 alice ≡ false)
    × (speaks (in_call_flags alice) ≡ true))
judge-eq-admit_iff_example = judge-eq-admit_iff (λ s. false) 5 alice

abbrev wary : Room
wary = note_internal "b1" fresh

handle_messages-IsOut_example : IsOut "b1" (handle_messages lab traffic wary)
unfolding lookup insert
handle_messages-IsOut_example =
    handle_messages-IsOut lab traffic "b1" wary (record { noted = refl; out = refl })

abbrev pub settings : ManagerConfig
settings = record {
  hpb_url = "wss://hpb";
  hpb_secret = "secret";
  hpb_signaling_secret = "signaling";
  hpb_backend_url = "";
  modal = service;
  max_speakers = pos 0;
}

-- One room with a speaker is joined.
abbrev pub one_room : Manager
one_room = record { rooms = ("t1", busy) ∷ []; config = settings }

abbrev pub in_order : List String → List String
in_order ks = ks

leave_room-IsClean_example :
    (left : Room) × ((leave_room in_order "t1" one_room).1 ≡ some left)
    × IsClean left
    × ((t : String)
        → lookup t (leave_room in_order "t1" one_room).0.rooms
          ≡ (if str_eq "t1" t then none else lookup t one_room.rooms))
unfolding lookup
leave_room-IsClean_example =
    leave_room-IsClean in_order "t1" one_room busy (λ ks k h. h) refl busy-InSync

-- An offer from a session that never joined the call
abbrev stray_payload : Fields
stray_payload =
    field "type" (string "offer")
      (field "from" (string "s9") (field "payload" (object (field "sdp" (string "v=0") end)) end))

abbrev stray : MessageMessage
stray = record {
  id = "";
  message = record { sender = none; recipient = none; payload = some stray_payload };
}

-- A room that was left without speakers, and an update that its loop was still handling
abbrev fresh_room : Manager
fresh_room = record { rooms = ("t1", fresh) ∷ []; config = settings }

abbrev left_room : Room
left_room = closed_down (remove_all [] fresh)

late_speaker-IsStranded_example :
    IsStranded "s1" (handle_user lab 5 alice left_room)
    × ((leave_room in_order "t1" (leave_room in_order "t1" fresh_room).0).1 ≡ none)
unfolding remove_all session_of get_field keys new_manager
late_speaker-IsStranded_example =
    late_speaker-IsStranded lab in_order "t1" fresh_room fresh left_room 5 alice (λ ks k h. h)
      (unfold lookup in refl) fresh-IsServed.sync (unfold leave_room lookup in refl)
      (unfold judge is_stale in_call_flags lookup in refl) refl
