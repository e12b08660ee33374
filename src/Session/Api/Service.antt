-- ===== src/Session/Api/Service.antt =====
-- The service behind its two handlers (pkg/session/api.go), with what reaches the rooms from their
-- signaling clients: a run from the manager as it is made.
use nc_kyutai_live_transcrip.Prelude.{
  Bool-cases, List, Option, String, [], inl, inr, keys, none, refl, some, str_eq, str_eq_iff, ◌∷◌,
  ◌≡◌, ◌⊎◌,
}
use nc_kyutai_live_transcrip.Modal.Client.{is_empty}
use nc_kyutai_live_transcrip.Session.Room.{Room, Environment}
use nc_kyutai_live_transcrip.Session.Manager.{
  Manager, ManagerConfig, new_manager_of, Signaling, RoomInput, room_input, leave_room, close,
  join_room,
}
use nc_kyutai_live_transcrip.Session.Manager.Rooms.{AllRooms, IsServed}
use nc_kyutai_live_transcrip.Session.Manager.Entries.{
  Entries, lookup-Entries, join_room-Entries, leave_room-Entries, leave_all-Entries,
  room_input-Entries,
}
use nc_kyutai_live_transcrip.Session.Api.{
  TranscribeRequest, supported_language, requested_language, wants, join_answer, stop_answer,
  transcribe, handle_transcribe_request, handle_stop_request,
}

-- What happens to the service: a request of one of its two kinds, something for a joined room, or
-- the shutdown.
pub data ServiceEvent : Type 0 where
  transcribe_request : Signaling → Option TranscribeRequest → ServiceEvent
  stop_request : String → ServiceEvent
  room_event : String → RoomInput → ServiceEvent
  shut_down : ServiceEvent

module _ (env : Environment) (order : List String → List String) where
  unfoldable pub service_step : ServiceEvent → Manager → Manager
  service_step (transcribe_request sig req) m = (handle_transcribe_request sig order req m).0
  service_step (stop_request token) m = (handle_stop_request order token m).0
  service_step (room_event token input) m = room_input env token input m
  service_step shut_down m = close order m

  unfoldable pub service_run : List ServiceEvent → Manager → Manager
  unfolding service_step
  service_run [] m = m
  service_run (e ∷ es) m = service_run es (service_step e m)

supported_language-cases :
    (lang : String) → (supported_language lang ≡ "en") ⊎ (supported_language lang ≡ "fr")
unfolding supported_language
supported_language-cases lang = elim (Bool-cases (str_eq lang "en")) [
  | inl en ↦ inl (rw en ((str_eq_iff lang "en").0 en))
  | inr other ↦ elim (Bool-cases (str_eq lang "fr")) [
    | inl fr ↦ inr (rw other (rw fr ((str_eq_iff lang "fr").0 fr)))
    | inr neither ↦ inl (rw other (rw neither refl))
  ]
]

join_answer-state : (lang : String) (x : Manager × Option String) → (join_answer lang x).0 ≡ x.0
join_answer-state lang (m, none) = refl
join_answer-state lang (m, some e) = refl

stop_answer-state : (token : String) (x : Manager × Option Room) → (stop_answer token x).0 ≡ x.0
stop_answer-state token (m, none) = refl
stop_answer-state token (m, some left) = refl

module _ (env : Environment) (order : List String → List String) where
  transcribe-Entries :
      (sig : Signaling) (req : TranscribeRequest) (m : Manager)
      → Entries m.rooms
      → Entries (transcribe sig order req m).0.rooms
  unfolding transcribe
  transcribe-Entries sig req m all = elim (Bool-cases (is_empty req.room_token)) [
    | inl empty ↦ rw empty all
    | inr named ↦ elim (Bool-cases (wants req.enable)) [
      | inr off ↦ rw named (rw off (leave_room-Entries order req.room_token m all))
      | inl on ↦
          let lang = supported_language (requested_language req) in
          rw named (
            rw on (
              rw (join_answer-state lang (join_room sig req.room_token lang req.turn_servers m)) (
                join_room-Entries sig req.room_token lang req.turn_servers m all
                  (supported_language-cases (requested_language req)))))
    ]
  ]

  stop-Entries :
      (token : String) (m : Manager)
      → Entries m.rooms
      → Entries (handle_stop_request order token m).0.rooms
  unfolding handle_stop_request
  stop-Entries token m all = elim (Bool-cases (is_empty token)) [
    | inl empty ↦ rw empty all
    | inr named ↦ rw named (
        rw (stop_answer-state token (leave_room order token m))
          (leave_room-Entries order token m all))
  ]

  service_step-Entries :
      (e : ServiceEvent) (m : Manager)
      → Entries m.rooms
      → Entries (service_step env order e m).rooms
  unfolding service_step handle_transcribe_request close
  service_step-Entries (transcribe_request sig none) m all = all
  service_step-Entries (transcribe_request sig (some req)) m all = transcribe-Entries sig req m all
  service_step-Entries (stop_request token) m all = stop-Entries token m all
  service_step-Entries (room_event token input) m all = room_input-Entries env token input m all
  service_step-Entries shut_down m all = leave_all-Entries order (order (keys m.rooms)) m all

  pub service_run-Entries :
      (es : List ServiceEvent) (m : Manager)
      → Entries m.rooms
      → Entries (service_run env order es m).rooms
  unfolding service_run
  service_run-Entries [] m all = all
  service_run-Entries (e ∷ es) m all = service_run-Entries es _ (service_step-Entries e m all)

-- Whatever requests and signaling messages arrive, in whatever order, at a manager as it is made,
-- every room that is joined at the end is under its own token, is transcribed in English or French,
-- and is in sync: its speakers, its service clients and its peer connections are for the same
-- sessions, there are at most 100 speakers, and of each session's transcribers all but the one of a
-- present speaker were stopped.
pub service_run-IsServed :
    (env : Environment) (order : List String → List String) (cfg : ManagerConfig)
    (es : List ServiceEvent)
    → AllRooms IsServed (service_run env order es (new_manager_of cfg))
unfolding new_manager_of
service_run-IsServed env order cfg es t r =
    lookup-Entries t r _ (service_run-Entries env order es (new_manager_of cfg) tt)
