-- ===== src/Command/Routes/Counts.antt =====
-- The numbers that the monitoring routes of cmd/transcribe-service/main.go report.
use nc_kyutai_live_transcrip.Prelude.{List, [], ◌++◌, ◌∷◌}
use nc_kyutai_live_transcrip.Session.Manager.{Manager}
use nc_kyutai_live_transcrip.Session.Manager.Entries.{Entries}
use nc_kyutai_live_transcrip.Session.Api.Service.{
  ServiceEvent, transcribe_request, stop_request, room_event, service_step,
}
use nc_kyutai_live_transcrip.Session.Api.Service as Service
use nc_kyutai_live_transcrip.Command.Routes.{
  post_transcribe, delete_transcribe, AppEvent, request, in_room, shut_down,
}

-- What the session manager sees of what happens to the service
abbrev seen : AppEvent → List ServiceEvent
seen (request (post_transcribe sig req)) = transcribe_request sig req ∷ []
seen (request (delete_transcribe token)) = stop_request token ∷ []
seen (request _) = []
seen (in_room token input) = room_event token input ∷ []
seen shut_down = Service.shut_down ∷ []

abbrev seen_all : List AppEvent → List ServiceEvent
seen_all [] = []
seen_all (e ∷ es) = seen e ++ seen_all es
