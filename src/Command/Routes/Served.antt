-- ===== src/Command/Routes/Served.antt =====
-- What the routes of cmd/transcribe-service/main.go promise, and what the handlers behind them do.
use mathlib.Core.Path.{subst}
use mathlib.Core.Option.{some-injective}
use nc_kyutai_live_transcrip.Prelude.{
  Bool-cases, List, Option, String, [], ap, arith, false, has, inl, inr, insert, is_some, lookup,
  lookup-insert, none, refl, some, str_eq_iff, str_eq_refl, sym, true, ◌>>=◌, ◌↔◌, ◌∙◌, ◌∷◌, ◌≡◌,
}
use nc_kyutai_live_transcrip.Json.{bool, object, Fields, field, end, get_field}
use nc_kyutai_live_transcrip.Modal.Client.{is_empty}
use nc_kyutai_live_transcrip.Session.Room.{Environment}
use nc_kyutai_live_transcrip.Session.Manager.{Signaling, new_room, join_room}
use nc_kyutai_live_transcrip.Session.Api as Api
use nc_kyutai_live_transcrip.Session.Api.{
  TranscribeRequest, Response, enabled, respond, status_ok, requested_language, supported_language,
  wants, handle_transcribe_request,
}
use nc_kyutai_live_transcrip.Command.{Flags, loaded, is_complete, start}
use nc_kyutai_live_transcrip.Command.Routes.{
  Answer, json, api, Route, heartbeat, init, set_enabled, get_enabled, capabilities, languages,
  healthz, health, metrics, post_transcribe, delete_transcribe, App, launch, supported_languages,
  serve, AppEvent, request, in_room, shut_down, app_step, app_run,
}

-- The object that an answer holds
abbrev pub document : Answer → Fields
document (json (object fs)) = fs
document _ = end

-- A language is supported exactly when it is listed.
supported-listed :
    (lang : String)
    → (supported_language lang ≡ lang) ↔ (is_some (get_field lang supported_languages) ≡ true)
unfolding supported_language get_field
supported-listed lang = (
  λ h. ground (
    arith,
    str_eq_iff lang "en",
    str_eq_iff lang "fr",
    str_eq_iff "en" lang,
    str_eq_iff "fr" lang,
  ),
  λ h. ground (
    arith,
    str_eq_iff lang "en",
    str_eq_iff lang "fr",
    str_eq_iff "en" lang,
    str_eq_iff "fr" lang,
  ),
)

same_language :
    (l k : String)
    → api (respond status_ok (enabled true l)) ≡ api (respond status_ok (enabled true k))
    → l ≡ k
same_language l k h = cc

-- A request that makes a room is answered with the supported language.
joins-answer :
    (sig : Signaling) (order : List String → List String) (req : TranscribeRequest) (a : App)
    → sig.connect_error ≡ none
    → sig.join_error ≡ none
    → is_empty req.room_token ≡ false
    → wants req.enable ≡ true
    → has req.room_token a.session_mgr.rooms ≡ false
    → (serve order (post_transcribe sig (some req)) a).1
      ≡ api (respond status_ok (enabled true (supported_language (requested_language req))))
unfolding serve handle_transcribe_request join_room
joins-answer sig order req a c j named on new =
    rw (named, Api.transcribe)
      (rw (on, Api.transcribe) (rw (new, join_room) (rw (c, join_room) (rw (j, join_room) refl))))

-- The language in which a room is transcribed, if it is joined
abbrev pub language_in : String → App → Option String
language_in token a = lookup token a.session_mgr.rooms >>= λ r. some r.language_id

-- The room that it makes has that language.
joins-language :
    (sig : Signaling) (order : List String → List String) (req : TranscribeRequest) (a : App)
    → sig.connect_error ≡ none
    → sig.join_error ≡ none
    → is_empty req.room_token ≡ false
    → wants req.enable ≡ true
    → has req.room_token a.session_mgr.rooms ≡ false
    → language_in req.room_token (serve order (post_transcribe sig (some req)) a).0
      ≡ some (supported_language (requested_language req))
unfolding serve handle_transcribe_request join_room
joins-language sig order req a c j named on new =
    let lang = supported_language (requested_language req) in
    let made = new_room req.room_token lang req.turn_servers a.session_mgr.config.modal in
    let found : lookup req.room_token (insert req.room_token made a.session_mgr.rooms) ≡ some made =
      lookup-insert req.room_token req.room_token made a.session_mgr.rooms
      ∙ rw (str_eq_refl req.room_token) refl in
    rw (named, Api.transcribe)
      (rw (on, Api.transcribe)
        (rw (new, join_room) (rw (c, join_room) (rw (j, join_room) (rw found refl)))))

-- A request, with a token, to transcribe a room that is not joined, where the signaling server can
-- be reached and lets the service join: it is answered with the requested language exactly when
-- that is among the languages that the service lists, and exactly then the room that is joined is
-- transcribed in it.
pub languages-served :
    (sig : Signaling) (order : List String → List String) (req : TranscribeRequest) (a : App)
    → sig.connect_error ≡ none
    → sig.join_error ≡ none
    → is_empty req.room_token ≡ false
    → wants req.enable ≡ true
    → has req.room_token a.session_mgr.rooms ≡ false
    → let lang = requested_language req in
      let (after, answer) = serve order (post_transcribe sig (some req)) a in
      let listed = is_some (get_field lang (document (serve order languages a).1)) in
      ((answer ≡ api (respond status_ok (enabled true lang))) ↔ (listed ≡ true))
      × ((language_in req.room_token after ≡ some lang) ↔ (listed ≡ true))
unfolding serve
languages-served sig order req a c j named on new =
    let lang = requested_language req in
    let (listed, supported) = supported-listed lang in
    let answer = joins-answer sig order req a c j named on new in
    let stored = joins-language sig order req a c j named on new in
    (
      (
        λ h. listed (same_language _ _ (sym answer ∙ h)),
        λ h. answer ∙ ap (λ l. api (respond status_ok (enabled true l))) (supported h),
      ),
      (λ h. listed (some-injective _ _ (sym stored ∙ h)), λ h. stored ∙ ap some (supported h)),
    )

-- The configuration that the service was launched with
pub record IsConfigured (a : App) : Type 0 where
  pub hpb : a.hpb_configured ≡ true
  pub modal : a.modal_configured ≡ true

launch-IsConfigured :
    (f : Flags) (env : String → String) (a : App) → launch f env ≡ some a → IsConfigured a
unfolding launch start
launch-IsConfigured f env a launched = elim (Bool-cases (is_complete (loaded f env))) [
  | inr missing ↦ absurd (cc (rw missing at launched))
  | inl complete ↦
      subst IsConfigured (some-injective _ a (rw complete at launched))
        (record { hpb = ground arith; modal = ground arith })
]

-- A handler changes the session manager's state only.
serve_config :
    (order : List String → List String) (route : Route) (a : App)
    → IsConfigured a
    → IsConfigured (serve order route a).0
unfolding serve
serve_config order heartbeat a v = v
serve_config order init a v = v
serve_config order set_enabled a v = v
serve_config order get_enabled a v = v
serve_config order capabilities a v = v
serve_config order languages a v = v
serve_config order (healthz now) a v = v
serve_config order health a v = v
serve_config order metrics a v = v
serve_config order (post_transcribe sig req) a v = record { hpb = v.hpb; modal = v.modal }
serve_config order (delete_transcribe token) a v = record { hpb = v.hpb; modal = v.modal }

module _ (env : Environment) (order : List String → List String) where
  app_step-IsConfigured :
      (e : AppEvent) (a : App) → IsConfigured a → IsConfigured (app_step env order e a)
  unfolding app_step
  app_step-IsConfigured (request route) a v = serve_config order route a v
  app_step-IsConfigured (in_room token input) a v = record { hpb = v.hpb; modal = v.modal }
  app_step-IsConfigured shut_down a v = record { hpb = v.hpb; modal = v.modal }

  app_run-IsConfigured :
      (es : List AppEvent) (a : App) → IsConfigured a → IsConfigured (app_run env order es a)
  unfolding app_run
  app_run-IsConfigured [] a v = v
  app_run-IsConfigured (e ∷ es) a v = app_run-IsConfigured es _ (app_step-IsConfigured e a v)

  -- A service that was launched, with whatever flags and environment, says at all times that it is
  -- enabled.
  pub launch-enabled :
      (f : Flags) (variables : String → String) (a : App) (es : List AppEvent)
      → launch f variables ≡ some a
      → (serve order get_enabled (app_run env order es a)).1
        ≡ json (object (field "enabled" (bool true) end))
  unfolding serve
  launch-enabled f variables a es launched =
      let v = app_run-IsConfigured es a (launch-IsConfigured f variables a launched) in
      rw (v.hpb, serve) (rw (v.modal, serve) refl)
