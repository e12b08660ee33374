-- ===== src/Lib.antt =====
-- The live transcription service: a model of its Go code, and what holds of it.
--
-- The service joins calls of Nextcloud Talk through the signaling server (HPB), receives each
-- speaker's audio over WebRTC, sends it to a speech-to-text service and broadcasts the captions.
-- The parts, and the files that model them:
--
--   pkg/session/api.go           Session/Api       the two HTTP handlers; Api/Service runs them
--                                                  with what reaches the rooms, and Api/Refinement
--                                                  has the abstract view, a board of languages
--   pkg/session/manager.go       Session/Manager   JoinRoom, LeaveRoom, Close: the joined rooms
--                                Session/Room      Room, addSpeaker, removeSpeaker; Room/Handlers
--                                                  has handleHPBMessage and all that it calls
--                                Session/Participant  how an entry of a participants update is read
--                                Session/Reconnect reconnectHPB
--                                Session/Link      orchestrationLoop with its signaling client
--   pkg/session/transcriber.go   Session/Transcriber  handleTranscript and the two flushes
--                                Session/Run       the select of run and drainOnShutdown;
--                                                  Run/System has its goroutines as steps
--                                Session/AudioLoop processAudioLoop and what it calls
--                                Session/Voice     all goroutines of a transcriber together
--                                Session/Broadcast the callback that addSpeaker gives to it
--   pkg/audio/pipeline.go        Audio/ChunkBuffer, Audio/Pipeline
--   pkg/modal/client.go          Modal/Client      the client of the speech-to-text service
--   pkg/hpb/client.go, types.go  Hpb/Client, Hpb/Types  the client of the signaling server
--                                Hpb/Wire          how messages are decoded and encoded
--                                Hpb/Urls          the URLs that it derives from the server's
--                                Hpb/Broadcast     SendRoomMessage, SendTranscriptViaBackend
--   pkg/webrtc/manager.go        Webrtc/Manager    the table of peer connections
--                                Webrtc/Audio      onTrack and what becomes of a decoded packet
--                                Webrtc/Negotiation  CreateAnswer, AddICECandidate
--   cmd/transcribe-service/main.go  Command        how the service is configured
--                                Command/Routes    the handlers of the HTTP server's routes
--   pkg/nextcloud/ocs.go         Nextcloud/Client  the client of Talk's OCS interface, which the
--                                                  live tests use
--                                Nextcloud/Room    NewClient and parseRoomURL
--
-- A request to transcribe makes a room (Session/Manager), whose loop handles the messages that the
-- signaling client queued (Hpb/Client to Session/Room/Handlers); a participants update adds a
-- speaker, with a peer connection (Webrtc/Manager) and a transcriber. The audio goroutine halves the
-- sample rate and cuts chunks (Session/AudioLoop on Audio), which the loop of run sends to the
-- speech-to-text client, whose transcripts become captions (Session/Run on Modal/Client and
-- Session/Transcriber), and each caption a request to the signaling server's backend interface
-- (Session/Broadcast on Hpb/Broadcast).
--
-- State is passed explicitly: a record for each struct, a function for each method, and the mutexes
-- make each method one step. A Go map is an association list, a channel the list of what it holds
-- with its capacity, a failing call a Boolean, an Option or a text. Which case a select takes, what
-- a dial or a write gives, the order of a range over a map and the current time are arguments, so
-- the theorems hold for each of them. Goroutines that run between one another are sequences of
-- events (Session/Run/System, Session/Voice, Hpb/Loops, Session/Link, Session/Api/Service,
-- Command/Routes).
--
-- Text is the native String, on which Text defines what the code uses of package strings; URLs are
-- ASCII, so that a character is a byte.
--
-- Parameters are the libraries: floating point (Audio/Floats; Audio/Pipeline/Halving names the IEEE
-- 754 facts that its results use, and Audio/Halves has an arithmetic that meets them), WebSockets,
-- WebRTC and Opus, HTTP, url.Parse, the parser of JSON text (Json has its values) and the MAC.
--
-- Bounds: there are two loops on fuel. That of ChunkBuffer.Add has one round more than there are
-- samples, which is enough for every positive chunk size (Audio/ChunkBuffer/Exact); that of
-- Text/Decimal has one round more than the number, which has fewer digits. The other loops recur on
-- their input. Integers of the code do not overflow at the sizes that occur and are
-- unbounded here.
--
-- Not modelled: in cmd/transcribe-service how the HTTP server listens and the wait for a signal; how
-- long a wait for goroutines takes when a room is left or a peer or a transcriber closed; in pkg/webrtc
-- the callbacks that only log; in pkg/nextcloud the shapes of JSON data that types.go declares and no method of the
-- client reads; what is logged; and the bytes of what is sent.
pub mod Prelude
pub mod Text
pub mod Json
pub mod Audio
pub mod Modal
pub mod Hpb
pub mod Webrtc
pub mod Nextcloud
pub mod Session
pub mod Command
