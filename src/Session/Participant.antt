-- ===== src/Session/Participant.antt =====
-- pkg/session/manager.go: how `handleParticipantsEvent` reads one entry of a participants update.
-- Times are nanoseconds; `now.Sub` does not saturate at the ages that occur.
use nc_kyutai_live_transcrip.Prelude.{
  Bool, Option, String, bit_is_set, false, if◌then◌else◌, is_zero, ltb, none, pos, some, ℕ, ℤ, ◌&&◌,
  ◌*◌, ◌+◌,
}
use nc_kyutai_live_transcrip.Json.{
  Value, number, int, Double, Fields, get_field, string_or_empty, is_true, as_double, double_to_int,
  double_is_positive,
}
use nc_kyutai_live_transcrip.Modal.Client.{is_empty}

abbrev pub second : ℕ
second = 1_000_000_000

-- `stalePingThreshold`
abbrev pub stale_ping_threshold : ℕ
stale_ping_threshold = 600 * second

-- `lastPing` is a positive number, and that second is longer ago than the threshold.
abbrev pub ping_is_stale : ℕ → Option Double → Bool
ping_is_stale now none = false
ping_is_stale now (some d) =
    double_is_positive d && ltb (d.whole * second + stale_ping_threshold) now

unfoldable pub is_stale : ℕ → Fields → Bool
is_stale now user = ping_is_stale now (as_double (get_field "lastPing" user))

-- The type switch on `user["inCall"]`
abbrev pub flags_of : Option Value → ℤ
flags_of (some (number d)) = double_to_int d
flags_of (some (int n)) = n
flags_of _ = pos 0

unfoldable pub in_call_flags : Fields → ℤ
in_call_flags user = flags_of (get_field "inCall" user)

-- IN_CALL is bit 0 and WITH_AUDIO is bit 1.
abbrev pub speaks : ℤ → Bool
speaks flags = bit_is_set 0 flags && bit_is_set 1 flags

abbrev pub or_else : String → String → String
or_else s t = if is_empty s then t else s

-- `displayname`, `displayName` or the user id, the first that is there.
unfoldable pub display_name : Fields → String
display_name user = or_else (string_or_empty (get_field "displayname" user)) (
    or_else (string_or_empty (get_field "displayName" user))
      (string_or_empty (get_field "userId" user)))

-- What the branches of the loop do with an entry: nothing, `removeSpeaker` after noting the session
-- as the bot's own, `removeSpeaker`, or `addSpeaker`.
pub data Verdict : Type 0 where
  skip mark_internal discard admit : Verdict

unfoldable pub session_of : Fields → String
session_of user = string_or_empty (get_field "sessionId" user)

-- The chain of tests, in its order. The first argument says whether the session is already noted
-- as the bot's own.
unfoldable pub judge : (String → Bool) → ℕ → Fields → Verdict
judge known_internal now user =
    let flags = in_call_flags user in
    if is_empty (session_of user)
    then skip
    else if is_true (get_field "internal" user)
    then mark_internal
    else if known_internal (session_of user)
    then skip
    else if is_stale now user
    then discard
    else if is_zero flags
    then discard
    else if speaks flags
    then admit
    else skip
