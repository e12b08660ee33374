-- ===== src/Webrtc/Negotiation.antt =====
-- pkg/webrtc/manager.go: `CreateAnswer` and `AddICECandidate`. The library's connection is a
-- parameter: what each of its calls gives.
use Prim.Native.String
use nc_kyutai_live_transcrip.Prelude.{Option, String, inl, inr, none, refl, some, ◌↔◌, ◌≡◌, ◌⊎◌}

-- The calls of the library that may fail, with the text of an error, and `json.Unmarshal` of a
-- candidate. A candidate is the library's type.
pub record Connection : Type 1 where
  pub Candidate : Type 0
  pub set_remote : String → Option String
  pub answer : String ⊎ String
  pub set_local : String → Option String
  pub parse : String → String ⊎ Candidate
  pub add_candidate : Candidate → Option String

-- `CreateAnswer`, by what its calls give: the answer's SDP, or an error
abbrev local_set : String → Option String → String ⊎ String
local_set sdp (some e) = inl (String.◌++◌ "failed to set local description: " e)
local_set sdp none = inr sdp

abbrev negotiated : Option String → String ⊎ String → (String → Option String) → String ⊎ String
negotiated (some e) answer set_local = inl (String.◌++◌ "failed to set remote description: " e)
negotiated none (inl e) set_local = inl (String.◌++◌ "failed to create answer: " e)
negotiated none (inr sdp) set_local = local_set sdp (set_local sdp)

unfoldable pub create_answer : Connection → String → String ⊎ String
create_answer c offer_sdp = negotiated (c.set_remote offer_sdp) c.answer c.set_local

-- `AddICECandidate`: `none` is a nil error.
unfoldable pub add_ice_candidate : Connection → String → Option String
add_ice_candidate c candidate = elim (c.parse candidate) [
  | inl e ↦ some (String.◌++◌ "failed to parse ICE candidate: " e)
  | inr parsed ↦ c.add_candidate parsed
]

-- What `handleOffer` gets of an answer: an error is only logged. This is `answer_to` of a room's
-- environment, for the connections that its sessions have.
abbrev pub sdp_of : String ⊎ String → Option String
sdp_of (inl e) = none
sdp_of (inr sdp) = some sdp

abbrev pub answers : (String → Connection) → String → String → Option String
answers connections session_id offer_sdp = sdp_of (create_answer (connections session_id) offer_sdp)

abbrev as_answer : String → String ⊎ String
as_answer sdp = inr sdp

local_set_iff :
    (made sdp : String) (l : String → Option String) (set : Option String)
    → l made ≡ set
    → (sdp_of (local_set made set) ≡ some sdp) ↔ ((as_answer made ≡ inr sdp) × (l sdp ≡ none))
local_set_iff made sdp l (some e) same = (λ h. absurd (cc (h)), λ (p, q). absurd (cc))
local_set_iff made sdp l none same = (λ h. (cc, cc), λ (p, q). cc)

negotiated_iff :
    (remote : Option String) (answer : String ⊎ String) (l : String → Option String) (sdp : String)
    → (sdp_of (negotiated remote answer l) ≡ some sdp)
      ↔ ((remote ≡ none) × (answer ≡ inr sdp) × (l sdp ≡ none))
negotiated_iff (some e) answer l sdp = (λ h. absurd (cc (h)), λ (p, q, r). absurd (cc))
negotiated_iff none (inl e) l sdp = (λ h. absurd (cc (h)), λ (p, q, r). absurd (cc))
negotiated_iff none (inr made) l sdp =
    let (to, from) = local_set_iff made sdp l (l made) refl in
    (λ h. let (a, b) = to h in (refl, a, b), λ (p, q, r). from (q, r))

-- Whatever the library does, a session's offer is answered exactly when the library takes the
-- offer, makes an answer and takes that, and the answer that is sent is the library's own.
pub answers_iff :
    (connections : String → Connection) (session_id offer_sdp sdp : String)
    → let c = connections session_id in
      (answers connections session_id offer_sdp ≡ some sdp)
      ↔ ((c.set_remote offer_sdp ≡ none) × (c.answer ≡ inr sdp) × (c.set_local sdp ≡ none))
unfolding create_answer
answers_iff connections session_id offer_sdp sdp =
    let c = connections session_id in
    negotiated_iff (c.set_remote offer_sdp) c.answer c.set_local sdp
