-- ===== src/Session/Manager/Entries.antt =====
-- What holds of every entry in the map of rooms of pkg/session/manager.go, and so how many speakers
-- there are.
use mathlib.Core.Path.{subst₂}
use mathlib.Core.Option.{some-injective}
use nc_kyutai_live_transcrip.Prelude.{
  All, Bool-cases, Dict, List, Option-cases, String, [], ap, delete, has, inl, inr, insert, length,
  lookup, map, refl, some, str_eq, str_eq_iff, sym, ℕ, ◌+◌, ◌∙◌, ◌∷◌, ◌≡◌, ◌≤◌, ◌⊎◌,
}
use nc_kyutai_live_transcrip.Webrtc.Manager.{TurnServer}
use nc_kyutai_live_transcrip.Session.Room.{Room, Environment, max_room_speakers}
use nc_kyutai_live_transcrip.Session.Manager.{
  Manager, Signaling, join_room, leave_room, leave_all, RoomInput, room_step, room_input,
  speakers_of,
}
use nc_kyutai_live_transcrip.Session.Manager.Rooms.{IsServed, new_room-IsServed, room_step-IsServed}

-- Every entry is a room in sync, with what goes with it.
abbrev pub Entries : Dict Room → Type 0
Entries [] = Unit {0}
Entries ((t, r) ∷ rooms) = IsServed t r × Entries rooms

insert-Entries :
    (t : String) (r : Room) (rooms : Dict Room)
    → IsServed t r
    → Entries rooms
    → Entries (insert t r rooms)
unfolding insert
insert-Entries t r [] new all = (new, tt)
insert-Entries t r ((first, old) ∷ rooms) new all = elim (Bool-cases (str_eq first t)) [
  | inl same ↦ rw (same, insert) (new, all.1)
  | inr other ↦ rw (other, insert) (all.0, insert-Entries t r rooms new all.1)
]

delete-Entries : (t : String) (rooms : Dict Room) → Entries rooms → Entries (delete t rooms)
unfolding delete
delete-Entries t [] all = all
delete-Entries t ((first, old) ∷ rooms) all = elim (Bool-cases (str_eq first t)) [
  | inl same ↦ rw (same, delete) (delete-Entries t rooms all.1)
  | inr other ↦ rw (other, delete) (all.0, delete-Entries t rooms all.1)
]

pub lookup-Entries :
    (t : String) (r : Room) (rooms : Dict Room)
    → Entries rooms
    → lookup t rooms ≡ some r
    → IsServed t r
unfolding lookup
lookup-Entries t r [] all e = cc
lookup-Entries t r ((first, old) ∷ rooms) all e = elim (Bool-cases (str_eq first t)) [
  | inl same ↦
      subst₂ IsServed ((str_eq_iff first t).0 same)
        (some-injective old r (sym (rw (same, lookup) refl) ∙ e)) all.0
  | inr other ↦ lookup-Entries t r rooms all.1 (sym (rw (other, lookup) refl) ∙ e)
]

pub leave_room-Entries :
    (order : List String → List String) (token : String) (m : Manager)
    → Entries m.rooms
    → Entries (leave_room order token m).0.rooms
unfolding leave_room
leave_room-Entries order token m all = elim (Option-cases (lookup token m.rooms)) [
  | inl absent ↦ rw (absent, leave_room) all
  | inr (r, there) ↦ rw (there, leave_room) (delete-Entries token m.rooms all)
]

pub leave_all-Entries :
    (order : List String → List String) (tokens : List String) (m : Manager)
    → Entries m.rooms
    → Entries (leave_all order tokens m).rooms
unfolding leave_all
leave_all-Entries order [] m all = all
leave_all-Entries order (t ∷ ts) m all =
    leave_all-Entries order ts _ (leave_room-Entries order t m all)

pub room_input-Entries :
    (env : Environment) (token : String) (input : RoomInput) (m : Manager)
    → Entries m.rooms
    → Entries (room_input env token input m).rooms
unfolding room_input
room_input-Entries env token input m all = elim (Option-cases (lookup token m.rooms)) [
  | inl absent ↦ rw (absent, room_input) all
  | inr (r, there) ↦
      rw (there, room_input)
        (insert-Entries token (room_step env input r) m.rooms
          (room_step-IsServed env input token r (lookup-Entries token r m.rooms all there)) all)
]

pub join_room-Entries :
    (sig : Signaling) (token language : String) (turn : List TurnServer) (m : Manager)
    → Entries m.rooms
    → (language ≡ "en") ⊎ (language ≡ "fr")
    → Entries (join_room sig token language turn m).0.rooms
unfolding join_room
join_room-Entries sig token language turn m all ok = elim (Bool-cases (has token m.rooms)) [
  | inl there ↦ rw there all
  | inr absent ↦ elim (Option-cases sig.connect_error) [
    | inr (e, bad) ↦ rw absent (rw (bad, join_room) all)
    | inl up ↦ elim (Option-cases sig.join_error) [
      | inr (e, bad) ↦ rw absent (rw (up, join_room) (rw (bad, join_room) all))
      | inl joined ↦ rw absent (
          rw (up, join_room)
            (rw (joined, join_room)
              (insert-Entries token _ m.rooms
                (new_room-IsServed token language turn m.config.modal ok) all)))
    ]
  ]
]

-- The speakers of a room in the map
abbrev pub speakers_in : String × Room → ℕ
speakers_in (t, r) = length r.speakers

abbrev pub total : List ℕ → ℕ
total [] = 0
total (n ∷ ns) = n + total ns

pub speakers_of-total : (rooms : Dict Room) → speakers_of rooms ≡ total (map speakers_in rooms)
unfolding speakers_of
speakers_of-total [] = refl
speakers_of-total ((t, r) ∷ rooms) = ap (λ n. length r.speakers + n) (speakers_of-total rooms)

-- A hundred speakers to a room at most
pub Entries-capacity :
    (rooms : Dict Room) → Entries rooms → All (λ e. speakers_in e ≤ max_room_speakers) rooms
Entries-capacity [] all = tt
Entries-capacity ((t, r) ∷ rooms) all = (all.0.sync.capacity, Entries-capacity rooms all.1)
