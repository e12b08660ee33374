-- ===== src/Session/Manager/Leaving.antt =====
-- What `LeaveRoom` and `Close` leave behind.
use nc_kyutai_live_transcrip.Prelude.{
  Bool-cases, List, Listed, Listed-keys, String, [], arith, false, has, has_empty, if◌then◌else◌,
  inl, inr, keys, lookup, lookup-delete, no_keys, none, refl, some, str_eq, str_eq_iff, sym, true,
  ◌∙◌, ◌∷◌, ◌≡◌, ◌⊎◌,
}
use nc_kyutai_live_transcrip.Webrtc.Manager as Webrtc
use nc_kyutai_live_transcrip.Session.Room.{Room}
use nc_kyutai_live_transcrip.Session.Room.Handlers.{remove_all}
use nc_kyutai_live_transcrip.Session.Room.Synchrony.{InSync, starts, stops}
use nc_kyutai_live_transcrip.Session.Room.Messages.{remove_all-InSync}
use nc_kyutai_live_transcrip.Session.Room.Admission.{remove_speaker-speakers}
use nc_kyutai_live_transcrip.Session.Manager.{Manager, closed_down, leave_room}

-- The order of a `range` over a map: every key is visited.
abbrev pub VisitsAll : (List String → List String) → Type 0
VisitsAll order = (ks : List String) (k : String) → Listed k ks → Listed k (order ks)

-- A session that is not a speaker does not become one by removals.
removed_stays :
    (ids : List String) (r : Room) (s : String)
    → has s r.speakers ≡ false
    → has s (remove_all ids r).speakers ≡ false
unfolding remove_all
removed_stays [] r s h = h
removed_stays (k ∷ ids) r s h =
    removed_stays ids _ s (ground (arith, remove_speaker-speakers k s r))

remove_all-gone :
    (ids : List String) (r : Room) (s : String)
    → Listed s ids
    → has s (remove_all ids r).speakers ≡ false
unfolding remove_all
remove_all-gone [] r s h = absurd h
remove_all-gone (k ∷ ids) r s (inl same) =
    removed_stays ids _ s (remove_speaker-speakers k s r ∙ rw ((str_eq_iff k s).1 same) refl)
remove_all-gone (k ∷ ids) r s (inr later) = remove_all-gone ids _ s later

remove_all-empty :
    (order : List String → List String) (r : Room)
    → VisitsAll order
    → (remove_all (order (keys r.speakers)) r).speakers ≡ []
remove_all-empty order r visits = no_keys _ (λ s. go s (Bool-cases (has s r.speakers)))
  where
    go :
        (s : String)
        → (has s r.speakers ≡ true) ⊎ (has s r.speakers ≡ false)
        → has s (remove_all (order (keys r.speakers)) r).speakers ≡ false
    go s (inl there) =
        remove_all-gone (order (keys r.speakers)) r s
          (visits (keys r.speakers) s (Listed-keys s r.speakers there))
    go s (inr absent) = removed_stays (order (keys r.speakers)) r s absent

-- The room is empty of speakers, service clients and peer connections, its signaling client is
-- closed, and every transcriber that was ever started in it was stopped.
pub record IsClean (r : Room) : Type 0 where
  pub no_speakers : r.speakers ≡ []
  pub no_clients : (s : String) → has s r.modal_clients ≡ false
  pub no_peers : r.webrtc_mgr.peers ≡ []
  pub hpb_done : r.hpb_closed ≡ true
  pub all_stopped : (s : String) → starts s r.trace ≡ stops s r.trace

closed-IsClean : (r : Room) → InSync r → r.speakers ≡ [] → IsClean (closed_down r)
unfolding Webrtc.close
closed-IsClean r v empty = record {
  no_speakers = empty;
  no_clients = λ s. sym (v.clients s) ∙ has_empty s r.speakers empty;
  no_peers = refl;
  hpb_done = refl;
  all_stopped = λ s. ground (arith, v.balance s, has_empty s r.speakers empty);
}

-- Leaving a room that is joined and in sync, in whatever order the speakers are visited, if all
-- are: the manager has the room no more and the other rooms as they were, and the room that is left
-- behind is clean: it has no speaker, no service client, no peer connection and no transcriber that
-- still runs, and its signaling client is closed.
pub leave_room-IsClean :
    (order : List String → List String) (token : String) (m : Manager) (r : Room)
    → VisitsAll order
    → lookup token m.rooms ≡ some r
    → InSync r
    → (left : Room) × ((leave_room order token m).1 ≡ some left)
      × IsClean left
      × ((t : String)
          → lookup t (leave_room order token m).0.rooms
            ≡ (if str_eq token t then none else lookup t m.rooms))
unfolding leave_room
leave_room-IsClean order token m r visits joined v =
    let emptied = remove_all (order (keys r.speakers)) r in
    (
      closed_down emptied,
      rw (joined, leave_room),
      closed-IsClean emptied (remove_all-InSync (order (keys r.speakers)) r v)
          (remove_all-empty order r visits),
      λ t. rw (joined, leave_room) (lookup-delete token t m.rooms),
    )
