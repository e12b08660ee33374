-- ===== src/Session/Room/Synchrony.antt =====
-- The three tables of a room and its transcribers go together.
use nc_kyutai_live_transcrip.Prelude.{
  Bool, Bool-cases, List, SameKeys, SameKeys-delete, SameKeys-insert, String, [], ap, arith, delete,
  false, has, has-false, if◌then◌else◌, inl, inr, insert, is_some, leb, leb_false→lt, length,
  length-delete, length-insert_new, lookup-delete, lookup-insert, pos, refl, str_eq, str_eq_iff,
  sym, true, ℕ, ◌++◌, ◌+◌, ◌<◌, ◌∙◌, ◌∷◌, ◌≡◌, ◌≤◌,
}
use nc_kyutai_live_transcrip.Json.{Fields}
use nc_kyutai_live_transcrip.Audio.Pipeline.{new_pipeline}
use nc_kyutai_live_transcrip.Hpb.Types.{MessageMessage}
use nc_kyutai_live_transcrip.Webrtc.Manager.{Manager, new_peer, create_peer, remove_peer}
use nc_kyutai_live_transcrip.Session.Room.{
  Room, Speaker, Environment, Effect, started, stopped, sent, candidate, max_room_speakers,
  record_effect, request_offer, with_webrtc, note_internal, remove_speaker, enter_speaker,
  add_speaker,
}

-- How often a session's transcriber was started, and stopped.
abbrev pub starts : String → List Effect → ℕ
starts s [] = 0
starts s (started k ∷ es) = (if str_eq k s then 1 else 0) + starts s es
starts s (_ ∷ es) = starts s es

abbrev pub stops : String → List Effect → ℕ
stops s [] = 0
stops s (stopped k ∷ es) = (if str_eq k s then 1 else 0) + stops s es
stops s (_ ∷ es) = stops s es

pub starts-append :
    (s : String) (xs ys : List Effect) → starts s (xs ++ ys) ≡ starts s xs + starts s ys
starts-append s [] ys = omega arith
starts-append s (started k ∷ xs) ys = omega (arith, starts-append s xs ys)
starts-append s (stopped k ∷ xs) ys = starts-append s xs ys
starts-append s (sent m ∷ xs) ys = starts-append s xs ys
starts-append s (candidate k c ∷ xs) ys = starts-append s xs ys

pub stops-append : (s : String) (xs ys : List Effect) → stops s (xs ++ ys) ≡ stops s xs + stops s ys
stops-append s [] ys = omega arith
stops-append s (started k ∷ xs) ys = stops-append s xs ys
stops-append s (stopped k ∷ xs) ys = omega (arith, stops-append s xs ys)
stops-append s (sent m ∷ xs) ys = stops-append s xs ys
stops-append s (candidate k c ∷ xs) ys = stops-append s xs ys

-- A session has a service client and a peer connection exactly when it is a speaker, there are at
-- most a hundred speakers, and a session's transcriber runs exactly while it is one: it was started
-- once more than it was stopped, and else as often.
pub record InSync (r : Room) : Type 0 where
  pub clients : SameKeys r.speakers r.modal_clients
  pub peers : SameKeys r.speakers r.webrtc_mgr.peers
  pub capacity : length r.speakers ≤ max_room_speakers
  pub balance :
      (s : String) → starts s r.trace ≡ stops s r.trace + (if has s r.speakers then 1 else 0)

-- A change of what the invariant does not mention.
pub InSync-sent : (r : Room) (m : MessageMessage) → InSync r → InSync (record_effect (sent m) r)
InSync-sent r m v = record {
  clients = v.clients;
  peers = v.peers;
  capacity = v.capacity;
  balance = λ s. omega (
    arith,
    v.balance s,
    starts-append s r.trace (sent m ∷ []),
    stops-append s r.trace (sent m ∷ []),
  );
}

pub InSync-candidate :
    (r : Room) (k : String) (c : Fields) → InSync r → InSync (record_effect (candidate k c) r)
InSync-candidate r k c v = record {
  clients = v.clients;
  peers = v.peers;
  capacity = v.capacity;
  balance = λ s. omega (
    arith,
    v.balance s,
    starts-append s r.trace (candidate k c ∷ []),
    stops-append s r.trace (candidate k c ∷ []),
  );
}

pub InSync-note : (r : Room) (k : String) → InSync r → InSync (note_internal k r)
InSync-note r k v = record {
  clients = v.clients;
  peers = v.peers;
  capacity = v.capacity;
  balance = v.balance;
}

peers-remove :
    (k : String) (m : Manager)
    → (s : String) → has s (remove_peer k m).0.peers ≡ has s (delete k m.peers)
unfolding remove_peer
peers-remove k m s = ground (arith, lookup-delete k s m.peers, str_eq_iff k s)

remove_balance :
    (r : Room) (k s : String)
    → InSync r
    → has k r.speakers ≡ true
    → starts s (r.trace ++ stopped k ∷ [])
      ≡ stops s (r.trace ++ stopped k ∷ []) + (if has s (delete k r.speakers) then 1 else 0)
remove_balance r k s v h =
    rw (starts-append s r.trace (stopped k ∷ []), stops-append s r.trace (stopped k ∷ []))
      (ground (arith, v.balance s, lookup-delete k s r.speakers, str_eq_iff k s))

pub remove_speaker-InSync : (k : String) (r : Room) → InSync r → InSync (remove_speaker k r).0
unfolding remove_speaker
remove_speaker-InSync k r v = elim (Bool-cases (has k r.speakers)) [
  | inr absent ↦ rw absent v
  | inl there ↦ rw there (record {
    clients = SameKeys-delete k r.speakers r.modal_clients v.clients;
    peers = λ s.
        SameKeys-delete k r.speakers r.webrtc_mgr.peers v.peers s
        ∙ sym (peers-remove k r.webrtc_mgr s);
    capacity = omega (arith, length-delete k r.speakers, v.capacity);
    balance = λ s. remove_balance r k s v there;
  })
]

-- A session that is no speaker is entered, with the peer connection that was made for it.
enter_speaker-InSync :
    (k user_id name : String) (mgr : Manager) (r : Room)
    → InSync r
    → has k r.speakers ≡ false
    → length r.speakers < max_room_speakers
    → mgr.peers ≡ insert k (new_peer k) r.webrtc_mgr.peers
    → InSync (enter_speaker k user_id name (with_webrtc mgr r))
unfolding enter_speaker
enter_speaker-InSync k user_id name mgr r v absent room_left made =
    let speaker : Speaker = record { session_id = k; user_id = user_id; name = name } in
    record {
      clients = SameKeys-insert k speaker r.modal_config r.speakers r.modal_clients v.clients;
      peers =
          rw made (SameKeys-insert k speaker (new_peer k) r.speakers r.webrtc_mgr.peers v.peers);
      capacity =
          omega (arith, length-insert_new k speaker r.speakers (has-false k r.speakers absent));
      balance = λ s.
          rw
            (
              starts-append s r.trace (started k ∷ sent (request_offer k) ∷ []),
              stops-append s r.trace (started k ∷ sent (request_offer k) ∷ []),
            )
            (ground (arith, v.balance s, lookup-insert k s speaker r.speakers, str_eq_iff k s));
    }

-- Making a peer connection and closing it again leaves the table as it was, for a session that
-- had none.
undo_peer :
    (k s : String) (mgr : Manager) (r : Room)
    → InSync r
    → has k r.speakers ≡ false
    → mgr.peers ≡ insert k (new_peer k) r.webrtc_mgr.peers
    → has s r.speakers ≡ has s (remove_peer k mgr).0.peers
undo_peer k s mgr r v absent made =
    v.peers s
    ∙ ground (
      arith,
      v.peers s,
      v.peers k,
      peers-remove k mgr s,
      lookup-delete k s mgr.peers,
      ap (has s) made,
      lookup-insert k s (new_peer k) r.webrtc_mgr.peers,
      str_eq_iff k s,
    )

create_peer-peers :
    (k : String) (m : Manager) → (create_peer true k m).0.peers ≡ insert k (new_peer k) m.peers
unfolding create_peer
create_peer-peers k m = refl

create_peer-made : (b : Bool) (k : String) (m : Manager) → (create_peer b k m).1 ≡ b
unfolding create_peer
create_peer-made true k m = refl
create_peer-made false k m = refl

module _ (env : Environment) where
  pub add_speaker-InSync :
      (k user_id name : String) (r : Room) (made : Bool)
      → env.peer_made k ≡ made
      → InSync r
      → InSync (add_speaker env k user_id name r).0
  unfolding add_speaker
  add_speaker-InSync k user_id name r made e v = elim (Bool-cases (has k r.speakers)) [
    | inl there ↦ rw there v
    | inr absent ↦ elim (Bool-cases (leb max_room_speakers (length r.speakers))) [
      | inl full ↦ rw (absent, full) v
      | inr room_left ↦ go made e absent room_left
    ]
  ]
    where
      go :
          (made : Bool)
          → env.peer_made k ≡ made
          → has k r.speakers ≡ false
          → leb max_room_speakers (length r.speakers) ≡ false
          → InSync (add_speaker env k user_id name r).0
      go false e absent room_left =
          rw (absent, room_left, e, create_peer-made false k r.webrtc_mgr) v
      go true e absent room_left =
          elim (Bool-cases (is_some (new_pipeline env.floats (pos 48000) (pos 24000)))) [
            | inl piped ↦
                rw (absent, room_left, e, create_peer-made true k r.webrtc_mgr, piped)
                  (enter_speaker-InSync k user_id name (create_peer true k r.webrtc_mgr).0 r v
                    absent (leb_false→lt _ _ room_left) (create_peer-peers k r.webrtc_mgr))
            | inr bad ↦
                rw (absent, room_left, e, create_peer-made true k r.webrtc_mgr, bad)
                  (record {
                    clients = v.clients;
                    peers = λ s.
                        undo_peer k s (create_peer true k r.webrtc_mgr).0 r v absent
                          (create_peer-peers k r.webrtc_mgr);
                    capacity = v.capacity;
                    balance = v.balance;
                  })
          ]
