-- ===== src/Examples/Frames.antt =====
-- Runs of the transport, the sessions and the ratings (internal/transport, internal/session and
-- internal/combat).
use astrahold_server.Common.{
  ℕ, ◌+◌, ◌*◌, ◌≤◌, ◌<◌, ◌≡◌, ◌≢◌, refl, none, some, List, [], ◌∷◌, arith, lookup,
}
use astrahold_server.Transport.Bytes.{◌+++◌}
use astrahold_server.Transport.{Frame, ok, header, encode_frame}
use astrahold_server.Transport.Streams.{read_frames, write_frames, read_frames-write_frames}
use astrahold_server.Session.{Session, Sessions, add, remove, get, get_by_entity}
use astrahold_server.Session.Registry.{IsValid, replace_lem}
use astrahold_server.Combat.Ratings.{
  defense_mitigation_basis_points, defense_mitigation-bounds, defense_mitigation-panics,
}

abbrev welcome : Frame
welcome = record {
  message_type = 10;
  delivery = 1;
  flags = 0;
  sequence = 7;
  server_tick = 300;
  payload = 1 ∷ 2 ∷ 3 ∷ [];
}

abbrev snapshot : Frame
snapshot = record {
  message_type = 102;
  delivery = 2;
  flags = 0;
  sequence = 8;
  server_tick = 301;
  payload = [];
}

abbrev welcome_bytes : List ℕ
welcome_bytes = header welcome 3 +++ welcome.payload

abbrev two_bytes : List ℕ
two_bytes = welcome_bytes +++ ((header snapshot 0 +++ []) +++ [])

two_frames_write : write_frames (welcome ∷ snapshot ∷ []) ≡ ok two_bytes
unfolding write_frames encode_frame
two_frames_write = refl

read_frames-write_frames_example :
    read_frames 2 (two_bytes +++ (65 ∷ 83 ∷ [])) ≡ ok (welcome ∷ snapshot ∷ [], 65 ∷ 83 ∷ [])
read_frames-write_frames_example =
    read_frames-write_frames (welcome ∷ snapshot ∷ []) two_bytes (65 ∷ 83 ∷ [])
      (
        (omega arith, omega arith, omega arith, omega arith, omega arith),
        ((omega arith, omega arith, omega arith, omega arith, omega arith), tt),
      )
      two_frames_write

abbrev old_session : Session
old_session = record { address = 1; id = 5; entity_id = 9 }

abbrev new_session : Session
new_session = record { address = 2; id = 6; entity_id = 9 }

abbrev one_session : Sessions
one_session = record { sessions = (5, old_session) ∷ []; by_entity = (9, old_session) ∷ [] }

one_session-IsValid : IsValid one_session
unfolding lookup
one_session-IsValid = (λ id s e. ground arith, λ entity s e. ground arith)

replace_lem_example :
    let added = (add one_session (some new_session)).0 in
    let r' = (remove added old_session.id).0 in
    (get_by_entity added new_session.entity_id ≡ some new_session)
    × (get_by_entity r' new_session.entity_id ≡ some new_session)
    × (get r' new_session.id ≡ some new_session)
    × (get r' old_session.id ≡ none)
    × (3 ≢ new_session.entity_id → get_by_entity r' 3 ≡ get_by_entity one_session 3)
unfolding lookup
replace_lem_example =
    replace_lem one_session old_session new_session 3 one_session-IsValid (ground arith)
      (ground arith) refl (ground arith)

defense_mitigation-bounds_example :
    (m : ℕ) × (defense_mitigation_basis_points 30 ≡ some m)
    × (m < 10000)
    × (m * (30 + 20) ≤ 30 * 10000)
    × (30 * 10000 < (m + 1) * (30 + 20))
defense_mitigation-bounds_example = defense_mitigation-bounds 30 (omega arith)

abbrev wrapping_defense : ℕ
wrapping_defense = 4294967276

defense_mitigation-panics_example :
    (defense_mitigation_basis_points wrapping_defense ≡ none → wrapping_defense ≡ 4294967276)
    × (wrapping_defense ≡ 4294967276 → defense_mitigation_basis_points wrapping_defense ≡ none)
defense_mitigation-panics_example = defense_mitigation-panics wrapping_defense (omega arith)
