-- ===== src/Siege/Throne/Capture.antt =====
-- The capture progress of the throne (AdvanceThroneCapture of internal/siege/throne.go).
use Prim.Native.Nat.{min}
use astrahold_server.Common.{
  ℕ, ◌+◌, ◌<◌, ◌≡◌, ◌≢◌, ◌⊎◌, Bool, true, false, List, [], ◌∷◌, arith, ℤ, pos, leb, text_key,
}
use astrahold_server.Siege.{MatchPhase, throne, is_throne, ThroneCaptureState, next_revision}
use astrahold_server.Siege.Throne.{advance_capture, advanced, same_throne_capture}

-- Progress stays below what is required until the resolution is ready, and is then complete.
pub record Progresses (c : ThroneCaptureState) : Type 0 where
  pub required_positive : 0 < c.required
  pub pending : c.ready_for_resolution ≡ false → c.progress < c.required
  pub full : c.ready_for_resolution ≡ true → c.progress ≡ c.required

same_throne_capture-eq :
    (a b : ThroneCaptureState)
    → same_throne_capture a b ≡ true
    → (a.active ≡ b.active)
      × (a.progress ≡ b.progress)
      × (a.ready_for_resolution ≡ b.ready_for_resolution)
unfolding same_throne_capture
same_throne_capture-eq a b h = ground arith

-- One step of any length, in any phase, keeps the progress below what is required until the
-- resolution is ready, and at what is required from then on.
pub advance_capture-Progresses :
    (phase : MatchPhase) (eligible : Bool) (c : ThroneCaptureState) (delta : ℤ)
    → Progresses c
    → Progresses (advance_capture phase eligible c delta).0
unfolding advance_capture
advance_capture-Progresses phase eligible c delta v = ground arith

-- The progress and the readiness after one call, whether or not the revision moves.
pub advance_capture_lem :
    (phase : MatchPhase) (eligible : Bool) (c : ThroneCaptureState) (delta : ℤ)
    → let r = (advance_capture phase eligible c delta).0 in
      let next = advanced (record c { active = is_throne phase }) eligible delta in
      (r.progress ≡ next.progress)
      × (r.ready_for_resolution ≡ next.ready_for_resolution)
      × (r.active ≡ is_throne phase)
      × (r.required ≡ c.required)
unfolding advance_capture
advance_capture_lem phase eligible c delta = ground arith

-- One uninterrupted hold of the throne: the server's steps, in nanoseconds.
unfoldable pub hold : ThroneCaptureState → List ℕ → ThroneCaptureState
hold c [] = c
hold c (n ∷ ns) = hold (advance_capture throne true c (pos n)).0 ns

abbrev pub sum : List ℕ → ℕ
sum [] = 0
sum (n ∷ ns) = n + sum ns

-- One step of a hold.
hold_step :
    (c : ThroneCaptureState) (n : ℕ)
    → Progresses c
    → let r = (advance_capture throne true c (pos n)).0 in
      (r.required ≡ c.required) × (r.progress ≡ min c.required (c.progress + n))
unfolding advanced
hold_step c n v = ground (arith, advance_capture_lem throne true c (pos n))

-- However a hold is cut into steps, the progress is the time held, up to what is required, and
-- the resolution is ready exactly when the time held reaches it.
pub hold_lem :
    (c : ThroneCaptureState) (ns : List ℕ)
    → Progresses c
    → ((hold c ns).progress ≡ min c.required (c.progress + sum ns))
      × ((hold c ns).ready_for_resolution ≡ leb c.required (c.progress + sum ns))
unfolding hold
hold_lem c [] v = ground (arith, v.required_positive)
hold_lem c (n ∷ ns) v =
    let next = (advance_capture throne true c (pos n)).0 in
    ground (
      arith,
      hold_step c n v,
      hold_lem next ns (advance_capture-Progresses throne true c (pos n) v),
    )

-- Any interruption before the end loses the progress; a resolution that is ready is kept.
pub advance_interrupted :
    (phase : MatchPhase) (eligible : Bool) (c : ThroneCaptureState) (delta : ℤ)
    → (is_throne phase ≡ false) ⊎ (eligible ≡ false)
    → let r = (advance_capture phase eligible c delta).0 in
      (c.ready_for_resolution ≡ false → (r.progress ≡ 0) × (r.ready_for_resolution ≡ false))
      × (c.ready_for_resolution ≡ true
          → (r.progress ≡ c.required) × (r.ready_for_resolution ≡ true))
unfolding advanced
advance_interrupted phase eligible c delta h =
    ground (arith, advance_capture_lem phase eligible c delta)

-- The revision moves exactly when the state changes.
pub advance_capture-revision :
    (phase : MatchPhase) (eligible : Bool) (c : ThroneCaptureState) (delta : ℤ)
    → let r = advance_capture phase eligible c delta in
      ((r.1 ≡ false) × (r.0 ≡ c))
      ⊎ ((r.1 ≡ true)
          × (r.0.revision ≡ next_revision c.revision)
          × ((r.0.active ≢ c.active)
              ⊎ (r.0.progress ≢ c.progress)
              ⊎ (r.0.ready_for_resolution ≢ c.ready_for_resolution)))
unfolding advance_capture
advance_capture-revision phase eligible c delta = ground arith
