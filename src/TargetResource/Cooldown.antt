-- ===== src/TargetResource/Cooldown.antt =====
-- The cooldown that a gain starts (TryGain of internal/targetresource/targetresource.go).
use astrahold_server.Common.{
  ℕ, ◌≤◌, ◌<◌, ◌≡◌, ◌≢◌, ◌⊎◌, inl, inr, true, false, none, some, [], ◌∷◌, List, text_key, not,
  max_u32, arith, lookup, lookup-insert, lookup-keep, Option,
}
use astrahold_server.TargetResource.{
  ResourceKey, resource_key, State, Store, try_gain, gain_preserving_ready_tick, spend,
  clear_entity, involves,
}
use astrahold_server.TargetResource.Bounds.{
  IsValid, Call, try_gain_call, gain_call, spend_call, clear_call, step, run, AllTyped,
  call-IsValid,
}

abbrev pub ready_of : Option State → Option ℕ
ready_of none = none
ready_of (some st) = some st.ready_tick

-- The state under the key allows no TryGain before a tick.
abbrev pub Cools : ResourceKey → ℕ → Store → Type 0
Cools key until s = ready_of (lookup key s.states) ≡ some until

-- A call that comes before the tick, as far as it gains on the key, and clears none of its entities.
abbrev pub IsBefore : ResourceKey → ℕ → Call → Type 0
IsBefore key until (try_gain_call k amount max tick next) = (k ≢ key) ⊎ (tick < until)
IsBefore key until (clear_call entity) = involves entity key ≡ false
IsBefore key until _ = Unit

abbrev pub AreBefore : ResourceKey → ℕ → List Call → Type 0
AreBefore key until [] = Unit
AreBefore key until (call ∷ calls) = IsBefore key until call × AreBefore key until calls

module _ (key : ResourceKey) (until : ℕ) (s : Store) where
  -- No TryGain on the key succeeds under its cooldown, or changes anything.
  try_gain_cooling :
      (amount max tick next : ℕ)
      → Cools key until s
      → tick < until
      → ((try_gain s key amount max tick next).0 ≡ s)
        × ((try_gain s key amount max tick next).2 ≡ false)
  unfolding try_gain
  try_gain_cooling amount max tick next cools early = ground (arith, cools)

  try_gain-Cools :
      (k : ResourceKey) (amount max tick next : ℕ)
      → Cools key until s
      → k ≢ key
      → Cools key until (try_gain s k amount max tick next).0
  unfolding try_gain
  try_gain-Cools k amount max tick next cools other =
      ground (arith, cools, lookup-insert k key (try_gain s k amount max tick next).1 s.states)

  gain-Cools :
      (k : ResourceKey) (amount max : ℕ)
      → Cools key until s
      → Cools key until (gain_preserving_ready_tick s k amount max).0
  unfolding gain_preserving_ready_tick
  gain-Cools k amount max cools =
      ground
        (arith, cools, lookup-insert k key (gain_preserving_ready_tick s k amount max).1 s.states)

  spend-Cools :
      (k : ResourceKey) (amount : ℕ) → Cools key until s → Cools key until (spend s k amount).0
  unfolding spend
  spend-Cools k amount cools =
      ground (arith, cools, lookup-insert k key (spend s k amount).1 s.states)

  clear_entity-Cools :
      (entity : ℕ)
      → IsValid s
      → involves entity key ≡ false
      → Cools key until s
      → Cools key until (clear_entity s entity).0
  unfolding clear_entity
  clear_entity-Cools entity v other cools =
      let stays = λ (k : ResourceKey) (_ : State). not (involves entity k) in
      ground (arith, cools, other, lookup-keep stays key s.states v.0)

try_gain_starts :
    (key : ResourceKey) (s : Store) (amount max tick next : ℕ)
    → (try_gain s key amount max tick next).2 ≡ true
    → Cools key next (try_gain s key amount max tick next).0
unfolding try_gain
try_gain_starts key s amount max tick next changed =
    ground (arith, changed, lookup-insert key key (try_gain s key amount max tick next).1 s.states)

-- A TryGain on any key that comes before the tick.
try_gain_early :
    (key : ResourceKey) (until : ℕ) (s : Store) (k : ResourceKey) (amount max tick next : ℕ)
    → Cools key until s
    → tick < until
    → Cools key until (try_gain s k amount max tick next).0
unfolding try_gain
try_gain_early key until s k amount max tick next cools early =
    ground (arith, cools, early, lookup-insert k key (try_gain s k amount max tick next).1 s.states)

gained-IsValid :
    (s : Store) (key : ResourceKey) (amount max tick next : ℕ)
    → IsValid s
    → (amount ≤ max_u32) × (max ≤ max_u32)
    → IsValid (try_gain s key amount max tick next).0
unfolding step
gained-IsValid s key amount max tick next v t =
    call-IsValid s (try_gain_call key amount max tick next) t v

step-Cools :
    (key : ResourceKey) (until : ℕ) (s : Store) (call : Call)
    → IsValid s
    → IsBefore key until call
    → Cools key until s
    → Cools key until (step s call)
unfolding step
step-Cools key until s (try_gain_call k amount max tick next) v (inl other) c =
    try_gain-Cools key until s k amount max tick next c other
step-Cools key until s (try_gain_call k amount max tick next) v (inr early) c =
    try_gain_early key until s k amount max tick next c early
step-Cools key until s (gain_call k amount max) v b c = gain-Cools key until s k amount max c
step-Cools key until s (spend_call k amount) v b c = spend-Cools key until s k amount c
step-Cools key until s (clear_call entity) v b c = clear_entity-Cools key until s entity v b c

run-Cools :
    (key : ResourceKey) (until : ℕ) (s : Store) (calls : List Call)
    → IsValid s
    → AllTyped calls
    → AreBefore key until calls
    → Cools key until s
    → Cools key until (run s calls)
unfolding run
run-Cools key until s [] v t b c = c
run-Cools key until s (call ∷ calls) v t b c =
    run-Cools key until (step s call) calls (call-IsValid s call t.0 v) t.1 b.1
      (step-Cools key until s call v b.0 c)

-- After a successful TryGain on a valid store, whatever is called then, no TryGain on the key succeeds or changes
-- the store before the tick that the first one named, with whichever amounts and maximum; but the
-- calls between come before that tick, as far as they are a TryGain on the key, and none is a
-- ClearEntity of one of its two entities.
pub try_gain_cools_down :
    (s : Store) (key : ResourceKey) (amount max tick next : ℕ) (calls : List Call)
    (later later_next later_amount later_max : ℕ)
    → IsValid s
    → (amount ≤ max_u32) × (max ≤ max_u32)
    → AllTyped calls
    → AreBefore key next calls
    → (try_gain s key amount max tick next).2 ≡ true
    → later < next
    → let u = run (try_gain s key amount max tick next).0 calls in
      ((try_gain u key later_amount later_max later later_next).0 ≡ u)
      × ((try_gain u key later_amount later_max later later_next).2 ≡ false)
try_gain_cools_down s key amount max tick next calls later later_next later_amount later_max v t ts
      b changed early =
    let r = (try_gain s key amount max tick next).0 in
    let valid = gained-IsValid s key amount max tick next v t in
    try_gain_cooling key next (run r calls) later_amount later_max later later_next
      (run-Cools key next r calls valid ts b (try_gain_starts key s amount max tick next changed))
      early
