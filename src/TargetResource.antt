-- ===== src/TargetResource.antt =====
-- Resources that a source builds on a target (internal/targetresource/targetresource.go). Keys of
-- two entities and a resource; uint32 amounts and uint64 ticks.
pub mod Bounds
pub mod Cooldown
use astrahold_server.Common.{
  ℕ, ◌+◌, ◌-◌, Bool, true, false, not, ◌&&◌, ◌||◌, Option, none, some, [], ◌∷◌, List, Text,
  text_key, Key, Map, ℕ_discrete, ltb, leb, ◌==◌, if◌then◌else◌, is_empty, lookup, insert, keep,
  add_u32,
}

abbrev pub ResourceKey : Type 0
ResourceKey = ℕ × ℕ × Text

unfoldable pub ResourceKey-discrete : Discrete ResourceKey
ResourceKey-discrete = hlevel ℕ_discrete

instance abbrev pub resource_key : Key ResourceKey
resource_key = record { same? = ResourceKey-discrete }

pub data Error : Type 0 where
  invalid_state insufficient_resource : Error

-- The key of a state is the key that it is stored under.
pub record State : Type 0 where
  pub current : ℕ
  pub max : ℕ
  pub ready_tick : ℕ

pub record Store : Type 0 where
  pub states : Map ResourceKey State

unfoldable pub new_store : Store
new_store = record { states = [] }

unfoldable pub state : Store → ResourceKey → Option State
state s key = lookup key s.states

unfoldable pub valid_key : ResourceKey → Bool
valid_key (source, target, id) =
    not (source == 0) && not (target == 0) && not (source == target) && not (is_empty id)

abbrev pub no_state : State
no_state = record { current = 0; max = 0; ready_tick = 0 }

-- The state, whether it changed, and the error.
abbrev pub Gain : Type 0
Gain = Store × State × Bool × Option Error

abbrev pub gained : State → ℕ → ℕ
gained st amount =
    let missing = st.max - st.current in
    add_u32 st.current (if ltb missing amount then missing else amount)

-- Where a state exists, its maximum must be the one that the caller names.
abbrev pub found_or_new : Option State → ℕ → State
found_or_new none max = record { current = 0; max = max; ready_tick = 0 }
found_or_new (some st) max = st

abbrev pub wrong_max : Option State → ℕ → Bool
wrong_max none max = false
wrong_max (some st) max = not (st.max == max)

unfoldable pub try_gain : Store → ResourceKey → ℕ → ℕ → ℕ → ℕ → Gain
try_gain s key amount max tick next_ready_tick =
    if not (valid_key key) || amount == 0 || max == 0 || ltb next_ready_tick tick
    then (s, no_state, false, some invalid_state)
    else let st = found_or_new (lookup key s.states) max in
      if wrong_max (lookup key s.states) max
      then (s, st, false, some invalid_state)
      else if leb st.max st.current || ltb tick st.ready_tick
      then (s, st, false, none)
      else let after : State = record {
        current = gained st amount;
        max = st.max;
        ready_tick = next_ready_tick;
      } in
        (record { states = insert key after s.states }, after, true, none)

unfoldable pub gain_preserving_ready_tick : Store → ResourceKey → ℕ → ℕ → Gain
gain_preserving_ready_tick s key amount max =
    if not (valid_key key) || amount == 0 || max == 0
    then (s, no_state, false, some invalid_state)
    else let st = found_or_new (lookup key s.states) max in
      if wrong_max (lookup key s.states) max
      then (s, st, false, some invalid_state)
      else if leb st.max st.current
      then (s, st, false, none)
      else let after : State = record {
        current = gained st amount;
        max = st.max;
        ready_tick = st.ready_tick;
      } in
        (record { states = insert key after s.states }, after, true, none)

unfoldable pub spend : Store → ResourceKey → ℕ → Store × State × Option Error
spend s key amount =
    if not (valid_key key) || amount == 0
    then (s, no_state, some invalid_state)
    else elim (lookup key s.states) [
      | none ↦ (s, no_state, some insufficient_resource)
      | some st ↦
          if ltb st.current amount
          then (s, st, some insufficient_resource)
          else let after : State = record st { current = st.current - amount } in
            (record { states = insert key after s.states }, after, none)
    ]

abbrev pub involves : ℕ → ResourceKey → Bool
involves entity (source, target, id) = source == entity || target == entity

-- ClearEntity, without the order that it sorts the removed states into.
unfoldable pub clear_entity : Store → ℕ → Store × Map ResourceKey State
clear_entity s entity = if entity == 0 then (s, []) else (
  record { states = keep (λ key _. not (involves entity key)) s.states },
  keep (λ key _. involves entity key) s.states,
)
