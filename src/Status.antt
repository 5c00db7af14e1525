-- ===== src/Status.antt =====
-- Timed effects (internal/status/store.go).
pub mod Effects
use astrahold_server.Common.{
  ℕ, ◌+◌, ◌-◌, Bool, true, false, not, ◌&&◌, ◌||◌, Option, none, some, [], Text, text_key, Key, Map,
  ℕ_discrete, max_u64, ltb, leb, ◌==◌, if◌then◌else◌, is_empty, lookup, insert, delete, keep,
}

abbrev pub EffectKey : Type 0
EffectKey = ℕ × Text

unfoldable pub EffectKey-discrete : Discrete EffectKey
EffectKey-discrete = hlevel ℕ_discrete

instance abbrev pub effect_key : Key EffectKey
effect_key = record { same? = EffectKey-discrete }

pub record TimedValue : Type 0 where
  pub value : ℕ
  pub until_tick : ℕ

pub record Store : Type 0 where
  pub active : Map EffectKey TimedValue

unfoldable pub new_store : Store
new_store = record { active = [] }

unfoldable pub apply : Store → ℕ → Text → ℕ → ℕ → Store
apply s entity id value until_tick =
    if entity == 0 || is_empty id || value == 0 then s else record {
      active = insert (entity, id) (record { value = value; until_tick = until_tick }) s.active;
    }

-- The value, or none where Go returns (0, false); an effect that has ended is removed.
unfoldable pub value : Store → ℕ → Text → ℕ → Store × Option ℕ
value s entity id tick =
    if entity == 0 || is_empty id then (s, none) else elim (lookup (entity, id) s.active) [
      | none ↦ (s, none)
      | some state ↦
          if leb state.until_tick tick
          then (record { active = delete (entity, id) s.active }, none)
          else (s, some state.value)
    ]

unfoldable pub remove : Store → ℕ → Text → Store
remove s entity id =
    if entity == 0 || is_empty id then s else record { active = delete (entity, id) s.active }

unfoldable pub clear_entity : Store → ℕ → Store
clear_entity s entity =
    if entity == 0 then s else record { active = keep (λ key _. not (key.0 == entity)) s.active }

unfoldable pub deadline : ℕ → ℕ → ℕ
deadline start_tick duration_ticks =
    if ltb (max_u64 - start_tick) duration_ticks then max_u64 else start_tick + duration_ticks
