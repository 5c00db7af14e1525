-- ===== src/Status/Effects.antt =====
-- What a reader of the effects sees.
use astrahold_server.Common.{
  ℕ, ◌+◌, ◌≤◌, ◌<◌, ◌≡◌, ◌≢◌, refl, ◌⊎◌, false, not, Option, none, some, [], ◌∷◌, Text, text_key,
  max_u64, arith, leb, ◌==◌, if◌then◌else◌, is_empty, lookup, lookup-insert, lookup-delete,
  lookup-keep, List, Distinct, insert-Distinct, delete-Distinct, keep-Distinct, sym, ◌∙◌,
}
use astrahold_server.Status.{
  effect_key, TimedValue, Store, new_store, apply, value, remove, clear_entity, deadline,
}

-- The value that an effect has at a tick, by the entry alone.
abbrev pub seen : Store → ℕ → Text → ℕ → Option ℕ
seen s entity id tick = elim (lookup (entity, id) s.active) [
  | none ↦ none
  | some state ↦ if leb state.until_tick tick then none else some state.value
]

-- The calls that change a store.
pub data Call : Type 0 where
  apply_call : ℕ → Text → ℕ → ℕ → Call
  value_call : ℕ → Text → ℕ → Call
  remove_call : ℕ → Text → Call
  clear_call : ℕ → Call

unfoldable pub step : Store → Call → Store
step s (apply_call entity id v until_tick) = apply s entity id v until_tick
step s (value_call entity id tick) = (value s entity id tick).0
step s (remove_call entity id) = remove s entity id
step s (clear_call entity) = clear_entity s entity

unfoldable pub run : Store → List Call → Store
unfolding step
run s [] = s
run s (call ∷ calls) = run (step s call) calls

-- The calls without the reads.
unfoldable pub writes : List Call → List Call
writes [] = []
writes (value_call entity id tick ∷ calls) = writes calls
writes (apply_call entity id v until_tick ∷ calls) =
    apply_call entity id v until_tick ∷ writes calls
writes (remove_call entity id ∷ calls) = remove_call entity id ∷ writes calls
writes (clear_call entity ∷ calls) = clear_call entity ∷ writes calls

-- Every read happened at or before the tick.
abbrev pub ReadsBefore : ℕ → List Call → Type 0
ReadsBefore tick [] = Unit
ReadsBefore tick (value_call entity id t ∷ calls) = (t ≤ tick) × ReadsBefore tick calls
ReadsBefore tick (apply_call entity id v until_tick ∷ calls) = ReadsBefore tick calls
ReadsBefore tick (remove_call entity id ∷ calls) = ReadsBefore tick calls
ReadsBefore tick (clear_call entity ∷ calls) = ReadsBefore tick calls

step-Distinct : (s : Store) (call : Call) → Distinct s.active → Distinct (step s call).active
unfolding step apply value remove clear_entity
step-Distinct s (apply_call entity id v until_tick) d =
    ground (
      arith,
      insert-Distinct (entity, id) (record { value = v; until_tick = until_tick }) s.active d,
    )
step-Distinct s (value_call entity id tick) d =
    ground (arith, delete-Distinct (entity, id) s.active d)
step-Distinct s (remove_call entity id) d = ground (arith, delete-Distinct (entity, id) s.active d)
step-Distinct s (clear_call entity) d =
    ground (arith, keep-Distinct (λ key _. not (key.0 == entity)) s.active d)

module _ (tick : ℕ) where
  -- Two stores that nobody can tell apart from the tick on.
  abbrev Same : Store → Store → Type 0
  Same s u =
      (entity : ℕ) (id : Text) (later : ℕ)
      → tick ≤ later
      → seen s entity id later ≡ seen u entity id later

  -- A read leaves what every later reader sees.
  read-seen :
      (s : Store) (entity : ℕ) (id : Text) (t : ℕ) → t ≤ tick → Same (value s entity id t).0 s
  unfolding value
  read-seen s entity id t before e j later after =
      ground (arith, lookup-delete (entity, id) (e, j) s.active)

  apply-seen :
      (s u : Store) (entity : ℕ) (id : Text) (v until_tick : ℕ)
      → Same s u
      → Same (apply s entity id v until_tick) (apply u entity id v until_tick)
  unfolding apply
  apply-seen s u entity id v until_tick h e j later after =
      let state : TimedValue = record { value = v; until_tick = until_tick } in
      ground (
        arith,
        lookup-insert (entity, id) (e, j) state s.active,
        lookup-insert (entity, id) (e, j) state u.active,
        h e j later after,
      )

  remove-seen :
      (s u : Store) (entity : ℕ) (id : Text)
      → Same s u
      → Same (remove s entity id) (remove u entity id)
  unfolding remove
  remove-seen s u entity id h e j later after = ground (
    arith,
    lookup-delete (entity, id) (e, j) s.active,
    lookup-delete (entity, id) (e, j) u.active,
    h e j later after,
  )

  clear_entity-seen :
      (s u : Store) (entity : ℕ)
      → Distinct s.active
      → Distinct u.active
      → Same s u
      → Same (clear_entity s entity) (clear_entity u entity)
  unfolding clear_entity
  clear_entity-seen s u entity d d' h e j later after = ground (
    arith,
    lookup-keep (λ key _. not (key.0 == entity)) (e, j) s.active d,
    lookup-keep (λ key _. not (key.0 == entity)) (e, j) u.active d',
    h e j later after,
  )

  run-Same :
      (calls : List Call) (s u : Store)
      → Distinct s.active
      → Distinct u.active
      → ReadsBefore tick calls
      → Same s u
      → Same (run s calls) (run u (writes calls))
  unfolding run writes step
  run-Same [] s u d d' b h = h
  run-Same (value_call entity id t ∷ calls) s u d d' b h =
      run-Same calls (value s entity id t).0 u (step-Distinct s (value_call entity id t) d) d' b.1
        (λ e j later after. read-seen s entity id t b.0 e j later after ∙ h e j later after)
  run-Same (apply_call entity id v until_tick ∷ calls) s u d d' b h =
      run-Same calls (apply s entity id v until_tick) (apply u entity id v until_tick)
        (step-Distinct s (apply_call entity id v until_tick) d)
        (step-Distinct u (apply_call entity id v until_tick) d') b
        (apply-seen s u entity id v until_tick h)
  run-Same (remove_call entity id ∷ calls) s u d d' b h =
      run-Same calls (remove s entity id) (remove u entity id)
        (step-Distinct s (remove_call entity id) d) (step-Distinct u (remove_call entity id) d') b
        (remove-seen s u entity id h)
  run-Same (clear_call entity ∷ calls) s u d d' b h =
      run-Same calls (clear_entity s entity) (clear_entity u entity)
        (step-Distinct s (clear_call entity) d) (step-Distinct u (clear_call entity) d') b
        (clear_entity-seen s u entity d d' h)

value-seen :
    (s : Store) (entity : ℕ) (id : Text) (tick : ℕ)
    → entity ≢ 0
    → is_empty id ≡ false
    → (value s entity id tick).1 ≡ seen s entity id tick
unfolding value
value-seen s entity id tick n m = ground arith

-- The lazy removal of ended effects cannot be observed: after any calls on a new store, a read at
-- a tick that is not before any earlier read gives what it would give without the earlier reads.
pub run-writes :
    (calls : List Call) (entity : ℕ) (id : Text) (tick : ℕ)
    → ReadsBefore tick calls
    → entity ≢ 0
    → is_empty id ≡ false
    → (value (run new_store calls) entity id tick).1
      ≡ (value (run new_store (writes calls)) entity id tick).1
unfolding new_store
run-writes calls entity id tick b n m =
    value-seen (run new_store calls) entity id tick n m
    ∙ run-Same tick calls new_store new_store tt tt b (λ _ _ _ _. refl) entity id tick (omega arith)
    ∙ sym (value-seen (run new_store (writes calls)) entity id tick n m)

-- An effect that is applied for a duration is seen from its start up to its deadline and not from
-- the deadline on, where the sum is a uint64; no other effect changes.
pub apply-value :
    (s : Store) (entity : ℕ) (id : Text) (v start duration tick : ℕ)
    → entity ≢ 0
    → is_empty id ≡ false
    → v ≢ 0
    → start + duration ≤ max_u64
    → let after = apply s entity id v (deadline start duration) in
      ((tick < start + duration → (value after entity id tick).1 ≡ some v)
        × (start + duration ≤ tick → (value after entity id tick).1 ≡ none))
      × ((e : ℕ) (j : Text)
          → (entity ≢ e) ⊎ (id ≢ j)
          → (value after e j tick).1 ≡ (value s e j tick).1)
unfolding apply value deadline
apply-value s entity id v start duration tick n m p fits =
    let state : TimedValue = record { value = v; until_tick = start + duration } in
    (
      ground (arith, lookup-insert (entity, id) (entity, id) state s.active),
      λ e j other. ground (arith, lookup-insert (entity, id) (e, j) state s.active),
    )
