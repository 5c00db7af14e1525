-- ===== src/TargetResource/Bounds.antt =====
-- What holds of the resources between two calls, and what each call does.
use astrahold_server.Common.{
  ℕ, ◌+◌, ◌≤◌, ◌≡◌, ◌≢◌, ◌⊎◌, inl, inr, true, not, none, some, [], ◌∷◌, List, text_key, max_u32,
  arith, lookup, insert, lookup-insert, lookup-keep, Distinct, insert-Distinct, keep-Distinct,
  Option-cases, subst, sym,
}
use astrahold_server.TargetResource.{
  ResourceKey, resource_key, State, Store, new_store, try_gain, gain_preserving_ready_tick, spend,
  clear_entity, involves, valid_key, gained,
}

abbrev pub StateHolds : ResourceKey → State → Type 0
StateHolds key st =
    (valid_key key ≡ true) × (st.current ≤ st.max) × (st.max ≢ 0) × (st.max ≤ max_u32)

-- Every stored key is valid, and every amount is at most its maximum, which is a positive uint32.
abbrev pub IsValid : Store → Type 0
IsValid s =
    Distinct s.states
    × ((key : ResourceKey) (st : State) → lookup key s.states ≡ some st → StateHolds key st)

pub data Call : Type 0 where
  try_gain_call : ResourceKey → ℕ → ℕ → ℕ → ℕ → Call
  gain_call : ResourceKey → ℕ → ℕ → Call
  spend_call : ResourceKey → ℕ → Call
  clear_call : ℕ → Call

unfoldable pub step : Store → Call → Store
step s (try_gain_call key amount max tick next) = (try_gain s key amount max tick next).0
step s (gain_call key amount max) = (gain_preserving_ready_tick s key amount max).0
step s (spend_call key amount) = (spend s key amount).0
step s (clear_call entity) = (clear_entity s entity).0

-- The amounts are uint32 values.
abbrev pub IsTyped : Call → Type 0
IsTyped (try_gain_call key amount max tick next) = (amount ≤ max_u32) × (max ≤ max_u32)
IsTyped (gain_call key amount max) = (amount ≤ max_u32) × (max ≤ max_u32)
IsTyped (spend_call key amount) = amount ≤ max_u32
IsTyped (clear_call entity) = Unit

gained-bound :
    (st : State) (amount : ℕ) → st.max ≤ max_u32 → st.current ≤ st.max → gained st amount ≤ st.max
gained-bound st amount h c = ground arith

insert-IsValid :
    (s : Store) (key : ResourceKey) (st : State)
    → IsValid s
    → StateHolds key st
    → IsValid (record { states = insert key st s.states })
insert-IsValid s key st (d, v) h = (
  insert-Distinct key st s.states d,
  λ k t e. ground (arith, lookup-insert key k st s.states, v k t),
)

-- What a call that gains or spends makes of the store: the same, or one state stored.
abbrev Stores : Store → ResourceKey → State → Store → Type 0
Stores s key st after =
    (after ≡ s) ⊎ (StateHolds key st × (after ≡ record { states = insert key st s.states }))

Stores-IsValid :
    (s : Store) (key : ResourceKey) (st : State) (after : Store)
    → IsValid s
    → Stores s key st after
    → IsValid after
Stores-IsValid s key st after v (inl e) = subst IsValid (sym e) v
Stores-IsValid s key st after v (inr (h, e)) = subst IsValid (sym e) (insert-IsValid s key st v h)

module _ (s : Store) (v : IsValid s) where
  try_gain-Stores :
      (key : ResourceKey) (amount max tick next : ℕ)
      → max ≤ max_u32
      → Stores s key (try_gain s key amount max tick next).1 (try_gain s key amount max tick next).0
  unfolding try_gain
  try_gain-Stores key amount max tick next h = elim (Option-cases (lookup key s.states)) [
    | inl e ↦ ground arith
    | inr (st, e) ↦ ground (arith, v.1 key st e)
  ]

  gain-Stores :
      (key : ResourceKey) (amount max : ℕ)
      → max ≤ max_u32
      → Stores s key
          (gain_preserving_ready_tick s key amount max).1
          (gain_preserving_ready_tick s key amount max).0
  unfolding gain_preserving_ready_tick
  gain-Stores key amount max h = elim (Option-cases (lookup key s.states)) [
    | inl e ↦ ground arith
    | inr (st, e) ↦ ground (arith, v.1 key st e)
  ]

  spend-Stores :
      (key : ResourceKey) (amount : ℕ) → Stores s key (spend s key amount).1 (spend s key amount).0
  unfolding spend
  spend-Stores key amount = elim (Option-cases (lookup key s.states)) [
    | inl e ↦ ground arith
    | inr (st, e) ↦ ground (arith, v.1 key st e)
  ]

  clear_entity-IsValid : (entity : ℕ) → IsValid (clear_entity s entity).0
  unfolding clear_entity
  clear_entity-IsValid entity =
      let stays = λ (key : ResourceKey) (_ : State). not (involves entity key) in
      (
        ground (arith, v.0, keep-Distinct stays s.states v.0),
        λ key st e. ground (arith, v.1 key st, lookup-keep stays key s.states v.0),
      )

-- Every call keeps the store valid.
pub call-IsValid : (s : Store) (call : Call) → IsTyped call → IsValid s → IsValid (step s call)
unfolding step
call-IsValid s (try_gain_call key amount max tick next) t v =
    Stores-IsValid s key (try_gain s key amount max tick next).1
      (try_gain s key amount max tick next).0 v (try_gain-Stores s v key amount max tick next t.1)
call-IsValid s (gain_call key amount max) t v =
    Stores-IsValid s key (gain_preserving_ready_tick s key amount max).1
      (gain_preserving_ready_tick s key amount max).0 v (gain-Stores s v key amount max t.1)
call-IsValid s (spend_call key amount) t v =
    Stores-IsValid s key (spend s key amount).1 (spend s key amount).0 v
      (spend-Stores s v key amount)
call-IsValid s (clear_call entity) t v = clear_entity-IsValid s v entity

unfoldable pub run : Store → List Call → Store
run s [] = s
run s (call ∷ calls) = run (step s call) calls

abbrev pub AllTyped : List Call → Type 0
AllTyped [] = Unit
AllTyped (call ∷ calls) = IsTyped call × AllTyped calls

run-IsValid : (s : Store) (calls : List Call) → AllTyped calls → IsValid s → IsValid (run s calls)
unfolding run
run-IsValid s [] t v = v
run-IsValid s (call ∷ calls) t v = run-IsValid (step s call) calls t.1 (call-IsValid s call t.0 v)

-- After any calls on a new store every stored key is valid, and every amount is at most its
-- maximum, which is positive and a uint32.
pub run-new_store-IsValid : (calls : List Call) → AllTyped calls → IsValid (run new_store calls)
unfolding new_store lookup
run-new_store-IsValid calls t = run-IsValid new_store calls t (tt, λ key st e. ground arith)

module _ (s : Store) (v : IsValid s) (key : ResourceKey) (amount max : ℕ)
    (fits : max ≤ max_u32) where
  -- Spending an amount that has been gained by GainPreservingReadyTick gives the old amount and
  -- cooldown back, where the gain does not meet the maximum.
  pub spend-gain :
      (st : State)
      → lookup key s.states ≡ some st
      → st.max ≡ max
      → amount ≢ 0
      → st.current + amount ≤ max
      → let r = gain_preserving_ready_tick s key amount max in
        (r.2 ≡ true)
        × (spend r.0 key amount ≡ (record { states = insert key st r.0.states }, st, none))
  unfolding gain_preserving_ready_tick spend
  spend-gain st known same n small = ground (
    arith,
    v.1 key st known,
    lookup-insert key key (record st { current = st.current + amount }) s.states,
  )
