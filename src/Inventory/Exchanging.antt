-- ===== src/Inventory/Exchanging.antt =====
-- Exchange keeps an inventory well formed.
use astrahold_server.Common.{
  ℕ, ◌+◌, ◌-◌, ◌*◌, ◌≤◌, ◌<◌, ◌≡◌, none, ◌⊎◌, false, Option, ◌≢◌, false, Text, arith, Distinct,
  lookup, insert, length, insert-Distinct, insert-Entries, length-insert, text_key, add_u32,
  add_u64, max_u32, Map, if◌then◌else◌, ◌=?◌, ◌==◌, is_empty,
}
use astrahold_server.Inventory.{
  Inventory, Error, exchange_trimmed, exchange_checked, exchange_same, exchange_other,
  exchange_units, base_load, put_remaining, weight_for,
}
use astrahold_server.Inventory.Outcome.{Outcome, Outcome-keeps}
use astrahold_server.Inventory.Valid.{IsValid, Shape, Loads, IsQuantity}
use astrahold_server.Inventory.Load.{
  unit, stack_load, weight_for-unit, weight_for-unlimited, stack_load-add, stack_load-take,
  stack_load-swap,
}
use astrahold_server.Inventory.Slot.{slot_key}
use astrahold_server.Inventory.Stacks.{
  held, held-le, put_remaining-Distinct, put_remaining-quantities, length-put_remaining,
  lookup-put_remaining_ne,
}

module _ (i : Inventory) (r : Text) (rq : ℕ) (a : Text) (aq : ℕ) where
  abbrev pub after_exchange : Map Text ℕ → Inventory
  after_exchange stacks = record i {
    stacks = stacks;
    current_weight = add_u64 (base_load i (weight_for i r rq)) (weight_for i a aq);
    revision = add_u64 i.revision 1;
  }

  abbrev pub swapped : Map Text ℕ
  swapped =
      if r =? a
      then insert r ((held i r - rq) + aq) i.stacks
      else insert a (add_u32 (held i a) aq) (put_remaining r (held i r - rq) i.stacks)

  abbrev pub ExchangeFacts : Type 0
  ExchangeFacts =
      (is_empty r ≡ false)
      × (is_empty a ≡ false)
      × (0 < rq)
      × (0 < aq)
      × (rq ≤ held i r)
      × (0 < i.max_weight → base_load i (weight_for i r rq) + weight_for i a aq ≤ i.max_weight)
      × ((r ≡ a) × ((held i r - rq) + aq ≤ max_u32)
          ⊎ (r ≢ a)
            × (held i a + aq ≤ max_u32)
            × (lookup a i.stacks ≡ none
                → (if held i r == rq
                    then length i.stacks + length i.instances - 1
                    else length i.stacks + length i.instances)
                  < i.max_stacks))

  exchange_same-Outcome :
      (load : ℕ)
      → Outcome i
          (exchange_same i r rq aq load).0
          (exchange_same i r rq aq load).1
          (record i {
            stacks = insert r ((held i r - rq) + aq) i.stacks;
            current_weight = load;
            revision = add_u64 i.revision 1;
          })
          ((held i r - rq) + aq ≤ max_u32)
  unfolding exchange_same
  exchange_same-Outcome load = ground arith

  exchange_other-Outcome :
      (load : ℕ)
      → Outcome i
          (exchange_other i r rq a aq load).0
          (exchange_other i r rq a aq load).1
          (record i {
            stacks = insert a (add_u32 (held i a) aq) (put_remaining r (held i r - rq) i.stacks);
            current_weight = load;
            revision = add_u64 i.revision 1;
          })
          ((held i a + aq ≤ max_u32)
            × (lookup a i.stacks ≡ none
                → (if held i r == rq
                    then length i.stacks + length i.instances - 1
                    else length i.stacks + length i.instances)
                  < i.max_stacks))
  unfolding exchange_other
  exchange_other-Outcome load = ground arith

  abbrev pub new_load : ℕ
  new_load = add_u64 (base_load i (weight_for i r rq)) (weight_for i a aq)

  abbrev pub TailFacts : Type 0
  TailFacts =
      (r ≡ a) × ((held i r - rq) + aq ≤ max_u32)
      ⊎ (r ≢ a)
        × (held i a + aq ≤ max_u32)
        × (lookup a i.stacks ≡ none
            → (if held i r == rq
                then length i.stacks + length i.instances - 1
                else length i.stacks + length i.instances)
              < i.max_stacks)

  abbrev units : Inventory × Option Error
  units = exchange_units i r rq a aq new_load

  units-Outcome : Outcome i units.0 units.1 (after_exchange swapped) TailFacts
  unfolding exchange_units
  units-Outcome = ground (arith, exchange_same-Outcome new_load, exchange_other-Outcome new_load)

  exchange_checked-Outcome :
      (j : Inventory) (F : Type 0)
      → Outcome i units.0 units.1 j F
      → Outcome i (exchange_checked i r rq a aq).0 (exchange_checked i r rq a aq).1 j (
          (rq ≤ held i r)
          × (0 < i.max_weight → base_load i (weight_for i r rq) + weight_for i a aq ≤ i.max_weight)
          × F)
  unfolding exchange_checked
  exchange_checked-Outcome j F h = ground arith

  pub exchange_trimmed-Outcome :
      Outcome i
        (exchange_trimmed i r rq a aq).0
        (exchange_trimmed i r rq a aq).1
        (after_exchange swapped)
        ExchangeFacts
  unfolding exchange_trimmed
  exchange_trimmed-Outcome =
      ground (arith, exchange_checked-Outcome (after_exchange swapped) TailFacts units-Outcome)

  units_succeed : TailFacts → units ≡ (after_exchange swapped, none)
  unfolding exchange_units exchange_same exchange_other
  units_succeed f = ground arith

  exchange_checked_succeeds :
      (t : Inventory × Option Error)
      → units ≡ t
      → rq ≤ held i r
      → (0 < i.max_weight → base_load i (weight_for i r rq) + weight_for i a aq ≤ i.max_weight)
      → exchange_checked i r rq a aq ≡ t
  unfolding exchange_checked
  exchange_checked_succeeds t e h w = ground arith

  pub exchange_trimmed_succeeds :
      ExchangeFacts → exchange_trimmed i r rq a aq ≡ (after_exchange swapped, none)
  unfolding exchange_trimmed
  exchange_trimmed_succeeds (hr, ha, pr, pa, le, weight, tail) =
      let step =
        exchange_checked_succeeds (after_exchange swapped, none) (units_succeed tail) le weight in
      ground (arith, step)

  swapped-Shape : ExchangeFacts → Shape i → Shape (after_exchange swapped)
  swapped-Shape f v = ground (
    arith,
    held-le i.stacks r v.quantities,
    insert-Distinct r ((held i r - rq) + aq) i.stacks,
    insert-Entries IsQuantity r ((held i r - rq) + aq) i.stacks,
    length-insert r ((held i r - rq) + aq) i.stacks,
    put_remaining-Distinct r (held i r - rq) i.stacks,
    put_remaining-quantities r (held i r - rq) i.stacks,
    length-put_remaining r (held i r - rq) i.stacks,
    lookup-put_remaining_ne r (held i r - rq) i.stacks a,
    insert-Distinct a (add_u32 (held i a) aq) (put_remaining r (held i r - rq) i.stacks),
    insert-Entries IsQuantity a (add_u32 (held i a) aq) (put_remaining r (held i r - rq) i.stacks),
    length-insert a (add_u32 (held i a) aq) (put_remaining r (held i r - rq) i.stacks),
  )

  -- The weight of the stacks after the exchange, removed units and all.
  stack_load-swapped :
      (u : Text → ℕ)
      → Distinct i.stacks
      → ExchangeFacts
      → stack_load u swapped + u r * rq ≡ stack_load u i.stacks + u a * aq
  stack_load-swapped u d f = ground (
    arith,
    stack_load-swap u r i.stacks (held i r - rq) rq aq,
    stack_load-take u r i.stacks (held i r - rq) rq d,
    stack_load-add u a (put_remaining r (held i r - rq) i.stacks) (add_u32 (held i a) aq) aq,
    lookup-put_remaining_ne r (held i r - rq) i.stacks a,
  )

  swapped-Loads :
      (u : Text → ℕ)
      → weight_for i r rq ≡ u r * rq
      → weight_for i a aq ≡ u a * aq
      → Distinct i.stacks
      → ExchangeFacts
      → Loads u i
      → Loads u (after_exchange swapped)
  swapped-Loads u w x d f v = ground (
    arith,
    stack_load-swapped u d f,
    stack_load-take u r i.stacks (held i r - rq) rq d,
    weight_for-unlimited i a aq,
  )

  pub exchange_trimmed-IsValid :
      rq ≤ max_u32 → aq ≤ max_u32 → IsValid i → IsValid (exchange_trimmed i r rq a aq).0
  exchange_trimmed-IsValid hr ha v =
      Outcome-keeps IsValid i (exchange_trimmed i r rq a aq).0 (exchange_trimmed i r rq a aq).1
        (after_exchange swapped) exchange_trimmed-Outcome v
        λ f. record {
          shape = swapped-Shape f v.shape;
          loads =
              swapped-Loads (unit i) (weight_for-unit i r rq v.loads.units hr)
                (weight_for-unit i a aq v.loads.units ha) v.shape.stacks_distinct f v.loads;
          unique = record { exclusive = v.unique.exclusive; once = v.unique.once };
        }
