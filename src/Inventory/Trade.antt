-- ===== src/Inventory/Trade.antt =====
-- Exchange against Remove followed by Add.
use astrahold_server.Common.{
  ℕ, ◌+◌, ◌-◌, ◌≤◌, ◌<◌, ◌≡◌, none, refl, Option, ◌≢◌, Text, arith, lookup, length, lookup-insert,
  lookup-delete, text_key, add_u32, if◌then◌else◌, ◌==◌,
}
use astrahold_server.Inventory.{
  Inventory, Error, add, add_trimmed, remove, remove_trimmed, exchange, exchange_trimmed,
  put_remaining, weight_for,
}
use astrahold_server.Inventory.Outcome.{Outcome-facts}
use astrahold_server.Inventory.Valid.{IsValid, Shape}
use astrahold_server.Inventory.Slot.{slot_key}
use astrahold_server.Inventory.Stacks.{held, length-put_remaining, lookup-put_remaining_ne}
use astrahold_server.Common.{trim_space, ◌↔◌}
use astrahold_server.Inventory.{quantity}
use astrahold_server.Inventory.StackMoves.{
  after_add, after_remove, AddFacts, RemoveFacts, add_trimmed-Outcome, add_trimmed_succeeds,
  remove_trimmed-Outcome, remove_trimmed_succeeds,
}
use astrahold_server.Inventory.Exchanging.{
  ExchangeFacts, after_exchange, swapped, exchange_trimmed-Outcome, exchange_trimmed_succeeds,
}

module _ (i : Inventory) (r : Text) (rq : ℕ) (a : Text) (aq : ℕ) (v : Shape i) where
  abbrev between : Inventory
  between = after_remove i r rq

  weight_between : weight_for between a aq ≡ weight_for i a aq
  unfolding weight_for
  weight_between = refl

  held-between_same : rq ≤ held i r → r ≡ a → held between a ≡ held i r - rq
  held-between_same h e =
      ground (arith, lookup-insert r a (held i r - rq) i.stacks, lookup-delete r a i.stacks)

  held_between_other : r ≢ a → lookup a between.stacks ≡ lookup a i.stacks
  held_between_other h = lookup-put_remaining_ne r (held i r - rq) i.stacks a h

  present : 0 < rq → rq ≤ held i r → lookup r i.stacks ≢ none
  present p h = ground arith

  entries_between :
      0 < rq
      → rq ≤ held i r
      → length between.stacks + length i.instances ≡ (
          if held i r == rq
          then length i.stacks + length i.instances - 1
          else length i.stacks + length i.instances)
  entries_between p h =
      ground
        (arith, length-put_remaining r (held i r - rq) i.stacks v.stacks_distinct (present p h))

  to_sequence : ExchangeFacts i r rq a aq → RemoveFacts i r rq × AddFacts between a aq
  to_sequence f = ground (
    arith,
    weight_between,
    held-between_same f.4,
    held_between_other,
    entries_between f.2 f.4,
    length-put_remaining r (held i r - rq) i.stacks v.stacks_distinct (present f.2 f.4),
    v.room,
  )

  from_sequence : RemoveFacts i r rq → AddFacts between a aq → ExchangeFacts i r rq a aq
  from_sequence f g = elim (text_key.same? r a) [
    | yes e ↦ ground (arith, weight_between, held-between_same f.2 e)
    | no e ↦ ground (arith, weight_between, held_between_other e, entries_between f.1 f.2)
  ]

  abbrev sequence_end : Inventory
  sequence_end = after_add between a aq

  abbrev trade_end : Inventory
  trade_end = after_exchange i r rq a aq (swapped i r rq a aq)

  same_weight : trade_end.current_weight ≡ sequence_end.current_weight
  same_weight = ground (arith, weight_between)

  same_stacks : ExchangeFacts i r rq a aq → (b : Text) → held trade_end b ≡ held sequence_end b
  same_stacks f b = ground (
    arith,
    held-between_same f.4,
    held_between_other,
    lookup-insert a b (add_u32 (held between a) aq) between.stacks,
    lookup-insert r b ((held i r - rq) + aq) i.stacks,
    lookup-insert a b (add_u32 (held i a) aq) (put_remaining r (held i r - rq) i.stacks),
    lookup-insert r b (held i r - rq) i.stacks,
    lookup-delete r b i.stacks,
  )

  -- The calls, their arguments trimmed.
  abbrev trade : Inventory × Option Error
  trade = exchange_trimmed i r rq a aq

  abbrev first : Inventory × Option Error
  first = remove_trimmed i r rq

  abbrev second : Inventory × Option Error
  second = add_trimmed first.0 a aq

  trade_facts : trade.1 ≡ none → (trade.0 ≡ trade_end) × ExchangeFacts i r rq a aq
  trade_facts =
      Outcome-facts i trade.0 trade.1 trade_end (ExchangeFacts i r rq a aq)
        (exchange_trimmed-Outcome i r rq a aq)

  first_facts : first.1 ≡ none → (first.0 ≡ between) × RemoveFacts i r rq
  first_facts =
      Outcome-facts i first.0 first.1 between (RemoveFacts i r rq) (remove_trimmed-Outcome i r rq)

  second_facts :
      first.0 ≡ between → second.1 ≡ none → (second.0 ≡ sequence_end) × AddFacts between a aq
  second_facts e = rw e (
      Outcome-facts between (add_trimmed between a aq).0 (add_trimmed between a aq).1 sequence_end
        (AddFacts between a aq) (add_trimmed-Outcome between a aq))

  sequence_runs :
      ExchangeFacts i r rq a aq → (first ≡ (between, none)) × (second ≡ (sequence_end, none))
  sequence_runs f =
      let (facts, added) = to_sequence f in
      let go = remove_trimmed_succeeds i r rq facts in
      (go, rw go (add_trimmed_succeeds between a aq added))

  trade_runs : first.1 ≡ none → second.1 ≡ none → trade ≡ (trade_end, none)
  trade_runs e e' =
      let (reached, facts) = first_facts e in
      exchange_trimmed_succeeds i r rq a aq (from_sequence facts (second_facts reached e').1)

  trade_same :
      trade.1 ≡ none
      → ((b : Text) → held trade.0 b ≡ held second.0 b)
        × (trade.0.current_weight ≡ second.0.current_weight)
  trade_same e =
      let (reached, f) = trade_facts e in
      let (_, ended) = sequence_runs f in rw (reached, ended) (same_stacks f, same_weight)

module _ (i : Inventory) (remove_id : Text) (rq : ℕ) (add_id : Text) (aq : ℕ) where
  abbrev pub removed_first : Inventory × Option Error
  removed_first = remove i remove_id rq

  abbrev pub added_then : Inventory × Option Error
  added_then = add removed_first.0 add_id aq

  -- Exchange succeeds exactly when Remove and then Add do, and on success it leaves the same
  -- quantity of every archetype and the same carry weight as those two calls.
  pub exchange-remove-add :
      IsValid i
      → (((exchange i remove_id rq add_id aq).1 ≡ none)
          ↔ ((removed_first.1 ≡ none) × (added_then.1 ≡ none)))
        × ((exchange i remove_id rq add_id aq).1 ≡ none
            → ((b : Text)
                → quantity (exchange i remove_id rq add_id aq).0 b ≡ quantity added_then.0 b)
              × ((exchange i remove_id rq add_id aq).0.current_weight
                  ≡ added_then.0.current_weight))
  unfolding exchange remove add quantity
  exchange-remove-add v =
      let r = trim_space remove_id in
      let a = trim_space add_id in
      (
        (
          λ e.
              let (go, ended) =
                sequence_runs i r rq a aq v.shape (trade_facts i r rq a aq v.shape e).1 in
              (rw go refl, rw ended refl),
          λ (e, e'). rw (trade_runs i r rq a aq v.shape e e') refl,
        ),
        trade_same i r rq a aq v.shape,
      )
