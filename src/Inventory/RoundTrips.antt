-- ===== src/Inventory/RoundTrips.antt =====
-- Calls that undo one another.
use astrahold_server.Common.{
  ◌+◌, ◌-◌, ◌≡◌, refl, inl, inr, none, some, arith, Text, get_or, trim_space, add_u32, lookup,
  insert, lookup-insert, lookup-delete, length-delete, text_key, if◌then◌else◌, ite, length, ap, [],
  ◌<◌, ◌==◌,
}
use astrahold_server.Inventory.{Inventory, quantity, equipped_at}
use astrahold_server.Inventory.Slot.{EquipmentSlot, slot_key}
use astrahold_server.Inventory.Equipment.{equip, unequip}
use astrahold_server.Inventory.Valid.{IsValid, Shape}
use astrahold_server.Inventory.Stacks.{held, held-le}
use astrahold_server.Inventory.Wearing.{
  after_equip, EquipFacts, equip_trimmed-Outcome, after_unequip, bare_slot,
}

module _ (i : Inventory) (slot : EquipmentSlot) (k : Text) (v : Shape i)
    (f : EquipFacts i slot k) where
  equipped_again : lookup slot (after_equip i slot k).equipped ≡ some k
  equipped_again = ground (arith, lookup-insert slot slot k i.equipped)

  stack_left :
      (j : Text)
      → lookup j (after_equip i slot k).stacks
        ≡ ite
            (text_key.same? k j)
            (if held i k == 1 then none else some (held i k - 1))
            (lookup j i.stacks)
  stack_left j =
      ground (arith, lookup-insert k j (held i k - 1) i.stacks, lookup-delete k j i.stacks)

  room_left :
      lookup k (after_equip i slot k).stacks ≡ none
      → length (after_equip i slot k).stacks + length i.instances < i.max_stacks
  room_left h = ground (arith, stack_left k, v.room, length-delete k i.stacks v.stacks_distinct)

  held_left : held (after_equip i slot k) k ≡ held i k - 1
  held_left = ground (arith, stack_left k)

  unequip_after :
      unequip (after_equip i slot k) slot ≡ (after_unequip (after_equip i slot k) slot, k, none)
  unfolding unequip
  unequip_after =
      ground (arith, equipped_again, room_left, held_left, held-le i.stacks k v.quantities)

  abbrev back : Inventory
  back = after_unequip (after_equip i slot k) slot

  held-back : (a : Text) → held back a ≡ held i a
  held-back a = ground (
    arith,
    equipped_again,
    stack_left a,
    held_left,
    held-le i.stacks k v.quantities,
    lookup-insert k a (add_u32 (held (after_equip i slot k) k) 1) (after_equip i slot k).stacks,
  )

  slots_back : (s : EquipmentSlot) → lookup s back.equipped ≡ lookup s i.equipped
  slots_back s = ground (
    arith,
    bare_slot i slot v,
    lookup-delete slot s (insert slot k i.equipped),
    lookup-insert slot s k i.equipped,
  )

-- What was equipped from a stack can be taken off again at once: that call succeeds and returns
-- the archetype, and then every stack and every slot is as it was.
pub unequip-equip :
    (i : Inventory) (slot : EquipmentSlot) (k : Text)
    → IsValid i
    → (equip i slot k).1 ≡ none
    → ((unequip (equip i slot k).0 slot).1 ≡ trim_space k)
      × ((unequip (equip i slot k).0 slot).2 ≡ none)
      × ((a : Text) → quantity (unequip (equip i slot k).0 slot).0 a ≡ quantity i a)
      × ((s : EquipmentSlot) → equipped_at (unequip (equip i slot k).0 slot).0 s ≡ equipped_at i s)
unfolding equip quantity
unequip-equip i slot k v e = elim (equip_trimmed-Outcome i slot (trim_space k)) [
  | inl (_, failed) ↦ ground (arith, failed, e)
  | inr (new, _, f) ↦
      let same = unequip_after i slot (trim_space k) v.shape f in
      rw (new, same)
        (
          refl,
          refl,
          λ a. held-back i slot (trim_space k) v.shape f a,
          λ s. ap (get_or []) (slots_back i slot (trim_space k) v.shape f s),
        )
]
