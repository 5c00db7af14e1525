-- ===== src/Inventory/Equipment.antt =====
-- Wearing archetypes: Equip and Unequip (internal/inventory/inventory.go).
use astrahold_server.Common.{
  ◌-◌, not, ◌&&◌, ◌||◌, Option, none, some, [], leb, ◌==◌, if◌then◌else◌, Text, is_empty,
  trim_space, get_or, is_some, lookup, insert, delete, max_u32, add_u32, add_u64, text_key, List,
  ◌∷◌,
}
use astrahold_server.Inventory.{
  Inventory, Error, invalid_archetype, full, insufficient, quantity_overflow,
  invalid_equipment_slot, equipment_slot_occupied, equipment_slot_empty, equipped_at, instance_at,
  unequipped_entry_count,
}
use astrahold_server.Inventory.Slot.{
  EquipmentSlot, main_hand, off_hand, valid_equipment_slot, slot_key, equipment_slots,
}

unfoldable pub equip_trimmed : Inventory → EquipmentSlot → Text → Inventory × Option Error
equip_trimmed i slot k =
    let current = get_or 0 (lookup k i.stacks) in
    if not (valid_equipment_slot slot)
    then (i, some invalid_equipment_slot)
    else if is_empty k
    then (i, some invalid_archetype)
    else if not (is_empty (equipped_at i slot)) || not (is_empty (instance_at i slot).id)
    then (i, some equipment_slot_occupied)
    else if current == 0
    then (i, some insufficient)
    else (
      record i {
        stacks = if current == 1 then delete k i.stacks else insert k (current - 1) i.stacks;
        equipped = insert slot k i.equipped;
        revision = add_u64 i.revision 1;
        equipment_revision = add_u64 i.equipment_revision 1;
      },
      none,
    )

unfoldable pub equip : Inventory → EquipmentSlot → Text → Inventory × Option Error
unfolding equip_trimmed
equip i slot archetype_id = equip_trimmed i slot (trim_space archetype_id)

unfoldable pub unequip : Inventory → EquipmentSlot → Inventory × Text × Option Error
unequip i slot =
    let k = equipped_at i slot in
    let current = get_or 0 (lookup k i.stacks) in
    if not (valid_equipment_slot slot)
    then (i, [], some invalid_equipment_slot)
    else if is_empty k
    then (i, [], some equipment_slot_empty)
    else if not (is_some (lookup k i.stacks)) && leb i.max_stacks (unequipped_entry_count i)
    then (i, [], some full)
    else if current == max_u32
    then (i, [], some quantity_overflow)
    else (
      record i {
        stacks = insert k (add_u32 current 1) i.stacks;
        equipped = delete slot i.equipped;
        revision = add_u64 i.revision 1;
        equipment_revision = add_u64 i.equipment_revision 1;
      },
      k,
      none,
    )

abbrev pub equip_main_hand : Inventory → Text → Inventory × Option Error
equip_main_hand i = equip i main_hand

abbrev pub unequip_main_hand : Inventory → Inventory × Text × Option Error
unequip_main_hand i = unequip i main_hand

abbrev pub equip_off_hand : Inventory → Text → Inventory × Option Error
equip_off_hand i = equip i off_hand

abbrev pub unequip_off_hand : Inventory → Inventory × Text × Option Error
unequip_off_hand i = unequip i off_hand

pub record EquippedArchetype : Type 0 where
  pub slot : EquipmentSlot
  pub archetype_id : Text

-- The loop of EquippedArchetypeSnapshot over the slots.
unfoldable pub archetypes_at : Inventory → List EquipmentSlot → List EquippedArchetype
archetypes_at i [] = []
archetypes_at i (slot ∷ slots) =
    let rest = archetypes_at i slots in
    if is_empty (equipped_at i slot)
    then rest
    else record { slot = slot; archetype_id = equipped_at i slot } ∷ rest

unfoldable pub equipped_archetype_snapshot : Inventory → List EquippedArchetype
unfolding archetypes_at
equipped_archetype_snapshot i = archetypes_at i equipment_slots
