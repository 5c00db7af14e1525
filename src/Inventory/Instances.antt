-- ===== src/Inventory/Instances.antt =====
-- Unique item instances (internal/inventory/instance.go). A record of the model is a value, so
-- the copy that cloneInstance makes is the instance itself.
use astrahold_server.Common.{
  false, not, ◌||◌, Bool, Option, none, some, [], ◌∷◌, List, leb, if◌then◌else◌, ◌=?◌, Text,
  is_empty, trim_space, is_some, lookup, insert, delete, add_u64, text_key,
}
use astrahold_server.Inventory.{
  Inventory, Instance, Error, no_instance, invalid_instance, instance_exists, instance_not_found,
  full, weight_exceeded, invalid_equipment_slot, equipment_slot_occupied, equipment_slot_empty,
  equipped_at, instance_at, unequipped_entry_count, weight_for, too_heavy, lighter,
}
use astrahold_server.Inventory.Slot.{
  EquipmentSlot, main_hand, off_hand, valid_equipment_slot, slot_key, equipment_slots,
}

unfoldable pub equipped_in : Inventory → Text → List EquipmentSlot → Bool
equipped_in i id [] = false
equipped_in i id (slot ∷ slots) = (instance_at i slot).id =? id || equipped_in i id slots

unfoldable pub instance_equipped : Inventory → Text → Bool
unfolding equipped_in
instance_equipped i id = equipped_in i id equipment_slots

unfoldable pub add_instance : Inventory → Instance → Inventory × Option Error
add_instance i x =
    let id = trim_space x.id in
    let archetype_id = trim_space x.item_archetype_id in
    let added = weight_for i archetype_id 1 in
    if is_empty id
      || is_empty archetype_id
      || not (id =? x.id)
      || not (archetype_id =? x.item_archetype_id)
    then (i, some invalid_instance)
    else if is_some (lookup id i.instances) || instance_equipped i id
    then (i, some instance_exists)
    else if leb i.max_stacks (unequipped_entry_count i)
    then (i, some full)
    else if too_heavy i i.current_weight added
    then (i, some weight_exceeded)
    else (
      record i {
        instances = insert id x i.instances;
        current_weight = add_u64 i.current_weight added;
        revision = add_u64 i.revision 1;
      },
      none,
    )

unfoldable pub remove_found :
    Inventory → Text → Option Instance → Inventory × Instance × Option Error
remove_found i id none = (i, no_instance, some instance_not_found)
remove_found i id (some x) = (
  record i {
    instances = delete id i.instances;
    current_weight = lighter i.current_weight (weight_for i x.item_archetype_id 1);
    revision = add_u64 i.revision 1;
  },
  x,
  none,
)

unfoldable pub remove_instance_trimmed : Inventory → Text → Inventory × Instance × Option Error
unfolding remove_found
remove_instance_trimmed i id =
    if is_empty id
    then (i, no_instance, some invalid_instance)
    else remove_found i id (lookup id i.instances)

unfoldable pub remove_instance : Inventory → Text → Inventory × Instance × Option Error
unfolding remove_instance_trimmed
remove_instance i instance_id = remove_instance_trimmed i (trim_space instance_id)

unfoldable pub equip_found :
    Inventory → EquipmentSlot → Text → Option Instance → Inventory × Option Error
equip_found i slot id none = (i, some instance_not_found)
equip_found i slot id (some x) = (
  record i {
    instances = delete id i.instances;
    equipped_instances = insert slot x i.equipped_instances;
    revision = add_u64 i.revision 1;
    equipment_revision = add_u64 i.equipment_revision 1;
  },
  none,
)

unfoldable pub equip_instance : Inventory → EquipmentSlot → Text → Inventory × Option Error
unfolding equip_found
equip_instance i slot id =
    if not (valid_equipment_slot slot)
    then (i, some invalid_equipment_slot)
    else if not (is_empty (equipped_at i slot)) || not (is_empty (instance_at i slot).id)
    then (i, some equipment_slot_occupied)
    else equip_found i slot id (lookup id i.instances)

unfoldable pub unequip_instance : Inventory → EquipmentSlot → Inventory × Instance × Option Error
unequip_instance i slot =
    let x = instance_at i slot in
    if not (valid_equipment_slot slot)
    then (i, no_instance, some invalid_equipment_slot)
    else if is_empty x.id
    then (i, no_instance, some equipment_slot_empty)
    else if leb i.max_stacks (unequipped_entry_count i)
    then (i, no_instance, some full)
    else (
      record i {
        instances = insert x.id x i.instances;
        equipped_instances = delete slot i.equipped_instances;
        revision = add_u64 i.revision 1;
        equipment_revision = add_u64 i.equipment_revision 1;
      },
      x,
      none,
    )

unfoldable pub equipped_instance : Inventory → EquipmentSlot → Option Instance
equipped_instance i slot =
    if not (valid_equipment_slot slot)
    then none
    else if is_empty (instance_at i slot).id
    then none
    else some (instance_at i slot)

abbrev pub equip_main_hand_instance : Inventory → Text → Inventory × Option Error
equip_main_hand_instance i = equip_instance i main_hand

abbrev pub unequip_main_hand_instance : Inventory → Inventory × Instance × Option Error
unequip_main_hand_instance i = unequip_instance i main_hand

abbrev pub equip_off_hand_instance : Inventory → Text → Inventory × Option Error
equip_off_hand_instance i = equip_instance i off_hand

abbrev pub unequip_off_hand_instance : Inventory → Inventory × Instance × Option Error
unequip_off_hand_instance i = unequip_instance i off_hand
