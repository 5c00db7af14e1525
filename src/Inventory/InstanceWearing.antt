-- ===== src/Inventory/InstanceWearing.antt =====
-- EquipInstance and UnequipInstance keep an inventory well formed.
use astrahold_server.Common.{
  ℕ, ◌+◌, ◌≤◌, ◌<◌, ◌≡◌, none, some, ◌⊎◌, false, inl, inr, true, false, Text, arith, lookup, insert,
  delete, length, insert-Distinct, delete-Distinct, insert-Entries, delete-Entries, lookup-Entries,
  length-insert, length-delete, lookup-insert, lookup-delete, text_key, add_u64,
}
use astrahold_server.Inventory.{Inventory}
use astrahold_server.Inventory.Outcome.{Outcome, Outcome-keeps}
use astrahold_server.Inventory.Valid.{IsValid, Shape, Loads, Unique}
use astrahold_server.Inventory.Load.{unit}
use astrahold_server.Inventory.Slot.{slot_key}
use astrahold_server.Common.{total-insert, total-delete, is_empty, Option-cases}
use astrahold_server.Inventory.{equipped_at, instance_at}
use astrahold_server.Inventory.Slot.{EquipmentSlot, valid_equipment_slot}
use astrahold_server.Inventory.Valid.{IsWornInstance, copies}
use astrahold_server.Inventory.{Instance}
use astrahold_server.Inventory.Instances.{equip_instance, unequip_instance}
use astrahold_server.Inventory.Wearing.{bare_slot, bare_instance}
use astrahold_server.Inventory.Valid.{IsStored, named}

abbrev archetype : Instance → Text
archetype x = x.item_archetype_id

module _ (i : Inventory) (slot : EquipmentSlot) (id : Text) (x : Instance) where
  abbrev pub after_equip_instance : Inventory
  after_equip_instance = record i {
    instances = delete id i.instances;
    equipped_instances = insert slot x i.equipped_instances;
    revision = add_u64 i.revision 1;
    equipment_revision = add_u64 i.equipment_revision 1;
  }

  abbrev pub EquipInstanceFacts : Type 0
  EquipInstanceFacts =
      (valid_equipment_slot slot ≡ true)
      × (is_empty (equipped_at i slot) ≡ true)
      × (is_empty (instance_at i slot).id ≡ true)
      × (lookup id i.instances ≡ some x)

  pub equip_instance-Outcome :
      lookup id i.instances ≡ some x
      → Outcome i
          (equip_instance i slot id).0
          (equip_instance i slot id).1
          after_equip_instance
          EquipInstanceFacts
  unfolding equip_instance
  equip_instance-Outcome f = ground arith

  after_equip_instance-Shape : EquipInstanceFacts → Shape i → Shape after_equip_instance
  after_equip_instance-Shape f v = ground (
    arith,
    lookup-Entries IsStored id i.instances x v.stored,
    delete-Distinct id i.instances,
    delete-Entries IsStored id i.instances,
    length-delete id i.instances v.instances_distinct,
    insert-Distinct slot x i.equipped_instances,
    insert-Entries IsWornInstance slot x i.equipped_instances,
  )

  after_equip_instance-Loads :
      (u : Text → ℕ) → EquipInstanceFacts → Shape i → Loads u i → Loads u after_equip_instance
  after_equip_instance-Loads u f v l = ground (
    arith,
    bare_instance i slot v,
    total-delete (λ _ y. u y.item_archetype_id) id i.instances v.instances_distinct,
    total-insert (λ _ y. u y.item_archetype_id) slot x i.equipped_instances,
  )

  after_equip_instance-exclusive :
      EquipInstanceFacts
      → Shape i
      → Unique i
      → (s : EquipmentSlot)
      → (lookup s i.equipped ≡ none) ⊎ (lookup s (insert slot x i.equipped_instances) ≡ none)
  after_equip_instance-exclusive f v q s =
      ground (arith, bare_slot i slot v, lookup-insert slot s x i.equipped_instances, q.exclusive s)

  after_equip_instance-once :
      EquipInstanceFacts → Shape i → Unique i → (j : Text) → copies j after_equip_instance ≤ 1
  after_equip_instance-once f v q j = ground (
    arith,
    bare_instance i slot v,
    lookup-Entries IsStored id i.instances x v.stored,
    lookup-delete id j i.instances,
    total-insert (named j) slot x i.equipped_instances,
    q.once j,
  )

  equip_found-IsValid :
      lookup id i.instances ≡ some x → IsValid i → IsValid (equip_instance i slot id).0
  equip_found-IsValid found v =
      Outcome-keeps IsValid i (equip_instance i slot id).0 (equip_instance i slot id).1
        after_equip_instance (equip_instance-Outcome found) v
        λ f. record {
          shape = after_equip_instance-Shape f v.shape;
          loads = after_equip_instance-Loads (unit i) f v.shape v.loads;
          unique = record {
            exclusive = after_equip_instance-exclusive f v.shape v.unique;
            once = after_equip_instance-once f v.shape v.unique;
          };
        }

pub equip_instance-IsValid :
    (i : Inventory) (slot : EquipmentSlot) (id : Text)
    → IsValid i
    → IsValid (equip_instance i slot id).0
unfolding equip_instance
equip_instance-IsValid i slot id v = elim (Option-cases (lookup id i.instances)) [
  | inl missing ↦ rw (missing, equip_instance) (ground (arith, v))
  | inr (x, f) ↦ equip_found-IsValid i slot id x f v
]

module _ (i : Inventory) (slot : EquipmentSlot) where
  abbrev worn_item : Instance
  worn_item = instance_at i slot

  abbrev pub after_unequip_instance : Inventory
  after_unequip_instance = record i {
    instances = insert worn_item.id worn_item i.instances;
    equipped_instances = delete slot i.equipped_instances;
    revision = add_u64 i.revision 1;
    equipment_revision = add_u64 i.equipment_revision 1;
  }

  abbrev pub UnequipInstanceFacts : Type 0
  UnequipInstanceFacts =
      (is_empty worn_item.id ≡ false)
      × (lookup slot i.equipped_instances ≡ some worn_item)
      × (length i.stacks + length i.instances < i.max_stacks)

  pub unequip_instance-Outcome :
      Outcome i
        (unequip_instance i slot).0
        (unequip_instance i slot).2
        after_unequip_instance
        UnequipInstanceFacts
  unfolding unequip_instance
  unequip_instance-Outcome = ground arith

  after_unequip_instance-Shape : UnequipInstanceFacts → Shape i → Shape after_unequip_instance
  after_unequip_instance-Shape f v = ground (
    arith,
    insert-Distinct worn_item.id worn_item i.instances,
    insert-Entries IsStored worn_item.id worn_item i.instances,
    length-insert worn_item.id worn_item i.instances,
    delete-Distinct slot i.equipped_instances,
    delete-Entries IsWornInstance slot i.equipped_instances,
  )

  -- An instance that a slot wears is not among the unequipped ones.
  worn_not_stored :
      UnequipInstanceFacts → Shape i → Unique i → lookup worn_item.id i.instances ≡ none
  worn_not_stored f v q = ground (
    arith,
    q.once worn_item.id,
    total-delete (named worn_item.id) slot i.equipped_instances v.worn_distinct,
  )

  after_unequip_instance-Loads :
      (u : Text → ℕ)
      → UnequipInstanceFacts
      → Shape i
      → Unique i
      → Loads u i
      → Loads u after_unequip_instance
  after_unequip_instance-Loads u f v q l = ground (
    arith,
    worn_not_stored f v q,
    total-insert (λ _ y. u y.item_archetype_id) worn_item.id worn_item i.instances,
    total-delete (λ _ y. u y.item_archetype_id) slot i.equipped_instances v.worn_distinct,
  )

  after_unequip_instance-once :
      UnequipInstanceFacts → Shape i → Unique i → (j : Text) → copies j after_unequip_instance ≤ 1
  after_unequip_instance-once f v q j = ground (
    arith,
    worn_not_stored f v q,
    lookup-insert worn_item.id j worn_item i.instances,
    total-delete (named j) slot i.equipped_instances v.worn_distinct,
    q.once j,
  )

  after_unequip_instance-exclusive :
      Unique i
      → (s : EquipmentSlot)
      → (lookup s i.equipped ≡ none) ⊎ (lookup s (delete slot i.equipped_instances) ≡ none)
  after_unequip_instance-exclusive q s =
      ground (arith, lookup-delete slot s i.equipped_instances, q.exclusive s)

  pub unequip_instance-IsValid : IsValid i → IsValid (unequip_instance i slot).0
  unequip_instance-IsValid v =
      Outcome-keeps IsValid i (unequip_instance i slot).0 (unequip_instance i slot).2
        after_unequip_instance unequip_instance-Outcome v
        λ f. record {
          shape = after_unequip_instance-Shape f v.shape;
          loads = after_unequip_instance-Loads (unit i) f v.shape v.unique v.loads;
          unique = record {
            exclusive = after_unequip_instance-exclusive v.unique;
            once = after_unequip_instance-once f v.shape v.unique;
          };
        }
