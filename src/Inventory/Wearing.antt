-- ===== src/Inventory/Wearing.antt =====
-- Equip and Unequip keep an inventory well formed.
use astrahold_server.Common.{
  ℕ, ◌+◌, ◌-◌, ◌<◌, ◌≡◌, none, ◌⊎◌, ◌≢◌, true, Text, arith, lookup, insert, delete, length,
  insert-Distinct, delete-Distinct, insert-Entries, delete-Entries, lookup-Entries, length-insert,
  length-delete, lookup-insert, lookup-delete, text_key, add_u32, add_u64, max_u32, if◌then◌else◌,
  ◌==◌,
}
use astrahold_server.Inventory.{Inventory}
use astrahold_server.Inventory.Outcome.{Outcome, Outcome-keeps}
use astrahold_server.Inventory.Valid.{IsValid, Shape, Loads, Unique, IsQuantity}
use astrahold_server.Inventory.Load.{unit, stack_load-add, stack_load-take}
use astrahold_server.Inventory.Slot.{slot_key}
use astrahold_server.Inventory.Stacks.{held, held-le}
use astrahold_server.Common.{total-insert, total-delete, is_empty}
use astrahold_server.Inventory.{equipped_at, instance_at}
use astrahold_server.Inventory.Slot.{EquipmentSlot}
use astrahold_server.Inventory.Equipment.{equip_trimmed, unequip}
use astrahold_server.Inventory.Valid.{IsWorn, IsWornInstance}

module _ (i : Inventory) (slot : EquipmentSlot) (v : Shape i) where
  -- A slot that reads as empty has no entry.
  pub bare_slot : is_empty (equipped_at i slot) ≡ true → lookup slot i.equipped ≡ none
  bare_slot h = ground (arith, lookup-Entries IsWorn slot i.equipped (equipped_at i slot) v.names)

  pub bare_instance :
      is_empty (instance_at i slot).id ≡ true → lookup slot i.equipped_instances ≡ none
  bare_instance h =
      ground
        (arith, lookup-Entries IsWornInstance slot i.equipped_instances (instance_at i slot) v.worn)

module _ (i : Inventory) (slot : EquipmentSlot) (k : Text) where
  abbrev pub after_equip : Inventory
  after_equip = record i {
    stacks = if held i k == 1 then delete k i.stacks else insert k (held i k - 1) i.stacks;
    equipped = insert slot k i.equipped;
    revision = add_u64 i.revision 1;
    equipment_revision = add_u64 i.equipment_revision 1;
  }

  abbrev pub EquipFacts : Type 0
  EquipFacts =
      IsWorn slot k
      × (is_empty (equipped_at i slot) ≡ true)
      × (is_empty (instance_at i slot).id ≡ true)
      × (0 < held i k)

  pub equip_trimmed-Outcome :
      Outcome i (equip_trimmed i slot k).0 (equip_trimmed i slot k).1 after_equip EquipFacts
  unfolding equip_trimmed
  equip_trimmed-Outcome = ground arith

  after_equip-Shape : EquipFacts → Shape i → Shape after_equip
  after_equip-Shape f v = ground (
    arith,
    held-le i.stacks k v.quantities,
    insert-Distinct k (held i k - 1) i.stacks,
    delete-Distinct k i.stacks,
    insert-Entries IsQuantity k (held i k - 1) i.stacks,
    delete-Entries IsQuantity k i.stacks,
    length-insert k (held i k - 1) i.stacks,
    length-delete k i.stacks v.stacks_distinct,
    insert-Distinct slot k i.equipped,
    insert-Entries IsWorn slot k i.equipped,
  )

  after_equip-Loads : (u : Text → ℕ) → Shape i → EquipFacts → Loads u i → Loads u after_equip
  after_equip-Loads u v f l = ground (
    arith,
    bare_slot i slot v,
    stack_load-take u k i.stacks (held i k - 1) 1 v.stacks_distinct,
    total-insert (λ _ x. u x) slot k i.equipped,
  )

  after_equip-exclusive :
      Shape i
      → EquipFacts
      → Unique i
      → (s : EquipmentSlot)
      → (lookup s after_equip.equipped ≡ none) ⊎ (lookup s after_equip.equipped_instances ≡ none)
  after_equip-exclusive v f q s =
      ground (arith, bare_instance i slot v, lookup-insert slot s k i.equipped, q.exclusive s)

  pub equip_trimmed-IsValid : IsValid i → IsValid (equip_trimmed i slot k).0
  equip_trimmed-IsValid v =
      Outcome-keeps IsValid i (equip_trimmed i slot k).0 (equip_trimmed i slot k).1 after_equip
        equip_trimmed-Outcome v
        λ f. record {
          shape = after_equip-Shape f v.shape;
          loads = after_equip-Loads (unit i) v.shape f v.loads;
          unique = record {
            exclusive = after_equip-exclusive v.shape f v.unique;
            once = v.unique.once;
          };
        }

module _ (i : Inventory) (slot : EquipmentSlot) where
  abbrev worn_name : Text
  worn_name = equipped_at i slot

  abbrev pub after_unequip : Inventory
  after_unequip = record i {
    stacks = insert worn_name (add_u32 (held i worn_name) 1) i.stacks;
    equipped = delete slot i.equipped;
    revision = add_u64 i.revision 1;
    equipment_revision = add_u64 i.equipment_revision 1;
  }

  abbrev pub UnequipFacts : Type 0
  UnequipFacts =
      IsWorn slot worn_name
      × (lookup worn_name i.stacks ≡ none → length i.stacks + length i.instances < i.max_stacks)
      × (held i worn_name ≢ max_u32)

  pub unequip-Outcome : Outcome i (unequip i slot).0 (unequip i slot).2 after_unequip UnequipFacts
  unfolding unequip
  unequip-Outcome = ground arith

  after_unequip-Shape : UnequipFacts → Shape i → Shape after_unequip
  after_unequip-Shape f v = ground (
    arith,
    held-le i.stacks worn_name v.quantities,
    insert-Distinct worn_name (add_u32 (held i worn_name) 1) i.stacks,
    insert-Entries IsQuantity worn_name (add_u32 (held i worn_name) 1) i.stacks,
    length-insert worn_name (add_u32 (held i worn_name) 1) i.stacks,
    delete-Distinct slot i.equipped,
    delete-Entries IsWorn slot i.equipped,
  )

  after_unequip-Loads : (u : Text → ℕ) → Shape i → UnequipFacts → Loads u i → Loads u after_unequip
  after_unequip-Loads u v f l = ground (
    arith,
    held-le i.stacks worn_name v.quantities,
    stack_load-add u worn_name i.stacks (add_u32 (held i worn_name) 1) 1,
    total-delete (λ _ x. u x) slot i.equipped v.equipped_distinct,
  )

  after_unequip-exclusive :
      Unique i
      → (s : EquipmentSlot)
      → (lookup s after_unequip.equipped ≡ none)
        ⊎ (lookup s after_unequip.equipped_instances ≡ none)
  after_unequip-exclusive q s = ground (arith, lookup-delete slot s i.equipped, q.exclusive s)

  pub unequip-IsValid : IsValid i → IsValid (unequip i slot).0
  unequip-IsValid v =
      Outcome-keeps IsValid i (unequip i slot).0 (unequip i slot).2 after_unequip unequip-Outcome v
        λ f. record {
          shape = after_unequip-Shape f v.shape;
          loads = after_unequip-Loads (unit i) v.shape f v.loads;
          unique = record { exclusive = after_unequip-exclusive v.unique; once = v.unique.once };
        }
