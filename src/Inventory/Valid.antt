-- ===== src/Inventory/Valid.antt =====
-- When an inventory is well formed.
use astrahold_server.Common.{
  ℕ, ◌+◌, ◌≤◌, ◌<◌, ◌≡◌, ◌⊎◌, true, false, none, Text, ◌=?◌, is_empty, length, lookup, total,
  value_at, Distinct, Entries, max_u32, max_u64, text_key, if◌then◌else◌,
}
use astrahold_server.Inventory.{Inventory, Instance}
use astrahold_server.Inventory.Slot.{EquipmentSlot, valid_equipment_slot, slot_key}
use astrahold_server.Inventory.Load.{UnitsBounded, unit, stack_load, item_load}

-- All that a character carries, the worn items included, by the unit weights `u`.
abbrev pub load : (Text → ℕ) → Inventory → ℕ
load u i =
    stack_load u i.stacks
    + item_load u (λ x. x.item_archetype_id) i.instances
    + item_load u (λ k. k) i.equipped
    + item_load u (λ x. x.item_archetype_id) i.equipped_instances

abbrev pub named : Text → EquipmentSlot → Instance → ℕ
named id _ x = if x.id =? id then 1 else 0

-- In how many places an instance of this ID is.
abbrev pub copies : Text → Inventory → ℕ
copies id i = value_at (λ _ _. 1) id (lookup id i.instances) + total (named id) i.equipped_instances

abbrev pub IsQuantity : Text → ℕ → Type 0
IsQuantity _ q = (0 < q) × (q ≤ max_u32)

abbrev pub IsStored : Text → Instance → Type 0
IsStored id x = (x.id ≡ id) × (is_empty x.id ≡ false)

abbrev pub IsWorn : EquipmentSlot → Text → Type 0
IsWorn slot k = (valid_equipment_slot slot ≡ true) × (is_empty k ≡ false)

abbrev pub IsWornInstance : EquipmentSlot → Instance → Type 0
IsWornInstance slot x = IsWorn slot x.id

-- Map entries: distinct keys, quantities that are positive uint32 values, no more unequipped
-- entries than there is room for, and no entry that reads as an absent one.
pub record Shape (i : Inventory) : Type 0 where
  pub stacks_distinct : Distinct i.stacks
  pub instances_distinct : Distinct i.instances
  pub equipped_distinct : Distinct i.equipped
  pub worn_distinct : Distinct i.equipped_instances
  pub quantities : Entries IsQuantity i.stacks
  pub room : length i.stacks + length i.instances ≤ i.max_stacks
  pub stored : Entries IsStored i.instances
  pub names : Entries IsWorn i.equipped
  pub worn : Entries IsWornInstance i.equipped_instances

-- The carry weight is the load by the unit weights `u`, and within the limit where there is one.
pub record Loads (u : Text → ℕ) (i : Inventory) : Type 0 where
  pub units : UnitsBounded i
  pub limit_fits : i.max_weight ≤ max_u64
  pub exact : i.current_weight ≡ load u i
  pub fits : i.current_weight ≤ max_u64
  pub within : 0 < i.max_weight → i.current_weight ≤ i.max_weight

-- A slot wears an archetype or an instance, not both, and no instance is in two places.
pub record Unique (i : Inventory) : Type 0 where
  pub exclusive :
      (s : EquipmentSlot) → (lookup s i.equipped ≡ none) ⊎ (lookup s i.equipped_instances ≡ none)
  pub once : (id : Text) → copies id i ≤ 1

pub record IsValid (i : Inventory) : Type 0 where
  pub shape : Shape i
  pub loads : Loads (unit i) i
  pub unique : Unique i
