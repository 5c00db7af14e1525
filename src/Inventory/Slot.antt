-- ===== src/Inventory/Slot.antt =====
-- Equipment locations (internal/inventory/slot.go).
use astrahold_server.Common.{Bool, true, false, List, [], ◌∷◌, Text, Key, ℕ_discrete}

-- The string type EquipmentSlot: its seven constants, and every string that is none of them.
pub data EquipmentSlot : Type 0 where
  main_hand off_hand helmet chest gloves legs boots : EquipmentSlot
  other : Text → EquipmentSlot

unfoldable pub EquipmentSlot-discrete : Discrete EquipmentSlot
EquipmentSlot-discrete = hlevel ℕ_discrete

instance abbrev pub slot_key : Key EquipmentSlot
slot_key = record { same? = EquipmentSlot-discrete }

abbrev pub equipment_slots : List EquipmentSlot
equipment_slots = main_hand ∷ off_hand ∷ helmet ∷ chest ∷ gloves ∷ legs ∷ boots ∷ []

abbrev pub valid_equipment_slot : EquipmentSlot → Bool
valid_equipment_slot (other _) = false
valid_equipment_slot _ = true
