-- ===== src/Inventory/Atomic.antt =====
-- A call either fails and changes nothing, or succeeds and shows in the revisions.
use astrahold_server.Common.{
  ◌≡◌, ◌⊎◌, Bool, true, false, arith, is_some, Text, trim_space, add_u64, text_key, if◌then◌else◌,
}
use astrahold_server.Inventory.{Inventory, add, remove, exchange}
use astrahold_server.Inventory.Equipment.{equip}
use astrahold_server.Inventory.Instances.{remove_instance, remove_instance_trimmed, equip_instance}
use astrahold_server.Inventory.History.{
  Call, adds, removes, exchanges, equips, unequips, adds_instance, removes_instance,
  equips_instance, unequips_instance, step,
}
use astrahold_server.Inventory.StackMoves.{add_trimmed-Outcome, remove_trimmed-Outcome}
use astrahold_server.Inventory.Exchanging.{exchange_trimmed-Outcome}
use astrahold_server.Inventory.Wearing.{equip_trimmed-Outcome, unequip-Outcome}
use astrahold_server.Inventory.InstanceMoves.{add_instance-Outcome}
use astrahold_server.Inventory.InstanceWearing.{unequip_instance-Outcome}
use astrahold_server.Inventory.Slot.{EquipmentSlot}

abbrev pub dresses : Call → Bool
dresses (equips _ _) = true
dresses (unequips _) = true
dresses (equips_instance _ _) = true
dresses (unequips_instance _) = true
dresses _ = false

-- What a success leaves of an inventory: its limits, and both revisions as the call moves them.
abbrev pub Advances : Bool → Inventory → Inventory → Type 0
Advances worn i r =
    (r.revision ≡ add_u64 i.revision 1)
    × (r.equipment_revision
        ≡ (if worn then add_u64 i.equipment_revision 1 else i.equipment_revision))
    × (r.max_stacks ≡ i.max_stacks)
    × (r.max_weight ≡ i.max_weight)

abbrev pub Atomic : Inventory → Call → Type 0
Atomic i c =
    ((is_some (step i c).1 ≡ true) × ((step i c).0 ≡ i))
    ⊎ ((is_some (step i c).1 ≡ false) × Advances (dresses c) i (step i c).0)

remove_instance-Atomic :
    (i : Inventory) (id : Text)
    → ((is_some (remove_instance_trimmed i id).2 ≡ true) × ((remove_instance_trimmed i id).0 ≡ i))
      ⊎ ((is_some (remove_instance_trimmed i id).2 ≡ false)
          × Advances false i (remove_instance_trimmed i id).0)
unfolding remove_instance_trimmed
remove_instance-Atomic i id = ground arith

equip_instance-Atomic :
    (i : Inventory) (slot : EquipmentSlot) (id : Text)
    → ((is_some (equip_instance i slot id).1 ≡ true) × ((equip_instance i slot id).0 ≡ i))
      ⊎ ((is_some (equip_instance i slot id).1 ≡ false)
          × Advances true i (equip_instance i slot id).0)
unfolding equip_instance
equip_instance-Atomic i slot id = ground arith

-- A call that returns an error leaves the whole inventory as it was. One that returns none moves
-- the revision by one, moves the equipment revision by one exactly if it equips or unequips, and
-- keeps the limits.
pub step-Atomic : (i : Inventory) (c : Call) → Atomic i c
unfolding step add remove exchange equip remove_instance
step-Atomic i (adds k q) = ground (arith, add_trimmed-Outcome i (trim_space k) q)
step-Atomic i (removes k q) = ground (arith, remove_trimmed-Outcome i (trim_space k) q)
step-Atomic i (exchanges r rq a aq) =
    ground (arith, exchange_trimmed-Outcome i (trim_space r) rq (trim_space a) aq)
step-Atomic i (equips slot k) = ground (arith, equip_trimmed-Outcome i slot (trim_space k))
step-Atomic i (unequips slot) = ground (arith, unequip-Outcome i slot)
step-Atomic i (adds_instance x) = ground (arith, add_instance-Outcome i x)
step-Atomic i (removes_instance id) = remove_instance-Atomic i (trim_space id)
step-Atomic i (equips_instance slot id) = equip_instance-Atomic i slot id
step-Atomic i (unequips_instance slot) = ground (arith, unequip_instance-Outcome i slot)
