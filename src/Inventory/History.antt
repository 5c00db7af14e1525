-- ===== src/Inventory/History.antt =====
-- Sequences of calls on one inventory, from its construction on.
use astrahold_server.Common.{
  ℕ, ◌≤◌, refl, inl, Option, List, [], ◌∷◌, arith, Text, Map, ℤ, trim_space, Entries,
  insert-Entries, total, max_u32, max_u64, text_key, lookup,
}
use astrahold_server.Inventory.{
  Inventory, Instance, Error, WeightPolicy, copy_weights, new_with_weight_policy, add, remove,
  exchange,
}
use astrahold_server.Inventory.Slot.{EquipmentSlot, slot_key}
use astrahold_server.Inventory.Equipment.{equip, unequip}
use astrahold_server.Inventory.Instances.{
  add_instance, remove_instance, equip_instance, unequip_instance,
}
use astrahold_server.Inventory.Valid.{IsValid}
use astrahold_server.Inventory.StackMoves.{add_trimmed-IsValid, remove_trimmed-IsValid}
use astrahold_server.Inventory.Exchanging.{exchange_trimmed-IsValid}
use astrahold_server.Inventory.Wearing.{equip_trimmed-IsValid, unequip-IsValid}
use astrahold_server.Inventory.InstanceMoves.{add_instance-IsValid, remove_instance_trimmed-IsValid}
use astrahold_server.Inventory.InstanceWearing.{equip_instance-IsValid, unequip_instance-IsValid}

pub data Call : Type 0 where
  adds removes : Text → ℕ → Call
  exchanges : Text → ℕ → Text → ℕ → Call
  equips : EquipmentSlot → Text → Call
  unequips : EquipmentSlot → Call
  adds_instance : Instance → Call
  removes_instance : Text → Call
  equips_instance : EquipmentSlot → Text → Call
  unequips_instance : EquipmentSlot → Call

-- The state and the error that a call leaves.
unfoldable pub step : Inventory → Call → Inventory × Option Error
step i (adds k q) = add i k q
step i (removes k q) = remove i k q
step i (exchanges r rq a aq) = exchange i r rq a aq
step i (equips slot k) = equip i slot k
step i (unequips slot) = let r = unequip i slot in (r.0, r.2)
step i (adds_instance x) = add_instance i x
step i (removes_instance id) = let r = remove_instance i id in (r.0, r.2)
step i (equips_instance slot id) = equip_instance i slot id
step i (unequips_instance slot) = let r = unequip_instance i slot in (r.0, r.2)

unfoldable pub run : Inventory → List Call → Inventory
run i [] = i
run i (c ∷ cs) = run (step i c).0 cs

-- The quantities of a call are values of uint32.
abbrev pub IsTyped : Call → Type 0
IsTyped (adds _ q) = q ≤ max_u32
IsTyped (removes _ q) = q ≤ max_u32
IsTyped (exchanges _ rq _ aq) = (rq ≤ max_u32) × (aq ≤ max_u32)
IsTyped _ = Unit

abbrev pub AreTyped : List Call → Type 0
AreTyped [] = Unit
AreTyped (c ∷ cs) = IsTyped c × AreTyped cs

-- The weights of a policy are values of their types.
abbrev pub PolicyTyped : WeightPolicy → Type 0
PolicyTyped p =
    (p.max_weight ≤ max_u64)
    × (p.default_unit_weight ≤ max_u32)
    × Entries (λ _ w. w ≤ max_u32) p.unit_weights

-- Every call on a valid inventory, with quantities of uint32, leaves it valid, whether it succeeds
-- or fails: the room is kept, the carry weight is the sum of what is stacked and worn, and no
-- instance is in two places.
pub step-IsValid : (i : Inventory) (c : Call) → IsTyped c → IsValid i → IsValid (step i c).0
unfolding step add remove exchange equip remove_instance
step-IsValid i (adds k q) t v = add_trimmed-IsValid i (trim_space k) q v
step-IsValid i (removes k q) t v = remove_trimmed-IsValid i (trim_space k) q v
step-IsValid i (exchanges r rq a aq) t v =
    exchange_trimmed-IsValid i (trim_space r) rq (trim_space a) aq t.0 t.1 v
step-IsValid i (equips slot k) t v = equip_trimmed-IsValid i slot (trim_space k) v
step-IsValid i (unequips slot) t v = unequip-IsValid i slot v
step-IsValid i (adds_instance x) t v = add_instance-IsValid i x v
step-IsValid i (removes_instance id) t v = remove_instance_trimmed-IsValid i (trim_space id) v
step-IsValid i (equips_instance slot id) t v = equip_instance-IsValid i slot id v
step-IsValid i (unequips_instance slot) t v = unequip_instance-IsValid i slot v

copy_weights_bounded :
    (weights copied : Map Text ℕ)
    → Entries (λ _ w. w ≤ max_u32) weights
    → Entries (λ _ w. w ≤ max_u32) copied
    → Entries (λ _ w. w ≤ max_u32) (copy_weights weights copied)
unfolding copy_weights
copy_weights_bounded [] copied h c = c
copy_weights_bounded ((k, w) ∷ rest) copied h c =
    copy_weights_bounded rest _ h.1
      (ground (arith, insert-Entries (λ _ w. w ≤ max_u32) (trim_space k) w copied h.0 c))

new_with_weight_policy-IsValid :
    (n : ℤ) (p : WeightPolicy) → PolicyTyped p → IsValid (new_with_weight_policy n p)
unfolding new_with_weight_policy total lookup
new_with_weight_policy-IsValid n p t = record {
  shape = ground arith;
  loads = ground (arith, copy_weights_bounded p.unit_weights [] t.2);
  unique = record { exclusive = λ s. inl refl; once = λ id. omega arith };
}

run-IsValid : (i : Inventory) (cs : List Call) → AreTyped cs → IsValid i → IsValid (run i cs)
unfolding run
run-IsValid i [] t v = v
run-IsValid i (c ∷ cs) t v = run-IsValid (step i c).0 cs t.1 (step-IsValid i c t.0 v)

-- After any calls, with quantities of uint32, on an inventory built from a policy whose weights are
-- of their types, the inventory is valid.
pub run-new-IsValid :
    (n : ℤ) (p : WeightPolicy) (cs : List Call)
    → PolicyTyped p
    → AreTyped cs
    → IsValid (run (new_with_weight_policy n p) cs)
run-new-IsValid n p cs t ts = run-IsValid _ cs ts (new_with_weight_policy-IsValid n p t)
