-- ===== src/Inventory.antt =====
-- A character's item stacks, unique item instances and equipment
-- (internal/inventory/inventory.go and internal/inventory/instance.go).
-- A method returns the new inventory and what the Go method returns; a nil error is `none`.
pub mod Slot
pub mod Equipment
pub mod Instances
mod Load
pub mod Valid
mod Outcome
mod Stacks
mod StackMoves
mod Exchanging
mod Wearing
mod InstanceMoves
mod InstanceWearing
pub mod History
pub mod Atomic
pub mod RoundTrips
pub mod Trade
use astrahold_server.Common.{
  ℕ, ◌+◌, ◌-◌, ◌*◌, ◌%◌, Bool, true, false, not, ◌&&◌, ◌||◌, Option, none, some, List, [], ◌∷◌, leb,
  ltb, ◌==◌, if◌then◌else◌, ◌=?◌, Text, is_empty, trim_space, Map, length, get_or, is_some, lookup,
  insert, delete, u64_mod, max_u32, add_u32, add_u64, ℤ, pos, negsuc, text_key,
}
use Slot.{EquipmentSlot, valid_equipment_slot, slot_key}

pub data Error : Type 0 where
  invalid_archetype invalid_quantity invalid_instance instance_exists instance_not_found : Error
  full weight_exceeded insufficient quantity_overflow : Error
  invalid_equipment_slot equipment_slot_occupied equipment_slot_empty : Error

pub record Affix : Type 0 where
  pub id : Text
  pub strength : ℕ
  pub value : ℕ

pub record Instance : Type 0 where
  pub id : Text
  pub item_archetype_id : Text
  pub affixes : List Affix

-- Go's zero value, which a missing map entry reads as.
abbrev pub no_instance : Instance
no_instance = record { id = []; item_archetype_id = []; affixes = [] }

pub record WeightPolicy : Type 0 where
  pub max_weight : ℕ
  pub default_unit_weight : ℕ
  pub unit_weights : Map Text ℕ

pub record Inventory : Type 0 where
  pub max_stacks : ℕ
  pub stacks : Map Text ℕ
  pub instances : Map Text Instance
  pub revision : ℕ
  pub max_weight : ℕ
  pub current_weight : ℕ
  pub default_unit_weight : ℕ
  pub unit_weights : Map Text ℕ
  pub equipped : Map EquipmentSlot Text
  pub equipped_instances : Map EquipmentSlot Instance
  pub equipment_revision : ℕ

-- The loop of NewWithWeightPolicy over the policy's weights, in the order of iteration.
copy_weights : Map Text ℕ → Map Text ℕ → Map Text ℕ
copy_weights [] weights = weights
copy_weights ((archetype_id, weight) ∷ rest) weights =
    let key = trim_space archetype_id in
    copy_weights rest (if is_empty key || weight == 0 then weights else insert key weight weights)

abbrev non_negative : ℤ → ℕ
non_negative (pos n) = n
non_negative (negsuc n) = 0

unfoldable pub new_with_weight_policy : ℤ → WeightPolicy → Inventory
unfolding copy_weights
new_with_weight_policy max_stacks policy = record {
  max_stacks = non_negative max_stacks;
  stacks = [];
  instances = [];
  revision = 0;
  max_weight = policy.max_weight;
  current_weight = 0;
  default_unit_weight = if policy.default_unit_weight == 0 then 1 else policy.default_unit_weight;
  unit_weights = copy_weights policy.unit_weights [];
  equipped = [];
  equipped_instances = [];
  equipment_revision = 0;
}

unfoldable pub new : ℤ → Inventory
unfolding new_with_weight_policy
new max_stacks =
    new_with_weight_policy max_stacks
      (record { max_weight = 0; default_unit_weight = 0; unit_weights = [] })

unfoldable pub quantity : Inventory → Text → ℕ
quantity i archetype_id = get_or 0 (lookup archetype_id i.stacks)

abbrev pub equipped_at : Inventory → EquipmentSlot → Text
equipped_at i slot = get_or [] (lookup slot i.equipped)

abbrev pub instance_at : Inventory → EquipmentSlot → Instance
instance_at i slot = get_or no_instance (lookup slot i.equipped_instances)

unfoldable pub equipped : Inventory → EquipmentSlot → Text
equipped i slot =
    if not (valid_equipment_slot slot)
    then []
    else if not (is_empty (equipped_at i slot))
    then equipped_at i slot
    else (instance_at i slot).item_archetype_id

abbrev pub unequipped_entry_count : Inventory → ℕ
unequipped_entry_count i = length i.stacks + length i.instances

abbrev pub unit_weight_of : Inventory → Text → ℕ
unit_weight_of i archetype_id =
    let override = get_or 0 (lookup archetype_id i.unit_weights) in
    if ltb 0 override then override else i.default_unit_weight

unfoldable pub weight_for : Inventory → Text → ℕ → ℕ
weight_for i archetype_id quantity =
    if i.max_weight == 0 || quantity == 0
    then 0
    else (unit_weight_of i archetype_id * quantity) % u64_mod

-- The carry limit that Add, Exchange and AddInstance test, for a load to which a weight is added.
abbrev pub too_heavy : Inventory → ℕ → ℕ → Bool
too_heavy i load added =
    ltb 0 i.max_weight && (ltb i.max_weight added || ltb (i.max_weight - added) load)

abbrev pub lighter : ℕ → ℕ → ℕ
lighter current removed = if leb current removed then 0 else current - removed

-- `delete` at zero, a write otherwise.
abbrev pub put_remaining : Text → ℕ → Map Text ℕ → Map Text ℕ
put_remaining archetype_id remaining stacks =
    if remaining == 0 then delete archetype_id stacks else insert archetype_id remaining stacks

pub add_trimmed : Inventory → Text → ℕ → Inventory × Option Error
add_trimmed i k q =
    let current = get_or 0 (lookup k i.stacks) in
    let added = weight_for i k q in
    if is_empty k
    then (i, some invalid_archetype)
    else if q == 0
    then (i, some invalid_quantity)
    else if not (is_some (lookup k i.stacks)) && leb i.max_stacks (unequipped_entry_count i)
    then (i, some full)
    else if ltb max_u32 (current + q)
    then (i, some quantity_overflow)
    else if too_heavy i i.current_weight added
    then (i, some weight_exceeded)
    else (
      record i {
        stacks = insert k (add_u32 current q) i.stacks;
        current_weight = add_u64 i.current_weight added;
        revision = add_u64 i.revision 1;
      },
      none,
    )

unfoldable pub add : Inventory → Text → ℕ → Inventory × Option Error
unfolding add_trimmed
add i archetype_id quantity = add_trimmed i (trim_space archetype_id) quantity

pub remove_trimmed : Inventory → Text → ℕ → Inventory × Option Error
remove_trimmed i k q =
    let current = get_or 0 (lookup k i.stacks) in
    if is_empty k
    then (i, some invalid_archetype)
    else if q == 0
    then (i, some invalid_quantity)
    else if ltb current q
    then (i, some insufficient)
    else (
      record i {
        stacks = put_remaining k (current - q) i.stacks;
        current_weight = lighter i.current_weight (weight_for i k q);
        revision = add_u64 i.revision 1;
      },
      none,
    )

unfoldable pub remove : Inventory → Text → ℕ → Inventory × Option Error
unfolding remove_trimmed
remove i archetype_id quantity = remove_trimmed i (trim_space archetype_id) quantity

-- The tail of Exchange where both archetypes are one; `load` is the weight that results.
exchange_same : Inventory → Text → ℕ → ℕ → ℕ → Inventory × Option Error
exchange_same i r rq aq load =
    let final = (get_or 0 (lookup r i.stacks) - rq) + aq in
    if ltb max_u32 final then (i, some quantity_overflow) else (
      record i {
        stacks = insert r final i.stacks;
        current_weight = load;
        revision = add_u64 i.revision 1;
      },
      none,
    )

-- The tail of Exchange where they differ.
exchange_other : Inventory → Text → ℕ → Text → ℕ → ℕ → Inventory × Option Error
exchange_other i r rq a aq load =
    let current = get_or 0 (lookup r i.stacks) in
    let target = get_or 0 (lookup a i.stacks) in
    let entries =
      if current == rq then unequipped_entry_count i - 1 else unequipped_entry_count i in
    if ltb max_u32 (target + aq)
    then (i, some quantity_overflow)
    else if not (is_some (lookup a i.stacks)) && leb i.max_stacks entries
    then (i, some full)
    else (
      record i {
        stacks = insert a (add_u32 target aq) (put_remaining r (current - rq) i.stacks);
        current_weight = load;
        revision = add_u64 i.revision 1;
      },
      none,
    )

exchange_units : Inventory → Text → ℕ → Text → ℕ → ℕ → Inventory × Option Error
exchange_units i r rq a aq load =
    if r =? a then exchange_same i r rq aq load else exchange_other i r rq a aq load

-- The load without what an exchange removes.
abbrev pub base_load : Inventory → ℕ → ℕ
base_load i removed = if ltb removed i.current_weight then i.current_weight - removed else 0

-- Exchange once its four arguments have passed.
exchange_checked : Inventory → Text → ℕ → Text → ℕ → Inventory × Option Error
exchange_checked i r rq a aq =
    let base = base_load i (weight_for i r rq) in
    let added = weight_for i a aq in
    if ltb (get_or 0 (lookup r i.stacks)) rq
    then (i, some insufficient)
    else if too_heavy i base added
    then (i, some weight_exceeded)
    else exchange_units i r rq a aq (add_u64 base added)

pub exchange_trimmed : Inventory → Text → ℕ → Text → ℕ → Inventory × Option Error
exchange_trimmed i r rq a aq =
    if is_empty r || is_empty a
    then (i, some invalid_archetype)
    else if rq == 0 || aq == 0
    then (i, some invalid_quantity)
    else exchange_checked i r rq a aq

unfoldable pub exchange : Inventory → Text → ℕ → Text → ℕ → Inventory × Option Error
unfolding exchange_trimmed exchange_checked exchange_units exchange_same exchange_other
exchange i remove_id remove_quantity add_id add_quantity =
    exchange_trimmed i (trim_space remove_id) remove_quantity (trim_space add_id) add_quantity
