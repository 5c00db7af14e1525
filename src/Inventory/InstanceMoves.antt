-- ===== src/Inventory/InstanceMoves.antt =====
-- AddInstance, RemoveInstance, EquipInstance and UnequipInstance keep an inventory well formed.
use astrahold_server.Common.{
  ℕ, ◌+◌, ◌*◌, ◌≤◌, ◌<◌, ◌≡◌, none, some, false, inl, inr, false, Text, arith, lookup, insert,
  delete, length, insert-Distinct, delete-Distinct, insert-Entries, delete-Entries, lookup-Entries,
  length-insert, length-delete, lookup-insert, lookup-delete, text_key, add_u64, Map, value_at,
}
use astrahold_server.Inventory.{Inventory, weight_for, lighter}
use astrahold_server.Inventory.Outcome.{Outcome, Outcome-keeps}
use astrahold_server.Inventory.Valid.{IsValid, Shape, Loads, Unique}
use astrahold_server.Inventory.Load.{unit, weight_for-unit, weight_for-unlimited}
use astrahold_server.Inventory.Slot.{slot_key}
use astrahold_server.Common.{total, total-insert, total-delete, is_empty, Option-cases}
use astrahold_server.Inventory.{instance_at}
use astrahold_server.Inventory.Slot.{EquipmentSlot}
use astrahold_server.Inventory.Valid.{IsWornInstance, copies}
use astrahold_server.Common.{total-eq-zero}
use astrahold_server.Inventory.{Instance}
use astrahold_server.Inventory.Instances.{
  equipped_in, instance_equipped, add_instance, remove_instance_trimmed,
}
use astrahold_server.Inventory.Slot.{main_hand, other}
use astrahold_server.Inventory.Valid.{IsStored, named}

module _ (i : Inventory) (id : Text) (v : Shape i) (free : instance_equipped i id ≡ false) where
  unnamed_slot : (s : EquipmentSlot) → value_at (named id) s (lookup s i.equipped_instances) ≡ 0
  unfolding instance_equipped equipped_in
  unnamed_slot main_hand = ground arith
  unnamed_slot (other t) = ground (
    arith,
    lookup-Entries IsWornInstance (other t) i.equipped_instances (instance_at i (other t)) v.worn,
  )
  unnamed_slot s = ground arith

  -- The scan of the seven slots finds every worn instance.
  pub unworn : total (named id) i.equipped_instances ≡ 0
  unworn = total-eq-zero (named id) i.equipped_instances v.worn_distinct unnamed_slot

abbrev archetype : Instance → Text
archetype x = x.item_archetype_id

module _ (i : Inventory) (x : Instance) where
  abbrev pub after_add_instance : Inventory
  after_add_instance = record i {
    instances = insert x.id x i.instances;
    current_weight = add_u64 i.current_weight (weight_for i (archetype x) 1);
    revision = add_u64 i.revision 1;
  }

  abbrev pub AddInstanceFacts : Type 0
  AddInstanceFacts =
      (is_empty x.id ≡ false)
      × (lookup x.id i.instances ≡ none)
      × (instance_equipped i x.id ≡ false)
      × (length i.stacks + length i.instances < i.max_stacks)
      × (0 < i.max_weight → i.current_weight + weight_for i (archetype x) 1 ≤ i.max_weight)

  pub add_instance-Outcome :
      Outcome i (add_instance i x).0 (add_instance i x).1 after_add_instance AddInstanceFacts
  unfolding add_instance
  add_instance-Outcome = ground arith

  after_add_instance-Shape : AddInstanceFacts → Shape i → Shape after_add_instance
  after_add_instance-Shape f v = ground (
    arith,
    insert-Distinct x.id x i.instances,
    insert-Entries IsStored x.id x i.instances,
    length-insert x.id x i.instances,
  )

  after_add_instance-Loads :
      (u : Text → ℕ)
      → weight_for i (archetype x) 1 ≡ u (archetype x) * 1
      → AddInstanceFacts
      → Loads u i
      → Loads u after_add_instance
  after_add_instance-Loads u w f l = ground (
    arith,
    weight_for-unlimited i (archetype x) 1,
    total-insert (λ _ y. u y.item_archetype_id) x.id x i.instances,
  )

  after_add_instance-once :
      AddInstanceFacts → Shape i → Unique i → (id : Text) → copies id after_add_instance ≤ 1
  after_add_instance-once f v q id =
      ground (arith, lookup-insert x.id id x i.instances, q.once id, unworn i x.id v)

  pub add_instance-IsValid : IsValid i → IsValid (add_instance i x).0
  add_instance-IsValid v =
      Outcome-keeps IsValid i (add_instance i x).0 (add_instance i x).1 after_add_instance
        add_instance-Outcome v
        λ f. record {
          shape = after_add_instance-Shape f v.shape;
          loads =
              after_add_instance-Loads (unit i)
                (weight_for-unit i (archetype x) 1 v.loads.units (omega arith)) f v.loads;
          unique = record {
            exclusive = v.unique.exclusive;
            once = after_add_instance-once f v.shape v.unique;
          };
        }

module _ (i : Inventory) (id : Text) (x : Instance) where
  abbrev pub after_remove_instance : Inventory
  after_remove_instance = record i {
    instances = delete id i.instances;
    current_weight = lighter i.current_weight (weight_for i (archetype x) 1);
    revision = add_u64 i.revision 1;
  }

  after_remove_instance-Shape : Shape i → Shape after_remove_instance
  after_remove_instance-Shape v = ground (
    arith,
    delete-Distinct id i.instances,
    delete-Entries IsStored id i.instances,
    length-delete id i.instances v.instances_distinct,
  )

  after_remove_instance-Loads :
      (u : Text → ℕ)
      → weight_for i (archetype x) 1 ≡ u (archetype x) * 1
      → Shape i
      → lookup id i.instances ≡ some x
      → Loads u i
      → Loads u after_remove_instance
  after_remove_instance-Loads u w v f l =
      ground
        (arith, total-delete (λ _ y. u y.item_archetype_id) id i.instances v.instances_distinct)

  delete_instance-once :
      (worn : Map EquipmentSlot Instance)
      → ((j : Text) → value_at (λ _ _. 1) j (lookup j i.instances) + total (named j) worn ≤ 1)
      → (j : Text)
      → value_at (λ _ _. 1) j (lookup j (delete id i.instances)) + total (named j) worn ≤ 1
  delete_instance-once worn h j = ground (arith, lookup-delete id j i.instances, h j)

  remove_found-IsValid : lookup id i.instances ≡ some x → IsValid i → IsValid after_remove_instance
  remove_found-IsValid f v = record {
    shape = after_remove_instance-Shape v.shape;
    loads =
        after_remove_instance-Loads (unit i)
          (weight_for-unit i (archetype x) 1 v.loads.units (omega arith)) v.shape f v.loads;
    unique = record {
      exclusive = v.unique.exclusive;
      once = delete_instance-once i.equipped_instances v.unique.once;
    };
  }

pub remove_instance_trimmed-IsValid :
    (i : Inventory) (id : Text) → IsValid i → IsValid (remove_instance_trimmed i id).0
unfolding remove_instance_trimmed
remove_instance_trimmed-IsValid i id v = elim (Option-cases (lookup id i.instances)) [
  | inl missing ↦ rw (missing, remove_instance_trimmed) (ground (arith, v))
  | inr (x, f) ↦ ground (arith, remove_found-IsValid i id x f v)
]
