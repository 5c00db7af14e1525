-- ===== src/Inventory/StackMoves.antt =====
-- Add and Remove keep an inventory well formed.
use astrahold_server.Common.{
  ℕ, ◌+◌, ◌-◌, ◌*◌, ◌≤◌, ◌<◌, ◌≡◌, none, false, Text, arith, Distinct, lookup, insert, length,
  insert-Distinct, insert-Entries, length-insert, text_key, add_u32, add_u64, max_u32, is_empty,
}
use astrahold_server.Inventory.{
  Inventory, add_trimmed, remove_trimmed, put_remaining, weight_for, lighter,
}
use astrahold_server.Inventory.Outcome.{Outcome, Outcome-keeps}
use astrahold_server.Inventory.Valid.{IsValid, Shape, Loads, IsQuantity}
use astrahold_server.Inventory.Load.{
  unit, weight_for-unit, weight_for-unlimited, stack_load-add, stack_load-take,
}
use astrahold_server.Inventory.Slot.{slot_key}
use astrahold_server.Inventory.Stacks.{
  held, held-le, put_remaining-Distinct, put_remaining-quantities, length-put_remaining,
}

module _ (i : Inventory) (k : Text) (q : ℕ) where
  -- The state that a successful Add leaves.
  abbrev pub after_add : Inventory
  after_add = record i {
    stacks = insert k (add_u32 (held i k) q) i.stacks;
    current_weight = add_u64 i.current_weight (weight_for i k q);
    revision = add_u64 i.revision 1;
  }

  abbrev pub AddFacts : Type 0
  AddFacts =
      (is_empty k ≡ false)
      × (0 < q)
      × (held i k + q ≤ max_u32)
      × (lookup k i.stacks ≡ none → length i.stacks + length i.instances < i.max_stacks)
      × (0 < i.max_weight → i.current_weight + weight_for i k q ≤ i.max_weight)

  -- The facts are enough for success, too.
  pub add_trimmed_succeeds : AddFacts → add_trimmed i k q ≡ (after_add, none)
  unfolding add_trimmed
  add_trimmed_succeeds f = ground arith

  pub add_trimmed-Outcome : Outcome i (add_trimmed i k q).0 (add_trimmed i k q).1 after_add AddFacts
  unfolding add_trimmed
  add_trimmed-Outcome = ground arith

  after_add-Shape : AddFacts → Shape i → Shape after_add
  after_add-Shape f v = ground (
    arith,
    insert-Distinct k (add_u32 (held i k) q) i.stacks,
    insert-Entries IsQuantity k (add_u32 (held i k) q) i.stacks,
    length-insert k (add_u32 (held i k) q) i.stacks,
  )

  after_add-Loads :
      (u : Text → ℕ) → weight_for i k q ≡ u k * q → AddFacts → Loads u i → Loads u after_add
  after_add-Loads u w f v =
      ground
        (arith, weight_for-unlimited i k q, stack_load-add u k i.stacks (add_u32 (held i k) q) q)

  pub add_trimmed-IsValid : IsValid i → IsValid (add_trimmed i k q).0
  add_trimmed-IsValid v =
      Outcome-keeps IsValid i (add_trimmed i k q).0 (add_trimmed i k q).1 after_add
        add_trimmed-Outcome v
        λ f. record {
          shape = after_add-Shape f v.shape;
          loads =
              after_add-Loads (unit i) (weight_for-unit i k q v.loads.units (omega arith)) f
                v.loads;
          unique = record { exclusive = v.unique.exclusive; once = v.unique.once };
        }

module _ (i : Inventory) (k : Text) (q : ℕ) where
  abbrev pub after_remove : Inventory
  after_remove = record i {
    stacks = put_remaining k (held i k - q) i.stacks;
    current_weight = lighter i.current_weight (weight_for i k q);
    revision = add_u64 i.revision 1;
  }

  abbrev pub RemoveFacts : Type 0
  RemoveFacts = (is_empty k ≡ false) × (0 < q) × (q ≤ held i k)

  pub remove_trimmed_succeeds : RemoveFacts → remove_trimmed i k q ≡ (after_remove, none)
  unfolding remove_trimmed
  remove_trimmed_succeeds f = ground arith

  pub remove_trimmed-Outcome :
      Outcome i (remove_trimmed i k q).0 (remove_trimmed i k q).1 after_remove RemoveFacts
  unfolding remove_trimmed
  remove_trimmed-Outcome = ground arith

  after_remove-Shape : RemoveFacts → Shape i → Shape after_remove
  after_remove-Shape f v = ground (
    arith,
    held-le i.stacks k v.quantities,
    put_remaining-Distinct k (held i k - q) i.stacks,
    put_remaining-quantities k (held i k - q) i.stacks,
    length-put_remaining k (held i k - q) i.stacks,
  )

  after_remove-Loads :
      (u : Text → ℕ)
      → weight_for i k q ≡ u k * q
      → Distinct i.stacks
      → RemoveFacts
      → Loads u i
      → Loads u after_remove
  after_remove-Loads u w d f v = ground (arith, stack_load-take u k i.stacks (held i k - q) q d)

  pub remove_trimmed-IsValid : IsValid i → IsValid (remove_trimmed i k q).0
  remove_trimmed-IsValid v =
      Outcome-keeps IsValid i (remove_trimmed i k q).0 (remove_trimmed i k q).1 after_remove
        remove_trimmed-Outcome v
        λ f.
          let fits : q ≤ max_u32 = omega (arith, held-le i.stacks k v.shape.quantities) in
          record {
            shape = after_remove-Shape f v.shape;
            loads =
                after_remove-Loads (unit i) (weight_for-unit i k q v.loads.units fits)
                  v.shape.stacks_distinct f v.loads;
            unique = record { exclusive = v.unique.exclusive; once = v.unique.once };
          }
