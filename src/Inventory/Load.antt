-- ===== src/Inventory/Load.antt =====
-- What an inventory's parts weigh, in unbounded numbers, and how the map writes move it.
use astrahold_server.Common.{
  ℕ, ◌+◌, ◌*◌, ◌≤◌, ◌<◌, ◌≡◌, ap, Text, Map, get_or, lookup, insert, total, total-insert,
  total-delete, Distinct, Entries, lookup-Entries, max_u32, u64_mod, if◌then◌else◌, ◌==◌, text_key,
  arith,
}
use astrahold_server.Inventory.{Inventory, put_remaining, unit_weight_of, weight_for}
use astrahold_server.Inventory.Slot.{slot_key}

abbrev pub stack_load : (Text → ℕ) → Map Text ℕ → ℕ
stack_load u = total (λ k q. u k * q)

module _ (u : Text → ℕ) (k : Text) (m : Map Text ℕ) where
  pub stack_load-insert :
      (q : ℕ) → stack_load u (insert k q m) + u k * get_or 0 (lookup k m) ≡ stack_load u m + u k * q
  stack_load-insert q = ground (arith, total-insert (λ k q. u k * q) k q m)

  pub stack_load-put_remaining :
      (q : ℕ)
      → Distinct m
      → stack_load u (put_remaining k q m) + u k * get_or 0 (lookup k m) ≡ stack_load u m + u k * q
  stack_load-put_remaining q d =
      ground (arith, total-insert (λ k q. u k * q) k q m, total-delete (λ k q. u k * q) k m d)

module _ (u : Text → ℕ) (k : Text) (m : Map Text ℕ) (r q : ℕ) where
  -- Raising a stack by `q` adds the weight of `q` units.
  pub stack_load-add :
      r ≡ get_or 0 (lookup k m) + q → stack_load u (insert k r m) ≡ stack_load u m + u k * q
  stack_load-add e = rw e (omega (arith, stack_load-insert u k m (get_or 0 (lookup k m) + q)))

  -- Taking `q` units from a stack takes their weight away.
  pub stack_load-take :
      Distinct m
      → get_or 0 (lookup k m) ≡ r + q
      → stack_load u (put_remaining k r m) + u k * q ≡ stack_load u m
  stack_load-take d e =
      let p = stack_load-put_remaining u k m r d in
      let f : u k * get_or 0 (lookup k m) ≡ u k * (r + q) = ap (λ (n : ℕ). u k * n) e in omega arith

-- A stack from which `q` units go and to which `a` come, of which `x` stay.
pub stack_load-swap :
    (u : Text → ℕ) (k : Text) (m : Map Text ℕ) (x q a : ℕ)
    → get_or 0 (lookup k m) ≡ x + q
    → stack_load u (insert k (x + a) m) + u k * q ≡ stack_load u m + u k * a
stack_load-swap u k m x q a e =
    let p = stack_load-insert u k m (x + a) in
    let f : u k * get_or 0 (lookup k m) ≡ u k * (x + q) = ap (λ (n : ℕ). u k * n) e in omega arith

-- One unit of each entry, by an archetype that the entry names.
abbrev pub item_load : {A B : Type 0} → (Text → ℕ) → (B → Text) → Map A B → ℕ
item_load u name = total (λ _ x. u (name x))

-- The weight of one unit under the carry policy; without a limit nothing is weighed.
abbrev pub unit : Inventory → Text → ℕ
unit i k = if i.max_weight == 0 then 0 else unit_weight_of i k

product-lt : (a b : ℕ) → a ≤ max_u32 → b ≤ max_u32 → a * b < u64_mod
product-lt a b ha hb = let h : a * b ≤ max_u32 * max_u32 = grind arith in omega arith

abbrev pub UnitsBounded : Inventory → Type 0
UnitsBounded i = (i.default_unit_weight ≤ max_u32) × Entries (λ _ w. w ≤ max_u32) i.unit_weights

-- weightFor never wraps: it is the product of the unit weight and the quantity.
pub weight_for-unit :
    (i : Inventory) (k : Text) (q : ℕ)
    → UnitsBounded i
    → q ≤ max_u32
    → weight_for i k q ≡ unit i k * q
unfolding weight_for
weight_for-unit i k q b h =
    grind (arith, product-lt, lookup-Entries (λ _ w. w ≤ max_u32) k i.unit_weights)

pub weight_for-unlimited :
    (i : Inventory) (k : Text) (q : ℕ) → i.max_weight ≡ 0 → weight_for i k q ≡ 0
unfolding weight_for
weight_for-unlimited i k q h = ground arith
