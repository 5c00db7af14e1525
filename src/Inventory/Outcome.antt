-- ===== src/Inventory/Outcome.antt =====
-- A method of the inventory refuses and changes nothing, or succeeds with a known state.
use astrahold_server.Common.{◌≡◌, ◌⊎◌, inl, inr, subst, sym, Option, none, is_some, true}
use astrahold_server.Inventory.{Inventory, Error}

-- What a call on `i` returned: the inventory `r` and the error; `j` is the state of a success,
-- which comes with `Facts`.
abbrev pub Outcome : Inventory → Inventory → Option Error → Inventory → Type 0 → Type 0
Outcome i r error j Facts = ((r ≡ i) × (is_some error ≡ true)) ⊎ ((r ≡ j) × (error ≡ none) × Facts)

pub Outcome-keeps :
    (P : Inventory → Type 0) (i r : Inventory) (error : Option Error) (j : Inventory) {F : Type 0}
    → Outcome i r error j F
    → P i
    → (F → P j)
    → P r
Outcome-keeps P i r error j (inl (same, _)) before after = subst P (sym same) before
Outcome-keeps P i r error j (inr (new, _, facts)) before after = subst P (sym new) (after facts)

pub Outcome-facts :
    (i r : Inventory) (error : Option Error) (j : Inventory) (F : Type 0)
    → Outcome i r error j F
    → error ≡ none
    → (r ≡ j) × F
Outcome-facts i r error j F (inl (_, failed)) e = cc
Outcome-facts i r error j F (inr (new, _, facts)) e = (new, facts)
