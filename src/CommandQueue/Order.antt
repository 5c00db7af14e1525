-- ===== src/CommandQueue/Order.antt =====
-- Commands leave the queue once, in the order in which they entered it, and none passes a fence.
use astrahold_server.Common.{
  ℕ, zero, suc, ◌≤◌, ◌<◌, ◌⊎◌, is_some, ◌≡◌, refl, inl, inr, Bool, true, false, Option, none, some,
  List, [], ◌∷◌, ◌++◌, leb, ℤ, pos, negsuc, length, arith, Bool-cases, append-nil, append_assoc,
  length-append, ap, sym, ◌∙◌,
}
use astrahold_server.CommandQueue.{
  Item, work, fence, Queue, Batch, new_queue, try_push, drain_items, drain,
}

module _ {ℓ} (C : Type ℓ) where
  pub data Call : Type ℓ where
    push_call : Item C → Call
    drain_call : ℤ → Call

  -- The queue, what was pushed and accepted, and the batches that were drained,
  -- each with its maximum.
  pub record Trail : Type ℓ where
    pub queue : Queue C
    pub pushed : List (Item C)
    pub batches : List (ℤ × Batch C)

module _ {ℓ} {C : Type ℓ} where
  abbrev pub ended_by : Option ℕ → List (Item C)
  ended_by none = []
  ended_by (some f) = fence f ∷ []

  unfoldable pub works : List C → List (Item C)
  works [] = []
  works (c ∷ cs) = work c ∷ works cs

  -- What a batch took from the channel: its commands, and the fence that ended it.
  unfoldable pub taken : Batch C → List (Item C)
  unfolding works
  taken b = works b.out ++ ended_by b.reached

  abbrev accepted : Bool → Item C → List (Item C)
  accepted true i = i ∷ []
  accepted false i = []

  unfoldable pub step : Trail C → Call C → Trail C
  step t (push_call i) =
      let r = try_push t.queue i in record t { queue = r.0; pushed = t.pushed ++ accepted r.1 i }
  step t (drain_call max) =
      let r = drain t.queue max in
      record t { queue = r.0; batches = t.batches ++ ((max, r.1) ∷ []) }

  unfoldable pub run : Trail C → List (Call C) → Trail C
  run t [] = t
  run t (c ∷ cs) = run (step t c) cs

  unfoldable pub all_taken : List (ℤ × Batch C) → List (Item C)
  all_taken [] = []
  all_taken ((_, b) ∷ bs) = taken b ++ all_taken bs

  -- No more commands than the maximum, and fewer only where a fence ended the batch or the channel
  -- was empty; and none at all where the maximum is negative.
  abbrev pub IsWithin : ℤ → Batch C → Type 0
  IsWithin (pos max) b =
      (length b.out ≤ max) × (length b.out < max → (length b.left ≡ 0) ⊎ (is_some b.reached ≡ true))
  IsWithin (negsuc _) b = length b.out ≡ 0

  abbrev pub AreWithin : List (ℤ × Batch C) → Type 0
  AreWithin [] = Unit
  AreWithin ((max, b) ∷ bs) = IsWithin max b × AreWithin bs

  -- What was pushed is what the batches took, one after another, and what is still queued; and no
  -- batch holds more than its maximum, or fewer without a reason.
  pub record IsOrdered (t : Trail C) : Type ℓ where
    pub split : t.pushed ≡ all_taken t.batches ++ t.queue.items
    pub bounded : length t.queue.items ≤ t.queue.capacity
    pub within : AreWithin t.batches

  drain_items-split :
      (room : ℕ) (items : List (Item C))
      → items ≡ taken (drain_items room items) ++ (drain_items room items).left
  unfolding drain_items works taken
  drain_items-split zero items = refl
  drain_items-split (suc room) [] = refl
  drain_items-split (suc room) (fence f ∷ items) = refl
  drain_items-split (suc room) (work c ∷ items) =
      ap (λ xs. work c ∷ xs) (drain_items-split room items)

  all_taken-append :
      (bs : List (ℤ × Batch C)) (max : ℤ) (b : Batch C)
      → all_taken (bs ++ ((max, b) ∷ [])) ≡ all_taken bs ++ taken b
  unfolding all_taken
  all_taken-append [] max b = append-nil (taken b)
  all_taken-append ((_, a) ∷ bs) max b =
      rw (all_taken-append bs max b) (sym (append_assoc (taken a) (all_taken bs) (taken b)))

  append-AreWithin :
      (bs : List (ℤ × Batch C)) (max : ℤ) (b : Batch C)
      → AreWithin bs
      → IsWithin max b
      → AreWithin (bs ++ ((max, b) ∷ []))
  append-AreWithin [] max b h w = (w, tt)
  append-AreWithin (a ∷ bs) max b h w = (h.0, append-AreWithin bs max b h.1 w)

  drain_items-left :
      (room : ℕ) (items : List (Item C)) → length (drain_items room items).left ≤ length items
  unfolding drain_items
  drain_items-left zero items = omega arith
  drain_items-left (suc room) [] = omega arith
  drain_items-left (suc room) (fence f ∷ items) = omega arith
  drain_items-left (suc room) (work c ∷ items) = ground (arith, drain_items-left room items)

  -- A batch holds no more commands than its limit.
  pub drain_items-bounds :
      (room : ℕ) (items : List (Item C)) → length (drain_items room items).out ≤ room
  unfolding drain_items
  drain_items-bounds zero items = omega arith
  drain_items-bounds (suc room) [] = omega arith
  drain_items-bounds (suc room) (fence f ∷ items) = omega arith
  drain_items-bounds (suc room) (work c ∷ items) = ground (arith, drain_items-bounds room items)

  drain_items-fills :
      (room : ℕ) (items : List (Item C))
      → length (drain_items room items).out < room
      → (length (drain_items room items).left ≡ 0)
        ⊎ (is_some (drain_items room items).reached ≡ true)
  unfolding drain_items
  drain_items-fills zero items h = ground (arith, h)
  drain_items-fills (suc room) [] h = inl refl
  drain_items-fills (suc room) (fence f ∷ items) h = inr refl
  drain_items-fills (suc room) (work c ∷ items) h = drain_items-fills room items (omega (arith, h))

  push-IsOrdered : (t : Trail C) (i : Item C) → IsOrdered t → IsOrdered (step t (push_call i))
  unfolding step try_push
  push-IsOrdered t i o = elim (Bool-cases (leb t.queue.capacity (length t.queue.items))) [
    | inl full ↦
        rw (full)
          (record { split = append-nil t.pushed ∙ o.split; bounded = o.bounded; within = o.within })
    | inr room ↦ rw (room) (record {
      split = rw (o.split) (append_assoc (all_taken t.batches) t.queue.items (i ∷ []));
      bounded = ground (arith, length-append t.queue.items (i ∷ []), room);
      within = o.within;
    })
  ]

  drain_max-IsOrdered :
      (t : Trail C) (max : ℕ) → IsOrdered t → IsOrdered (step t (drain_call (pos max)))
  unfolding step drain
  drain_max-IsOrdered t max o =
      let b = drain_items max t.queue.items in
      record {
        split =
            o.split
            ∙ (ap (λ xs. all_taken t.batches ++ xs) (drain_items-split max t.queue.items)
                ∙ (sym (append_assoc (all_taken t.batches) (taken b) b.left)
                    ∙ ap (λ xs. xs ++ b.left) (sym (all_taken-append t.batches (pos max) b))));
        bounded = ground (arith, drain_items-left max t.queue.items, o.bounded);
        within =
            append-AreWithin t.batches (pos max) b o.within
              (drain_items-bounds max t.queue.items, drain_items-fills max t.queue.items);
      }

  step-IsOrdered : (t : Trail C) (c : Call C) → IsOrdered t → IsOrdered (step t c)
  unfolding step drain taken works
  step-IsOrdered t (push_call i) o = push-IsOrdered t i o
  step-IsOrdered t (drain_call (pos max)) o = drain_max-IsOrdered t max o
  step-IsOrdered t (drain_call (negsuc n)) o = record {
    split =
        o.split
        ∙ ap (λ xs. xs ++ t.queue.items)
            (sym (all_taken-append t.batches (negsuc n) _ ∙ append-nil (all_taken t.batches)));
    bounded = o.bounded;
    within = append-AreWithin t.batches (negsuc n) _ o.within (omega arith);
  }

  pub run-IsOrdered : (t : Trail C) (cs : List (Call C)) → IsOrdered t → IsOrdered (run t cs)
  unfolding run
  run-IsOrdered t [] o = o
  run-IsOrdered t (c ∷ cs) o = run-IsOrdered (step t c) cs (step-IsOrdered t c o)

  abbrev pub begun : Queue C → Trail C
  begun q = record { queue = q; pushed = []; batches = [] }

  begun-IsOrdered : (capacity : ℤ) (q : Queue C) → new_queue capacity ≡ some q → IsOrdered (begun q)
  unfolding new_queue all_taken
  begun-IsOrdered (pos n) q e = record {
    split = ground (arith, e);
    bounded = ground (arith, e);
    within = tt;
  }
  begun-IsOrdered (negsuc n) q e = record {
    split = ground (arith, e);
    bounded = ground (arith, e);
    within = tt;
  }

  -- From a new queue, whatever is pushed and drained: what was accepted is, in order, what the
  -- batches took and what is still queued; a batch took commands, no more than its maximum, and
  -- at most one fence behind them; it took fewer only where a fence ended it or it emptied the
  -- queue; and the queue holds no more than its capacity.
  pub new_queue-IsOrdered :
      (capacity : ℤ) (q : Queue C) (cs : List (Call C))
      → new_queue capacity ≡ some q
      → IsOrdered (run (begun q) cs)
  new_queue-IsOrdered capacity q cs e = run-IsOrdered (begun q) cs (begun-IsOrdered capacity q e)
