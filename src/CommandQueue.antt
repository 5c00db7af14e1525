-- ===== src/CommandQueue.antt =====
-- The queue of world commands and its step fences (internal/worldruntime/queue.go and
-- internal/worldruntime/step_fence.go).
-- The buffered channel is the list of what it holds, the oldest first; each operation of the
-- channel is one step. Commands are a parameter, and a fence is named by the channel that it closes.
pub mod Order
use astrahold_server.Common.{
  ℕ, zero, suc, ◌≡◌, Bool, true, false, Option, none, some, List, [], ◌∷◌, ◌++◌, leb, ◌==◌,
  if◌then◌else◌, ℤ, pos, negsuc, length,
}

module _ {ℓ} (C : Type ℓ) where
  pub data Item : Type ℓ where
    work : C → Item
    fence : ℕ → Item

  pub record Queue : Type ℓ where
    pub capacity : ℕ
    pub items : List Item

  -- A drained batch, the fence that ended it, and what stays in the channel.
  pub record Batch : Type ℓ where
    pub out : List C
    pub reached : Option ℕ
    pub left : List Item

module _ {ℓ} {C : Type ℓ} where
  -- newCommandQueue; none where it panics.
  unfoldable pub new_queue : ℤ → Option (Queue C)
  new_queue (negsuc _) = none
  new_queue (pos n) = if n == 0 then none else some (record { capacity = n; items = [] })

  -- tryPush: false is ErrCommandQueueFull.
  unfoldable pub try_push : Queue C → Item C → Queue C × Bool
  try_push q i =
      if leb q.capacity (length q.items)
      then (q, false)
      else (record q { items = q.items ++ (i ∷ []) }, true)

  -- The loop of drain, for so many commands more.
  unfoldable pub drain_items : ℕ → List (Item C) → Batch C
  drain_items zero items = record { out = []; reached = none; left = items }
  drain_items (suc room) [] = record { out = []; reached = none; left = [] }
  drain_items (suc room) (fence f ∷ items) = record { out = []; reached = some f; left = items }
  drain_items (suc room) (work c ∷ items) =
      let rest = drain_items room items in record rest { out = c ∷ rest.out }

  unfoldable pub drain : Queue C → ℤ → Queue C × Batch C
  unfolding drain_items
  drain q (negsuc _) = (q, record { out = []; reached = none; left = q.items })
  drain q (pos max) = let b = drain_items max q.items in (record q { items = b.left }, b)

  unfoldable pub depth : Queue C → ℕ
  depth q = length q.items

  -- EnqueueStepFence, with the channel that it makes.
  unfoldable pub enqueue_step_fence : Queue C → ℕ → Queue C × Option ℕ
  unfolding try_push
  enqueue_step_fence q f = let r = try_push q (fence f) in (r.0, if r.1 then some f else none)
