-- ===== src/Broker/Subscription/Window.antt =====
-- The description of sendQueuedMessages on lists: which messages are sent, under which ids, and what is owed for them.
use sdk_dslink_c.Prelude.{
  ℕ, zero, suc, ◌+◌, ◌<◌, ◌^◌, ◌≡◌, List, [], ◌∷◌, Option, some, none, length, ltb, add32, true,
  false,
}
use sdk_dslink_c.Col.Vector.{Vector}
use sdk_dslink_c.Col.Vector.Inv
use sdk_dslink_c.Broker.Subscription.{QueuedMessage, PendingAck, Update}
use sdk_dslink_c.Broker.Subscription.Sending.{Environment, last_after}

module _ {J : Type 0} where
  -- The messages that go out: those up to the first one that was sent before, at most `room` of them.
  abbrev pub batch : ℕ → List (QueuedMessage J) → List (QueuedMessage J)
  batch zero q = []
  batch (suc room) [] = []
  batch (suc room) (m ∷ q) = elim (ltb 0 m.msg_id) [ true ↦ [] | false ↦ m ∷ batch room q ]

  -- The same messages in place, with the ids they are sent under, after a message of id `last`.
  abbrev pub stamped : ℕ → ℕ → List (QueuedMessage J) → List (QueuedMessage J)
  stamped zero last q = q
  stamped (suc room) last [] = []
  stamped (suc room) last (m ∷ q) = elim (ltb 0 m.msg_id) [
    | true ↦ m ∷ q
    | false ↦ record m { msg_id = add32 last 1 } ∷ stamped room (last_after (add32 last 1)) q
  ]

  -- What goes over the link for a batch, and what is owed for it.
  abbrev pub updates : (ℕ → J → J) → ℕ → ℕ → List (QueuedMessage J) → List (Update J)
  updates set_sid sid last [] = []
  updates set_sid sid last (m ∷ q) =
      record { msg = add32 last 1; update = set_sid sid m.message }
      ∷ updates set_sid sid (last_after (add32 last 1)) q

  abbrev pub owed : ℕ → ℕ → List (QueuedMessage J) → List PendingAck
  owed number last [] = []
  owed number last (m ∷ q) =
      record { subscription = number; msg_id = add32 last 1 }
      ∷ owed number (last_after (add32 last 1)) q

-- The vector of acknowledgements is sound, with `n` more to come.
abbrev pub Room : ℕ → Option (Vector PendingAck) → Type 0
Room n none = n < 2 ^ 30
Room n (some v) = Inv.IsValid v × (v.capacity < 2 ^ 31) × (v.size + n < 2 ^ 30)

-- What the parameters are relied on for: memory does not run out, and every update has a text.
pub record IsWorking {J : Type 0} (env : Environment J) : Type 0 where
  pub realloc_keeps : Inv.IsRealloc env.realloc
  pub realloc_given :
      (xs : Option (List PendingAck)) (n : ℕ)
      → (ys : List PendingAck) × (env.realloc xs n ≡ some ys)
  pub vec : Vector PendingAck
  pub vec_given : env.raw ≡ some vec
  pub acks : List PendingAck
  pub acks_given : env.first_block ≡ some acks
  pub acks_room : length acks ≡ 64
  pub dumps : (u : Update J) → env.json_dumps u ≡ true
