-- ===== src/Broker/Subscription/Clear.antt =====
-- broker_clear_messsage_ids on the queue that a subscriber's ring buffer holds.
use sdk_dslink_c.Prelude.{
  ℕ, zero, suc, ◌<◌, ◌≤◌, ◌≡◌, refl, ap, sym, ◌∙◌, List, [], ◌∷◌, some, none, arith, set, get_or,
  get_elem?-eq-get_or, get_elem?, leb, leb→le, le→leb, if◌then◌else◌, Bool-cases, inl, inr,
}
use sdk_dslink_c.Prelude.Run.{ok}
use sdk_dslink_c.Col.Ringbuffer.{Ringbuffer, rb_at}
use sdk_dslink_c.Col.Ringbuffer.Inv.{IsValid}
use sdk_dslink_c.Col.Ringbuffer.Window.{get_elem?-window}
use sdk_dslink_c.Col.Ringbuffer.Refine.{contents, start}
use sdk_dslink_c.Col.Ringbuffer.Assign.{
  assigned, assigned-IsValid, slot, rb_at-slot, contents-assigned,
}
use sdk_dslink_c.Broker.Subscription.{
  QueuedMessage, SubRequester, assign_id, clear_ids, broker_clear_messsage_ids,
}

module _ {J : Type 0} where
  abbrev pub without_id : QueuedMessage J → QueuedMessage J
  without_id m = record m { msg_id = 0 }

  -- The first `n` messages without their ids.
  abbrev pub cleared : ℕ → List (QueuedMessage J) → List (QueuedMessage J)
  cleared zero q = q
  cleared (suc n) [] = []
  cleared (suc n) (m ∷ q) = without_id m ∷ cleared n q

  cleared-set :
      (n : ℕ) (q : List (QueuedMessage J)) (m : QueuedMessage J)
      → get_elem? q n ≡ some m
      → cleared n (set q n (without_id m)) ≡ cleared (suc n) q
  cleared-set zero [] m h = refl
  cleared-set zero (x ∷ q) m h = ap (λ o. elim o [ none ↦ [] | some y ↦ without_id y ∷ q ]) (sym h)
  cleared-set (suc n) [] m h = refl
  cleared-set (suc n) (x ∷ q) m h = ap (λ r. without_id x ∷ r) (cleared-set n q m h)

module _ {J : Type 0} (d : QueuedMessage J) where
  abbrev pub at : Ringbuffer (QueuedMessage J) → ℕ → QueuedMessage J
  at rb k = get_or rb.data_block (slot d rb k) d

  abbrev pub assigned_id : ℕ → Ringbuffer (QueuedMessage J) → ℕ → Ringbuffer (QueuedMessage J)
  assigned_id id rb k = assigned d rb (slot d rb k) (record (at rb k) { msg_id = id })

  pub assign_id_lem :
      (id : ℕ) {rb : Ringbuffer (QueuedMessage J)} (k : ℕ)
      → IsValid rb
      → k < rb.count
      → assign_id (slot d rb k) id (some rb) ≡ ok (some (assigned_id id rb k))
  assign_id_lem id {rb} k v h = ground (arith, get_elem?-eq-get_or rb.data_block (slot d rb k) d)

  step :
      (n : ℕ) {rb : Ringbuffer (QueuedMessage J)}
      → IsValid rb
      → n < rb.count
      → clear_ids (suc n) (some rb) ≡ clear_ids n (some (assigned_id 0 rb n))
  unfolding clear_ids
  step n v h = rw (clear_ids, rb_at-slot d n v h, assign_id_lem 0 n v h) refl

  clear_ids-clears :
      (n : ℕ) {rb : Ringbuffer (QueuedMessage J)}
      → IsValid rb
      → n ≤ rb.count
      → (rb' : Ringbuffer (QueuedMessage J)) × (clear_ids n (some rb) ≡ ok (some rb'))
        × IsValid rb'
        × (contents d rb' ≡ cleared n (contents d rb))
  unfolding clear_ids
  clear_ids-clears zero {rb} v h = (rb, refl, v, refl)
  clear_ids-clears (suc n) {rb} v h =
      let (rb', run, v', out) =
        clear_ids-clears n (assigned-IsValid d (slot d rb n) (without_id (at rb n)) v)
          (omega arith) in
      (
        rb',
        step n v (omega arith) ∙ run,
        v',
        out
            ∙ ap (cleared n) (contents-assigned d n (without_id (at rb n)) v (omega arith))
            ∙ cleared-set n (contents d rb) (at rb n) (
                get_elem?-window d rb.data_block rb.size (start d rb) rb.count n (ground arith)
                  (omega (arith, v.count_in)) (omega arith)),
      )

  -- The ids that are taken away: those of the messages counted as sent, but none where the count is above the number of
  -- messages, since the loop ends at the first position that has no message, and it begins with the last one.
  abbrev pub clearable : ℕ → ℕ → ℕ
  clearable count queued = if leb count queued then count else 0

  clear_all-clears :
      (n : ℕ) {rb : Ringbuffer (QueuedMessage J)}
      → IsValid rb
      → (rb' : Ringbuffer (QueuedMessage J)) × (clear_ids n (some rb) ≡ ok (some rb'))
        × IsValid rb'
        × (contents d rb' ≡ cleared (clearable n rb.count) (contents d rb))
  unfolding clear_ids rb_at
  clear_all-clears zero {rb} v = rw (le→leb 0 rb.count (omega arith)) (rb, refl, v, refl)
  clear_all-clears (suc n) {rb} v = elim (Bool-cases (leb (suc n) rb.count)) [
    | inl few ↦ rw few (clear_ids-clears (suc n) v (leb→le (suc n) rb.count few))
    | inr many ↦ rw many (rb, ground arith, v, refl)
  ]

  -- On a valid queue broker_clear_messsage_ids ends, keeps every message, and counts none as sent. It takes away the ids
  -- of as many messages in front as were counted as sent, if the queue has so many, and no id otherwise.
  pub broker_clear_messsage_ids-clears :
      (sub : SubRequester J) (rb : Ringbuffer (QueuedMessage J))
      → sub.message_queue ≡ some rb
      → IsValid rb
      → (rb' : Ringbuffer (QueuedMessage J)) × (broker_clear_messsage_ids sub
          ≡ ok (record sub { message_queue = some rb'; message_output_queue_count = 0 }))
        × IsValid rb'
        × (contents d rb'
            ≡ cleared (clearable sub.message_output_queue_count rb.count) (contents d rb))
  unfolding broker_clear_messsage_ids
  broker_clear_messsage_ids-clears sub rb e v =
      let (rb', run, v', out) = clear_all-clears sub.message_output_queue_count v in
      (rb', rw (e, run) refl, v', out)
