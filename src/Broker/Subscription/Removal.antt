-- ===== src/Broker/Subscription/Removal.antt =====
-- removeFromMessageQueue and broker_clear_messsage_ids on the queue that a subscriber's ring buffer holds.
use sdk_dslink_c.Prelude.{
  ℕ, zero, suc, Bool, ◌<◌, ◌≡◌, refl, ap, sym, subst, ◌≢◌, List, [], ◌∷◌, ◌++◌, some, arith, ◌==◌,
  ltb, ◌||◌, not, length, get_or, get_elem?-eq-get_or, Bool-cases, inl, inr, true, false,
}
use sdk_dslink_c.Prelude.Run.{ok}
use sdk_dslink_c.Col.Ringbuffer.{Ringbuffer, rb_count, rb_front}
use sdk_dslink_c.Col.Ringbuffer.Inv.{IsValid}
use sdk_dslink_c.Col.Ringbuffer.Refine.{contents, start, front_index-start}
use sdk_dslink_c.Col.Ringbuffer.Free.{notified, popped, rb_pop_lem, contents-popped}
use sdk_dslink_c.Col.Ringbuffer.Window.{window}
use sdk_dslink_c.Broker.Subscription.{
  QueuedMessage, SubRequester, remove_acknowledged, remove_from_message_queue,
}

module _ {J : Type 0} where
  -- Is a message sent, with an id that the acknowledgement covers?
  abbrev pub is_covered : ℕ → QueuedMessage J → Bool
  is_covered ack m = not (m.msg_id == 0 || ltb ack m.msg_id)

  -- The messages in front of a queue that an acknowledgement covers.
  abbrev pub covered : ℕ → List (QueuedMessage J) → List (QueuedMessage J)
  covered ack [] = []
  covered ack (m ∷ q) = elim (is_covered ack m) [ true ↦ m ∷ covered ack q | false ↦ [] ]

  abbrev pub uncovered : ℕ → List (QueuedMessage J) → List (QueuedMessage J)
  uncovered ack [] = []
  uncovered ack (m ∷ q) = elim (is_covered ack m) [ true ↦ uncovered ack q | false ↦ m ∷ q ]

module _ {J : Type 0} (d : QueuedMessage J) where
  -- What the loop does on a buffer that holds `q`.
  abbrev pub Removes : ℕ → Ringbuffer (QueuedMessage J) → ℕ → List (QueuedMessage J) → Type 0
  Removes fuel rb ack q =
      (rb' : Ringbuffer (QueuedMessage J)) × (remove_acknowledged fuel (some rb) ack
        ≡ ok (length (covered ack q), notified d rb (covered ack q), some rb'))
      × IsValid rb'
      × (contents d rb' ≡ uncovered ack q)

  Removes-none :
      (fuel : ℕ) {rb : Ringbuffer (QueuedMessage J)} (ack : ℕ)
      → IsValid rb
      → rb.count ≡ 0
      → Removes (suc fuel) rb ack (contents d rb)
  unfolding remove_acknowledged rb_count
  Removes-none fuel {rb} ack v e =
      subst (Removes (suc fuel) rb ack) (sym nothing) (rb, ground arith, v, nothing)
    where
      nothing : contents d rb ≡ []
      nothing = ap (window d rb.data_block rb.size (start d rb)) {y = 0} e

  popped-IsValid :
      {rb : Ringbuffer (QueuedMessage J)} → IsValid rb → rb.count ≢ 0 → IsValid (popped d rb)
  popped-IsValid v ne = ground arith

  Removes-one :
      (fuel : ℕ) {rb : Ringbuffer (QueuedMessage J)} (ack : ℕ)
      → IsValid rb
      → rb.count ≢ 0
      → Removes fuel (popped d rb) ack (contents d (popped d rb))
      → Removes (suc fuel) rb ack (get_or rb.data_block (start d rb) d ∷ contents d (popped d rb))
  unfolding remove_acknowledged rb_count rb_front
  Removes-one fuel {rb} ack v ne (rb', run, v', rest) =
      elim (Bool-cases (is_covered ack (get_or rb.data_block (start d rb) d))) [
        | inl hit ↦ (
          rb',
          ground (
            arith,
            run,
            hit,
            front_index-start d v,
            get_elem?-eq-get_or rb.data_block (start d rb) d,
            rb_pop_lem d rb v ne,
          ),
          v',
          rw (uncovered, hit) rest,
        )
        | inr miss ↦ (
          rb,
          ground (
            arith,
            miss,
            front_index-start d v,
            get_elem?-eq-get_or rb.data_block (start d rb) d,
          ),
          v,
          rw (uncovered, miss) (contents-popped d rb v ne),
        )
      ]

  remove_acknowledged-Removes :
      (fuel : ℕ) {rb : Ringbuffer (QueuedMessage J)} (ack : ℕ)
      → IsValid rb
      → rb.count < fuel
      → Removes fuel rb ack (contents d rb)
  remove_acknowledged-Removes zero ack v h = absurd (omega arith)
  remove_acknowledged-Removes (suc fuel) {rb} ack v h = elim (Bool-cases (rb.count == 0)) [
    | inl e ↦ Removes-none fuel ack v (ground arith)
    | inr ne ↦ subst (Removes (suc fuel) rb ack) (sym (contents-popped d rb v (ground arith))) (
        Removes-one fuel ack v (ground arith)
          (remove_acknowledged-Removes fuel ack (popped-IsValid v (ground arith)) (ground arith)))
  ]

  covered-uncovered : (ack : ℕ) (q : List (QueuedMessage J)) → covered ack q ++ uncovered ack q ≡ q
  covered-uncovered ack [] = refl
  covered-uncovered ack (m ∷ q) = elim (Bool-cases (is_covered ack m)) [
    | inl hit ↦ rw (covered, uncovered, hit) (ap (λ r. m ∷ r) (covered-uncovered ack q))
    | inr miss ↦ rw (covered, uncovered, miss) refl
  ]

  -- On a valid queue removeFromMessageQueue ends, for any fuel above the number of messages. It takes the messages
  -- in front that were sent under an id up to the acknowledged one, returns how many they are, releases them where
  -- the buffer has a cleanup function, and leaves the others in order. Nothing else of the subscriber changes.
  pub remove_from_message_queue-removes :
      (fuel : ℕ) (sub : SubRequester J) (rb : Ringbuffer (QueuedMessage J)) (ack : ℕ)
      → sub.message_queue ≡ some rb
      → IsValid rb
      → rb.count < fuel
      → (rb' : Ringbuffer (QueuedMessage J)) × (remove_from_message_queue fuel sub ack
          ≡ ok (
            length (covered ack (contents d rb)),
            notified d rb (covered ack (contents d rb)),
            record sub { message_queue = some rb' },
          ))
        × IsValid rb'
        × (covered ack (contents d rb) ++ contents d rb' ≡ contents d rb)
  unfolding remove_from_message_queue
  remove_from_message_queue-removes fuel sub rb ack e v h =
      let (rb', run, v', rest) = remove_acknowledged-Removes fuel ack v h in
      (rb', rw (e, run) refl, v', rw rest (covered-uncovered ack (contents d rb)))
