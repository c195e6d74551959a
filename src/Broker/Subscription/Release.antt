-- ===== src/Broker/Subscription/Release.antt =====
-- broker/src/subscription.c: how broker_free_sub_requester takes a subscriber out of what its link owes, and gives its
-- message queue back.
use sdk_dslink_c.Prelude.{
  ap₂, minus_one, ℤ, take-take, ◌∙◌, ℕ, ◌<◌, ◌≤◌, ◌≡◌, refl, ap, inl, inr, List, [], ◌∷◌, Option,
  none, some, arith, ◌==◌, take, Bool-cases, if◌then◌else◌, pos,
}
use sdk_dslink_c.Prelude.Run.{Run, ok, fault, out_of_fuel, ◌>>=◌}
use sdk_dslink_c.Col.Ringbuffer.{Ringbuffer, rb_free}
use sdk_dslink_c.Col.Ringbuffer.Inv
use sdk_dslink_c.Col.Ringbuffer.Refine
use sdk_dslink_c.Col.Ringbuffer.Free.{notified, rb_free-cleans}
use sdk_dslink_c.Col.Vector.{Vector, vector_erase_range, vector_count}
use sdk_dslink_c.Col.Vector.Inv.{IsValid, contents, cells}
use sdk_dslink_c.Col.Vector.Search.{vector_remove_if}
use sdk_dslink_c.Col.Vector.Erase.{vector_erase_range-removes}
use sdk_dslink_c.Col.Vector.RemoveIf.{kept, vector_remove_if-kept}
use sdk_dslink_c.Broker.Subscription.{QueuedMessage, PendingAck, SubRequester, cmp_pack_subs}

-- `vector_remove_if` and `vector_erase_range` on the acknowledgements of the requester.
unfoldable pub drop_pending_acks : ℕ → Option (Vector PendingAck) → Run (Option (Vector PendingAck))
drop_pending_acks number acks = do
  step ← vector_remove_if cmp_pack_subs (record { subscription = number; msg_id = 0 }) acks
  left ← vector_erase_range (some step.1) step.0 (vector_count (some step.1))
  ok left.1

module _ {J : Type 0} where
  -- `if(req->messageQueue) { … }`: the messages that are released, the subscriber, and the acknowledgements.
  unfoldable pub free_message_queue :
      ℕ
      → SubRequester J
      → Option (Vector PendingAck)
      → Run (List (QueuedMessage J) × SubRequester J × Option (Vector PendingAck))
  unfolding drop_pending_acks
  free_message_queue fuel sub acks = elim sub.message_queue [
    | none ↦ ok ([], sub, acks)
    | some rb ↦ do
      acks' ← drop_pending_acks sub.number acks
      elim (rb_free fuel (some rb)) [
        | none ↦ out_of_fuel
        | some (_, released) ↦
            ok
              (released, record sub { message_queue = none; message_output_queue_count = 0 }, acks')
      ]
  ]

-- The acknowledgements of the other subscribers.
abbrev pub others : ℕ → List PendingAck → List PendingAck
others number [] = []
others number (a ∷ acks) =
    if a.subscription == number then others number acks else a ∷ others number acks

kept-others :
    (number : ℕ) (acks : List PendingAck)
    → kept cmp_pack_subs (record { subscription = number; msg_id = 0 }) acks ≡ others number acks
kept-others number [] = refl
kept-others number (a ∷ acks) = ground (arith, kept-others number acks)

untouched :
    (w : Vector PendingAck) → w.size ≡ 0 → vector_erase_range (some w) 0 0 ≡ ok (minus_one, some w)
unfolding vector_erase_range
untouched w e = ground arith

-- What is left after the elements from `r` on are erased.
erased :
    (w : Vector PendingAck) (r : ℕ)
    → IsValid w
    → r ≤ w.size
    → (code : ℤ) × (v : Vector PendingAck) × (vector_erase_range (some w) r w.size
        ≡ ok (code, some v))
      × IsValid v
      × (contents v ≡ take r (cells w.data_block))
erased w r h inside = elim (Bool-cases (w.size == 0)) [
  | inl e ↦ (
    minus_one,
    w,
    ap₂ (λ x y. vector_erase_range (some w) x y) {x = r} {y = 0} (ground arith) (ground arith)
        ∙ untouched w (ground arith),
    h,
    ap (λ n. take n (cells w.data_block)) (ground arith),
  )
  | inr some_left ↦
      let (refused, tail, _, _, _) = vector_erase_range-removes r w.size h in
      elim (Bool-cases (r == w.size)) [
        | inl full ↦ (
          minus_one,
          w,
          refused (inl (ground arith, ground arith)),
          h,
          ap (λ n. take n (cells w.data_block)) (ground arith),
        )
        | inr less ↦
            let (v, run, valid, left) = tail (ground arith) (omega arith) in
            (pos 0, v, run, valid, left ∙ take-take r w.size (cells w.data_block) inside)
      ]
]

drop_pending_acks-others :
    (number : ℕ) (acks : Vector PendingAck)
    → IsValid acks
    → (v : Vector PendingAck) × (drop_pending_acks number (some acks) ≡ ok (some v))
      × IsValid v
      × (contents v ≡ others number (contents acks))
unfolding drop_pending_acks vector_count
drop_pending_acks-others number acks h =
    let (r, w, run, valid, same, inside, front) =
      vector_remove_if-kept cmp_pack_subs (record { subscription = number; msg_id = 0 }) h in
    let (code, v, run', valid', left) = erased w r valid (omega (arith, inside, same)) in
    (v, rw (run, run') refl, valid', left ∙ front ∙ kept-others number (contents acks))

module _ {J : Type 0} (d : QueuedMessage J) where
  without_acks :
      (fuel : ℕ) (sub : SubRequester J) (rb : Ringbuffer (QueuedMessage J))
      → sub.message_queue ≡ some rb
      → free_message_queue fuel sub none ≡ fault
  unfolding free_message_queue drop_pending_acks vector_remove_if
  without_acks fuel sub rb e = rw e refl

  -- The block `if(req->messageQueue)` of broker_free_sub_requester, for a subscriber with a valid queue and any fuel above
  -- the number of queued messages. Where the link of the requester has a vector of acknowledgements, and it is valid, the
  -- block leaves exactly the acknowledgements of the other subscribers, in order, hands every queued message to the
  -- cleanup function, if there is one, oldest first, and leaves the subscriber without a queue and with a count of 0.
  -- Where the link has no such vector, the block reads through NULL.
  pub free_message_queue-releases :
      (fuel : ℕ) (sub : SubRequester J) (rb : Ringbuffer (QueuedMessage J))
      (acks : Vector PendingAck)
      → sub.message_queue ≡ some rb
      → Inv.IsValid rb
      → IsValid acks
      → rb.count < fuel
      → ((v : Vector PendingAck) × (free_message_queue fuel sub (some acks)
            ≡ ok (
              notified d rb (Refine.contents d rb),
              record sub { message_queue = none; message_output_queue_count = 0 },
              some v,
            ))
          × IsValid v
          × (contents v ≡ others sub.number (contents acks)))
        × (free_message_queue fuel sub none ≡ fault)
  unfolding free_message_queue
  free_message_queue-releases fuel sub rb acks e h valid enough =
      let (v, run, valid', left) = drop_pending_acks-others sub.number acks valid in
      (
        (v, rw (e, run, rb_free-cleans d fuel rb h enough) refl, valid', left),
        without_acks fuel sub rb e,
      )
