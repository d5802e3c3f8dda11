-- ===== src/Watch/Queue/Latest.antt =====
-- The newest event: kept when the enqueuing runs alone, lost or fatal in two interleavings.
use bscp_go.Prelude.{
  ◌≡◌, inl, inr, true, false, Option, none, some, List, [], ◌∷◌, ◌++◌, arith, Option-cases,
}
use bscp_go.Watch.Queue.{
  idle, Queue, ran, panics, slot_list, Move, arrive, proceed, handle, swap, shut_channel, reset,
  step, run,
}

module _ {ℓ} {A : Type ℓ} where
  -- A subscriber between two calls, not closed.
  pub record IsOpen (q : Queue A) : Type ℓ where
    pub at_rest : q.pc ≡ idle
    pub not_closed : q.closed ≡ false
    pub not_shut : q.shut ≡ false

  -- The steps of one `enqueueLatestEvent` that nothing interrupts.
  abbrev pub steps_alone : Option A → List (Move A)
  steps_alone none = proceed ∷ []
  steps_alone (some old) = proceed ∷ proceed ∷ proceed ∷ []

  -- When no other goroutine comes between its steps, the enqueuing leaves the new event in the
  -- buffer, in the place of the one that waited there, and the mutex free.
  pub enqueue_alone :
      (q : Queue A) (e : A)
      → IsOpen q
      → run (arrive e ∷ steps_alone q.slot) q
        ≡ ran (record q { slot = some e; arrived = q.arrived ++ e ∷ [] })
  unfolding run
  enqueue_alone q e o = elim (Option-cases q.slot) [
    | inl empty ↦ rw empty (ground arith)
    | inr (old, busy) ↦ rw busy (ground arith)
  ]

  -- If `processEvents` takes the buffered event between the two `select`s, the enqueuing gives up
  -- the new event: the buffer is empty, nothing was handled but the old event, and the mutex is free.
  pub newest_dropped :
      (q : Queue A) (old e : A)
      → IsOpen q
      → q.slot ≡ some old
      → run (arrive e ∷ proceed ∷ handle ∷ proceed ∷ []) q
        ≡ ran (record q {
          slot = none;
          handled = q.handled ++ old ∷ [];
          arrived = q.arrived ++ e ∷ [];
        })
  unfolding run
  newest_dropped q old e o busy = ground arith

  -- If the queue is closed between the test of the flag and the send, the send panics.
  pub close_race :
      (q : Queue A) (e : A)
      → IsOpen q
      → q.closers ≡ 0
      → run (arrive e ∷ swap ∷ shut_channel ∷ proceed ∷ []) q ≡ panics
  unfolding run
  close_race q e o none_closing = ground arith

  -- Once closed, a subscriber lets events pass without a trace in its queue.
  pub closed_ignores :
      (q : Queue A) (e : A)
      → q.pc ≡ idle
      → q.closed ≡ true
      → step (arrive e) q ≡ ran (record q { arrived = q.arrived ++ e ∷ [] })
  unfolding step
  closed_ignores q e here off = ground arith

  -- Closed to the end and reset, the subscriber has a new empty open queue; the event that was
  -- still buffered is left to the goroutine of the old channel.
  pub reset_reopens :
      (q : Queue A)
      → IsOpen q
      → q.closers ≡ 0
      → run (swap ∷ shut_channel ∷ swap ∷ reset ∷ []) q
        ≡ ran (record q { slot = none; left = q.left ++ slot_list q.slot })
  unfolding run
  reset_reopens q o none_closing = ground arith
