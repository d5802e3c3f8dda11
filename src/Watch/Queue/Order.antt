-- ===== src/Watch/Queue/Order.antt =====
-- What the interleavings keep: events are handled in the order in which they arrived.
use mathlib.Core.List.{nil-sublist, sublist-append_left, Sublist, append_assoc, append-nil}
use mathlib.Core.List.Sublist
use bscp_go.Prelude.{
  ◌+◌, ◌-◌, ◌≡◌, refl, ap, inl, inr, true, none, some, List, [], ◌∷◌, ◌++◌, arith, ◌==◌, Bool-cases,
  Option-cases,
}
use bscp_go.Watch.Queue.{
  Pc, idle, checked, full, drained, Queue, Next, ran, stuck, panics, opened, enter, send,
  outer_select, inner_select, go_on, consume, consume_left, swap_closed, close_channel, slot_list,
  Move, arrive, proceed, handle, handle_left, swap, shut_channel, reset, step, ◌>>=◌, run,
}

-- Every outcome but a panic or a step that cannot be made satisfies `P`.
abbrev pub Holds {ℓ κ} : {A : Type ℓ} → (Queue A → Type κ) → Next A → Type κ
Holds P (ran q) = P q
Holds P stuck = Unit
Holds P panics = Unit

module _ {ℓ} {A : Type ℓ} where
  abbrev pending : Pc A → List A
  pending idle = []
  pending (checked e) = e ∷ []
  pending (full e) = e ∷ []
  pending (drained e) = e ∷ []

  -- The events that are handled, buffered or being sent, in the order of their handling.
  abbrev pub in_line : Queue A → List A
  in_line q = q.handled ++ (slot_list q.slot ++ pending q.pc)

  pub record IsOrdered (q : Queue A) : Type ℓ where
    pub none_left : q.left ≡ []
    pub ordered : Sublist (in_line q) q.arrived

  -- Without a reconnection the channel stays the same one.
  abbrev pub IsSteady : Move A → Type 0
  IsSteady reset = ⊥
  IsSteady _ = Unit

  drop_middle : (xs ys zs : List A) → Sublist (xs ++ zs) (xs ++ (ys ++ zs))
  drop_middle xs ys zs =
      Sublist.append (Sublist.refl xs) (Sublist.append (nil-sublist ys) (Sublist.refl zs))

  drop_last : (xs ys : List A) → Sublist xs (xs ++ ys)
  drop_last xs ys = sublist-append_left xs ys

  module _ (e : A) (q : Queue A) (o : IsOrdered q) where
    grown : Sublist (in_line q) (q.arrived ++ e ∷ [])
    grown = Sublist.trans o.ordered (sublist-append_left q.arrived (e ∷ []))

    queued : q.pc ≡ idle → Sublist (q.handled ++ (slot_list q.slot ++ e ∷ [])) (q.arrived ++ e ∷ [])
    queued here =
        rw (← append_assoc)
          (Sublist.append (rw (here, append-nil) at o.ordered) (Sublist.refl (e ∷ [])))

    enter-IsOrdered : (pc : Pc A) → q.pc ≡ pc → Holds IsOrdered (enter e q)
    unfolding enter
    enter-IsOrdered idle at = elim (Bool-cases q.closed) [
      | inl off ↦
          let next : enter e q ≡ ran (record q { arrived = q.arrived ++ e ∷ [] }) = ground arith in
          rw next (record { none_left = o.none_left; ordered = grown })
      | inr on ↦
          let next : enter e q ≡ ran (record q { pc = checked e; arrived = q.arrived ++ e ∷ [] }) =
            ground arith in
          rw next (record { none_left = o.none_left; ordered = queued at })
    ]
    enter-IsOrdered (checked _) at = let next : enter e q ≡ stuck = ground arith in rw next tt
    enter-IsOrdered (full _) at = let next : enter e q ≡ stuck = ground arith in rw next tt
    enter-IsOrdered (drained _) at = let next : enter e q ≡ stuck = ground arith in rw next tt

  module _ (q : Queue A) (o : IsOrdered q) where
    consume-IsOrdered : Holds IsOrdered (consume q)
    unfolding consume
    consume-IsOrdered = elim (Option-cases q.slot) [
      | inl empty ↦ let next : consume q ≡ stuck = ground arith in rw next tt
      | inr (e, buffered) ↦
          let next : consume q ≡ ran (record q { slot = none; handled = q.handled ++ e ∷ [] }) =
            ground arith in
          rw next (record {
            none_left = o.none_left;
            ordered = rw append_assoc (rw buffered at o.ordered);
          })
    ]

    send-IsOrdered : (e : A) → pending q.pc ≡ e ∷ [] → Holds IsOrdered (send e q)
    unfolding send
    send-IsOrdered e here = elim (Bool-cases q.shut) [
      | inl off ↦ let next : send e q ≡ panics = ground arith in rw next tt
      | inr on ↦ elim (Option-cases q.slot) [
        | inr (old, busy) ↦ let next : send e q ≡ stuck = ground arith in rw next tt
        | inl empty ↦
            let next : send e q ≡ ran (record q { slot = some e; pc = idle }) = ground arith in
            rw next (record { none_left = o.none_left; ordered = rw (empty, here) at o.ordered })
      ]
    ]

    outer_select-IsOrdered : (e : A) → q.pc ≡ checked e → Holds IsOrdered (outer_select e q)
    unfolding outer_select
    outer_select-IsOrdered e here = elim (Bool-cases q.shut) [
      | inl off ↦ let next : outer_select e q ≡ panics = ground arith in rw next tt
      | inr on ↦ elim (Option-cases q.slot) [
        | inr (old, busy) ↦
            let next : outer_select e q ≡ ran (record q { pc = full e }) = ground arith in
            rw next (record { none_left = o.none_left; ordered = rw here at o.ordered })
        | inl empty ↦
            let next : outer_select e q ≡ send e q = ground arith in
            rw next (send-IsOrdered e (ap pending here))
      ]
    ]

    inner_select-IsOrdered : (e : A) → q.pc ≡ full e → Holds IsOrdered (inner_select e q)
    unfolding inner_select
    inner_select-IsOrdered e here = elim (Option-cases q.slot) [
      | inr (old, busy) ↦
          let next : inner_select e q ≡ ran (record q { slot = none; pc = drained e }) =
            ground arith in
          rw next (record {
            none_left = o.none_left;
            ordered =
                Sublist.trans (drop_middle q.handled (old ∷ []) (e ∷ []))
                  (rw (busy, here) at o.ordered);
          })
      | inl empty ↦ elim (Bool-cases q.shut) [
        | inl off ↦
            let next : inner_select e q ≡ ran (record q { pc = drained e }) = ground arith in
            rw next (record { none_left = o.none_left; ordered = rw here at o.ordered })
        | inr on ↦
            let next : inner_select e q ≡ ran (record q { pc = idle }) = ground arith in
            rw next (record {
              none_left = o.none_left;
              ordered =
                  rw (empty, append-nil)
                    (Sublist.trans (drop_last q.handled (e ∷ [])) (rw (empty, here) at o.ordered));
            })
      ]
    ]

    go_on-IsOrdered : (pc : Pc A) → q.pc ≡ pc → Holds IsOrdered (go_on pc q)
    unfolding go_on
    go_on-IsOrdered idle here = tt
    go_on-IsOrdered (checked e) here = outer_select-IsOrdered e here
    go_on-IsOrdered (full e) here = inner_select-IsOrdered e here
    go_on-IsOrdered (drained e) here = send-IsOrdered e (ap pending here)

    consume_left-IsOrdered : Holds IsOrdered (consume_left q)
    unfolding consume_left
    consume_left-IsOrdered = let next : consume_left q ≡ stuck = rw o.none_left in rw next tt

    swap_closed-IsOrdered : Holds IsOrdered (swap_closed q)
    unfolding swap_closed
    swap_closed-IsOrdered = elim (Bool-cases q.closed) [
      | inl off ↦ let next : swap_closed q ≡ ran q = ground arith in rw next o
      | inr on ↦
          let next : swap_closed q ≡ ran (record q { closed = true; closers = q.closers + 1 }) =
            ground arith in
          rw next (record { none_left = o.none_left; ordered = o.ordered })
    ]

    close_channel-IsOrdered : Holds IsOrdered (close_channel q)
    unfolding close_channel
    close_channel-IsOrdered = elim (Bool-cases (q.closers == 0)) [
      | inl zero_left ↦ let next : close_channel q ≡ stuck = ground arith in rw next tt
      | inr more ↦ elim (Bool-cases q.shut) [
        | inl off ↦ let next : close_channel q ≡ panics = ground arith in rw next tt
        | inr on ↦
            let next : close_channel q ≡ ran (record q { shut = true; closers = q.closers - 1 }) =
              ground arith in
            rw next (record { none_left = o.none_left; ordered = o.ordered })
      ]
    ]

  step-IsOrdered :
      (m : Move A) (q : Queue A) → IsSteady m → IsOrdered q → Holds IsOrdered (step m q)
  unfolding step
  step-IsOrdered (arrive e) q s o = enter-IsOrdered e q o q.pc refl
  step-IsOrdered proceed q s o = go_on-IsOrdered q o q.pc refl
  step-IsOrdered handle q s o = consume-IsOrdered q o
  step-IsOrdered handle_left q s o = consume_left-IsOrdered q o
  step-IsOrdered swap q s o = swap_closed-IsOrdered q o
  step-IsOrdered shut_channel q s o = close_channel-IsOrdered q o
  step-IsOrdered reset q s o = absurd s

  abbrev pub AllSteady : List (Move A) → Type 0
  AllSteady [] = Unit
  AllSteady (m ∷ ms) = IsSteady m × AllSteady ms

  continue :
      (n : Next A) (rest : Queue A → Next A)
      → Holds IsOrdered n
      → ((q : Queue A) → IsOrdered q → Holds IsOrdered (rest q))
      → Holds IsOrdered (n >>= rest)
  continue (ran q) rest o more = more q o
  continue stuck rest o more = tt
  continue panics rest o more = tt

  -- However the goroutines interleave, until a reconnection: what is handled, buffered or being
  -- sent is a subsequence of the events in the order of their arrival.
  pub run-IsOrdered :
      (ms : List (Move A)) (q : Queue A) → AllSteady ms → IsOrdered q → Holds IsOrdered (run ms q)
  unfolding run
  run-IsOrdered [] q s o = o
  run-IsOrdered (m ∷ ms) q (s, ss) o =
      continue (step m q) (run ms) (step-IsOrdered m q s o) (λ q' o'. run-IsOrdered ms q' ss o')

  pub opened-IsOrdered : IsOrdered opened
  opened-IsOrdered = record { none_left = refl; ordered = Sublist.refl [] }
