-- ===== src/Watch/Stream/Signals.antt =====
-- When the stream's goroutines end, they leave a signal to reconnect; the heartbeat's tries.
use bscp_go.Prelude.{
  ℕ, zero, suc, ◌+◌, ◌<◌, ◌≡◌, refl, sym, ◌∙◌, ◌≢◌, inl, inr, true, false, Option, none, some, List,
  [], ◌∷◌, ◌++◌, arith, ◌==◌, Bool-cases, Option-cases, length, append_nil, append_one,
}
use bscp_go.Retry.{RetryPolicy, Counts}
use bscp_go.Watch.Stream.{
  Signal, closed_by_remote, stream_corrupted, bounce_request, bounce, publish_release, unsupported,
  Found, ctx_done, recv_eof, recv_failed, message, Watcher, Loop, goes_on, stopped, reconnects,
  notify_reconnect, handle, receive, loop_receive_watched_event, Beat, Beaten, no_error, last_error,
  beating, max_heartbeat_retry_count, beat, heartbeat_once,
}

module _ {ℓ} {A : Type ℓ} where
  -- The releases that a loop meets before it ends, of those messages whose version matches.
  abbrev pub published : List (Found A) → List A
  published [] = []
  published (ctx_done ∷ fs) = []
  published (recv_eof ∷ fs) = []
  published (recv_failed ∷ fs) = []
  published (message false kind ∷ fs) = published fs
  published (message true bounce ∷ fs) = []
  published (message true (publish_release e) ∷ fs) = e ∷ published fs
  published (message true unsupported ∷ fs) = published fs

  notify-some :
      (s : Signal) (w : Watcher A)
      → ((notify_reconnect s w).reconnect_chan ≢ none)
        × ((notify_reconnect s w).started ≡ w.started)
  unfolding notify_reconnect
  notify-some s w = ground arith

  -- What a loop leaves, by how it ended.
  abbrev pub Left : Watcher A → List A → Loop × Watcher A → Type ℓ
  Left w es (reconnects, w') = (w'.reconnect_chan ≢ none) × (w'.started ≡ w.started ++ es)
  Left w es (stopped, w') = (w'.reconnect_chan ≡ w.reconnect_chan) × (w'.started ≡ w.started ++ es)
  Left w es (goes_on, w') = (w'.reconnect_chan ≡ w.reconnect_chan) × (w'.started ≡ w.started ++ es)

  Left-next :
      (w : Watcher A) (e : A) (es : List A) (r : Loop × Watcher A)
      → Left (record w { started = w.started ++ (e ∷ []) }) es r
      → Left w (e ∷ es) r
  Left-next w e es (reconnects, w') (p, q) = (p, q ∙ append_one w.started es e)
  Left-next w e es (stopped, w') (p, q) = (p, q ∙ append_one w.started es e)
  Left-next w e es (goes_on, w') (p, q) = (p, q ∙ append_one w.started es e)

  notified : (s : Signal) (w : Watcher A) → Left w [] (reconnects, notify_reconnect s w)
  notified s w = let (some_, same) = notify-some s w in (some_, same ∙ sym (append_nil w.started))

  -- The loop that receives starts a handler for each release of a matching version, in order, up to
  -- where it ends. When it ends otherwise than by its context, the channel holds a signal to
  -- reconnect; else the channel is as it was. Other versions and unknown types do not end it.
  pub loop-Left :
      (fs : List (Found A)) (w : Watcher A)
      → Left w (published fs) (loop_receive_watched_event fs w)
  unfolding loop_receive_watched_event receive handle
  loop-Left [] w = (refl, sym (append_nil w.started))
  loop-Left (ctx_done ∷ fs) w = (refl, sym (append_nil w.started))
  loop-Left (recv_eof ∷ fs) w = notified closed_by_remote w
  loop-Left (recv_failed ∷ fs) w = notified stream_corrupted w
  loop-Left (message false kind ∷ fs) w = loop-Left fs w
  loop-Left (message true bounce ∷ fs) w = notified bounce_request w
  loop-Left (message true (publish_release e) ∷ fs) w =
      Left-next w e (published fs)
        (loop_receive_watched_event fs (record w { started = w.started ++ (e ∷ []) }))
        (loop-Left fs (record w { started = w.started ++ (e ∷ []) }))
  loop-Left (message true unsupported ∷ fs) w = loop-Left fs w

module _ {E : Type 0} (policy : RetryPolicy) (counts : Counts policy) where
  -- Failed sends, the context not done, and the error of the last.
  abbrev Failing : ℕ → Option E → List (Beat E) → Option E → Type 0
  Failing zero last bs e = last ≡ e
  Failing (suc n) last [] e = ⊥
  Failing (suc n) last (b ∷ bs) e =
      (b.done ≡ false) × ((x : E) × (b.send_err ≡ some x) × Failing n (some x) bs e)

  abbrev pub Within : ℕ → Option E → List (Beat E) → Beaten E → Type 0
  Within n last bs no_error = Unit
  Within n last bs (last_error e) = Failing n last bs e
  Within n last bs beating = ⊥

  Within-next :
      (n : ℕ) (last : Option E) (b : Beat E) (bs : List (Beat E)) (x : E) (r : Beaten E)
      → b.done ≡ false
      → b.send_err ≡ some x
      → Within n (some x) bs r
      → Within (suc n) last (b ∷ bs) r
  Within-next n last b bs x no_error on e h = tt
  Within-next n last b bs x (last_error y) on e h = (on, (x, e, h))
  Within-next n last b bs x beating on e h = h

  beat-Within :
      (n : ℕ) (p : policy.Policy) (last : Option E) (bs : List (Beat E))
      → policy.retry_count p + n ≡ max_heartbeat_retry_count
      → n < length bs
      → Within n last bs (beat policy p last bs)
  unfolding beat
  beat-Within n p last [] c l = absurd (omega arith)
  beat-Within zero p last (b ∷ bs) c l =
      let full : (policy.retry_count p == 3) ≡ true = ground arith in
      elim (Bool-cases b.done) [ inl over ↦ rw over tt | inr on ↦ rw (on, full) refl ]
  beat-Within (suc n) p last (b ∷ bs) c l =
      let more : (policy.retry_count p == 3) ≡ false = ground arith in
      elim (Bool-cases b.done) [
        | inl over ↦ simp over tt
        | inr on ↦ elim (Option-cases b.send_err) [
          | inl sent ↦ simp (on, more, sent) tt
          | inr (x, e) ↦
              simp (on, more, e)
                (Within-next n last b bs x (beat policy (policy.sleep p) (some x) bs) on e (
                  beat-Within n (policy.sleep p) (some x) bs (omega (arith, counts.sleep_count p))
                    (omega arith)))
        ]
      ]

  -- On four rounds or more `heartbeatOnce` ends. It returns the error of a send only after three
  -- rounds in which the context was not done and the send failed, and then the last of the three.
  pub heartbeat_once-Within :
      (bs : List (Beat E)) → 3 < length bs → Within 3 none bs (heartbeat_once policy bs)
  unfolding heartbeat_once
  heartbeat_once-Within bs l =
      beat-Within 3 policy.new_policy none bs (omega (arith, counts.new_count)) l
