-- ===== src/Watch/Queue/Tests.antt =====
-- Runs of a subscriber's queue, and its theorems at concrete data.
use bscp_go.Prelude.{ℕ, ◌≡◌, refl, List, [], ◌∷◌}
use bscp_go.Watch.Queue.{Queue, ran, opened, Move, arrive, proceed, handle, run}
use bscp_go.Watch.Queue.Order.{IsOrdered, run-IsOrdered, opened-IsOrdered}

abbrev busy : List (Move ℕ)
busy =
    arrive 1
    ∷ proceed
    ∷ arrive 2
    ∷ proceed
    ∷ proceed
    ∷ proceed
    ∷ handle
    ∷ arrive 3
    ∷ proceed
    ∷ handle
    ∷ []

abbrev after_busy : Queue ℕ
after_busy = record opened { handled = 2 ∷ 3 ∷ []; arrived = 1 ∷ 2 ∷ 3 ∷ [] }

busy-run : run busy opened ≡ ran after_busy
unfolding run
busy-run = refl

run-IsOrdered_example : IsOrdered after_busy
unfolding run
run-IsOrdered_example = run-IsOrdered busy opened _ opened-IsOrdered
