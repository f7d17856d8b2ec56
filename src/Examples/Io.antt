-- ===== src/Examples/Io.antt =====
-- The event queue of composer/io/stream.py: an event that is pushed before the consumer starts.
use certora_aicomposer.Prelude.{ℕ, [], ◌∷◌, ◌≡◌, ◌≢◌}
use mathlib.Core.List.{◌++◌}
use certora_aicomposer.Io.Stream.{Place, System, push, start, Step, Reach}
use certora_aicomposer.Io.Delivery.{pending, delivered-order}
use certora_aicomposer.Io.Progress.{Finishes, consumer-Finishes}

abbrev pushed_one : System ℕ
pushed_one = record start { queue = push start.queue 7; pushed = start.pushed ++ 7 ∷ [] }

pushed_one-Reach : Reach pushed_one
pushed_one-Reach = Reach.then Reach.begins (Step.pushes 7)

delivered-order_example :
    (pushed_one.delivered ++ pending pushed_one ≡ pushed_one.pushed)
    × (pushed_one.place ≢ Place.failed)
delivered-order_example = delivered-order pushed_one pushed_one-Reach

waiting_ne : pushed_one.place ≢ Place.done
unfolding start
waiting_ne e = cc e

consumer-Finishes_example : Finishes pushed_one
consumer-Finishes_example = consumer-Finishes pushed_one pushed_one-Reach waiting_ne
