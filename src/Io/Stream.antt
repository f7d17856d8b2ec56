-- ===== src/Io/Stream.antt =====
-- `AsyncDataQueue` of composer/io/stream.py with its consumer, `stream_events`, as a step relation.
-- The consumer waits for `_ready`, tests its inner loop, or has yielded an event that is handled.
-- Between two of these places it does not await; the producers may act before each of its steps.
use mathlib.Core.List.{◌++◌}
use certora_aicomposer.Prelude.{
  ℕ, zero, suc, Bool, true, false, List, [], ◌∷◌, Option, none, some, ◌≡◌, ◌==◌, if◌then◌else◌,
  length,
}

pub record DataQueue (T : Type 0) : Type 0 where
  pub ready : Bool
  pub event_stream : List T
  pub cursor : ℕ
  pub closed : Bool

pub data Place : Type 0 where
  waiting draining handling done failed : Place

-- The queue and its consumer, with all the events that were pushed and all that were yielded.
pub record System (T : Type 0) : Type 0 where
  pub queue : DataQueue T
  pub place : Place
  pub pushed : List T
  pub delivered : List T

module _ {T : Type 0} where
  unfoldable pub get_elem? : List T → ℕ → Option T
  get_elem? [] n = none
  get_elem? (x ∷ xs) zero = some x
  get_elem? (x ∷ xs) (suc n) = get_elem? xs n

  unfoldable pub push : DataQueue T → T → DataQueue T
  push q event = record q { event_stream = q.event_stream ++ event ∷ []; ready = true }

  unfoldable pub close : DataQueue T → DataQueue T
  close q = record q { closed = true; ready = true }

  -- `await self._ready.wait(); self._ready.clear()`
  unfoldable pub woken : System T → Option (System T)
  woken s =
      if s.queue.ready
      then some (record s { queue = record s.queue { ready = false }; place = Place.draining })
      else none

  -- The inner loop is left: its assertion, the reset, and the test for a closed queue.
  unfoldable pub drained : System T → System T
  drained s =
      if s.queue.cursor == length s.queue.event_stream
      then record s {
        queue = record s.queue { cursor = zero; event_stream = [] };
        place = if s.queue.closed then Place.done else Place.waiting;
      }
      else record s { place = Place.failed }

  unfoldable pub tested : System T → Option T → System T
  unfolding drained
  tested s none = drained s
  tested s (some event) = record s { place = Place.handling; delivered = s.delivered ++ event ∷ [] }

  unfoldable pub step_at : Place → System T → Option (System T)
  unfolding woken tested
  step_at Place.waiting s = woken s
  step_at Place.draining s = some (tested s (get_elem? s.queue.event_stream s.queue.cursor))
  step_at Place.handling s =
      some (record s {
        queue = record s.queue { cursor = suc s.queue.cursor };
        place = Place.draining;
      })
  step_at Place.done s = none
  step_at Place.failed s = none

  -- The consumer's next step; `none` if it is blocked or has returned.
  unfoldable pub consume : System T → Option (System T)
  unfolding step_at
  consume s = step_at s.place s

  pub data Step (s : System T) : System T → Type 0 where
    pushes :
        (event : T)
        → Step s (record s { queue = push s.queue event; pushed = s.pushed ++ event ∷ [] })
    closes : Step s (record s { queue = close s.queue })
    consumes : {t : System T} → consume s ≡ some t → Step s t

  -- `EventQueue(asyncio.Event(), [])`
  unfoldable pub start : System T
  start = record {
    queue = record { ready = false; event_stream = []; cursor = zero; closed = false };
    place = Place.waiting;
    pushed = [];
    delivered = [];
  }

  pub data Reach : System T → Type 0 where
    begins : Reach start
    then : {s t : System T} → Reach s → Step s t → Reach t

  -- The consumer alone, for at most `n` steps.
  unfoldable pub consume_for : ℕ → System T → System T
  consume_for zero s = s
  consume_for (suc n) s = elim (consume s) [ none ↦ s | some t ↦ consume_for n t ]
