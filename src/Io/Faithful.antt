-- ===== src/Io/Faithful.antt =====
-- What the timeline of composer/io/thread_timeline.py has of the checkpoints of a walk: every message once, and
-- a marker where the messages were replaced.
use mathlib.Core.List.{◌++◌}
use certora_aicomposer.Prelude.{String, List, [], ◌∷◌, Option, ◌≡◌, refl, sym, ◌∙◌, inl, inr, subst}
use certora_aicomposer.Sets.{text_eq, add_all, set_of}
use certora_aicomposer.Io.Timeline.{TimelineItem, ids_of, add_history, no_progress, timeline_of}
use certora_aicomposer.Io.Summarized.{Replaced, Kept, summarized-cases}
use certora_aicomposer.Io.Grown.{
  collected, item_id, item_nameless, item_marker, history_ids, history_nameless, marks_of, listed,
  Grown, history-Grown,
}

module _ {M : Type 0} (id_of : M → Option String) where
  -- The checkpoints at which the messages were replaced, after one with the ids: at a checkpoint that is
  -- listed both have ids and share none; at every other one of them has no id, or they share one.
  pub data Marked : List String → List (String × List M) → List String → Type 0 where
    finished : (prev : List String) → Marked prev [] []
    replaced :
        (prev : List String) (cid : String) (msgs : List M) (history : List (String × List M))
        (marks : List String)
        → Replaced prev (ids_of id_of msgs)
        → Marked (ids_of id_of msgs) history marks
        → Marked prev ((cid, msgs) ∷ history) (cid ∷ marks)
    kept :
        (prev : List String) (cid : String) (msgs : List M) (history : List (String × List M))
        (marks : List String)
        → Kept prev (ids_of id_of msgs)
        → Marked (ids_of id_of msgs) history marks
        → Marked prev ((cid, msgs) ∷ history) marks

  marks_of-Marked :
      (prev : List String) (history : List (String × List M))
      → Marked prev history (marks_of id_of (set_of prev) history)
  marks_of-Marked prev [] = Marked.finished prev
  marks_of-Marked prev ((cid, msgs) ∷ history) =
      let curr : List String = ids_of id_of msgs in
      let later : List String = marks_of id_of (set_of curr) history in
      let rest : Marked curr history later = marks_of-Marked curr history in
      elim (summarized-cases prev curr) [
        | inl p ↦
            subst (λ b. Marked prev ((cid, msgs) ∷ history) (listed id_of b cid ++ later)) (sym p.0)
              (Marked.replaced prev cid msgs history later p.1 rest)
        | inr p ↦
            subst (λ b. Marked prev ((cid, msgs) ∷ history) (listed id_of b cid ++ later)) (sym p.0)
              (Marked.kept prev cid msgs history later p.1 rest)
      ]

  -- The timeline has the ids of the history, the nameless messages and the markers.
  pub record Faithful (history : List (String × List M)) (timeline : List (TimelineItem M))
      : Type 0 where
    pub once : collected id_of (item_id id_of) timeline ≡ set_of (history_ids id_of history)
    pub unnamed : collected id_of (item_nameless id_of) timeline ≡ history_nameless id_of history
    pub marked : Marked [] history (collected id_of (item_marker id_of) timeline)

  -- The timeline of a history has each message's id once, in the order in which they first occur; it has
  -- all messages without an id, in order, each with its checkpoint; and its markers are, in order,
  -- exactly those of the checkpoints that have ids, follow a checkpoint that has ids, and share none with
  -- it.
  pub timeline_of-Faithful :
      (history : List (String × List M)) → Faithful history (timeline_of id_of history)
  unfolding timeline_of add_all
  timeline_of-Faithful history =
      let g : Grown id_of (history_ids id_of history) (history_nameless id_of history)
          (marks_of id_of [] history) (no_progress id_of)
          (add_history id_of history (no_progress id_of)) =
        history-Grown id_of history (no_progress id_of) in
      record {
        once = g.agree refl ∙ g.seen;
        unnamed = g.unnamed;
        marked = subst (Marked [] history) (sym g.markers) (marks_of-Marked [] history);
      }
