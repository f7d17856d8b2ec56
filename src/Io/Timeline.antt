-- ===== src/Io/Timeline.antt =====
-- composer/io/thread_timeline.py: the walk along the chain of a thread's checkpoints and the timeline of their
-- messages. A message is of any type with an optional id; the checkpointer's reads are parameters. The
-- walk has fuel, and `none` for a walk that has used it up.
use mathlib.Core.List.{◌++◌}
use certora_aicomposer.Prelude.{
  ℕ, zero, suc, String, Bool, true, false, List, [], ◌∷◌, Option, none, some, ◌&&◌, if◌then◌else◌,
}
use certora_aicomposer.Sets.{text_eq, contains, add, set_of}
use certora_aicomposer.KeyMap.{get, put}

-- `CheckpointTuple`: the id in its configuration, its messages, and the configuration of its parent, if any,
-- with the id in it.
pub record Checkpoint (M : Type 0) : Type 0 where
  pub checkpoint_id : Option String
  pub messages : List M
  pub parent_config : Option (Option String)

-- An entry of the timeline: a message with the checkpoint that has persisted it, or a marker.
pub data TimelineItem (M : Type 0) : Type 0 where
  summarization_marker : (checkpoint_id : String) → TimelineItem M
  entry : (message : M) (checkpoint_id : String) → TimelineItem M

pub record Progress (M : Type 0) : Type 0 where
  pub timeline : List (TimelineItem M)
  pub seen_ids : List String
  pub prev_ids : List String

abbrev pub is_any : List String → Bool
is_any [] = false
is_any (i ∷ ids) = true

-- `xs.isdisjoint(ys)`
unfoldable pub is_disjoint : List String → List String → Bool
is_disjoint [] ys = true
is_disjoint (x ∷ xs) ys = let rest = is_disjoint xs ys in if contains x ys then false else rest

abbrev pub is_summarized : List String → List String → Bool
is_summarized prev_ids curr_ids =
    is_any prev_ids && is_any curr_ids && is_disjoint prev_ids curr_ids

abbrev pub is_stop : Option String → String → Bool
is_stop none cid = false
is_stop (some stop) cid = text_eq.same cid stop

module _ {M : Type 0} where
  -- The checkpoints by their ids; one without an id is left out.
  unfoldable pub by_ids :
      List (String × Checkpoint M) → List (Checkpoint M) → List (String × Checkpoint M)
  by_ids by_id [] = by_id
  by_ids by_id (ct ∷ cts) =
      by_ids (elim ct.checkpoint_id [ none ↦ by_id | some cid ↦ put cid ct by_id ]) cts

  module _ (aget_tuple : String → Option (Checkpoint M)) (by_id : List (String × Checkpoint M))
      (stop_at : Option String) where
    -- The parent is one that was listed, or is read.
    abbrev pub find_parent : String → Option (Checkpoint M)
    find_parent parent_cid = elim (get parent_cid by_id) [
      | some ct ↦ some ct
      | none ↦ aget_tuple parent_cid
    ]

    abbrev pub parent_of : Option (Option String) → Option (Checkpoint M)
    parent_of (some (some parent_cid)) = find_parent parent_cid
    parent_of _ = none

    -- The next checkpoint of the loop after one with the id.
    abbrev pub next_of : String → Checkpoint M → Option (Checkpoint M)
    next_of cid ct = if is_stop stop_at cid then none else parent_of ct.parent_config

    abbrev pub visited :
        Option String
        → Checkpoint M
        → (String → Option (List (String × List M)))
        → Option (List (String × List M))
    visited none ct later = some []
    visited (some cid) ct later = elim (later cid) [
      | none ↦ none
      | some history ↦ some ((cid, ct.messages) ∷ history)
    ]

    -- The loop from the anchor back, the latest checkpoint first.
    unfoldable pub walk : ℕ → Option (Checkpoint M) → Option (List (String × List M))
    walk zero current = none
    walk (suc fuel) none = some []
    walk (suc fuel) (some ct) = visited ct.checkpoint_id ct (λ cid. walk fuel (next_of cid ct))

  -- `history.reverse()`
  unfoldable pub reverse : List (String × List M) → List (String × List M)
  reverse [] = []
  reverse (h ∷ history) = reverse history ++ h ∷ []

  module _ (id_of : M → Option String) where
    abbrev pub id_list : Option String → List String
    id_list none = []
    id_list (some i) = i ∷ []

    unfoldable pub ids_of : List M → List String
    ids_of [] = []
    ids_of (m ∷ msgs) = id_list (id_of m) ++ ids_of msgs

    abbrev pub put_entry : String → M → Progress M → Progress M
    put_entry cid m st = record st { timeline = st.timeline ++ TimelineItem.entry m cid ∷ [] }

    abbrev pub put_new : String → M → String → Progress M → Progress M
    put_new cid m i st = put_entry cid m (record st { seen_ids = add st.seen_ids i })

    abbrev pub add_message : String → M → Option String → Progress M → Progress M
    add_message cid m none st = put_entry cid m st
    add_message cid m (some i) st = if contains i st.seen_ids then st else put_new cid m i st

    unfoldable pub add_messages : String → List M → Progress M → Progress M
    add_messages cid [] st = st
    add_messages cid (m ∷ msgs) st = add_messages cid msgs (add_message cid m (id_of m) st)

    abbrev pub mark : Bool → String → Progress M → Progress M
    mark true cid st = record st {
      timeline = st.timeline ++ TimelineItem.summarization_marker cid ∷ [];
    }
    mark false cid st = st

    -- The body of the loop over the history.
    abbrev pub add_checkpoint : String → List M → Progress M → Progress M
    add_checkpoint cid msgs st =
        let curr_ids : List String = set_of (ids_of msgs) in
        record (add_messages cid msgs (mark (is_summarized st.prev_ids curr_ids) cid st)) {
          prev_ids = curr_ids;
        }

    unfoldable pub add_history : List (String × List M) → Progress M → Progress M
    add_history [] st = st
    add_history ((cid, msgs) ∷ history) st = add_history history (add_checkpoint cid msgs st)

    abbrev pub no_progress : Progress M
    no_progress = record { timeline = []; seen_ids = []; prev_ids = [] }

    unfoldable pub timeline_of : List (String × List M) → List (TimelineItem M)
    timeline_of history = (add_history history no_progress).timeline

    -- `load_timeline`, with the latest checkpoint or the one with the id of the anchor.
    abbrev pub from_anchor :
        ℕ
        → (String → Option (Checkpoint M))
        → List (Checkpoint M)
        → Option String
        → Option (Checkpoint M)
        → Option (List (TimelineItem M))
    from_anchor fuel aget_tuple listed stop_at none = some []
    from_anchor fuel aget_tuple listed stop_at (some anchor) =
        elim (walk aget_tuple (by_ids [] listed) stop_at fuel (some anchor)) [
          | none ↦ none
          | some history ↦ some (timeline_of (reverse history))
        ]

    unfoldable pub load_timeline :
        ℕ
        → (String → Option (Checkpoint M))
        → Option (Checkpoint M)
        → List (Checkpoint M)
        → Option String
        → Option String
        → Option (List (TimelineItem M))
    load_timeline fuel aget_tuple latest listed anchor_checkpoint_id stop_at =
        from_anchor fuel aget_tuple listed stop_at
          (elim anchor_checkpoint_id [ none ↦ latest | some cid ↦ aget_tuple cid ])
