-- ===== src/Io/Walk.antt =====
-- The walk of composer/io/thread_timeline.py ends, with the checkpoints of the chain, if a parent is older than
-- its child.
use certora_aicomposer.Prelude.{
  ℕ, zero, suc, ◌+◌, ◌<◌, String, Bool, true, false, List, [], ◌∷◌, Option, none, some, ◌≡◌, refl,
  ap, ◌∙◌, arith, if◌then◌else◌,
}
use certora_aicomposer.Io.Timeline.{
  Checkpoint, TimelineItem, by_ids, is_stop, find_parent, parent_of, next_of, visited, walk,
  reverse, timeline_of, from_anchor, load_timeline,
}
use certora_aicomposer.Io.Faithful.{Faithful, timeline_of-Faithful}

module _ {M : Type 0} (aget_tuple : String → Option (Checkpoint M))
    (by_id : List (String × Checkpoint M)) (stop_at : Option String) where
  -- The checkpoints from one back to the one at which the walk stops, to the first, or to one without an id.
  pub data Chain : Option (Checkpoint M) → List (String × List M) → Type 0 where
    ended : Chain none []
    unnamed : (ct : Checkpoint M) → ct.checkpoint_id ≡ none → Chain (some ct) []
    back :
        (ct : Checkpoint M) (cid : String) (history : List (String × List M))
        → ct.checkpoint_id ≡ some cid
        → Chain (next_of aget_tuple by_id stop_at cid ct) history
        → Chain (some ct) ((cid, ct.messages) ∷ history)

  -- What a walk that ends has gone along.
  pub record Walked (fuel : ℕ) (o : Option (Checkpoint M)) : Type 0 where
    pub history : List (String × List M)
    pub chain : Chain o history
    pub walked : walk aget_tuple by_id stop_at fuel o ≡ some history

  module _ (age : Checkpoint M → ℕ)
      (older : (parent_cid : String) (ct p : Checkpoint M)
        → ct.parent_config ≡ some (some parent_cid)
        → find_parent aget_tuple by_id stop_at parent_cid ≡ some p
        → age p < age ct) where
    abbrev Enough : ℕ → Option (Checkpoint M) → Type 0
    Enough fuel none = 0 < fuel
    Enough fuel (some ct) = age ct + 1 < fuel

    parent-Enough :
        (fuel : ℕ) (ct : Checkpoint M) (config : Option (Option String))
        → ct.parent_config ≡ config
        → age ct < fuel
        → Enough fuel (parent_of aget_tuple by_id stop_at config)
    parent-Enough fuel ct none e l = omega arith
    parent-Enough fuel ct (some none) e l = omega arith
    parent-Enough fuel ct (some (some parent_cid)) e l =
        found (find_parent aget_tuple by_id stop_at parent_cid) refl
      where
        found :
            (o : Option (Checkpoint M))
            → find_parent aget_tuple by_id stop_at parent_cid ≡ o
            → Enough fuel o
        found none g = omega arith
        found (some p) g = let y : age p < age ct = older parent_cid ct p e g in omega arith

    next-Enough :
        (fuel : ℕ) (ct : Checkpoint M) (cid : String)
        → age ct < fuel
        → Enough fuel (next_of aget_tuple by_id stop_at cid ct)
    next-Enough fuel ct cid l = either (is_stop stop_at cid)
      where
        either :
            (b : Bool)
            → Enough fuel (if b then none else parent_of aget_tuple by_id stop_at ct.parent_config)
        either true = omega arith
        either false = parent-Enough fuel ct ct.parent_config refl l

    pub walk_returns : (fuel : ℕ) (o : Option (Checkpoint M)) → Enough fuel o → Walked fuel o
    unfolding walk
    walk_returns zero none e = absurd (omega arith)
    walk_returns zero (some ct) e = absurd (omega arith)
    walk_returns (suc fuel) none e = record { history = []; chain = Chain.ended; walked = refl }
    walk_returns (suc fuel) (some ct) e =
        named
          (λ cid.
            walk_returns fuel (next_of aget_tuple by_id stop_at cid ct)
              (next-Enough fuel ct cid (omega arith)))
          ct.checkpoint_id refl
      where
        later : String → Option (List (String × List M))
        later cid = walk aget_tuple by_id stop_at fuel (next_of aget_tuple by_id stop_at cid ct)

        named :
            ((cid : String) → Walked fuel (next_of aget_tuple by_id stop_at cid ct))
            → (o : Option String) → ct.checkpoint_id ≡ o
            → Walked (suc fuel) (some ct)
        named tail none n = record {
          history = [];
          chain = Chain.unnamed ct n;
          walked = ap (λ o. visited aget_tuple by_id stop_at o ct later) n;
        }
        named tail (some cid) n =
            let rest : Walked fuel (next_of aget_tuple by_id stop_at cid ct) = tail cid in
            record {
              history = (cid, ct.messages) ∷ rest.history;
              chain = Chain.back ct cid rest.history n rest.chain;
              walked =
                  ap (λ o. visited aget_tuple by_id stop_at o ct later) n
                  ∙ ap
                      (λ h. elim h [
                        | none ↦ none
                        | some history ↦ some ((cid, ct.messages) ∷ history)
                      ])
                      rest.walked;
            }

module _ {M : Type 0} (id_of : M → Option String) (aget_tuple : String → Option (Checkpoint M))
    (listed : List (Checkpoint M)) (stop_at : Option String) where
  -- The timeline that is returned, of the chain from the anchor.
  pub record Loaded (anchor : Checkpoint M) (result : Option (List (TimelineItem M))) : Type 0 where
    pub history : List (String × List M)
    pub chain : Chain aget_tuple (by_ids [] listed) stop_at (some anchor) history
    pub timeline : List (TimelineItem M)
    pub returned : result ≡ some timeline
    pub faithful : Faithful id_of (reverse history) timeline

  -- If the parent of a checkpoint, as it is found, is always older, and there is fuel for more checkpoints
  -- than the anchor's age, then a timeline is returned for an anchor that is found; it is that of the
  -- checkpoints from the first of the walk to the anchor, with each of their messages once.
  pub load_timeline_returns :
      (age : Checkpoint M → ℕ)
      → ((parent_cid : String) (ct p : Checkpoint M)
          → ct.parent_config ≡ some (some parent_cid)
          → find_parent aget_tuple (by_ids [] listed) stop_at parent_cid ≡ some p
          → age p < age ct)
      → (fuel : ℕ) (latest : Option (Checkpoint M)) (anchor_id : String) (anchor : Checkpoint M)
      → aget_tuple anchor_id ≡ some anchor
      → age anchor + 1 < fuel
      → Loaded anchor (load_timeline id_of fuel aget_tuple latest listed (some anchor_id) stop_at)
  unfolding load_timeline
  load_timeline_returns age older fuel latest anchor_id anchor found enough =
      let w : Walked aget_tuple (by_ids [] listed) stop_at fuel (some anchor) =
        walk_returns aget_tuple (by_ids [] listed) stop_at age older fuel (some anchor) enough in
      record {
        history = w.history;
        chain = w.chain;
        timeline = timeline_of id_of (reverse w.history);
        returned =
            ap (from_anchor id_of fuel aget_tuple listed stop_at) found
            ∙ ap
                (λ h. elim h [
                  | none ↦ none
                  | some history ↦ some (timeline_of id_of (reverse history))
                ])
                w.walked;
        faithful = timeline_of-Faithful id_of (reverse w.history);
      }
