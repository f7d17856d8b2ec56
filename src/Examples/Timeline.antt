-- ===== src/Examples/Timeline.antt =====
-- The timeline of a thread of two checkpoints, composer/io/thread_timeline.py. A message is its text with an
-- optional id.
use text.Mathlib.Text.{◌==◌}
use certora_aicomposer.Prelude.{
  ℕ, ◌<◌, String, Bool, true, false, List, [], ◌∷◌, Option, none, some, ◌≡◌, refl, sym, subst,
  arith, if◌then◌else◌,
}
use certora_aicomposer.Sets.{contains, add, add_all}
use certora_aicomposer.KeyMap.{get}
use certora_aicomposer.Io.Timeline.{
  Checkpoint, TimelineItem, by_ids, find_parent, ids_of, is_disjoint, add_messages, add_history,
  timeline_of, load_timeline,
}
use certora_aicomposer.Io.Faithful.{Faithful, timeline_of-Faithful}
use certora_aicomposer.Io.Walk.{Loaded, load_timeline_returns}

abbrev Message : Type 0
Message = Option String × String

abbrev id_of : Message → Option String
id_of (i, text) = i

-- The second checkpoint has a new message, and the third has replaced them all.
abbrev history : List (String × List Message)
history =
    ("c1", (some "m1", "system") ∷ (none, "note") ∷ [])
    ∷ ("c2", (some "m1", "system") ∷ (some "m2", "hello") ∷ [])
    ∷ ("c3", (some "m3", "summary") ∷ [])
    ∷ []

items :
    timeline_of id_of history
    ≡ TimelineItem.entry (some "m1", "system") "c1"
      ∷ TimelineItem.entry (none, "note") "c1"
      ∷ TimelineItem.entry (some "m2", "hello") "c2"
      ∷ TimelineItem.summarization_marker "c3"
      ∷ TimelineItem.entry (some "m3", "summary") "c3"
      ∷ []
unfolding timeline_of add_history add_messages ids_of is_disjoint contains add add_all
items = refl

timeline_of-Faithful_example : Faithful id_of history (timeline_of id_of history)
timeline_of-Faithful_example = timeline_of-Faithful id_of history

abbrev first : Checkpoint Message
first = record {
  checkpoint_id = some "c1";
  messages = (some "m1", "system") ∷ [];
  parent_config = none;
}

abbrev second : Checkpoint Message
second = record {
  checkpoint_id = some "c2";
  messages = (some "m1", "system") ∷ (some "m2", "hello") ∷ [];
  parent_config = some (some "c1");
}

abbrev chosen : Bool → Bool → Option (Checkpoint Message)
chosen true b = some first
chosen false true = some second
chosen false false = none

abbrev aget_tuple : String → Option (Checkpoint Message)
aget_tuple cid = chosen (cid == "c1") (cid == "c2")

abbrev age_of : Option (Option String) → ℕ
age_of (some (some cid)) = if cid == "c1" then 1 else 2
age_of _ = 0

abbrev age : Checkpoint Message → ℕ
age ct = age_of ct.parent_config

some-eq : (a b : Checkpoint Message) → some a ≡ some b → a ≡ b
some-eq a b e = cc e

chosen-age :
    (a b : Bool) (p : Checkpoint Message) → chosen a b ≡ some p → age p < (if a then 1 else 2)
chosen-age true b p e = subst (λ q. age q < 1) (some-eq first p e) (omega arith)
chosen-age false true p e = subst (λ q. age q < 2) (some-eq second p e) (omega arith)
chosen-age false false p e = cc e

older :
    (parent_cid : String) (ct p : Checkpoint Message)
    → ct.parent_config ≡ some (some parent_cid)
    → find_parent aget_tuple (by_ids [] []) none parent_cid ≡ some p
    → age p < age ct
unfolding by_ids get
older parent_cid ct p e g =
    subst (λ c. age p < age_of c) (sym e) (chosen-age (parent_cid == "c1") (parent_cid == "c2") p g)

load_timeline_returns_example :
    Loaded id_of aget_tuple [] none second
      (load_timeline id_of 3 aget_tuple none [] (some "c2") none)
load_timeline_returns_example =
    load_timeline_returns id_of aget_tuple [] none age older 3 none "c2" second refl (omega arith)
