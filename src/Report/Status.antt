-- ===== src/Report/Status.antt =====
-- The status that composer/spec/source/report/grouping.py gives a group.
use certora_aicomposer.Prelude.{Bool, true, false, List, [], ◌∷◌, ◌≡◌, ◌≢◌, ◌⊎◌, inl, inr, refl}
use certora_aicomposer.Sets.{In, NotIn, All}
use certora_aicomposer.Report.Verdict.{NodeStatus}
use certora_aicomposer.Report.Schema.{GroupStatus}
use certora_aicomposer.Report.Grouping.{status_from, aggregate_status}

-- What the comment of the function says of each status.
abbrev pub Summary : GroupStatus → List NodeStatus → Type 0
Summary GroupStatus.violated statuses = In NodeStatus.violated statuses
Summary GroupStatus.verified statuses =
    All (λ s. s ≡ NodeStatus.verified) statuses × In NodeStatus.verified statuses
Summary GroupStatus.partial statuses =
    NotIn NodeStatus.violated statuses
    × In NodeStatus.verified statuses
    × ¬ All (λ s. s ≡ NodeStatus.verified) statuses
Summary GroupStatus.no_results statuses =
    NotIn NodeStatus.violated statuses × NotIn NodeStatus.verified statuses

-- The loop: what was seen before, and what is left.
Seen : Bool → Bool → GroupStatus → List NodeStatus → Type 0
Seen all any GroupStatus.violated statuses = In NodeStatus.violated statuses
Seen all any GroupStatus.verified statuses =
    (all ≡ true)
    × All (λ s. s ≡ NodeStatus.verified) statuses
    × ((any ≡ true) ⊎ In NodeStatus.verified statuses)
Seen all any GroupStatus.partial statuses =
    NotIn NodeStatus.violated statuses
    × ((any ≡ true) ⊎ In NodeStatus.verified statuses)
    × ((all ≡ false) ⊎ (¬ All (λ s. s ≡ NodeStatus.verified) statuses))
Seen all any GroupStatus.no_results statuses =
    NotIn NodeStatus.violated statuses × (any ≡ false) × NotIn NodeStatus.verified statuses

-- A status that is neither.
Neither : NodeStatus → Type 0
Neither s = (s ≢ NodeStatus.violated) × (s ≢ NodeStatus.verified)

skip-Seen :
    (all any : Bool) (g : GroupStatus) (s : NodeStatus) (statuses : List NodeStatus)
    → Neither s
    → Seen false any g statuses
    → Seen all any g (s ∷ statuses)
unfolding Seen Neither
skip-Seen all any GroupStatus.violated s statuses n h = inr h
skip-Seen all any GroupStatus.verified s statuses n h = cc h.0
skip-Seen all any GroupStatus.partial s statuses n h =
    ((n.0, h.0), elim h.1 [ inl e ↦ inl e | inr m ↦ inr (inr m) ], inr (λ a. n.1 a.0))
skip-Seen all any GroupStatus.no_results s statuses n h = ((n.0, h.0), h.1, (n.1, h.2))

verified-Seen :
    (all any : Bool) (g : GroupStatus) (statuses : List NodeStatus)
    → Seen all true g statuses
    → Seen all any g (NodeStatus.verified ∷ statuses)
unfolding Seen
verified-Seen all any GroupStatus.violated statuses h = inr h
verified-Seen all any GroupStatus.verified statuses h = (h.0, (refl, h.1), inr (inl refl))
verified-Seen all any GroupStatus.partial statuses h =
    ((λ e. cc e, h.0), inr (inl refl), elim h.2 [ inl e ↦ inl e | inr n ↦ inr (λ a. n a.1) ])
verified-Seen all any GroupStatus.no_results statuses h = cc h.1

status_from-Seen :
    (all any : Bool) (statuses : List NodeStatus)
    → Seen all any (status_from all any statuses) statuses
unfolding status_from Seen Neither
status_from-Seen true true [] = (refl, tt, inl refl)
status_from-Seen false true [] = (tt, inl refl, inl refl)
status_from-Seen all false [] = (tt, refl, tt)
status_from-Seen all any (NodeStatus.violated ∷ statuses) = inl refl
status_from-Seen all any (NodeStatus.verified ∷ statuses) =
    verified-Seen all any (status_from all true statuses) statuses
      (status_from-Seen all true statuses)
status_from-Seen all any (s ∷ statuses) =
    skip-Seen all any (status_from false any statuses) s statuses (λ e. cc e, λ e. cc e)
      (status_from-Seen false any statuses)

Seen-Summary :
    (g : GroupStatus) (statuses : List NodeStatus) → Seen true false g statuses → Summary g statuses
unfolding Seen
Seen-Summary GroupStatus.violated statuses h = h
Seen-Summary GroupStatus.verified statuses h = (h.1, elim h.2 [ inl e ↦ cc e | inr m ↦ m ])
Seen-Summary GroupStatus.partial statuses h =
    (h.0, elim h.1 [ inl e ↦ cc e | inr m ↦ m ], elim h.2 [ inl e ↦ cc e | inr n ↦ n ])
Seen-Summary GroupStatus.no_results statuses h = (h.0, h.2)

-- The status of a group is VIOLATED only if a rule is, VERIFIED only if there is a rule and every one
-- is, PARTIAL only if none is violated and some but not all are verified, and NO_RESULTS only if none
-- is violated or verified.
pub aggregate_status-Summary :
    (statuses : List NodeStatus) → Summary (aggregate_status statuses) statuses
unfolding aggregate_status
aggregate_status-Summary statuses =
    Seen-Summary (aggregate_status statuses) statuses (status_from-Seen true false statuses)
