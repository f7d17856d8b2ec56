-- ===== src/Prover/TreeView/Messages.antt =====
-- Which messages `_collect_child_errors` of composer/prover/results.py collects.
use text.Mathlib.Text.{◌==◌}
use text.Mathlib.TextEquality.{eq_iff}
use certora_aicomposer.Prelude.{
  String, Bool, true, List, [], ◌∷◌, Option, ◌≡◌, ◌⊎◌, inl, inr, refl, subst, Bool-cases,
}
use certora_aicomposer.Prover.Types.{StatusCodes, RuleNotificationMessages, RuleNodeModel, NodeList}
use certora_aicomposer.Prover.TreeView.Flatten.{
  to_status_string, is_error, set_add, add_errors, collect_child_errors, collect_from_children,
}

abbrev pub In : String → List String → Type 0
In m [] = ⊥
In m (x ∷ xs) = (x ≡ m) ⊎ In m xs

-- One of the notifications has the message and a severity that the filter takes.
abbrev pub Told : (String → Bool) → String → List RuleNotificationMessages → Type 0
Told f m [] = ⊥
Told f m (e ∷ errors) = (f e.severity ≡ true) × (e.message ≡ m) ⊎ Told f m errors

-- `Reports f m tree`: the message is told by a node that is reached from the root of the tree
-- through nodes with the status ERROR, itself included.
mutual
  pub data Reports (f : String → Bool) (m : String) : RuleNodeModel → Type 0 where
    here :
        {name : String} {output : List String} {children : NodeList} {status : Option String}
        {type : String} {errors : List RuleNotificationMessages}
        → to_status_string status ≡ StatusCodes.error
        → Told f m errors
        → Reports f m (RuleNodeModel.node name output children status type errors)
    below :
        {name : String} {output : List String} {children : NodeList} {status : Option String}
        {type : String} {errors : List RuleNotificationMessages}
        → to_status_string status ≡ StatusCodes.error
        → SomeReports f m children
        → Reports f m (RuleNodeModel.node name output children status type errors)

  pub data SomeReports (f : String → Bool) (m : String) : NodeList → Type 0 where
    first :
        {c : RuleNodeModel} {rest : NodeList}
        → Reports f m c
        → SomeReports f m (NodeList.one_more c rest)
    later :
        {c : RuleNodeModel} {rest : NodeList}
        → SomeReports f m rest
        → SomeReports f m (NodeList.one_more c rest)

set_add-kept : (m x : String) (xs : List String) → In m xs → In m (set_add xs x)
unfolding set_add
set_add-kept m x [] h = elim h [ ]
set_add-kept m x (y ∷ ys) h = elim (Bool-cases (y == x)) [
  | inl same ↦ rw same h
  | inr other ↦ rw other (elim h [ inl e ↦ inl e | inr k ↦ inr (set_add-kept m x ys k) ])
]

set_add-new : (x : String) (xs : List String) → In x (set_add xs x)
unfolding set_add
set_add-new x [] = inl refl
set_add-new x (y ∷ ys) = elim (Bool-cases (y == x)) [
  | inl same ↦ rw same (inl ((eq_iff y x).0 same))
  | inr other ↦ rw other (inr (set_add-new x ys))
]

one_more_behind :
    (y x m : String) (ys : List String) → In m ys ⊎ (x ≡ m) → ((y ≡ m) ⊎ In m ys) ⊎ (x ≡ m)
one_more_behind y x m ys (inl old) = inl (inr old)
one_more_behind y x m ys (inr e) = inr e

set_add-from : (m x : String) (xs : List String) → In m (set_add xs x) → In m xs ⊎ (x ≡ m)
unfolding set_add
set_add-from m x [] (inl e) = inr e
set_add-from m x [] (inr h) = elim h [ ]
set_add-from m x (y ∷ ys) h = elim (Bool-cases (y == x)) [
  | inl same ↦ inl (rw same at h)
  | inr other ↦
      let k : (y ≡ m) ⊎ In m (set_add ys x) = rw other at h in
      elim k [ inl e ↦ inl (inl e) | inr k' ↦ one_more_behind y x m ys (set_add-from m x ys k') ]
]

module _ (f : String → Bool) (m : String) where
  add_errors-kept :
      (errors : List RuleNotificationMessages) (xs : List String)
      → In m xs
      → In m (add_errors f errors xs)
  unfolding add_errors
  add_errors-kept [] xs h = h
  add_errors-kept (e ∷ errors) xs h = elim (Bool-cases (f e.severity)) [
    | inl yes' ↦ rw yes' (add_errors-kept errors _ (set_add-kept m e.message xs h))
    | inr no' ↦ rw no' (add_errors-kept errors xs h)
  ]

  add_errors-Told :
      (errors : List RuleNotificationMessages) (xs : List String)
      → Told f m errors
      → In m (add_errors f errors xs)
  unfolding add_errors
  add_errors-Told [] xs h = elim h [ ]
  add_errors-Told (e ∷ errors) xs (inl (taken, same)) = rw taken (
      add_errors-kept errors _
        (subst (λ x. In x (set_add xs e.message)) same (set_add-new e.message xs)))
  add_errors-Told (e ∷ errors) xs (inr h) = add_errors-Told errors _ h

  add_errors-from :
      (errors : List RuleNotificationMessages) (xs : List String)
      → In m (add_errors f errors xs)
      → In m xs ⊎ Told f m errors
  unfolding add_errors
  add_errors-from [] xs h = inl h
  add_errors-from (e ∷ errors) xs h = elim (Bool-cases (f e.severity)) [
    | inl yes' ↦ elim (add_errors-from errors _ (rw yes' at h)) [
      | inl k ↦ elim (set_add-from m e.message xs k) [
        | inl old ↦ inl old
        | inr same ↦ inr (inl (yes', same))
      ]
      | inr told ↦ inr (inr told)
    ]
    | inr no' ↦ elim (add_errors-from errors xs (rw no' at h)) [
      | inl old ↦ inl old
      | inr told ↦ inr (inr told)
    ]
  ]

  mutual
    unfolding collect_child_errors

    collect-kept :
        (tree : RuleNodeModel) (xs : List String) → In m xs → In m (collect_child_errors tree f xs)
    collect-kept (RuleNodeModel.node name output children status type errors) xs h =
        elim (Bool-cases (is_error (to_status_string status))) [
          | inl yes' ↦ rw yes' (children-kept children _ (add_errors-kept errors xs h))
          | inr no' ↦ rw no' h
        ]

    children-kept :
        (children : NodeList) (xs : List String)
        → In m xs
        → In m (collect_from_children children f xs)
    children-kept NodeList.no_nodes xs h = h
    children-kept (NodeList.one_more c rest) xs h = children-kept rest _ (collect-kept c xs h)

  mutual
    unfolding collect_child_errors

    pub collect-Reports :
        (tree : RuleNodeModel) (xs : List String)
        → Reports f m tree
        → In m (collect_child_errors tree f xs)
    collect-Reports (RuleNodeModel.node name output children status type errors) xs
          (Reports.here failed told) =
        rw failed (children-kept children _ (add_errors-Told errors xs told))
    collect-Reports (RuleNodeModel.node name output children status type errors) xs
          (Reports.below failed some_reports) =
        rw failed (children-Reports children _ some_reports)

    children-Reports :
        (children : NodeList) (xs : List String)
        → SomeReports f m children
        → In m (collect_from_children children f xs)
    children-Reports NodeList.no_nodes xs h = elim h [ ]
    children-Reports (NodeList.one_more c rest) xs (SomeReports.first h) =
        children-kept rest _ (collect-Reports c xs h)
    children-Reports (NodeList.one_more c rest) xs (SomeReports.later h) = children-Reports rest _ h

  is_error→eq : (s : StatusCodes) → is_error s ≡ true → s ≡ StatusCodes.error
  is_error→eq StatusCodes.error h = refl
  is_error→eq StatusCodes.verified h = cc
  is_error→eq StatusCodes.violated h = cc
  is_error→eq StatusCodes.timeout h = cc
  is_error→eq StatusCodes.sanity_failed h = cc
  is_error→eq StatusCodes.skipped h = cc

  mutual
    unfolding collect_child_errors

    pub collect-from :
        (tree : RuleNodeModel) (xs : List String)
        → In m (collect_child_errors tree f xs)
        → In m xs ⊎ Reports f m tree
    collect-from (RuleNodeModel.node name output children status type errors) xs h =
        elim (Bool-cases (is_error (to_status_string status))) [
          | inl yes' ↦ elim (children-from children _ (rw yes' at h)) [
            | inl k ↦ elim (add_errors-from errors xs k) [
              | inl old ↦ inl old
              | inr told ↦ inr (Reports.here (is_error→eq _ yes') told)
            ]
            | inr k ↦ inr (Reports.below (is_error→eq _ yes') k)
          ]
          | inr no' ↦ inl (rw no' at h)
        ]

    children-from :
        (children : NodeList) (xs : List String)
        → In m (collect_from_children children f xs)
        → In m xs ⊎ SomeReports f m children
    children-from NodeList.no_nodes xs h = inl h
    children-from (NodeList.one_more c rest) xs h = elim (children-from rest _ h) [
      | inl k ↦ elim (collect-from c xs k) [ inl old ↦ inl old | inr r ↦ inr (SomeReports.first r) ]
      | inr k ↦ inr (SomeReports.later k)
    ]
