-- ===== src/Registry/Stubs/Keys.antt =====
-- The contracts and the paths of the stubs in composer/spec/natspec/registry.py.
use text.Mathlib.Text.{◌==◌}
use text.Mathlib.TextEquality.{eq_iff}
use certora_aicomposer.Prelude.{
  String, List, [], ◌∷◌, some, ◌≡◌, ◌≢◌, ◌⊎◌, refl, sym, ap, ◌∙◌, Bool-cases, inl, inr,
}
use certora_aicomposer.Dict.{Dict, lookup, lookup-insert_self, lookup-insert_ne}
use certora_aicomposer.Registry.Stubs.{StubMemoryState, InitialStub, Outside}
use certora_aicomposer.Registry.Stubs.Create.{by_path}

-- The contracts and the paths of the stubs.
abbrev pub stub_keys : Dict InitialStub → List (String × String)
stub_keys [] = []
stub_keys ((id, init) ∷ rest) = (id, init.path) ∷ stub_keys rest

abbrev pub memory_keys : Dict StubMemoryState → List (String × String)
memory_keys [] = []
memory_keys ((id, state) ∷ rest) = (id, state.path) ∷ memory_keys rest

abbrev pub AbsentId : String → List (String × String) → Type 0
AbsentId i [] = Unit {0}
AbsentId i ((j, _) ∷ rest) = (j ≢ i) × AbsentId i rest

abbrev pub AbsentPath : String → List (String × String) → Type 0
AbsentPath p [] = Unit {0}
AbsentPath p ((_, q) ∷ rest) = (q ≢ p) × AbsentPath p rest

-- No contract and no path stands twice.
abbrev pub Separate : List (String × String) → Type 0
Separate [] = Unit {0}
Separate ((i, p) ∷ rest) = AbsentId i rest × AbsentPath p rest × Separate rest

-- Every stub's contract has an interface.
abbrev pub Interfaced : Dict String → Dict InitialStub → Type 0
Interfaced interfaces [] = Unit {0}
Interfaced interfaces ((id, _) ∷ rest) =
    ((source : String) × (lookup id interfaces ≡ some source)) × Interfaced interfaces rest

-- What a lookup in a dictionary with one more entry in front finds.
pub lookup-cons :
    {V : Type 0} (i j : String) (v w : V) (d : Dict V)
    → lookup j ((i, v) ∷ d) ≡ some w
    → (i ≡ j) × (v ≡ w) ⊎ (i ≢ j) × (lookup j d ≡ some w)
unfolding lookup
lookup-cons i j v w d h = elim (Bool-cases (i == j)) [
  | inl same ↦ inl ((eq_iff i j).0 same, cc (rw same at h))
  | inr other ↦ inr (λ e. cc ((eq_iff i j).1 e), rw other at h)
]

lookup-path :
    (p id : String) (state : StubMemoryState) (d : Dict StubMemoryState)
    → AbsentPath p (memory_keys d)
    → lookup id d ≡ some state
    → state.path ≢ p
unfolding lookup
lookup-path p id state [] absent h = cc
lookup-path p id state ((j, v) ∷ d) absent h = elim (lookup-cons j id v state d h) [
  | inl (e, f) ↦ λ q. absent.0 (ap (λ x. x.path) f ∙ q)
  | inr (ne, old) ↦ lookup-path p id state d absent.1 old
]

pub one_path :
    (i j : String) (s t : StubMemoryState) (d : Dict StubMemoryState)
    → Separate (memory_keys d)
    → lookup i d ≡ some s
    → lookup j d ≡ some t
    → s.path ≡ t.path
    → i ≡ j
unfolding lookup
one_path i j s t [] separate h k p = cc
one_path i j s t ((n, v) ∷ d) separate h k p = elim (lookup-cons n i v s d h) [
  | inl (e, f) ↦ elim (lookup-cons n j v t d k) [
    | inl (e', f') ↦ sym e ∙ e'
    | inr (ne', old') ↦
        absurd (lookup-path v.path j t d separate.1 old' (sym p ∙ ap (λ x. x.path) (sym f)))
  ]
  | inr (ne, old) ↦ elim (lookup-cons n j v t d k) [
    | inl (e', f') ↦
        absurd (lookup-path v.path i s d separate.1 old (p ∙ ap (λ x. x.path) (sym f')))
    | inr (ne', old') ↦ one_path i j s t d separate.2 old old' p
  ]
]

module _ (out : Outside) where
  by_path-absent :
      (p : String) (d : Dict StubMemoryState) (mirror : Dict String)
      → AbsentPath p (memory_keys d)
      → lookup p (by_path out d mirror) ≡ lookup p mirror
  unfolding by_path
  by_path-absent p [] mirror absent = refl
  by_path-absent p ((j, v) ∷ d) mirror absent =
      by_path-absent p d _ absent.1 ∙ lookup-insert_ne v.path p v.content mirror absent.0

  pub by_path-found :
      (id : String) (state : StubMemoryState) (d : Dict StubMemoryState) (mirror : Dict String)
      → Separate (memory_keys d)
      → lookup id d ≡ some state
      → lookup state.path (by_path out d mirror) ≡ some state.content
  unfolding by_path lookup
  by_path-found id state [] mirror separate h = cc
  by_path-found id state ((j, v) ∷ d) mirror separate h = elim (lookup-cons j id v state d h) [
    | inl (e, f) ↦
        rw (← f) (by_path-absent v.path d _ separate.1 ∙ lookup-insert_self v.path v.content mirror)
    | inr (ne, old) ↦ by_path-found id state d _ separate.2 old
  ]
