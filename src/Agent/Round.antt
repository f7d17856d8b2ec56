-- ===== src/Agent/Round.antt =====
-- The rounds of the merge in `asearch` of composer/spec/agent_index.py: what holds at the head of each,
-- and how they end.
use certora_aicomposer.Prelude.{
  ℕ, suc, ◌≤◌, ◌<◌, String, Bool, false, List, [], ◌∷◌, Option, some, ◌≡◌, ◌⊎◌, refl, ap,
  if◌then◌else◌, length, ◌==◌, map,
}
use mathlib.Core.List.{◌++◌}
use certora_aicomposer.Sets.{
  contains, add, text_eq, In, Distinct, All, All-append, All-In, All_of_In,
}
use certora_aicomposer.Agent.Index.{Hit}
use certora_aicomposer.Agent.Merge.{peeks, best, pop_at, merge_hits}
use certora_aicomposer.Agent.Pools.{From, Below, Descending}

module _ (Score : Type 0) (greater : Score → Score → Bool) where
  abbrev pub keys : List (Hit Score) → List String
  keys = map (λ h. h.key)

  -- The hit's key is among those of the results, or there are five, none of a lower score.
  abbrev pub Covered : List (Hit Score) → Hit Score → Type 0
  Covered ys g =
      In g.key (keys ys) ⊎ ((length ys ≡ 5) × All (λ y. greater g.score y.score ≡ false) ys)

  -- The results are at most five, of different keys, the best first.
  pub record Ranked (ys : List (Hit Score)) : Type 0 where
    pub few : length ys ≤ 5
    pub distinct : Distinct (keys ys)
    pub descending : Descending Score greater ys

  -- What holds at the head of each round.
  pub record Round (pools : List (List (Hit Score))) (seen : List String)
      (context : List (Hit Score)) : Type 0 where
    pub few : length context < 5
    pub known : seen ≡ keys context
    pub distinct : Distinct (keys context)
    pub descending : Descending Score greater context
    pub above : All (λ y. All (Below Score greater y.score) pools) context
    pub sorted : All (Descending Score greater) pools

  -- How the rounds from there on end.
  pub record Ends (r : Option (List (Hit Score))) (pools : List (List (Hit Score)))
      (context : List (Hit Score)) : Type 0 where
    pub ys : List (Hit Score)
    pub zs : List (Hit Score)
    pub run : r ≡ some ys
    pub more : ys ≡ context ++ zs
    pub ranked : Ranked ys
    pub source : All (λ z. From Score greater z pools) zs
    pub covered : All (All (Covered ys)) pools

  pub Descending-snoc :
      (ys : List (Hit Score)) (h : Hit Score)
      → Descending Score greater ys
      → All (λ y. greater h.score y.score ≡ false) ys
      → Descending Score greater (ys ++ h ∷ [])
  Descending-snoc [] h d a = (tt, tt)
  Descending-snoc (y ∷ ys) h d a = (
    All-append (λ g. greater g.score y.score ≡ false) ys (h ∷ []) d.0 (a.0, tt),
    Descending-snoc ys h d.1 a.1,
  )

  pub length-snoc :
      (ys : List (Hit Score)) (h : Hit Score) → length (ys ++ h ∷ []) ≡ suc (length ys)
  length-snoc [] h = refl
  length-snoc (y ∷ ys) h = ap suc (length-snoc ys h)

  pub All-map :
      (P Q : Hit Score → Type 0) (ys : List (Hit Score))
      → ((y : Hit Score) → P y → Q y)
      → All P ys
      → All Q ys
  All-map P Q [] f a = tt
  All-map P Q (y ∷ ys) f a = (f y a.0, All-map P Q ys f a.1)

  -- Where every result is at least every hit, each hit is at most every result.
  pub swapped :
      (ys : List (Hit Score)) (pools : List (List (Hit Score)))
      → All (λ y. All (Below Score greater y.score) pools) ys
      → All (All (λ g. All (λ y. greater g.score y.score ≡ false) ys)) pools
  swapped ys [] a = tt
  swapped ys (pool ∷ pools) a = (
    All_of_In _ pool (λ g mg. All_of_In _ ys (λ y my. All-In _ g pool (All-In _ y ys a my).0 mg)),
    swapped ys pools (All-map _ _ ys (λ y k. k.1) a),
  )

  pub All_pools :
      {P Q : Hit Score → Type 0} (pools : List (List (Hit Score)))
      → ((g : Hit Score) → P g → Q g)
      → All (All P) pools
      → All (All Q) pools
  All_pools [] f a = tt
  All_pools (pool ∷ pools) f a = (All-map _ _ pool f a.0, All_pools pools f a.1)

  -- One round, the best hit given.
  unfoldable pub next :
      ℕ
      → List (List (Hit Score))
      → List String
      → List (Hit Score)
      → Hit Score
      → Option (List (Hit Score))
  next f left seen context h =
      if contains h.key seen
      then merge_hits Score greater f left seen context
      else if length (context ++ h ∷ []) == 5
      then some (context ++ h ∷ [])
      else merge_hits Score greater f left (add seen h.key) (context ++ h ∷ [])

  pub merge_hits_round :
      (f i : ℕ) (h : Hit Score) (pools : List (List (Hit Score))) (seen : List String)
      (context : List (Hit Score))
      → best Score greater (peeks Score greater 0 pools) ≡ some (i, h)
      → merge_hits Score greater (suc f) pools seen context
        ≡ next f (pop_at Score greater i pools) seen context h
  unfolding merge_hits next
  merge_hits_round f i h pools seen context e = rw (e, merge_hits) refl
