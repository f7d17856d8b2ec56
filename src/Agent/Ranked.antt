-- ===== src/Agent/Ranked.antt =====
-- What `asearch` of composer/spec/agent_index.py gives: it ends, with at most five hits of different
-- keys, the best first.
use certora_aicomposer.Prelude.{
  ℕ, zero, suc, ◌<◌, String, Bool, true, false, List, [], ◌∷◌, Option, some, ◌≡◌, inl, inr, refl,
  sym, ap, ◌∙◌, arith, length, ◌==◌, map-append, append_assoc, append-nil, Bool-cases, Option-cases,
  subst,
}
use mathlib.Core.List.{◌++◌}
use certora_aicomposer.Sets.{
  contains, add, text_eq, In, NotIn, Distinct, All, All-append, Distinct-snoc, contains→NotIn,
  contains→In, In-append_left, In-append_right,
}
use certora_aicomposer.Agent.Index.{Hit}
use certora_aicomposer.Agent.Merge.{peeks, best, pop_at, merge_hits, total, merge_pools}
use certora_aicomposer.Agent.Pools.{
  ScoreOrder, Begins, From, Below, Descending, total-pop_at, All-pop_at, All_of_pop, All-Begins,
  From-Begins, From-pop_at, best-top, best-eq-none,
}
use certora_aicomposer.Agent.Round.{
  keys, Covered, Ranked, Round, Ends, Descending-snoc, length-snoc, swapped, All_pools, All-map,
  next, merge_hits_round,
}

module _ (Score : Type 0) (greater : Score → Score → Bool) where
  -- The head of a round after one that has dropped its hit, and after one that has kept it.
  module _ (i : ℕ) (h : Hit Score) (pools : List (List (Hit Score))) (seen : List String)
      (context : List (Hit Score)) (b : Begins Score greater i h pools)
      (top : All (Below Score greater h.score) pools)
      (r : Round Score greater pools seen context) where
    abbrev left : List (List (Hit Score))
    left = pop_at Score greater i pools

    kept_sorted : All (Descending Score greater) left
    kept_sorted =
        All-pop_at Score greater (Descending Score greater) (λ g rest d. d.1) i pools r.sorted

    kept_above : (s : Score) → All (Below Score greater s) pools → All (Below Score greater s) left
    kept_above s a = All-pop_at Score greater (Below Score greater s) (λ g rest d. d.1) i pools a

    dropped-Round : Round Score greater left seen context
    dropped-Round = record {
      few = r.few;
      known = r.known;
      distinct = r.distinct;
      descending = r.descending;
      above = All-map Score greater _ _ context (λ y a. kept_above y.score a) r.above;
      sorted = kept_sorted;
    }

    -- The hit is at most every result so far.
    below_context : All (λ y. greater h.score y.score ≡ false) context
    below_context =
        All-map Score greater _ _ context
          (λ y a. All-Begins Score greater (λ g. greater g.score y.score ≡ false) i h pools a b)
          r.above

    keys-snoc : keys Score greater (context ++ h ∷ []) ≡ keys Score greater context ++ h.key ∷ []
    keys-snoc = map-append _ context (h ∷ [])

    above_snoc : All (λ y. All (Below Score greater y.score) left) (context ++ h ∷ [])
    above_snoc =
        All-append _ context (h ∷ [])
          (All-map Score greater _ _ context (λ y a. kept_above y.score a) r.above)
          (kept_above h.score top, tt)

    module _ (new : contains h.key seen ≡ false) where
      fresh : NotIn h.key (keys Score greater context)
      fresh = subst (NotIn h.key) r.known (contains→NotIn h.key seen new)

      snoc-Distinct : Distinct (keys Score greater (context ++ h ∷ []))
      snoc-Distinct =
          subst Distinct (sym keys-snoc)
            (Distinct-snoc (keys Score greater context) h.key r.distinct fresh)

      kept-Round :
          (length (context ++ h ∷ []) == 5) ≡ false
          → Round Score greater left (add seen h.key) (context ++ h ∷ [])
      unfolding add
      kept-Round short = record {
        few = ground (arith, length-snoc Score greater context h, r.few);
        known = rw new (ap (λ s. s ++ h.key ∷ []) r.known ∙ sym keys-snoc);
        distinct = snoc-Distinct;
        descending = Descending-snoc Score greater context h r.descending below_context;
        above = above_snoc;
        sorted = kept_sorted;
      }

      five-Ends :
          (length (context ++ h ∷ []) == 5) ≡ true
          → Ends Score greater (some (context ++ h ∷ [])) pools context
      five-Ends full =
          let five : length (context ++ h ∷ []) ≡ 5 = ground arith in
          record {
            ys = context ++ h ∷ [];
            zs = h ∷ [];
            run = refl;
            more = refl;
            ranked = record {
              few = omega arith;
              distinct = snoc-Distinct;
              descending = Descending-snoc Score greater context h r.descending below_context;
            };
            source = (From-Begins Score greater i h pools b, tt);
            covered =
                All_of_pop Score greater (Covered Score greater (context ++ h ∷ [])) i h pools b
                  (inl (
                    subst (In h.key) (sym keys-snoc)
                      (In-append_right h.key (keys Score greater context) (h.key ∷ []) (inl refl))))
                  (All_pools Score greater left (λ g a. inr (five, a))
                    (swapped Score greater (context ++ h ∷ []) left above_snoc));
          }

    -- An end of the rounds after it is one of the rounds from this one on.
    earlier-Ends :
        (o : Option (List (Hit Score))) (extra : List (Hit Score))
        → All (λ z. From Score greater z pools) extra
        → In h.key (keys Score greater (context ++ extra))
        → Ends Score greater o left (context ++ extra)
        → Ends Score greater o pools context
    earlier-Ends o extra here found k = record {
      ys = k.ys;
      zs = extra ++ k.zs;
      run = k.run;
      more = k.more ∙ append_assoc context extra k.zs;
      ranked = k.ranked;
      source =
          All-append _ extra k.zs here (
            All-map Score greater _ _ k.zs (λ z m. From-pop_at Score greater i z pools m) k.source);
      covered =
          All_of_pop Score greater (Covered Score greater k.ys) i h pools b
            (inl (
              subst (λ l. In h.key (keys Score greater l)) (sym k.more)
                (subst (In h.key) (sym (map-append _ (context ++ extra) k.zs)) (
                  In-append_left h.key (keys Score greater (context ++ extra))
                    (keys Score greater k.zs) found))))
            k.covered;
    }

    next-Ends :
        (f : ℕ)
        → ((seen' : List String) (context' : List (Hit Score))
            → Round Score greater left seen' context'
            → Ends Score greater (merge_hits Score greater f left seen' context') left context')
        → Ends Score greater (next Score greater f left seen context h) pools context
    unfolding next
    next-Ends f rounds = elim (Bool-cases (contains h.key seen)) [
      | inl old ↦ rw old (
          earlier-Ends _ [] tt
            (subst (λ c. In h.key (keys Score greater c)) (sym (append-nil context))
              (subst (In h.key) r.known (contains→In h.key seen old)))
            (subst (Ends Score greater _ left) (sym (append-nil context))
              (rounds seen context dropped-Round)))
      | inr new ↦ elim (Bool-cases (length (context ++ h ∷ []) == 5)) [
        | inl full ↦ rw (new, full) (five-Ends new full)
        | inr short ↦
            rw (new, short)
              (earlier-Ends _ (h ∷ []) (From-Begins Score greater i h pools b, tt)
                (subst (In h.key) (sym keys-snoc)
                  (In-append_right h.key (keys Score greater context) (h.key ∷ []) (inl refl)))
                (rounds (add seen h.key) (context ++ h ∷ []) (kept-Round new short)))
      ]
    ]

  module _ (order : ScoreOrder Score greater) where
    merge_hits-Ends :
        (f : ℕ) (pools : List (List (Hit Score))) (seen : List String) (context : List (Hit Score))
        → total Score greater pools < f
        → Round Score greater pools seen context
        → Ends Score greater (merge_hits Score greater f pools seen context) pools context
    unfolding merge_hits
    merge_hits-Ends zero pools seen context enough r = absurd (omega arith)
    merge_hits-Ends (suc f) pools seen context enough r =
        elim (Option-cases (best Score greater (peeks Score greater 0 pools))) [
          | inl e ↦ record {
            ys = context;
            zs = [];
            run = rw (e, merge_hits) refl;
            more = sym (append-nil context);
            ranked = record {
              few = omega (arith, r.few);
              distinct = r.distinct;
              descending = r.descending;
            };
            source = tt;
            covered = best-eq-none Score greater pools (Covered Score greater context) e;
          }
          | inr ((i, h), e) ↦
              let (b, top) = best-top Score greater order pools i h r.sorted e in
              let fewer = total-pop_at Score greater i h pools b in
              subst (λ o. Ends Score greater o pools context)
                (sym (merge_hits_round Score greater f i h pools seen context e))
                (next-Ends i h pools seen context b top r f (λ seen' context' r'.
                  merge_hits-Ends f (pop_at Score greater i pools) seen' context' (omega arith) r'))
        ]

    -- Where the hits of each layer descend by score, the merge ends. It gives at most five hits of
    -- different keys Score greater, the best first, each one of a layer; and each hit of a layer has the key of
    -- one of them, or there are five of them and none has a lower score than the hit.
    pub merge_pools-Ranked :
        (pools : List (List (Hit Score)))
        → All (Descending Score greater) pools
        → (ys : List (Hit Score)) × (merge_pools Score greater pools ≡ some ys)
          × Ranked Score greater ys
          × All (λ y. From Score greater y pools) ys
          × All (All (Covered Score greater ys)) pools
    unfolding merge_pools
    merge_pools-Ranked pools sorted =
        let k =
          merge_hits-Ends (suc (total Score greater pools)) pools [] [] (omega arith) (record {
            few = omega arith;
            known = refl;
            distinct = tt;
            descending = tt;
            above = tt;
            sorted = sorted;
          }) in
        (
          k.ys,
          k.run,
          k.ranked,
          subst (All (λ y. From Score greater y pools)) (sym k.more) k.source,
          k.covered,
        )
