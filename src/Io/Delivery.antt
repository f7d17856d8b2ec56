-- ===== src/Io/Delivery.antt =====
-- The consumer of the queue of composer/io/stream.py yields every event that was pushed, once and in
-- order, and is never blocked while there is one.
use mathlib.Core.List.{◌++◌}
use certora_aicomposer.Prelude.{
  ℕ, zero, suc, ◌≤◌, ◌<◌, true, false, List, [], ◌∷◌, none, some, ◌≡◌, ◌≢◌, ◌⊎◌, inl, inr, refl,
  sym, ap, ◌∙◌, arith, length, append_assoc, append-nil, Option-cases, Bool-cases, ◌==◌, subst,
}
use certora_aicomposer.Io.Stream.{
  DataQueue, Place, System, get_elem?, push, close, woken, drained, tested, step_at, consume, Step,
  pushes, closes, consumes, start, Reach, begins,
}

-- The first event that was not yielded yet.
abbrev pub next_index : Place → ℕ → ℕ
next_index Place.handling n = suc n
next_index _ n = n

module _ {T : Type 0} where
  unfoldable pub drop : ℕ → List T → List T
  drop zero l = l
  drop (suc n) [] = []
  drop (suc n) (x ∷ l) = drop n l

  drop-append : (n : ℕ) (l m : List T) → n ≤ length l → drop n (l ++ m) ≡ drop n l ++ m
  unfolding drop
  drop-append zero l m h = refl
  drop-append (suc n) [] m h = absurd (omega arith)
  drop-append (suc n) (x ∷ l) m h = drop-append n l m (omega arith)

  length-snoc : (l : List T) (x : T) → length (l ++ x ∷ []) ≡ suc (length l)
  length-snoc [] x = refl
  length-snoc (y ∷ l) x = ap suc (length-snoc l x)

  pub drop-get :
      (n : ℕ) (l : List T) (x : T)
      → get_elem? l n ≡ some x
      → (drop n l ≡ x ∷ drop (suc n) l) × (n < length l)
  unfolding drop get_elem?
  drop-get n [] x h = cc
  drop-get zero (y ∷ l) x h = (cc, omega arith)
  drop-get (suc n) (y ∷ l) x h = let (e, lt) = drop-get n l x h in (e, omega arith)

  pub drop-none : (n : ℕ) (l : List T) → get_elem? l n ≡ none → (drop n l ≡ []) × (length l ≤ n)
  unfolding drop get_elem?
  drop-none zero [] h = (refl, omega arith)
  drop-none (suc n) [] h = (refl, omega arith)
  drop-none zero (y ∷ l) h = cc
  drop-none (suc n) (y ∷ l) h = let (e, le) = drop-none n l h in (e, omega arith)

  -- The events that were pushed and not yielded yet.
  abbrev pub pending : System T → List T
  pending s = drop (next_index s.place s.queue.cursor) s.queue.event_stream

  abbrev pub AtPlace : Place → DataQueue T → Type 0
  AtPlace Place.waiting q =
      (q.cursor ≡ 0) × (((q.event_stream ≡ []) × (q.closed ≡ false)) ⊎ (q.ready ≡ true))
  AtPlace Place.draining q = q.cursor ≤ length q.event_stream
  AtPlace Place.handling q = q.cursor < length q.event_stream
  AtPlace Place.done q = q.cursor ≡ 0
  AtPlace Place.failed q = ⊥

  pub record Inv (s : System T) : Type 0 where
    pub order : s.delivered ++ pending s ≡ s.pushed
    pub place : AtPlace s.place s.queue

  some-injective : {a b : System T} → some a ≡ some b → a ≡ b
  some-injective h = cc

  AtPlace-bound :
      (p : Place) (q : DataQueue T) → AtPlace p q → next_index p q.cursor ≤ length q.event_stream
  AtPlace-bound Place.waiting q h = omega (arith, h.0)
  AtPlace-bound Place.draining q h = h
  AtPlace-bound Place.handling q h = omega arith
  AtPlace-bound Place.done q h = omega (arith, h)
  AtPlace-bound Place.failed q h = elim h [ ]

  AtPlace-push : (p : Place) (q : DataQueue T) (x : T) → AtPlace p q → AtPlace p (push q x)
  unfolding push
  AtPlace-push Place.waiting q x h = (h.0, inr refl)
  AtPlace-push Place.draining q x h = omega (arith, length-snoc q.event_stream x)
  AtPlace-push Place.handling q x h = omega (arith, length-snoc q.event_stream x)
  AtPlace-push Place.done q x h = h
  AtPlace-push Place.failed q x h = h

  AtPlace-close : (p : Place) (q : DataQueue T) → AtPlace p q → AtPlace p (close q)
  unfolding close
  AtPlace-close Place.waiting q h = (h.0, inr refl)
  AtPlace-close Place.draining q h = h
  AtPlace-close Place.handling q h = h
  AtPlace-close Place.done q h = h
  AtPlace-close Place.failed q h = h

  push-Inv :
      (s : System T) (x : T)
      → Inv s
      → Inv (record s { queue = push s.queue x; pushed = s.pushed ++ x ∷ [] })
  unfolding push
  push-Inv s x inv = record {
    order =
        ap (◌++◌ s.delivered) (
          drop-append (next_index s.place s.queue.cursor) s.queue.event_stream (x ∷ [])
            (AtPlace-bound s.place s.queue inv.place))
        ∙ sym (append_assoc s.delivered (pending s) (x ∷ []))
        ∙ ap (λ l. l ++ x ∷ []) inv.order;
    place = AtPlace-push s.place s.queue x inv.place;
  }

  close-Inv : (s : System T) → Inv s → Inv (record s { queue = close s.queue })
  unfolding close
  close-Inv s inv = record { order = inv.order; place = AtPlace-close s.place s.queue inv.place }

  drained-Inv :
      (q : DataQueue T) (ps ds : List T)
      → drop q.cursor q.event_stream ≡ []
      → length q.event_stream ≤ q.cursor
      → Inv (record { queue = q; place = Place.draining; pushed = ps; delivered = ds })
      → Inv (drained (record { queue = q; place = Place.draining; pushed = ps; delivered = ds }))
  unfolding drained drop
  drained-Inv q ps ds none_left long inv =
      let all : (q.cursor == length q.event_stream) ≡ true = ground (arith, inv.place) in
      let done : ds ≡ ps = sym (append-nil ds) ∙ ap (◌++◌ ds) (sym none_left) ∙ inv.order in
      elim (Bool-cases q.closed) [
        | inl c ↦ rw (all, c) (record { order = append-nil ds ∙ done; place = refl })
        | inr o ↦
            rw (all, o) (record { order = append-nil ds ∙ done; place = (refl, inl (refl, refl)) })
      ]

  pub at-Inv :
      (p : Place) (q : DataQueue T) (ps ds : List T) (t : System T)
      → step_at p (record { queue = q; place = p; pushed = ps; delivered = ds }) ≡ some t
      → Inv (record { queue = q; place = p; pushed = ps; delivered = ds })
      → Inv t
  unfolding step_at woken tested drop
  at-Inv Place.waiting q ps ds t h inv = elim (Bool-cases q.ready) [
    | inl r ↦
        subst Inv (some-injective (rw r at h))
          (record { order = inv.order; place = omega (arith, inv.place.0) })
    | inr b ↦ cc
  ]
  at-Inv Place.draining q ps ds t h inv = elim (Option-cases (get_elem? q.event_stream q.cursor)) [
    | inl e ↦
        let (none_left, long) = drop-none q.cursor q.event_stream e in
        subst Inv (some-injective (rw (e, tested) at h)) (drained-Inv q ps ds none_left long inv)
    | inr (x, e) ↦
        let (first, short) = drop-get q.cursor q.event_stream x e in
        subst Inv (some-injective (rw (e, tested) at h)) (record {
          order = append_assoc ds (x ∷ []) _ ∙ ap (◌++◌ ds) (sym first) ∙ inv.order;
          place = short;
        })
  ]
  at-Inv Place.handling q ps ds t h inv =
      subst Inv (some-injective h) (record { order = inv.order; place = omega (arith, inv.place) })
  at-Inv Place.done q ps ds t h inv = cc
  at-Inv Place.failed q ps ds t h inv = cc

  Step-Inv : {s t : System T} → Step s t → Inv s → Inv t
  unfolding consume
  Step-Inv {s} (pushes event) inv = push-Inv s event inv
  Step-Inv {s} closes inv = close-Inv s inv
  Step-Inv {s} {t} (consumes h) inv = at-Inv s.place s.queue s.pushed s.delivered t h inv

  pub Reach-Inv : {s : System T} → Reach s → Inv s
  unfolding start drop
  Reach-Inv begins = record { order = refl; place = (refl, inl (refl, refl)) }
  Reach-Inv (Reach.then r st) = Step-Inv st (Reach-Inv r)

  -- In every reachable state the events that were yielded, followed by those that are still in the
  -- queue, are the events that were pushed, in order; and the consumer's assertion has not failed.
  pub delivered-order :
      (s : System T) → Reach s → (s.delivered ++ pending s ≡ s.pushed) × (s.place ≢ Place.failed)
  delivered-order s r = let inv = Reach-Inv r in (inv.order, not_failed s.place s.queue inv.place)
    where
      not_failed : (p : Place) (q : DataQueue T) → AtPlace p q → p ≢ Place.failed
      not_failed Place.failed q h e = h
      not_failed Place.waiting q h e = cc
      not_failed Place.draining q h e = cc
      not_failed Place.handling q h e = cc
      not_failed Place.done q h e = cc
