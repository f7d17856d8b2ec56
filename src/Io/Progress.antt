-- ===== src/Io/Progress.antt =====
-- Left to itself, the consumer of the queue of composer/io/stream.py yields all that was pushed.
use mathlib.Core.List.{◌++◌}
use certora_aicomposer.Prelude.{
  ℕ, zero, suc, true, false, List, [], ◌∷◌, none, some, ◌≡◌, ◌≢◌, ◌⊎◌, inl, inr, refl, sym, ap, ◌∙◌,
  arith, length, append-nil, Option-cases, Bool-cases, ◌==◌,
}
use certora_aicomposer.Io.Stream.{
  DataQueue, Place, System, get_elem?, woken, drained, tested, step_at, consume, Reach, consume_for,
}
use certora_aicomposer.Io.Delivery.{drop, drop-get, drop-none, Inv, at-Inv, Reach-Inv}

module _ {T : Type 0} where
  -- After some steps of the consumer alone all events are yielded, and it waits, or has returned if
  -- the queue is closed.
  pub record Finishes (s : System T) : Type 0 where
    pub steps : ℕ
    pub all : (consume_for steps s).delivered ≡ s.pushed
    pub rests :
        ((consume_for steps s).place ≡ Place.waiting) × (s.queue.closed ≡ false)
        ⊎ ((consume_for steps s).place ≡ Place.done) × (s.queue.closed ≡ true)

  consume_for-suc :
      (n : ℕ) (s t : System T) → consume s ≡ some t → consume_for (suc n) s ≡ consume_for n t
  unfolding consume_for
  consume_for-suc n s t e = rw (e, consume_for) refl

  Finishes-of_step :
      (s t : System T)
      → consume s ≡ some t
      → s.pushed ≡ t.pushed
      → s.queue.closed ≡ t.queue.closed
      → Finishes t
      → Finishes s
  Finishes-of_step s t e same closed f = record {
    steps = suc f.steps;
    all = ap (λ x. x.delivered) (consume_for-suc f.steps s t e) ∙ f.all ∙ sym same;
    rests = rw (consume_for-suc f.steps s t e, closed) f.rests;
  }

  abbrev draining : DataQueue T → List T → List T → System T
  draining q ps ds = record { queue = q; place = Place.draining; pushed = ps; delivered = ds }

  at_rest : DataQueue T → List T → List T → Place → System T
  at_rest q ps ds p = record {
    queue = record q { cursor = zero; event_stream = [] };
    place = p;
    pushed = ps;
    delivered = ds;
  }

  drained-Finishes :
      (q : DataQueue T) (ps ds : List T)
      → get_elem? q.event_stream q.cursor ≡ none
      → Inv (draining q ps ds)
      → Finishes (draining q ps ds)
  unfolding consume step_at tested drained consume_for at_rest
  drained-Finishes q ps ds e inv =
      let (none_left, long) = drop-none q.cursor q.event_stream e in
      let full : (q.cursor == length q.event_stream) ≡ true = ground (arith, inv.place) in
      let all : ds ≡ ps = sym (append-nil ds) ∙ ap (◌++◌ ds) (sym none_left) ∙ inv.order in
      elim (Bool-cases q.closed) [
        | inl c ↦
            Finishes-of_step (draining q ps ds) (at_rest q ps ds Place.done)
              (rw (e, tested, full, c) refl) refl refl
              (record { steps = 0; all = all; rests = inr (refl, c) })
        | inr o ↦
            Finishes-of_step (draining q ps ds) (at_rest q ps ds Place.waiting)
              (rw (e, tested, full, o) refl) refl refl
              (record { steps = 0; all = all; rests = inl (refl, o) })
      ]

  cons-injective : {x y : T} {l m : List T} → x ∷ l ≡ y ∷ m → l ≡ m
  cons-injective h = cc

  yielded : (q : DataQueue T) (ps ds : List T) (x : T) → System T
  yielded q ps ds x = record {
    queue = q;
    place = Place.handling;
    pushed = ps;
    delivered = ds ++ x ∷ [];
  }

  resumed : (q : DataQueue T) (ps ds : List T) (x : T) → System T
  resumed q ps ds x = draining (record q { cursor = suc q.cursor }) ps (ds ++ x ∷ [])

  yield_step :
      (q : DataQueue T) (ps ds : List T) (x : T)
      → get_elem? q.event_stream q.cursor ≡ some x
      → consume (draining q ps ds) ≡ some (yielded q ps ds x)
  unfolding consume step_at tested yielded
  yield_step q ps ds x e = rw (e, tested) refl

  resume_step :
      (q : DataQueue T) (ps ds : List T) (x : T)
      → consume (yielded q ps ds x) ≡ some (resumed q ps ds x)
  unfolding consume step_at yielded resumed
  resume_step q ps ds x = refl

  consume-Inv : (s t : System T) → consume s ≡ some t → Inv s → Inv t
  unfolding consume
  consume-Inv s t h inv = at-Inv s.place s.queue s.pushed s.delivered t h inv

  drain-Finishes :
      (l : List T) (q : DataQueue T) (ps ds : List T)
      → drop q.cursor q.event_stream ≡ l
      → Inv (draining q ps ds)
      → Finishes (draining q ps ds)
  unfolding yielded resumed
  drain-Finishes [] q ps ds left inv = elim (Option-cases (get_elem? q.event_stream q.cursor)) [
    | inl e ↦ drained-Finishes q ps ds e inv
    | inr (x, e) ↦ cc (left, (drop-get q.cursor q.event_stream x e).0)
  ]
  drain-Finishes (y ∷ l) q ps ds left inv =
      elim (Option-cases (get_elem? q.event_stream q.cursor)) [
        | inl e ↦ drained-Finishes q ps ds e inv
        | inr (x, e) ↦
            let first = yield_step q ps ds x e in
            let second = resume_step q ps ds x in
            let rest : drop (suc q.cursor) q.event_stream ≡ l =
              cons-injective (sym (drop-get q.cursor q.event_stream x e).0 ∙ left) in
            Finishes-of_step (draining q ps ds) (yielded q ps ds x) first refl refl (
              Finishes-of_step (yielded q ps ds x) (resumed q ps ds x) second refl refl (
                drain-Finishes l (record q { cursor = suc q.cursor }) ps (ds ++ x ∷ []) rest
                  (consume-Inv _ _ second (consume-Inv _ _ first inv))))
      ]

  waiting-Finishes :
      (q : DataQueue T) (ps ds : List T)
      → Inv (record { queue = q; place = Place.waiting; pushed = ps; delivered = ds })
      → Finishes (record { queue = q; place = Place.waiting; pushed = ps; delivered = ds })
  unfolding consume step_at woken consume_for drop
  waiting-Finishes q ps ds inv = elim (Bool-cases q.ready) [
    | inl r ↦
        let t = draining (record q { ready = false }) ps ds in
        let step : consume
              (record { queue = q; place = Place.waiting; pushed = ps; delivered = ds })
            ≡ some t =
          rw r refl in
        Finishes-of_step _ t step refl refl
          (drain-Finishes _ (record q { ready = false }) ps ds refl (consume-Inv _ t step inv))
    | inr b ↦ asleep b (inv.place.1)
  ]
    where
      asleep :
          q.ready ≡ false
          → ((q.event_stream ≡ []) × (q.closed ≡ false)) ⊎ (q.ready ≡ true)
          → Finishes (record { queue = q; place = Place.waiting; pushed = ps; delivered = ds })
      asleep b (inl (e, o)) =
          let nothing : drop q.cursor q.event_stream ≡ [] = rw (inv.place.0, e) refl in
          record {
            steps = 0;
            all = sym (append-nil ds) ∙ ap (◌++◌ ds) (sym nothing) ∙ inv.order;
            rests = inl (refl, o);
          }
      asleep b (inr r) = cc

  at-Finishes :
      (p : Place) (q : DataQueue T) (ps ds : List T)
      → p ≢ Place.done
      → Inv (record { queue = q; place = p; pushed = ps; delivered = ds })
      → Finishes (record { queue = q; place = p; pushed = ps; delivered = ds })
  unfolding consume step_at
  at-Finishes Place.waiting q ps ds ne inv = waiting-Finishes q ps ds inv
  at-Finishes Place.draining q ps ds ne inv = drain-Finishes _ q ps ds refl inv
  at-Finishes Place.handling q ps ds ne inv =
      let t = draining (record q { cursor = suc q.cursor }) ps ds in
      let s : System T = record {
        queue = q;
        place = Place.handling;
        pushed = ps;
        delivered = ds;
      } in
      Finishes-of_step s t refl refl refl (drain-Finishes _ _ ps ds refl (consume-Inv s t refl inv))
  at-Finishes Place.done q ps ds ne inv = absurd (ne refl)
  at-Finishes Place.failed q ps ds ne inv = elim inv.place [ ]

  -- From every reachable state in which the consumer has not returned, it yields by steps of its own
  -- every event that was pushed, and then waits, or returns if the queue is closed.
  pub consumer-Finishes : (s : System T) → Reach s → s.place ≢ Place.done → Finishes s
  consumer-Finishes s r ne = at-Finishes s.place s.queue s.pushed s.delivered ne (Reach-Inv r)
