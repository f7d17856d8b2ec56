-- ===== src/Agent/Writes.antt =====
-- What `aput` of composer/spec/agent_index.py changes, and what `aget` finds afterwards.
use text.Mathlib.TextEquality.{eq_iff}
use text.Mathlib.TextPositions.{eq_refl}
use certora_aicomposer.Prelude.{
  String, true, false, List, [], ◌∷◌, Option, none, some, ◌≡◌, ◌≢◌, inl, inr, refl, ap, ◌∙◌, arith,
  Bool-cases, Option-cases,
}
use certora_aicomposer.Dict.{test-ne}
use certora_aicomposer.Registry.Store.{Namespace}
use certora_aicomposer.Agent.Index.{
  AgentResult, SearchStore, AgentIndexConfig, same_namespace, make_index, read_pools, pools_of,
  overlay, target, put_new, put_in, first_found, aput, aget,
}

pub same_namespace→eq : (a b : Namespace) → same_namespace a b ≡ true → a ≡ b
unfolding same_namespace
same_namespace→eq [] [] h = refl
same_namespace→eq [] (y ∷ b) h = cc
same_namespace→eq (x ∷ a) [] h = cc
same_namespace→eq (x ∷ a) (y ∷ b) h = ground (arith, eq_iff x y, same_namespace→eq a b)

pub same_namespace_refl : (a : Namespace) → same_namespace a a ≡ true
unfolding same_namespace
same_namespace_refl [] = refl
same_namespace_refl (x ∷ a) = rw (eq_refl x) (same_namespace_refl a)

-- What a key has after a document is put there: what it had, or else the document.
abbrev pub kept : Option AgentResult → AgentResult → AgentResult
kept none doc = doc
kept (some existing) doc = existing

module _ (Score : Type 0) (store : SearchStore Score) (question_key : String → String) where
  open store use {State}

  -- Another key keeps its value in every namespace.
  aget-aput_other :
      (s : State) (ns ms : Namespace) (k j : String) (v : AgentResult)
      → k ≢ j
      → store.aget (store.aput s ns k v) ms j ≡ store.aget s ms j
  aget-aput_other s ns ms k j v ne = elim (Bool-cases (same_namespace ns ms)) [
    | inl t ↦
        rw (← same_namespace→eq ns ms t) (store.aget-aput s ns k j v ∙ rw (test-ne k j ne) refl)
    | inr f ↦
        store.aget-aput_ne s ns ms k j v
          (λ e. cc (f, ap (same_namespace ns) e, same_namespace_refl ns))
  ]

  put_in-other :
      (s : State) (o : Option Namespace) (ms : Namespace) (k j : String) (doc : AgentResult)
      → k ≢ j
      → store.aget (put_in Score store question_key s o k doc).0 ms j ≡ store.aget s ms j
  unfolding put_in put_new
  put_in-other s none ms k j doc ne = refl
  put_in-other s (some ns) ms k j doc ne = elim (Option-cases (store.aget s ns k)) [
    | inl e ↦ rw (e, put_new) (aget-aput_other s ns ms k j doc ne)
    | inr (existing, e) ↦ rw (e, put_new) refl
  ]

  first_found-other :
      (s : State) (o : Option Namespace) (pools : List Namespace) (k j : String) (doc : AgentResult)
      → k ≢ j
      → first_found Score store question_key (put_in Score store question_key s o k doc).0 pools j
        ≡ first_found Score store question_key s pools j
  unfolding first_found
  first_found-other s o [] k j doc ne = refl
  first_found-other s o (ms ∷ pools) k j doc ne =
      ground (arith, put_in-other s o ms k j doc ne, first_found-other s o pools k j doc ne)

  -- The namespace that is written has the key afterwards.
  put_in_self :
      (s : State) (ns : Namespace) (k : String) (doc : AgentResult)
      → store.aget (put_in Score store question_key s (some ns) k doc).0 ns k
        ≡ some (kept (store.aget s ns k) doc)
  unfolding put_in put_new
  put_in_self s ns k doc = elim (Option-cases (store.aget s ns k)) [
    | inl e ↦ rw (e, put_new) (store.aget-aput s ns k k doc ∙ rw (eq_refl k) refl)
    | inr (existing, e) ↦ rw (e, put_new) e
  ]

  put_in-reply :
      (s : State) (ns : Namespace) (k : String) (doc : AgentResult)
      → (put_in Score store question_key s (some ns) k doc).1 ≡ some k
  unfolding put_in put_new
  put_in-reply s ns k doc = elim (Option-cases (store.aget s ns k)) [
    | inl e ↦ rw (e, put_new) refl
    | inr (existing, e) ↦ rw (e, put_new) refl
  ]

  -- The namespace that is written is the first one that is read.
  first_found_self :
      (s : State) (base : Namespace) (o : Option Namespace) (k : String) (v : AgentResult)
      → store.aget s (target base o) k ≡ some v
      → first_found Score store question_key s (pools_of base o) k ≡ some v
  unfolding first_found pools_of target
  first_found_self s base none k v h = rw h refl
  first_found_self s base (some ns) k v h = rw h refl

  -- With an index that writes, `aput` returns the question's key, and `aget` finds under it what
  -- the namespace that is written had there already, or else the document.
  pub aput-aget :
      (s : State) (config : AgentIndexConfig) (doc : AgentResult)
      → config.read_only ≡ false
      → ((aput Score store question_key s (make_index config) doc).1
          ≡ some (question_key doc.question))
        × (aget Score store question_key
              (aput Score store question_key s (make_index config) doc).0
              (make_index config)
              (question_key doc.question)
            ≡ some (
                kept
                  (store.aget s
                    (target config.base_layer (overlay config.base_layer config.write_layer))
                    (question_key doc.question))
                  doc))
  unfolding aput aget make_index read_pools
  aput-aget s config doc writes =
      let key = question_key doc.question in
      let o = overlay config.base_layer config.write_layer in
      rw writes (
        put_in-reply s (target config.base_layer o) key doc,
        first_found_self _ config.base_layer o key _
            (put_in_self s (target config.base_layer o) key doc),
      )

  -- `aput` leaves what `aget` finds under every other key, whatever the index's layers are.
  pub aput-other :
      (s : State) (config : AgentIndexConfig) (doc : AgentResult) (other : String)
      → question_key doc.question ≢ other
      → aget Score store question_key
          (aput Score store question_key s (make_index config) doc).0
          (make_index config)
          other
        ≡ aget Score store question_key s (make_index config) other
  unfolding aput aget
  aput-other s config doc other ne =
      let ind = make_index config in
      first_found-other s ind.write_ns (read_pools ind) (question_key doc.question) other doc ne
