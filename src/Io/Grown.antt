-- ===== src/Io/Grown.antt =====
-- What the loops of composer/io/thread_timeline.py add to a timeline.
use mathlib.Core.List.{◌++◌}
use certora_aicomposer.Prelude.{
  String, Bool, true, false, List, [], ◌∷◌, Option, none, some, ◌≡◌, refl, sym, ap, ◌∙◌, append-nil,
  append_assoc, if◌then◌else◌,
}
use certora_aicomposer.Sets.{text_eq, contains, add, add_all, set_of}
use certora_aicomposer.Io.Timeline.{
  TimelineItem, Progress, is_summarized, id_list, ids_of, put_new, add_message, add_messages, mark,
  add_checkpoint, add_history,
}

add_all-append : (xs ys zs : List String) → add_all xs (ys ++ zs) ≡ add_all (add_all xs ys) zs
unfolding add_all
add_all-append xs [] zs = refl
add_all-append xs (y ∷ ys) zs = add_all-append (add xs y) ys zs

module _ {M : Type 0} (id_of : M → Option String) where
  -- A list that is read off the timeline, one part for each entry.
  abbrev pub collected : {A : Type 0} → (TimelineItem M → List A) → List (TimelineItem M) → List A
  collected part [] = []
  collected part (x ∷ xs) = part x ++ collected part xs

  collected-snoc :
      {A : Type 0} (part : TimelineItem M → List A) (xs : List (TimelineItem M))
      (x : TimelineItem M)
      → collected part (xs ++ x ∷ []) ≡ collected part xs ++ part x
  collected-snoc part [] x = append-nil (part x)
  collected-snoc part (y ∷ xs) x =
      ap (λ zs. part y ++ zs) (collected-snoc part xs x)
      ∙ sym (append_assoc (part y) (collected part xs) (part x))

  abbrev pub item_id : TimelineItem M → List String
  item_id (TimelineItem.summarization_marker cid) = []
  item_id (TimelineItem.entry m cid) = id_list id_of (id_of m)

  abbrev pub nameless : String → M → Option String → List (String × M)
  nameless cid m none = (cid, m) ∷ []
  nameless cid m (some i) = []

  abbrev pub item_nameless : TimelineItem M → List (String × M)
  item_nameless (TimelineItem.summarization_marker cid) = []
  item_nameless (TimelineItem.entry m cid) = nameless cid m (id_of m)

  abbrev pub item_marker : TimelineItem M → List String
  item_marker (TimelineItem.summarization_marker cid) = cid ∷ []
  item_marker (TimelineItem.entry m cid) = []

  -- The ids of all messages of the history.
  abbrev pub history_ids : List (String × List M) → List String
  history_ids [] = []
  history_ids ((cid, msgs) ∷ history) = ids_of id_of msgs ++ history_ids history

  abbrev pub nameless_in : String → List M → List (String × M)
  nameless_in cid [] = []
  nameless_in cid (m ∷ msgs) = nameless cid m (id_of m) ++ nameless_in cid msgs

  -- The messages of the history without an id, each with its checkpoint.
  abbrev pub history_nameless : List (String × List M) → List (String × M)
  history_nameless [] = []
  history_nameless ((cid, msgs) ∷ history) = nameless_in cid msgs ++ history_nameless history

  abbrev pub listed : Bool → String → List String
  listed true cid = cid ∷ []
  listed false cid = []

  -- The checkpoints that the code marks.
  abbrev pub marks_of : List String → List (String × List M) → List String
  marks_of prev [] = []
  marks_of prev ((cid, msgs) ∷ history) =
      listed (is_summarized prev (set_of (ids_of id_of msgs))) cid
      ++ marks_of (set_of (ids_of id_of msgs)) history

  -- What the loops have made of the state before.
  pub record Grown (ids : List String) (plain : List (String × M)) (marks : List String)
      (before after : Progress M) : Type 0 where
    pub seen : after.seen_ids ≡ add_all before.seen_ids ids
    pub agree :
        collected item_id before.timeline ≡ before.seen_ids
        → collected item_id after.timeline ≡ after.seen_ids
    pub unnamed :
        collected item_nameless after.timeline ≡ collected item_nameless before.timeline ++ plain
    pub markers :
        collected item_marker after.timeline ≡ collected item_marker before.timeline ++ marks

  message-Grown :
      (cid : String) (m : M) (o : Option String) (st : Progress M)
      → id_of m ≡ o
      → Grown (id_list id_of o) (nameless cid m o) [] st (add_message id_of cid m o st)
  unfolding add_all add
  message-Grown cid m none st e = record {
    seen = refl;
    agree = λ h.
        collected-snoc item_id st.timeline (TimelineItem.entry m cid)
        ∙ (ap (λ o. collected item_id st.timeline ++ id_list id_of o) e
            ∙ (append-nil (collected item_id st.timeline) ∙ h));
    unnamed =
        collected-snoc item_nameless st.timeline (TimelineItem.entry m cid)
        ∙ ap (λ o. collected item_nameless st.timeline ++ nameless cid m o) e;
    markers = collected-snoc item_marker st.timeline (TimelineItem.entry m cid);
  }
  message-Grown cid m (some i) st e = either (contains i st.seen_ids) refl
    where
      either :
          (b : Bool)
          → contains i st.seen_ids ≡ b
          → Grown (i ∷ []) [] [] st (if b then st else put_new id_of cid m i st)
      either true t = record {
        seen = sym (ap (λ c. if c then st.seen_ids else st.seen_ids ++ i ∷ []) t);
        agree = λ h. h;
        unnamed = sym (append-nil (collected item_nameless st.timeline));
        markers = sym (append-nil (collected item_marker st.timeline));
      }
      either false f = record {
        seen = refl;
        agree = λ h.
            collected-snoc item_id st.timeline (TimelineItem.entry m cid)
            ∙ (ap (λ o. collected item_id st.timeline ++ id_list id_of o) e
                ∙ (ap (λ ids. ids ++ i ∷ []) h
                    ∙ sym (ap (λ c. if c then st.seen_ids else st.seen_ids ++ i ∷ []) f)));
        unnamed =
            collected-snoc item_nameless st.timeline (TimelineItem.entry m cid)
            ∙ ap (λ o. collected item_nameless st.timeline ++ nameless cid m o) e;
        markers = collected-snoc item_marker st.timeline (TimelineItem.entry m cid);
      }

  Grown-trans :
      (i j : List String) (p q : List (String × M)) (k l : List String) (a b c : Progress M)
      → Grown i p k a b
      → Grown j q l b c
      → Grown (i ++ j) (p ++ q) (k ++ l) a c
  Grown-trans i j p q k l a b c g h = record {
    seen = h.seen ∙ (ap (λ s. add_all s j) g.seen ∙ sym (add_all-append a.seen_ids i j));
    agree = λ e. h.agree (g.agree e);
    unnamed =
        h.unnamed
        ∙ (ap (λ s. s ++ q) g.unnamed ∙ append_assoc (collected item_nameless a.timeline) p q);
    markers =
        h.markers
        ∙ (ap (λ s. s ++ l) g.markers ∙ append_assoc (collected item_marker a.timeline) k l);
  }

  Grown-same : (st : Progress M) → Grown [] [] [] st st
  unfolding add_all
  Grown-same st = record {
    seen = refl;
    agree = λ h. h;
    unnamed = sym (append-nil (collected item_nameless st.timeline));
    markers = sym (append-nil (collected item_marker st.timeline));
  }

  messages-Grown :
      (cid : String) (msgs : List M) (st : Progress M)
      → Grown (ids_of id_of msgs) (nameless_in cid msgs) [] st (add_messages id_of cid msgs st)
  unfolding ids_of add_messages
  messages-Grown cid [] st = Grown-same st
  messages-Grown cid (m ∷ msgs) st =
      let next : Progress M = add_message id_of cid m (id_of m) st in
      Grown-trans (id_list id_of (id_of m)) (ids_of id_of msgs) (nameless cid m (id_of m))
        (nameless_in cid msgs) [] [] st next (add_messages id_of cid msgs next)
        (message-Grown cid m (id_of m) st refl) (messages-Grown cid msgs next)

  mark-Grown :
      (b : Bool) (cid : String) (st : Progress M)
      → Grown [] [] (listed b cid) st (mark id_of b cid st)
  unfolding add_all
  mark-Grown false cid st = Grown-same st
  mark-Grown true cid st = record {
    seen = refl;
    agree = λ h.
        collected-snoc item_id st.timeline (TimelineItem.summarization_marker cid)
        ∙ (append-nil (collected item_id st.timeline) ∙ h);
    unnamed = collected-snoc item_nameless st.timeline (TimelineItem.summarization_marker cid);
    markers = collected-snoc item_marker st.timeline (TimelineItem.summarization_marker cid);
  }

  checkpoint-Grown :
      (cid : String) (msgs : List M) (st : Progress M)
      → Grown
          (ids_of id_of msgs)
          (nameless_in cid msgs)
          (listed (is_summarized st.prev_ids (set_of (ids_of id_of msgs))) cid)
          st
          (add_checkpoint id_of cid msgs st)
  checkpoint-Grown cid msgs st =
      let b : Bool = is_summarized st.prev_ids (set_of (ids_of id_of msgs)) in
      let marked : Progress M = mark id_of b cid st in
      let g : Grown (ids_of id_of msgs) (nameless_in cid msgs) (listed b cid ++ []) st
          (add_messages id_of cid msgs marked) =
        Grown-trans [] (ids_of id_of msgs) [] (nameless_in cid msgs) (listed b cid) [] st marked
          (add_messages id_of cid msgs marked) (mark-Grown b cid st)
          (messages-Grown cid msgs marked) in
      record {
        seen = g.seen;
        agree = g.agree;
        unnamed = g.unnamed;
        markers =
            g.markers
            ∙ ap (λ s. collected item_marker st.timeline ++ s) (append-nil (listed b cid));
      }

  pub history-Grown :
      (history : List (String × List M)) (st : Progress M)
      → Grown
          (history_ids history)
          (history_nameless history)
          (marks_of st.prev_ids history)
          st
          (add_history id_of history st)
  unfolding add_history
  history-Grown [] st = Grown-same st
  history-Grown ((cid, msgs) ∷ history) st =
      let next : Progress M = add_checkpoint id_of cid msgs st in
      Grown-trans (ids_of id_of msgs) (history_ids history) (nameless_in cid msgs)
        (history_nameless history)
        (listed (is_summarized st.prev_ids (set_of (ids_of id_of msgs))) cid)
        (marks_of next.prev_ids history) st next (add_history id_of history next)
        (checkpoint-Grown cid msgs st) (history-Grown history next)
