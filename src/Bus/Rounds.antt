-- ===== src/Bus/Rounds.antt =====
-- src/services/ConversationBus.ts: what a round table leaves in the messages, and that it ends.
use kovael.Common.{
  ℕ, zero, suc, ◌+◌, ◌≤◌, ◌≡◌, refl, sym, ap, ◌∙◌, String, Bool, true, false, List, [], ◌∷◌, ◌++◌,
  arith, length-append, Bool-cases, Option-cases, ◌⊎◌, inl, inr,
}
use mathlib.Core.List.{append_assoc, append-nil}
use kovael.Dispatches.{contains}
use kovael.Bus.Queue.{Seated, All-append, next_queue-Seated}
use kovael.Table.{get}
use kovael.Bus.{Bus, post_message, emit}
use kovael.Bus.Convene.{
  World, Round, meet, Meeting, present_only, live_dispatch, local_stub, not_ready, present_turn,
  not_ready_round, fall_back, failed_turn, answered_turn, should_stop, stopped, after_turn, rounds,
  is_rerouted, streamed, paused,
}
use kovael.Bus.Weaving.{ends, own, foreign-Woven, append-Woven, IsBeside, IsReply, Grows}

Meeting-cases :
    (m : Meeting)
    → ((m ≡ present_only) ⊎ (m ≡ not_ready)) ⊎ ((m ≡ live_dispatch) ⊎ (m ≡ local_stub))
Meeting-cases present_only = inl (inl refl)
Meeting-cases not_ready = inl (inr refl)
Meeting-cases live_dispatch = inr (inl refl)
Meeting-cases local_stub = inr (inr refl)

module _ (w : World) (topic k : String) (ps : List String) (streams : IsBeside k w.while_streaming)
    (pauses : IsBeside k w.while_pausing) where
  pub Grows-refl : (r : Round) → Grows topic k ps 0 r r
  Grows-refl r = record {
    turns = [];
    added = [];
    woven = ends;
    logged = sym (append-nil r.bus.messages);
    counted = omega arith;
    bounded = omega arith;
    spoken = tt;
    same_row = refl;
    same_active = refl;
  }

  pub Grows-then :
      (a l m : ℕ) (r s t : Round)
      → a + l ≤ m
      → Grows topic k ps a r s
      → Grows topic k ps l s t
      → Grows topic k ps m r t
  Grows-then a l m r s t fits g h = record {
    turns = g.turns ++ h.turns;
    added = g.added ++ h.added;
    woven = append-Woven g.woven h.woven;
    logged =
        h.logged ∙ ap (λ ms. ms ++ h.added) g.logged ∙ append_assoc r.bus.messages g.added h.added;
    counted = omega (arith, g.counted, h.counted, length-append g.turns h.turns);
    bounded = omega (arith, g.bounded, h.bounded, length-append g.turns h.turns);
    spoken = All-append (IsReply topic ps) g.turns h.turns g.spoken h.spoken;
    same_row = h.same_row ∙ g.same_row;
    same_active = h.same_active ∙ g.same_active;
  }

  Grows-more : (a l : ℕ) (r s : Round) → a ≤ l → Grows topic k ps a r s → Grows topic k ps l r s
  Grows-more a l r s h g = Grows-then 0 a l r r s (omega arith) (Grows-refl r) g

  -- A step that writes no message and takes no turn.
  quiet :
      (r s : Round)
      → s.bus.messages ≡ r.bus.messages
      → s.turn_count ≡ r.turn_count
      → get k s.bus.topics ≡ get k r.bus.topics
      → get k s.bus.active_topics ≡ get k r.bus.active_topics
      → Grows topic k ps 0 r s
  quiet r s m n t a = record {
    turns = [];
    added = [];
    woven = ends;
    logged = m ∙ sym (append-nil r.bus.messages);
    counted = omega (arith, n);
    bounded = omega arith;
    spoken = tt;
    same_row = t;
    same_active = a;
  }

  -- Other calls between the steps.
  others-Grows :
      (f : ℕ → Bus → Bus) (v : IsBeside k f) (n : ℕ) (r : Round)
      → Grows topic k ps 0 r (record r { bus = f n r.bus })
  others-Grows f v n r =
      let (ms, e) = v.posts n r.bus in
      record {
        turns = [];
        added = ms;
        woven = foreign-Woven ms;
        logged = e;
        counted = omega arith;
        bounded = omega arith;
        spoken = tt;
        same_row = v.leaves_row n r.bus;
        same_active = v.leaves n r.bus;
      }

  streamed-Grows : (r : Round) → Grows topic k ps 0 r (streamed w r)
  unfolding streamed
  streamed-Grows r = others-Grows w.while_streaming streams r.number r

  paused-Grows : (r : Round) → Grows topic k ps 0 r (paused w r)
  unfolding paused
  paused-Grows r = others-Grows w.while_pausing pauses r.number r

  present_turn-Grows :
      (a : String) (r : Round)
      → contains a ps ≡ true
      → Grows topic k ps 1 r (present_turn w topic a r)
  unfolding present_turn post_message emit
  present_turn-Grows a r h = record {
    turns = _ ∷ [];
    added = _ ∷ [];
    woven = own ends;
    logged = refl;
    counted = refl;
    bounded = omega arith;
    spoken = (record { in_topic = refl; by_participant = h; spoken = refl }, tt);
    same_row = refl;
    same_active = refl;
  }

  answered_turn-Grows :
      (a : String) (is_live : Bool) (text : String) (r : Round)
      → contains a ps ≡ true
      → Grows topic k ps 1 r (answered_turn w topic a is_live text r)
  unfolding answered_turn post_message emit
  answered_turn-Grows a true text r h = record {
    turns = _ ∷ [];
    added = _ ∷ [];
    woven = own ends;
    logged = refl;
    counted = refl;
    bounded = omega arith;
    spoken = (record { in_topic = refl; by_participant = h; spoken = refl }, tt);
    same_row = refl;
    same_active = refl;
  }
  answered_turn-Grows a false text r h = record {
    turns = _ ∷ [];
    added = _ ∷ [];
    woven = own ends;
    logged = refl;
    counted = refl;
    bounded = omega arith;
    spoken = (record { in_topic = refl; by_participant = h; spoken = refl }, tt);
    same_row = refl;
    same_active = refl;
  }

  not_ready_round-Grows :
      (a : String) (r : Round) → Grows topic k ps 0 r (not_ready_round w topic a r)
  unfolding not_ready_round emit
  not_ready_round-Grows a r = quiet r (not_ready_round w topic a r) refl refl refl refl

  failed_turn-Grows : (a : String) (r : Round) → Grows topic k ps 0 r (failed_turn w topic a r)
  unfolding failed_turn emit
  failed_turn-Grows a r = quiet r (failed_turn w topic a r) refl refl refl refl

  fall_back-Grows : (a : String) (r : Round) → Grows topic k ps 0 r (fall_back w topic a r)
  unfolding fall_back emit
  fall_back-Grows a r = elim (Bool-cases (is_rerouted (w.seat r.number a))) [
    | inl e ↦ quiet r (fall_back w topic a r) (rw (e) refl) refl (rw (e) refl) (rw (e) refl)
    | inr e ↦ quiet r (fall_back w topic a r) (rw (e) refl) refl (rw (e) refl) (rw (e) refl)
  ]

  unready-Grows :
      (a : String) (r : Round) → Grows topic k ps 0 r (streamed w (fall_back w topic a r))
  unready-Grows a r =
      Grows-then 0 0 0 r _ _ (omega arith) (fall_back-Grows a r)
        (streamed-Grows (fall_back w topic a r))

  after_turn-Grows :
      (targets : List String) (left : ℕ) (r s : Round) (rest : Round → Round)
      → Grows topic k ps 1 r s
      → Grows topic k ps left (paused w s) (rest (paused w s))
      → Grows topic k ps (suc left) r (after_turn w topic targets s rest)
  unfolding after_turn stopped emit
  after_turn-Grows targets left r s rest g h = elim (Option-cases (should_stop targets s)) [
    | inr (reason, e) ↦
        rw (e, after_turn)
          (Grows-then 1 0 (suc left) r s _ (omega arith) g
            (quiet s (stopped topic reason s) refl refl refl refl))
    | inl e ↦ elim (Bool-cases (w.aborted_after s.number)) [
      | inl f ↦ rw (e, f, after_turn) (Grows-more 1 (suc left) r s (omega arith) g)
      | inr f ↦
          rw (e, f, after_turn)
            (Grows-then 1 left (suc left) r s _ (omega arith) g
              (Grows-then 0 left left s _ _ (omega arith) (paused-Grows s) h))
    ]
  ]

  module _ (targets : List String) (all : Seated ps ps) where
    -- A round table takes at most the turns that are left, each of them a reply of a participant.
    pub rounds-Grows :
        (left : ℕ) (queue : List String) (r : Round)
        → Seated ps queue
        → Grows topic k ps left r (rounds w topic ps targets left queue r)
    unfolding rounds
    rounds-Grows zero queue r h = Grows-refl r
    rounds-Grows (suc left) [] r h = Grows-more 0 (suc left) r r (omega arith) (Grows-refl r)
    rounds-Grows (suc left) (a ∷ queue) r h = elim (Bool-cases (w.aborted r.number)) [
      | inl stop ↦ rw (stop, rounds) (Grows-more 0 (suc left) r r (omega arith) (Grows-refl r))
      | inr go ↦ elim (Meeting-cases (meet w r.number a)) [
        | inl (inl e) ↦
            rw (go, e, rounds)
              (Grows-then 1 left (suc left) r _ _ (omega arith) (present_turn-Grows a r h.0)
                (rounds-Grows left queue (present_turn w topic a r) h.1))
        | inl (inr e) ↦
            rw (go, e, rounds)
              (Grows-then 0 (suc left) (suc left) r _ _ (omega arith) (not_ready_round-Grows a r)
                (rounds-Grows (suc left) queue (not_ready_round w topic a r) h.1))
        | inr (inl e) ↦ elim (Option-cases (w.reply r.number a)) [
          | inl none_ ↦
              rw (go, e, none_, rounds)
                (Grows-then 0 0 (suc left) r _ _ (omega arith) (streamed-Grows r)
                  (failed_turn-Grows a (streamed w r)))
          | inr (text, said) ↦
              rw (go, e, said, rounds)
                (after_turn-Grows targets left r (answered_turn w topic a true text (streamed w r))
                  _
                  (Grows-then 0 1 1 r _ _ (omega arith) (streamed-Grows r)
                    (answered_turn-Grows a true text (streamed w r) h.0))
                  (rounds-Grows left _ _ (next_queue-Seated ps a text _ queue all h.1)))
        ]
        | inr (inr e) ↦ elim (Option-cases (w.reply r.number a)) [
          | inl none_ ↦
              rw (go, e, none_, rounds)
                (Grows-then 0 0 (suc left) r _ _ (omega arith) (unready-Grows a r)
                  (failed_turn-Grows a (streamed w (fall_back w topic a r))))
          | inr (text, said) ↦
              rw (go, e, said, rounds)
                (Grows-then 0 (suc left) (suc left) r _ _ (omega arith) (unready-Grows a r) (
                  after_turn-Grows targets left (streamed w (fall_back w topic a r))
                    (answered_turn w topic a false text (streamed w (fall_back w topic a r))) _
                    (answered_turn-Grows a false text (streamed w (fall_back w topic a r)) h.0)
                    (rounds-Grows left _ _ (next_queue-Seated ps a text _ queue all h.1))))
        ]
      ]
    ]
