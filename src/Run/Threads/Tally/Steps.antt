-- ===== src/Run/Threads/Tally/Steps.antt =====
-- src/lib.rs, `run`: every step of the threads keeps the tally.
use minifind.Base.{
  ℕ, ◌+◌, ◌≤◌, ◌≡◌, refl, sym, ap, ◌∙◌, inl, inr, Bool, Bool-cases, true, false, not, Option, none,
  some, some-inj, List, [], ◌∷◌, ◌++◌, all, all_middle, All, All-at, arith,
}
use mathlib.Core.Path.{subst}
use minifind.FileType.{Probe}
use minifind.Walk.{Platform, WalkState, go_on, quit, Entry, StatAt, WalkCtx}
use minifind.Walk.Process.Actions.{Action, emit, quits}
use minifind.Walk.System.{
  Worker, busy, stopped, System, Move, see_quit, look, take, find_none, see_done, snooze, visit,
  visit_quit, count, push, finish, calls,
}
use minifind.Walk.System.Costs.{sum}
use minifind.Walk.System.Count.{has_stopped, Move-not_stopped}
use minifind.Pipeline.Batch.{drop}
use minifind.Pipeline.Batch.Laws.{concat}
use minifind.Pipeline.Visitor.{Visit}
use minifind.Run.{Plan}
use minifind.Run.Channel.{Channel, IsChannel}
use minifind.Run.Threads.Sends.{Visited, drop-Took}
use minifind.Run.Threads.{
  Handle, handle, Seat, Output, receiving, writing, ended, Program, walk_of, is_gone, visited, left,
  worked, with_tx,
}
use minifind.Run.Threads.Tally.{is_ended, coming, IsSeat, Manned, weigh, capped, Tally, turned}

module _ {C : Type 0} (X : Channel C) (laws : IsChannel X) where
  pub recv-some :
      (c c' : C) (b : List Entry)
      → X.recv c ≡ some (b, c')
      → (X.held c ≡ b ∷ X.held c') × (X.is_open c' ≡ X.is_open c)
  recv-some c c' b e = go (X.held c) refl
    where
      go :
          (bs : List (List Entry))
          → X.held c ≡ bs
          → (X.held c ≡ b ∷ X.held c') × (X.is_open c' ≡ X.is_open c)
      go [] h = cc (laws.recv_nil c h, e)
      go (b' ∷ bs) h =
          let (d, r, k, o) = laws.recv_cons c b' bs h in
          let same : (b', d) ≡ (b, c') = some-inj (sym r ∙ e) in (cc (same, h, k), cc (same, o))

  pub recv-none : (c : C) → X.recv c ≡ none → X.held c ≡ []
  recv-none c e = go (X.held c) refl
    where
      go : (bs : List (List Entry)) → X.held c ≡ bs → X.held c ≡ []
      go [] h = h
      go (b ∷ bs) h = let (d, r, k, o) = laws.recv_cons c b bs h in cc (r, e)

-- A move that is no visit leaves the flag and the log alone.
pub Move-quiet :
    {Fd : Type 0} (P : Platform Fd) (ctx : WalkCtx Fd) {s t : System Fd} {w w' : Worker Fd}
    → Move P ctx s t w w'
    → calls w ≡ false
    → (t.quit ≡ s.quit) × (t.emitted ≡ s.emitted)
Move-quiet P ctx (see_quit q e) k = (cc e, cc e)
Move-quiet P ctx (look q e) k = (cc e, cc e)
Move-quiet P ctx (take xs ys t q e) k = (cc e, cc e)
Move-quiet P ctx (find_none e) k = (cc e, cc e)
Move-quiet P ctx (see_done q e) k = (cc e, cc e)
Move-quiet P ctx (snooze e) k = (cc e, cc e)
Move-quiet P ctx (visit e a rest q) k = (cc k, cc k)
Move-quiet P ctx (visit_quit e a rest q) k = (cc k, cc k)
Move-quiet P ctx (count t rest q) k = (cc q, cc q)
Move-quiet P ctx (push t rest q) k = (cc q, cc q)
Move-quiet P ctx (finish e) k = (cc e, cc e)

module _ {Fd C : Type 0} (P : Platform Fd) (fs : Probe) (has_user has_group : ℕ → Bool)
    (X : Channel C) (laws : IsChannel X) (ctx : WalkCtx Fd) (plan : Plan) where
  abbrev Seated : Seat Fd → Type 0
  Seated s = IsSeat P fs has_user has_group X plan s

  abbrev Kept : Program Fd C → Type 0
  Kept m = Tally P fs has_user has_group X plan m

  keep_seat :
      (w w' : Worker Fd) (o : Option (Visit Handle))
      → has_stopped w ≡ false
      → Manned P fs has_user has_group X plan w o
      → Manned P fs has_user has_group X plan w' o
  keep_seat w w' none n h = cc (n, h)
  keep_seat w w' (some v) n h = h

  pub at_place :
      (m : Program Fd C) (before after : List (Seat Fd)) (x : Seat Fd)
      → Kept m
      → m.seats ≡ before ++ (x ∷ after)
      → Seated x
  at_place m before after x i p = All-at Seated before after x (subst (All Seated) p i.seated)

  pub work-Tally :
      (m : Program Fd C) (before after : List (Seat Fd)) (x : Seat Fd) (t : System Fd)
      (w : Worker Fd)
      → m.seats ≡ before ++ (x ∷ after)
      → Move P ctx (walk_of m) t x.at w
      → calls x.at ≡ false
      → Kept m
      → Kept
          (worked P fs has_user has_group X ctx plan m t (before ++ (record x { at = w } ∷ after)))
  work-Tally m before after x t w p mv k i =
      let (q, l) = Move-quiet P ctx mv k in
      let same : (weight : Entry → ℕ)
          → sum (weigh P fs has_user has_group X plan weight) t.emitted
            ≡ sum (weigh P fs has_user has_group X plan weight) m.emitted =
        λ (weight : Entry → ℕ). ap (sum (weigh P fs has_user has_group X plan weight)) l in
      turned P fs has_user has_group X plan m before after x (record x { at = w }) t.queue t.pending
        t.quit t.emitted m.chan i p
        (keep_seat x.at w x.visitor (Move-not_stopped P ctx mv) (at_place m before after x i p))
        (λ g. g) refl (λ a b. i.reason (sym q ∙ a) b) (λ weight. omega (arith, same weight))
        (λ weight a b. (sym q ∙ a, omega (arith, same weight)))

  -- A place that is not left keeps the end of the output away.
  not_all :
      (before after : List (Seat Fd)) (w : Worker Fd) (v : Visit Handle) (l : List (Seat Fd))
      → l ≡ before ++ (record { at = w; visitor = some v } ∷ after)
      → all is_gone l ≡ false
  not_all before after w v l p =
      ap (all is_gone) p ∙ all_middle is_gone before after (record { at = w; visitor = some v })

  -- While a visitor is there, the output thread has ended only at the last result.
  still_open :
      (m : Program Fd C) (before after : List (Seat Fd)) (w : Worker Fd) (v : Visit Handle)
      → m.seats ≡ before ++ (record { at = w; visitor = some v } ∷ after)
      → Kept m
      → capped P fs has_user has_group X plan m.output ≡ false
      → is_ended m.output ≡ false
  still_open m before after w v p i n = elim (Bool-cases (is_ended m.output)) [
    | inl e ↦ cc (i.ending e n, not_all before after w v m.seats p)
    | inr e ↦ e
  ]

  -- What is on its way, with what the visitor's batch holds.
  coming_more :
      (weight : Entry → ℕ) (o : Output) (c c' : C) (old new more : ℕ)
      → sum weight (concat (X.held c')) + new ≤ sum weight (concat (X.held c)) + old + more
      → new ≤ old + more
      → coming X weight o c' + new ≤ coming X weight o c + old + more
  coming_more weight (receiving p) c c' old new more h k = omega arith
  coming_more weight (writing b p) c c' old new more h k = omega arith
  coming_more weight (ended p) c c' old new more h k = omega arith

  coming_same :
      (weight : Entry → ℕ) (o : Output) (c c' : C) (old new more : ℕ)
      → is_ended o ≡ false
      → sum weight (concat (X.held c')) + new ≡ sum weight (concat (X.held c)) + old + more
      → coming X weight o c' + new ≡ coming X weight o c + old + more
  coming_same weight (receiving p) c c' old new more e h = omega arith
  coming_same weight (writing b p) c c' old new more e h = omega arith
  coming_same weight (ended p) c c' old new more e h = cc e

  pub call-Tally :
      (m : Program Fd C) (before after : List (Seat Fd)) (v : Visit Handle) (e : Entry)
      (a : StatAt Fd) (rest : List (Action Fd)) (b : Bool) (r : WalkState × Visit C)
      → m.seats ≡ before ++ (record { at = busy (emit e a ∷ rest); visitor = some v } ∷ after)
      → (b ≡ true → m.shutdown ≡ true)
      → ((weight : Entry → ℕ)
          → Visited P fs plan.filters has_user has_group X laws weight b
              (e, a)
              (with_tx m.chan v)
              r)
      → Kept m
      → Kept (visited P fs has_user has_group X ctx plan m before after (e, a) rest r)
  unfolding sum
  call-Tally m before after v e a rest b (go_on, v') p k h i =
      turned P fs has_user has_group X plan m before after _
        (record { at = busy rest; visitor = some (with_tx handle v') }) m.queue m.pending m.quit
        ((e, a) ∷ m.emitted) v'.batch.tx i p (h (λ x. 0)).cache (λ g. cc g) (h (λ x. 0)).open_same
        i.reason
        (λ weight.
          let more =
            coming_more weight m.output m.chan v'.batch.tx _ _ _ (h weight).most (h weight).keeps in
          omega (arith, more))
        (λ weight q n.
          let o = still_open m before after _ v p i n in
          let x = (h weight).exact (i.open_same ∙ ap not o) ((h weight).unset refl) in
          let more = coming_same weight m.output m.chan v'.batch.tx _ _ _ o x.1 in
          (q, omega (arith, more)))
  call-Tally m before after v e a rest b (quit, v') p k h i =
      turned P fs has_user has_group X plan m before after _
        (record { at = busy []; visitor = some (with_tx handle v') }) m.queue m.pending true
        ((e, a) ∷ m.emitted) v'.batch.tx i p (h (λ x. 0)).cache (λ g. cc g) (h (λ x. 0)).open_same
        (λ t d. elim (Bool-cases (capped P fs has_user has_group X plan m.output)) [
          | inl full ↦ full
          | inr n ↦ elim (Bool-cases b) [
            | inl set ↦ cc (k set, d)
            | inr un ↦
                let o = still_open m before after _ v p i n in
                let x = (h (λ x. 0)).exact (i.open_same ∙ ap not o) un in cc (ap quits x.0)
          ]
        ])
        (λ weight.
          let more =
            coming_more weight m.output m.chan v'.batch.tx _ _ _ (h weight).most (h weight).keeps in
          omega (arith, more))
        (λ weight q n. cc q)

  pub leave-Tally :
      (m : Program Fd C) (before after : List (Seat Fd)) (v : Visit Handle)
      → m.seats ≡ before ++ (record { at = stopped; visitor = some v } ∷ after)
      → Kept m
      → Kept (
          left P fs has_user has_group X ctx plan m before after
            (drop X.send (with_tx m.chan v).batch))
  unfolding sum
  leave-Tally m before after v p i =
      let b' = drop X.send (with_tx m.chan v).batch in
      let took : (weight : Entry → ℕ) → _ =
        λ (weight : Entry → ℕ). drop-Took X laws weight (with_tx m.chan v).batch in
      turned P fs has_user has_group X plan m before after _
        (record { at = stopped; visitor = none }) m.queue m.pending m.quit m.emitted b'.tx i p refl
        (λ g. cc g) (took (λ x. 0)).0.open_same i.reason
        (λ weight.
          let (t, none_left) = took weight in
          let more =
            coming_more weight m.output m.chan b'.tx (sum weight v.batch.buf) 0 0
              (omega (arith, t.most, ap (sum weight) none_left)) (omega arith) in
          omega (arith, more))
        (λ weight q n.
          let (t, none_left) = took weight in
          let o = still_open m before after _ v p i n in
          let x = t.exact (i.open_same ∙ ap not o) in
          let more =
            coming_same weight m.output m.chan b'.tx (sum weight v.batch.buf) 0 0 o
              (omega (arith, x, ap (sum weight) none_left)) in
          (q, omega (arith, more)))
