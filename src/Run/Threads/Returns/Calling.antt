-- ===== src/Run/Threads/Returns/Calling.antt =====
-- src/lib.rs, `run`: a thread makes the next move of its worker, a call of the visitor included.
use minifind.Base.{
  ℕ, ◌≡◌, refl, sym, ap, ◌∙◌, Bool, true, false, Option, none, some, List, [], ◌∷◌, ◌++◌,
}
use mathlib.Core.Path.{subst}
use minifind.FileType.{Probe}
use minifind.Walk.{Platform, WalkState, go_on, quit, Entry, StatAt, WalkCtx}
use minifind.Walk.Process.Actions.{Action, emit}
use minifind.Walk.System.{Seen, Worker, busy, System, Move, calls}
use minifind.Pipeline.Output.{is_reached}
use minifind.Pipeline.Visitor
use minifind.Run.Threads
use minifind.Pipeline.Visitor.{Visit}
use minifind.Pipeline.Worker.Whole.{map}
use minifind.Run.{Plan}
use minifind.Run.Channel.{Channel, IsChannel}
use minifind.Run.Threads.{
  Handle, handle, Seat, Main, walking, joining, done, Program, walk_of, is_gone, is_walking,
  with_tx, may_send, visited, visit_sends, worked, work, call, leave, drain, end_scope, join, Run,
  next, start,
}
use minifind.Run.Threads.Follows.{map_middle}
use minifind.Run.Threads.Settle.{Returns, return_next, Settled}
use minifind.Run.Threads.Tally.{Manned}
use minifind.Run.Threads.Tally.Steps.{at_place}
use minifind.Run.Threads.Returns.Places.{origin}
use minifind.Run.Threads.Returns.Waiting.{tally, catch_up, may_go}

module _ {Fd C : Type 0} (P : Platform Fd) (fs : Probe) (has_user has_group : ℕ → Bool)
    (X : Channel C) (laws : IsChannel X) (ctx : WalkCtx Fd) (plan : Plan)
    (uncapped : is_reached plan.max_results 0 ≡ false) where
  abbrev Begun : Program Fd C → Type 0
  Begun m = Run P fs has_user has_group X ctx plan (start P fs has_user has_group X ctx plan) m

  abbrev CanReturn : Program Fd C → Type 0
  CanReturn m = Returns P fs has_user has_group X laws ctx plan m

  abbrev at_of : Seat Fd → Worker Fd
  at_of s = s.at

  -- The walk of a state with another list of workers.
  same_turned :
      (t : System Fd) (before after : List (Seat Fd)) (x : Seat Fd) (xs ys : List (Worker Fd))
      → map at_of before ≡ xs
      → map at_of after ≡ ys
      → record t { workers = map at_of (before ++ (x ∷ after)) }
        ≡ record t { workers = xs ++ (x.at ∷ ys) }
  same_turned t before after x xs ys l q =
      ap (λ (ws : List (Worker Fd)). record t { workers = ws })
        (map_middle at_of before after x
          ∙ ap (λ (a : List (Worker Fd)). a ++ (x.at ∷ map at_of after)) l
          ∙ ap (λ (b : List (Worker Fd)). xs ++ (x.at ∷ b)) q)

  abbrev pub Onward : System Fd → Type 0
  Onward s = (m : Program Fd C) → walk_of m ≡ s → Begun m → m.main ≡ walking → CanReturn m

  pub work_on :
      (s t : System Fd) (xs ys : List (Worker Fd)) (w w' : Worker Fd)
      → s.workers ≡ xs ++ (w ∷ ys)
      → Move P ctx s t w w'
      → calls w ≡ false
      → Onward (record t { workers = xs ++ (w' ∷ ys) })
      → Onward s
  work_on s t xs ys w w' p mv k more m e r main =
      let o = origin at_of xs m.seats ys w (ap (λ (x : System Fd). x.workers) e ∙ p) in
      let mv' : Move P ctx (walk_of m) t o.it.at w' =
        subst (λ (v : Worker Fd). Move P ctx (walk_of m) t v w') (sym o.here)
          (subst (λ (x : System Fd). Move P ctx x t w w') (sym e) mv) in
      let st = work o.before o.after o.it t w' o.place mv' (ap calls o.here ∙ k) in
      return_next P fs has_user has_group X laws ctx plan st refl (
        more _ (same_turned t o.before o.after (record o.it { at = w' }) xs ys o.left o.right)
          (next r st) main)

  abbrev seen_log : Seen Fd → System Fd → System Fd
  seen_log x s = record s { emitted = x ∷ s.emitted }

  call_seat :
      (s : System Fd) (before after : List (Seat Fd)) (o : Option (Visit Handle)) (e : Entry)
      (a : StatAt Fd) (rest : List (Action Fd)) (xs ys : List (Worker Fd)) (m : Program Fd C)
      → Manned P fs has_user has_group X plan (busy (emit e a ∷ rest)) o
      → m.seats ≡ before ++ (record { at = busy (emit e a ∷ rest); visitor = o } ∷ after)
      → map at_of before ≡ xs
      → map at_of after ≡ ys
      → Onward (record s { emitted = (e, a) ∷ s.emitted; workers = xs ++ (busy rest ∷ ys) })
      → Onward
          (record s { emitted = (e, a) ∷ s.emitted; quit = true; workers = xs ++ (busy [] ∷ ys) })
      → walk_of m ≡ s
      → Begun m
      → m.main ≡ walking
      → Settled P fs has_user has_group X laws ctx plan m
      → CanReturn m
  call_seat s before after none e a rest xs ys m h p l q more less w r main d = cc
  call_seat s before after (some v) e a rest xs ys m h p l q more less w r main d =
      go
        (Visitor.visit P fs plan.filters has_user has_group X.send m.shutdown e a
          (with_tx m.chan v))
        (call before after v e a rest m.shutdown p (λ b. b)
          (may_go P fs has_user has_group X laws ctx plan uncapped _ m r d))
    where
      go :
          (o : WalkState × Visit C)
          → Threads.Step P fs has_user has_group X ctx plan m
              (visited P fs has_user has_group X ctx plan m before after (e, a) rest o)
          → CanReturn m
      go (go_on, v') st = return_next P fs has_user has_group X laws ctx plan st refl (
          more _
            (same_turned (seen_log (e, a) (walk_of m)) before after _ xs ys l q
              ∙ ap
                  (λ (x : System Fd). record x {
                    emitted = (e, a) ∷ x.emitted;
                    workers = xs ++ (busy rest ∷ ys);
                  })
                  w)
            (next r st) main)
      go (quit, v') st = return_next P fs has_user has_group X laws ctx plan st refl (
          less _
            (same_turned (record (seen_log (e, a) (walk_of m)) { quit = true }) before after _ xs ys
                l q
              ∙ ap
                  (λ (x : System Fd). record x {
                    emitted = (e, a) ∷ x.emitted;
                    quit = true;
                    workers = xs ++ (busy [] ∷ ys);
                  })
                  w)
            (next r st) main)

  pub call_on :
      (s : System Fd) (xs ys : List (Worker Fd)) (e : Entry) (a : StatAt Fd)
      (rest : List (Action Fd))
      → s.workers ≡ xs ++ (busy (emit e a ∷ rest) ∷ ys)
      → Onward (record s { emitted = (e, a) ∷ s.emitted; workers = xs ++ (busy rest ∷ ys) })
      → Onward
          (record s { emitted = (e, a) ∷ s.emitted; quit = true; workers = xs ++ (busy [] ∷ ys) })
      → Onward s
  call_on s xs ys e a rest p more less m w r main =
      catch_up P fs has_user has_group X laws ctx plan uncapped m r (λ u r' same d.
        let w' = same.walk ∙ w in
        let o = origin at_of xs u.seats ys _ (ap (λ (x : System Fd). x.workers) w' ∙ p) in
        let place : u.seats
            ≡ o.before
              ++ (record { at = busy (emit e a ∷ rest); visitor = o.it.visitor } ∷ o.after) =
          o.place
          ∙ ap
              (λ (x : Worker Fd). o.before ++ (record { at = x; visitor = o.it.visitor } ∷ o.after))
              o.here in
        call_seat s o.before o.after o.it.visitor e a rest xs ys u
          (at_place P fs has_user has_group X laws ctx plan u o.before o.after _
            (tally P fs has_user has_group X laws ctx plan uncapped r') place)
          place o.left o.right more less w' r' (same.main ∙ main) d)
