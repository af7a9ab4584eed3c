-- ===== src/Run/Threads/Returns/Leaving.antt =====
-- src/lib.rs, `run`: the threads whose workers have stopped drop their visitors.
use minifind.Base.{
  ℕ, ◌≡◌, refl, sym, ap, ◌∙◌, Bool, true, false, Option, none, some, List, [], ◌∷◌, ◌++◌,
  append-nil, append_assoc, all, and-eq-true, arith,
}
use minifind.FileType.{Probe}
use minifind.Walk.{Platform, WalkCtx}
use minifind.Walk.System.{Worker, idle, looking, empty_handed, busy, counted, stopped}
use minifind.Walk.System.Count.{has_stopped}
use minifind.Pipeline.Output.{is_reached}
use minifind.Pipeline.Visitor.{Visit}
use minifind.Pipeline.Worker.Whole.{map}
use minifind.Run.{Plan}
use minifind.Run.Channel.{Channel, IsChannel}
use minifind.Run.Threads.{
  Handle, Seat, walking, Program, is_gone, leave, end_scope, Run, next, start,
}
use minifind.Run.Threads.Settle.{Returns, return_next}
use minifind.Run.Threads.Returns.Waiting.{catch_up, finish_output, may_go}

module _ {Fd C : Type 0} (P : Platform Fd) (fs : Probe) (has_user has_group : ℕ → Bool)
    (X : Channel C) (laws : IsChannel X) (ctx : WalkCtx Fd) (plan : Plan)
    (uncapped : is_reached plan.max_results 0 ≡ false) where
  abbrev Begun : Program Fd C → Type 0
  Begun m = Run P fs has_user has_group X ctx plan (start P fs has_user has_group X ctx plan) m

  abbrev CanReturn : Program Fd C → Type 0
  CanReturn m = Returns P fs has_user has_group X laws ctx plan m

  -- A worker that has returned drops its visitor, if it has not.
  leave_one :
      (w : Worker Fd) (o : Option (Visit Handle)) (xs ys : List (Seat Fd)) (m : Program Fd C)
      → has_stopped w ≡ true
      → m.seats ≡ xs ++ (record { at = w; visitor = o } ∷ ys)
      → m.main ≡ walking
      → Begun m
      → ((u : Program Fd C) (y : Seat Fd)
          → is_gone y ≡ true
          → u.seats ≡ xs ++ (y ∷ ys)
          → u.main ≡ walking
          → Begun u
          → CanReturn u)
      → CanReturn m
  leave_one stopped none xs ys m h p w r k = k m _ refl p w r
  leave_one stopped (some v) xs ys m h p w r k =
      catch_up P fs has_user has_group X laws ctx plan uncapped m r (λ u q same d.
        let st =
          leave xs ys v (same.seats ∙ p)
            (may_go P fs has_user has_group X laws ctx plan uncapped _ u q d) in
        return_next P fs has_user has_group X laws ctx plan st refl
          (k _ (record { at = stopped; visitor = none }) refl refl (same.main ∙ w) (next q st)))
  leave_one idle o xs ys m h p w r k = cc
  leave_one looking o xs ys m h p w r k = cc
  leave_one empty_handed o xs ys m h p w r k = cc
  leave_one (busy acts) o xs ys m h p w r k = cc
  leave_one (counted t rest) o xs ys m h p w r k = cc

  pub leave_rest :
      (ys xs : List (Seat Fd)) (m : Program Fd C)
      → m.seats ≡ xs ++ ys
      → all is_gone xs ≡ true
      → all has_stopped (map (λ (s : Seat Fd). s.at) ys) ≡ true
      → m.main ≡ walking
      → Begun m
      → CanReturn m
  leave_rest [] xs m p g h w r =
      let gone : all is_gone m.seats ≡ true = ap (all is_gone) (p ∙ append-nil xs) ∙ g in
      let st = end_scope w gone in
      return_next P fs has_user has_group X laws ctx plan st refl
        (finish_output P fs has_user has_group X laws ctx plan uncapped _ (next r st) refl gone)
  leave_rest (y ∷ ys) xs m p g h w r =
      let (a, b) = and-eq-true (has_stopped y.at) _ h in
      leave_one y.at y.visitor xs ys m a p w r (λ u z gone q w' r'.
        leave_rest ys (xs ++ (z ∷ [])) u (q ∙ sym (append_assoc xs (z ∷ []) ys))
          (gone-snoc z gone xs g) b w' r')
    where
      gone-snoc :
          (z : Seat Fd)
          → is_gone z ≡ true
          → (l : List (Seat Fd)) → all is_gone l ≡ true
          → all is_gone (l ++ (z ∷ [])) ≡ true
      gone-snoc z h [] g = rw h refl
      gone-snoc z h (x ∷ l) g = ground (arith, gone-snoc z h l)
