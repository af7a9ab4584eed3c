-- ===== src/Run/Threads/Returns/Waiting.antt =====
-- src/lib.rs, `run`: the output thread catches up, so that the next send completes, or it ends.
use minifind.Base.{ℕ, ◌≡◌, refl, ap, ◌∙◌, inl, inr, Bool, true, false, not, all, ◌&&◌}
use minifind.FileType.{Probe}
use minifind.Walk.{Platform, WalkCtx}
use minifind.Pipeline.Output.{is_reached}
use minifind.Run.{Plan}
use minifind.Run.Channel.{Channel, IsChannel}
use minifind.Run.Threads.{joining, Program, is_gone, is_walking, may_send, drain, join, Run, start}
use minifind.Run.Threads.Settle.{
  Returns, return_after, return_next, Same, Settled, settle, Settled-may_send, and_then,
}
use minifind.Run.Threads.Tally.{Tally}
use minifind.Run.Threads.Tally.Whole.{Run-Tally}

module _ {Fd C : Type 0} (P : Platform Fd) (fs : Probe) (has_user has_group : ℕ → Bool)
    (X : Channel C) (laws : IsChannel X) (ctx : WalkCtx Fd) (plan : Plan)
    (uncapped : is_reached plan.max_results 0 ≡ false) where
  abbrev pub Begun : Program Fd C → Type 0
  Begun m = Run P fs has_user has_group X ctx plan (start P fs has_user has_group X ctx plan) m

  abbrev pub CanReturn : Program Fd C → Type 0
  CanReturn m = Returns P fs has_user has_group X laws ctx plan m

  pub tally : {m : Program Fd C} → Begun m → Tally P fs has_user has_group X plan m
  tally r = Run-Tally P fs has_user has_group X laws ctx plan uncapped r

  -- The output thread is let catch up first.
  pub catch_up :
      (m : Program Fd C)
      → Begun m
      → ((u : Program Fd C)
          → Begun u
          → Same P fs has_user has_group X laws ctx plan m u
          → Settled P fs has_user has_group X laws ctx plan u
          → CanReturn u)
      → CanReturn m
  catch_up m r k =
      let (u, same, d) = settle P fs has_user has_group X laws ctx plan m in
      return_after P fs has_user has_group X laws ctx plan same.run same.shutdown
        (k u (and_then P fs has_user has_group X laws ctx plan r same.run) same d)

  -- With no sender left, the output thread ends, and the main thread with it.
  pub finish_output :
      (m : Program Fd C) → Begun m → m.main ≡ joining → all is_gone m.seats ≡ true → CanReturn m
  finish_output m r w g =
      catch_up m r (λ u q same d. end u (same.main ∙ w) (ap (all is_gone) same.seats ∙ g) d)
    where
      end :
          (u : Program Fd C)
          → u.main ≡ joining
          → all is_gone u.seats ≡ true
          → Settled P fs has_user has_group X laws ctx plan u
          → CanReturn u
      end u w g (inl (p, o)) =
          return_next P fs has_user has_group X laws ctx plan (join p w o) refl
            (_, Run.here, refl, refl)
      end u w g (inr (p, o, h)) =
          return_next P fs has_user has_group X laws ctx plan
            (drain p o (laws.recv_nil u.chan h) g (ap is_walking w)) refl
            (return_next P fs has_user has_group X laws ctx plan (join p w refl) refl
              (_, Run.here, refl, refl))

  pub may_go :
      (sends : Bool) (m : Program Fd C)
      → Begun m
      → Settled P fs has_user has_group X laws ctx plan m
      → (sends && not (may_send P fs has_user has_group X ctx plan m)) ≡ false
  may_go sends m r d =
      rw (Settled-may_send P fs has_user has_group X laws ctx plan m (tally r) d) (never sends)
    where
      never : (b : Bool) → (b && false) ≡ false
      never true = refl
      never false = refl
