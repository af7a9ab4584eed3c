-- ===== src/Run/Threads/Roster.antt =====
-- src/lib.rs, `run`: the threads that there are, with the batches in their hands, each of which is
-- short of its size.
use minifind.Base.{
  ℕ, zero, suc, ◌<◌, ◌≡◌, refl, ap, Bool, true, false, Option, none, some, List, ◌∷◌, ◌++◌, length,
  length-append, All, All-at, All-replace, arith,
}
use mathlib.Core.Path.{subst}
use minifind.FileType.{Probe}
use minifind.Walk.{Platform, WalkState, go_on, quit, WalkCtx}
use minifind.Walk.System.{n_workers, Seen}
use minifind.Walk.Process.Actions.{Action}
use minifind.Pipeline.Batch.{batch_size}
use minifind.Pipeline.Output.{Printer, is_reached}
use minifind.Pipeline.Visitor.{Visit}
use minifind.Run.{Plan}
use minifind.Run.Channel.{Channel, IsChannel}
use minifind.Run.Threads.{
  Handle, Seat, Program, with_tx, visited, written, idle_seats, start, work, call, leave, receive,
  write, drain, end_scope, join, signal, Run, here, next,
}
use minifind.Run.Threads.Growth.{visit-Grows}
use minifind.Run.Threads.Tally.Steps.{at_place}
use minifind.Run.Threads.Tally.Whole.{Run-Tally}

abbrev ShortBatch : Option (Visit Handle) → Type 0
ShortBatch none = Unit {0}
ShortBatch (some v) = length v.batch.buf < batch_size

abbrev pub IsShort : {Fd : Type 0} → Seat Fd → Type 0
IsShort s = ShortBatch s.visitor

pub record Roster {Fd : Type 0} (number : ℕ) (seats : List (Seat Fd)) : Type 0 where
  pub short : All IsShort seats
  pub same_number : length seats ≡ number

Roster-replace :
    {Fd : Type 0} (number : ℕ) (seats before after : List (Seat Fd)) (x y : Seat Fd)
    → seats ≡ before ++ (x ∷ after)
    → (IsShort x → IsShort y)
    → Roster number seats
    → Roster number (before ++ (y ∷ after))
Roster-replace number seats before after x y p k i =
    let all = subst (All IsShort) p i.short in
    record {
      short = All-replace IsShort before after x y all (k (All-at IsShort before after x all));
      same_number = omega (
        arith,
        i.same_number,
        ap length p,
        length-append before (x ∷ after),
        length-append before (y ∷ after),
      );
    }

module _ {Fd C : Type 0} (P : Platform Fd) (fs : Probe) (has_user has_group : ℕ → Bool)
    (X : Channel C) (laws : IsChannel X) (ctx : WalkCtx Fd) (plan : Plan) where
  abbrev Listed : Program Fd C → Type 0
  Listed m = Roster (n_workers ctx.args) m.seats

  visited-Roster :
      (m : Program Fd C) (before after : List (Seat Fd)) (x : Seat Fd) (v : Visit Handle)
      (s : Seen Fd) (rest : List (Action Fd)) (r : WalkState × Visit C)
      → x.visitor ≡ some v
      → m.seats ≡ before ++ (x ∷ after)
      → (length v.batch.buf < batch_size → length r.1.batch.buf < batch_size)
      → Listed m
      → Listed (visited P fs has_user has_group X ctx plan m before after s rest r)
  visited-Roster m before after x v s rest (go_on, v') e p k i =
      Roster-replace _ m.seats before after x _ p (λ h. k (subst ShortBatch e h)) i
  visited-Roster m before after x v s rest (quit, v') e p k i =
      Roster-replace _ m.seats before after x _ p (λ h. k (subst ShortBatch e h)) i

  written-Roster :
      (m : Program Fd C) (r : Bool × Printer)
      → Listed m
      → Listed (written P fs has_user has_group X ctx plan m r)
  written-Roster m (true, p) i = i
  written-Roster m (false, p) i = i

  idle_seats-Roster : (n : ℕ) → Roster n (idle_seats P fs has_user has_group X ctx plan n)
  unfolding idle_seats
  idle_seats-Roster zero = record { short = tt; same_number = refl }
  idle_seats-Roster (suc n) =
      let i = idle_seats-Roster n in
      record { short = (omega arith, i.short); same_number = ap suc i.same_number }

  -- There are always as many threads as were spawned, and no batch in the making is full.
  pub Run-Roster :
      {m : Program Fd C}
      → is_reached plan.max_results 0 ≡ false
      → Run P fs has_user has_group X ctx plan (start P fs has_user has_group X ctx plan) m
      → Listed m
  unfolding start
  Run-Roster n here = idle_seats-Roster (n_workers ctx.args)
  Run-Roster n (next {t = m} r (work before after x t w p mv k)) =
      Roster-replace _ m.seats before after x _ p (λ h. h) (Run-Roster n r)
  Run-Roster n (next {t = m} r (call before after v e a rest b p k h)) =
      visited-Roster m before after _ v _ rest _ refl p
        (visit-Grows P fs plan.filters has_user has_group X.send b e a (with_tx m.chan v) (
          at_place P fs has_user has_group X laws ctx plan m before after _
            (Run-Tally P fs has_user has_group X laws ctx plan n r) p)).short
        (Run-Roster n r)
  Run-Roster n (next {t = m} r (leave before after v p h)) =
      Roster-replace _ m.seats before after _ _ p (λ h. tt) (Run-Roster n r)
  Run-Roster n (next r (receive p b c o e)) = Run-Roster n r
  Run-Roster n (next {t = m} r (write p b o)) = written-Roster m _ (Run-Roster n r)
  Run-Roster n (next r (drain p o e g k)) = Run-Roster n r
  Run-Roster n (next r (end_scope k g)) = Run-Roster n r
  Run-Roster n (next r (join p k o)) = Run-Roster n r
  Run-Roster n (next r signal) = Run-Roster n r
