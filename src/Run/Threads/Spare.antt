-- ===== src/Run/Threads/Spare.antt =====
-- src/lib.rs, `run`: how many entries a worker may yet take once the channel is closed.
use minifind.Base.{
  ℕ, ◌-◌, ◌*◌, ◌≤◌, ◌≡◌, Bool, true, false, Option, none, some, List, [], ◌∷◌, length, arith, ◌&&◌,
  if◌then◌else◌,
}
use minifind.Walk.{Platform, WalkCtx}
use minifind.Walk.System.{
  Worker, idle, busy, stopped, System, Move, see_quit, look, take, find_none, see_done, snooze,
  visit, visit_quit, count, push, finish, calls,
}
use minifind.Walk.System.Costs.{sum}
use minifind.Pipeline.Batch.{batch_size}
use minifind.Pipeline.Visitor.{Visit}
use minifind.Run.Threads.{Handle, Seat}

-- A worker that comes to its loop next, or has left it.
abbrev pub is_leaving : {Fd : Type 0} → Worker Fd → Bool
is_leaving idle = true
is_leaving (busy []) = true
is_leaving stopped = true
is_leaving _ = false

-- The entries that a worker may yet take once the channel is closed.
abbrev pub spare_of : {Fd : Type 0} → Bool → Worker Fd → Option (Visit Handle) → ℕ
spare_of q w none = 0
spare_of q w (some v) = if q && is_leaving w then 0 else batch_size - length v.batch.buf

abbrev pub spare : {Fd : Type 0} → Bool → Seat Fd → ℕ
spare q s = spare_of q s.at s.visitor

pub spare-quit :
    {Fd : Type 0} (q : Bool) (w : Worker Fd) (o : Option (Visit Handle))
    → spare_of true w o ≤ spare_of q w o
spare-quit q w none = omega arith
spare-quit true w (some v) = omega arith
spare-quit false w (some v) = ground arith

pub spare-most : {Fd : Type 0} (q : Bool) (l : List (Seat Fd)) → sum (spare q) l ≤ 256 * length l
unfolding sum
spare-most q [] = omega arith
spare-most {Fd} q (s ∷ l) = omega (arith, spare-most q l, one q s.at s.visitor)
  where
    one : (q : Bool) (w : Worker Fd) (o : Option (Visit Handle)) → spare_of q w o ≤ 256
    one q w none = omega arith
    one q w (some v) = ground arith

pub sum-spare-quit :
    {Fd : Type 0} (q : Bool) (l : List (Seat Fd)) → sum (spare true) l ≤ sum (spare q) l
unfolding sum
sum-spare-quit q [] = omega arith
sum-spare-quit q (s ∷ l) = omega (arith, sum-spare-quit q l, spare-quit q s.at s.visitor)

-- No move but a visit gives a worker more to take.
pub spare-move :
    {Fd : Type 0} (P : Platform Fd) (ctx : WalkCtx Fd) {s t : System Fd} {w w' : Worker Fd}
    (o : Option (Visit Handle))
    → Move P ctx s t w w'
    → calls w ≡ false
    → spare_of s.quit w' o ≤ spare_of s.quit w o
spare-move P ctx none mv k = omega arith
spare-move P ctx (some v) (see_quit q e) k = rw q (omega arith)
spare-move P ctx (some v) (look q e) k = rw q (omega arith)
spare-move P ctx (some v) (take xs ys t q e) k = ground arith
spare-move P ctx (some v) (find_none e) k = omega arith
spare-move P ctx (some v) (see_done q e) k = ground arith
spare-move P ctx (some v) (snooze e) k = ground arith
spare-move P ctx (some v) (visit e a rest q) k = cc k
spare-move P ctx (some v) (visit_quit e a rest q) k = cc k
spare-move P ctx (some v) (count t rest q) k = omega arith
spare-move P ctx (some v) (push t [] q) k = ground arith
spare-move P ctx (some v) (push t (a ∷ rest) q) k = ground arith
spare-move P ctx (some v) (finish e) k = omega arith
