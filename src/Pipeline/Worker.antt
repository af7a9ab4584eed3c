-- ===== src/Pipeline/Worker.antt =====
-- src/lib.rs, `run`: the whole run of one worker's visitor, and the batches of all workers on their way
-- to the output thread.
pub mod Sending
pub mod Whole
pub mod Partial
use minifind.Base.{
  zero, suc, ◌≡◌, ℕ, Bool, true, false, Option, none, some, List, [], ◌∷◌, ◌++◌, All, if◌then◌else◌,
}
use minifind.FileType.{Probe}
use minifind.Walk.{Platform, WalkState, go_on, quit, Entry, StatAt}
use minifind.Walk.Process.Actions.{quits}
use minifind.Walk.System.{Seen}
use minifind.Pipeline.Batch.{BatchSender, new_sender, drop}
use minifind.Pipeline.Visitor.{Filters, Visit, visit}

-- The visitor with an empty memo and a new sender.
abbrev pub new_visit : {C : Type 0} → C → Visit C
new_visit tx = record { nss = record { users = []; groups = [] }; batch = new_sender tx }

-- The batches that a worker sends over a channel that stays open.
abbrev pub Sent : Type 0
Sent = List (List Entry)

abbrev pub keep : List Entry → Sent → Option Sent
keep b sent = some (sent ++ (b ∷ []))

module _ {Fd C : Type 0} (P : Platform Fd) (fs : Probe) (f : Filters)
    (has_user has_group : ℕ → Bool) (send : List Entry → C → Option C) where
  -- The visits of one worker, in order, up to the first that quits, with the shutdown flag unset.
  unfoldable pub visit_all : List (Seen Fd) → Visit C → WalkState × Visit C
  unfolding visit
  visit_all [] v = (go_on, v)
  visit_all ((e, at) ∷ rest) v =
      let (w, v') = visit P fs f has_user has_group send false e at v in
      let last = visit_all rest v' in if quits w then (quit, v') else last

module _ {Fd : Type 0} (P : Platform Fd) (fs : Probe) (f : Filters)
    (has_user has_group : ℕ → Bool) where
  -- What a worker sends: the batches of its visits, and the last one when its visitor is dropped.
  unfoldable pub sent_by : List (Seen Fd) → Sent
  unfolding visit_all drop
  sent_by share =
      (drop keep (visit_all P fs f has_user has_group keep share (new_visit [])).1.batch).tx

-- The batches of a worker for whom the channel closes after some number of them.
abbrev pub keep_some : List Entry → ℕ × Sent → Option (ℕ × Sent)
keep_some b (zero, sent) = none
keep_some b (suc n, sent) = some (n, sent ++ (b ∷ []))

module _ {Fd : Type 0} (P : Platform Fd) (fs : Probe) (f : Filters)
    (has_user has_group : ℕ → Bool) where
  -- What a worker sends of its visits before the channel closes.
  unfoldable pub sent_before : ℕ → List (Seen Fd) → Sent
  unfolding visit_all drop
  sent_before n share =
      (drop keep_some
        (visit_all P fs f has_user has_group keep_some share (new_visit (n, []))).1.batch).tx.1

-- The queues of the senders and the order in which their batches arrive: each sender's own order is
-- kept, and theirs among each other is any.
pub data Arrives {B : Type 0} : List (List B) → List B → Type 0 where
  over : {qs : List (List B)} → All (λ q. q ≡ []) qs → Arrives qs []
  next :
      (before after : List (List B)) (b : B) (q : List B) {bs : List B}
      → Arrives (before ++ (q ∷ after)) bs
      → Arrives (before ++ ((b ∷ q) ∷ after)) (b ∷ bs)
