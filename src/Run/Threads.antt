-- ===== src/Run/Threads.antt =====
-- src/lib.rs, `run`, from the channel on: the workers with their visitors, the output thread, the main
-- thread and a signal, as one step relation over the channel that they share.
pub mod Follows
pub mod Sends
pub mod Tally
pub mod Plans
pub mod Prints
pub mod Settle
pub mod Returns
pub mod Growth
pub mod Roster
pub mod Spare
pub mod Overrun
use minifind.Base.{
  ℕ, ◌≡◌, Bool, true, false, not, ◌&&◌, ◌||◌, Option, none, some, List, [], ◌∷◌, ◌++◌, length, all,
  is_empty, ltb, ◌==◌, if◌then◌else◌,
}
use minifind.Base.Text.{Text}
use minifind.FileType.{Probe}
use minifind.Walk.{Platform, WalkState, go_on, quit, Entry, Task, StatAt, WalkCtx}
use minifind.Walk.Process.Actions.{Action, emit}
use minifind.Walk.System.{
  Seen, Worker, idle, busy, stopped, System, Move, n_workers, root_tasks, calls,
}
use minifind.Pipeline.Batch.{BatchSender, drop}
use minifind.Pipeline.Output.{Printer, no_output, print_batch}
use minifind.Pipeline.Visitor.{Visit, visit}
use minifind.Pipeline.Worker.{new_visit}
use minifind.Pipeline.Worker.Whole.{map}
use minifind.Run.{Plan}
use minifind.Run.Channel.{Channel}

-- A sender's handle on the channel, whose state is kept once for all.
pub data Handle : Type 0 where
  handle : Handle

-- A visitor with another kind of sender.
abbrev pub with_tx : {A B : Type 0} → B → Visit A → Visit B
with_tx tx v = record {
  nss = v.nss;
  batch = record { buf = v.batch.buf; tx = tx; closed = v.batch.closed };
}

-- A worker's thread, and its visitor until it is dropped.
pub record Seat (Fd : Type 0) : Type 0 where
  pub at : Worker Fd
  pub visitor : Option (Visit Handle)

-- The output thread: waiting for a batch, with a batch in hand, or past its loop, where the receiver
-- is dropped.
pub data Output : Type 0 where
  receiving : Printer → Output
  writing : List Entry → Printer → Output
  ended : Printer → Output

-- The main thread: in `walk_parallel`, which joins the workers; in the join of the output thread,
-- its own sender dropped; past it.
pub data Main : Type 0 where
  walking joining done : Main

pub record Program (Fd C : Type 0) : Type 0 where
  pub queue : List (Task Fd)
  pub pending : ℕ
  pub quit : Bool
  pub emitted : List (Seen Fd)
  pub seats : List (Seat Fd)
  pub chan : C
  pub output : Output
  pub shutdown : Bool
  pub main : Main

-- The part of the state that the walk knows.
abbrev pub walk_of : {Fd C : Type 0} → Program Fd C → System Fd
walk_of m = record {
  queue = m.queue;
  pending = m.pending;
  quit = m.quit;
  workers = map (λ (s : Seat _). s.at) m.seats;
  emitted = m.emitted;
}

abbrev pub is_receiving : Output → Bool
is_receiving (receiving p) = true
is_receiving _ = false

abbrev pub is_gone : {Fd : Type 0} → Seat Fd → Bool
is_gone s = elim s.visitor [ none ↦ true | some v ↦ false ]

abbrev pub is_walking : Main → Bool
is_walking walking = true
is_walking _ = false

-- A sender that remembers whether it has been used.
abbrev pub note_use : List Entry → Bool → Option Bool
note_use b used = some true

module _ {Fd C : Type 0} (P : Platform Fd) (fs : Probe) (has_user has_group : ℕ → Bool)
    (X : Channel C) (ctx : WalkCtx Fd) (plan : Plan) where
  idle_seats : ℕ → List (Seat Fd)
  idle_seats = elim [
    | ℕ.zero ↦ []
    | ℕ.suc (n → rest) ↦ record { at = idle; visitor = some (new_visit handle) } ∷ rest
  ]

  unfoldable pub start : Program Fd C
  unfolding idle_seats
  start = record {
    queue = root_tasks P ctx plan.roots;
    pending = length (root_tasks P ctx plan.roots);
    quit = false;
    emitted = [];
    seats = idle_seats (n_workers ctx.args);
    chan = X.bounded plan.capacity;
    output = receiving no_output;
    shutdown = false;
    main = walking;
  }

  -- Whether `tx.send` completes now, as the channel says.
  unfoldable pub may_send : Program Fd C → Bool
  may_send m = X.accepts (is_receiving m.output) m.chan

  -- Whether a visit, or the drop of a visitor, comes to send a batch.
  unfoldable pub visit_sends : Bool → Entry → StatAt Fd → Visit Handle → Bool
  unfolding visit
  visit_sends b e a v =
      (visit P fs plan.filters has_user has_group note_use b e a (with_tx false v)).1.batch.tx

  unfoldable pub drop_sends : Visit Handle → Bool
  unfolding drop
  drop_sends v = (drop note_use (with_tx false v).batch).tx

  -- The effect of a move that is not a visit.
  abbrev pub worked : Program Fd C → System Fd → List (Seat Fd) → Program Fd C
  worked m t seats = record m {
    queue = t.queue;
    pending = t.pending;
    quit = t.quit;
    emitted = t.emitted;
    seats = seats;
  }

  -- The effect of a visit: the visitor's state, and the flag and the rest of the task if it quits.
  abbrev pub visited :
      Program Fd C
      → List (Seat Fd)
      → List (Seat Fd)
      → Seen Fd
      → List (Action Fd)
      → WalkState × Visit C
      → Program Fd C
  visited m before after s rest (go_on, v) = record m {
    emitted = s ∷ m.emitted;
    chan = v.batch.tx;
    seats = before ++ (record { at = busy rest; visitor = some (with_tx handle v) } ∷ after);
  }
  visited m before after s rest (quit, v) = record m {
    quit = true;
    emitted = s ∷ m.emitted;
    chan = v.batch.tx;
    seats = before ++ (record { at = busy []; visitor = some (with_tx handle v) } ∷ after);
  }

  -- A thread that has returned from `run_worker` drops its visitor.
  abbrev pub left : Program Fd C → List (Seat Fd) → List (Seat Fd) → BatchSender C → Program Fd C
  left m before after b = record m {
    chan = b.tx;
    seats = before ++ (record { at = stopped; visitor = none } ∷ after);
  }

  -- The output thread goes on to the next batch, or leaves its loop.
  abbrev pub written : Program Fd C → Bool × Printer → Program Fd C
  written m (true, p) = record m { output = receiving p }
  written m (false, p) = record m { output = ended p; chan = X.hang_up m.chan }

  pub data Step (m : Program Fd C) : Program Fd C → Type 0 where
    -- A worker makes a move other than a visit.
    work :
        (before after : List (Seat Fd)) (s : Seat Fd) (t : System Fd) (w : Worker Fd)
        → m.seats ≡ before ++ (s ∷ after)
        → Move P ctx (walk_of m) t s.at w
        → calls s.at ≡ false
        → Step m (worked m t (before ++ (record s { at = w } ∷ after)))
    -- A worker calls its visitor, which may have read the flag before it was set.
    call :
        (before after : List (Seat Fd)) (v : Visit Handle) (e : Entry) (a : StatAt Fd)
        (rest : List (Action Fd)) (b : Bool)
        → m.seats ≡ before ++ (record { at = busy (emit e a ∷ rest); visitor = some v } ∷ after)
        → (b ≡ true → m.shutdown ≡ true)
        → (visit_sends b e a v && not (may_send m)) ≡ false
        → Step m (
            visited m before after
              (e, a)
              rest
              (visit P fs plan.filters has_user has_group X.send b e a (with_tx m.chan v)))
    leave :
        (before after : List (Seat Fd)) (v : Visit Handle)
        → m.seats ≡ before ++ (record { at = stopped; visitor = some v } ∷ after)
        → (drop_sends v && not (may_send m)) ≡ false
        → Step m (left m before after (drop X.send (with_tx m.chan v).batch))
    receive :
        (p : Printer) (b : List Entry) (c : C)
        → m.output ≡ receiving p
        → X.recv m.chan ≡ some (b, c)
        → Step m (record m { chan = c; output = writing b p })
    write :
        (p : Printer) (b : List Entry)
        → m.output ≡ writing b p
        → Step m (written m (print_batch plan.max_results plan.separator b p))
    -- No batch is left, and every sender is dropped.
    drain :
        (p : Printer)
        → m.output ≡ receiving p
        → X.recv m.chan ≡ none
        → all is_gone m.seats ≡ true
        → is_walking m.main ≡ false
        → Step m (record m { output = ended p; chan = X.hang_up m.chan })
    -- The scope ends with its last thread, and the main thread drops its own sender.
    end_scope : m.main ≡ walking → all is_gone m.seats ≡ true → Step m (record m { main = joining })
    join : (p : Printer) → m.main ≡ joining → m.output ≡ ended p → Step m (record m { main = done })
    signal : Step m (record m { shutdown = true })

  pub data Run (m : Program Fd C) : Program Fd C → Type 0 where
    here : Run m m
    next : {t u : Program Fd C} → Run m t → Step t u → Run m u
