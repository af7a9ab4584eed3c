-- ===== src/Run/Threads/Tally/Whole.antt =====
-- src/lib.rs, `run`: the steps of the output thread and of the main thread keep the tally, and so it
-- holds in every state of a run.
use minifind.Base.{
  ℕ, zero, suc, ◌+◌, ◌≡◌, ◌≢◌, refl, sym, ap, ◌∙◌, Bool, true, false, not, none, some, List, [],
  ◌++◌, all, All, arith,
}
use mathlib.Core.Path.{subst}
use minifind.FileType.{Probe}
use minifind.Walk.{Platform, Entry, WalkCtx}
use minifind.Walk.System.{n_workers}
use minifind.Walk.System.Costs.{sum, sum-append}
use minifind.Pipeline.Batch.Laws.{concat}
use minifind.Pipeline.Output.{Printer, is_reached}
use minifind.Pipeline.Output.Growth.{IsPrinted, AtMost-self, print_batch-Wrote, Wrote}
use minifind.Run.{Plan}
use minifind.Run.Channel.{Channel, IsChannel}
use minifind.Run.Threads.Sends.{visit-Visited}
use minifind.Run.Threads.{
  Output, receiving, writing, ended, Main, done, joining, walking, Program, is_gone, is_walking,
  written, with_tx, Step, work, call, leave, receive, write, drain, end_scope, join, signal, Run,
  here, next, start, idle_seats,
}
use minifind.Run.Threads.Tally.{
  printer_of, is_ended, buffered, coming, IsSeat, capped, Tally, put_out,
}
use minifind.Run.Threads.Tally.Steps.{
  recv-some, recv-none, work-Tally, call-Tally, leave-Tally, at_place,
}

module _ {Fd C : Type 0} (P : Platform Fd) (fs : Probe) (has_user has_group : ℕ → Bool)
    (X : Channel C) (laws : IsChannel X) (ctx : WalkCtx Fd) (plan : Plan) where
  abbrev Kept : Program Fd C → Type 0
  Kept m = Tally P fs has_user has_group X plan m

  -- The tally before a step of the output thread, with what that thread has.
  same_printer :
      (m : Program Fd C) (o : Output)
      → m.output ≡ o
      → (i : Kept m) → IsPrinted plan.separator i.printed (printer_of o)
  same_printer m o e i =
      subst (λ (x : Output). IsPrinted plan.separator i.printed (printer_of x)) e i.is_printed

  receive-Tally :
      (m : Program Fd C) (p : Printer) (b : List Entry) (c : C)
      → m.output ≡ receiving p
      → X.recv m.chan ≡ some (b, c)
      → Kept m
      → Kept (record m { chan = c; output = writing b p })
  unfolding sum
  receive-Tally m p b c o e i =
      let (h, k) = recv-some X laws m.chan c b e in
      let free : is_ended m.output ≡ false = ap is_ended o in
      let n : is_reached plan.max_results p.written ≡ false =
        ap (capped P fs has_user has_group X plan) (sym o) ∙ i.room free in
      let same : (weight : Entry → ℕ) → _ = λ (weight : Entry → ℕ).
        ap (λ (x : Output). coming X weight x m.chan) o
        ∙ ap (λ (l : List (List Entry)). sum weight (concat l)) h
        ∙ sum-append weight b (concat (X.held c)) in
      put_out P fs has_user has_group X plan m (writing b p) c i.printed i free
        (same_printer m (receiving p) o i) (AtMost-self plan.max_results p.written n) (λ x. n)
        (k ∙ i.open_same ∙ ap not free) (λ x. cc x) (λ weight. omega (arith, same weight))
        (λ weight x. omega (arith, same weight))

  drain-Tally :
      (m : Program Fd C) (p : Printer)
      → m.output ≡ receiving p
      → X.recv m.chan ≡ none
      → all is_gone m.seats ≡ true
      → Kept m
      → Kept (record m { output = ended p; chan = X.hang_up m.chan })
  unfolding sum
  drain-Tally m p o e g i =
      let h = recv-none X laws m.chan e in
      let free : is_ended m.output ≡ false = ap is_ended o in
      let n : is_reached plan.max_results p.written ≡ false =
        ap (capped P fs has_user has_group X plan) (sym o) ∙ i.room free in
      let same : (weight : Entry → ℕ) → coming X weight m.output m.chan ≡ 0 =
        λ (weight : Entry → ℕ).
          ap (λ (x : Output). coming X weight x m.chan) o
          ∙ ap (λ (l : List (List Entry)). sum weight (concat l)) h in
      put_out P fs has_user has_group X plan m (ended p) (X.hang_up m.chan) i.printed i free
        (same_printer m (receiving p) o i) (AtMost-self plan.max_results p.written n) (λ x. n)
        (laws.hang_up_closed m.chan) (λ x y. g) (λ weight. omega (arith, same weight))
        (λ weight x. omega (arith, same weight))

  write-Tally :
      (m : Program Fd C) (p : Printer) (b : List Entry) (r : Bool × Printer)
      → m.output ≡ writing b p
      → (i : Kept m) → Wrote plan.max_results plan.separator i.printed b r
      → Kept (written P fs has_user has_group X ctx plan m r)
  unfolding sum
  write-Tally m p b (true, p') o i w =
      let free : is_ended m.output ≡ false = ap is_ended o in
      let same : (weight : Entry → ℕ) → _ =
        λ (weight : Entry → ℕ). ap (λ (x : Output). coming X weight x m.chan) o in
      let more : (weight : Entry → ℕ) → _ = λ (weight : Entry → ℕ).
        sum-append weight i.printed w.more
        ∙ ap (λ (l : List Entry). sum weight i.printed + sum weight l) (w.exact refl) in
      put_out P fs has_user has_group X plan m (receiving p') m.chan (i.printed ++ w.more) i free
        w.is_printed w.bound (λ x. w.reached) (i.open_same ∙ ap not free) (λ x. cc x)
        (λ weight. omega (arith, same weight, more weight))
        (λ weight x. omega (arith, same weight, more weight))
  write-Tally m p b (false, p') o i w =
      let free : is_ended m.output ≡ false = ap is_ended o in
      let same : (weight : Entry → ℕ) → _ =
        λ (weight : Entry → ℕ). ap (λ (x : Output). coming X weight x m.chan) o in
      let more : (weight : Entry → ℕ) → _ =
        λ (weight : Entry → ℕ). sum-append weight i.printed w.more in
      put_out P fs has_user has_group X plan m (ended p') (X.hang_up m.chan) (i.printed ++ w.more) i
        free w.is_printed w.bound (λ x. cc x) (laws.hang_up_closed m.chan)
        (λ x y. cc (y, w.reached))
        (λ weight. omega (arith, same weight, more weight, w.most weight))
        (λ weight x. cc (x, w.reached))

  Step-Tally : {m u : Program Fd C} → Step P fs has_user has_group X ctx plan m u → Kept m → Kept u
  Step-Tally {m} (work before after x t w p mv k) i =
      work-Tally P fs has_user has_group X laws ctx plan m before after x t w p mv k i
  Step-Tally {m} (call before after v e a rest b p k h) i =
      call-Tally P fs has_user has_group X laws ctx plan m before after v e a rest b _ p k
        (λ weight.
          visit-Visited P fs plan.filters has_user has_group X laws weight b e a (with_tx m.chan v)
            (at_place P fs has_user has_group X laws ctx plan m before after _ i p))
        i
  Step-Tally {m} (leave before after v p h) i =
      leave-Tally P fs has_user has_group X laws ctx plan m before after v p i
  Step-Tally {m} (receive p b c o e) i = receive-Tally m p b c o e i
  Step-Tally {m} (write p b o) i =
      let free : is_ended m.output ≡ false = ap is_ended o in
      write-Tally m p b _ o i (
        print_batch-Wrote plan.max_results plan.separator i.printed b p
          (same_printer m (writing b p) o i)
          (ap (capped P fs has_user has_group X plan) (sym o) ∙ i.room free))
  Step-Tally {m} (drain p o e g k) i = drain-Tally m p o e g i
  Step-Tally (end_scope k g) i = record {
    seated = i.seated;
    printed = i.printed;
    is_printed = i.is_printed;
    bound = i.bound;
    room = i.room;
    open_same = i.open_same;
    reason = i.reason;
    ending = i.ending;
    closing = λ x. g;
    finished = λ d. absurd (apart d);
    most = i.most;
    exact = i.exact;
  }
    where
      apart : ◌≢◌ {A = Main} joining done
      apart e = cc e
  Step-Tally (join p k o) i = record {
    seated = i.seated;
    printed = i.printed;
    is_printed = i.is_printed;
    bound = i.bound;
    room = i.room;
    open_same = i.open_same;
    reason = i.reason;
    ending = i.ending;
    closing = λ x. i.closing (ap is_walking k);
    finished = λ d. ap is_ended o;
    most = i.most;
    exact = i.exact;
  }
  Step-Tally signal i = record {
    seated = i.seated;
    printed = i.printed;
    is_printed = i.is_printed;
    bound = i.bound;
    room = i.room;
    open_same = i.open_same;
    reason = λ q n. cc n;
    ending = i.ending;
    closing = i.closing;
    finished = i.finished;
    most = i.most;
    exact = i.exact;
  }

  idle_seats-IsSeat :
      (n : ℕ)
      → All
          (IsSeat P fs has_user has_group X plan)
          (idle_seats P fs has_user has_group X ctx plan n)
  unfolding idle_seats
  idle_seats-IsSeat zero = tt
  idle_seats-IsSeat (suc n) = (record { users = tt; groups = tt }, idle_seats-IsSeat n)

  sum-idle_seats :
      (weight : Entry → ℕ) (n : ℕ)
      → sum (buffered weight) (idle_seats P fs has_user has_group X ctx plan n) ≡ 0
  unfolding idle_seats sum
  sum-idle_seats weight zero = refl
  sum-idle_seats weight (suc n) = omega (arith, sum-idle_seats weight n)

  start-Tally :
      is_reached plan.max_results 0 ≡ false → Kept (start P fs has_user has_group X ctx plan)
  unfolding start sum
  start-Tally n =
      let none_held : (weight : Entry → ℕ) → _ = λ (weight : Entry → ℕ).
        ap (λ (l : List (List Entry)). sum weight (concat l)) (laws.bounded_held plan.capacity) in
      record {
        seated = idle_seats-IsSeat (n_workers ctx.args);
        printed = [];
        is_printed = record { out = refl; count = refl };
        bound = AtMost-self plan.max_results 0 n;
        room = λ e. n;
        open_same = laws.bounded_open plan.capacity;
        reason = λ q s. cc q;
        ending = λ e. cc e;
        closing = λ e. cc e;
        finished = λ e. absurd (apart e);
        most =
            λ weight. omega (arith, none_held weight, sum-idle_seats weight (n_workers ctx.args));
        exact = λ weight q k.
            omega (arith, none_held weight, sum-idle_seats weight (n_workers ctx.args));
      }
    where
      apart : ◌≢◌ {A = Main} walking done
      apart e = cc e

  pub Run-Tally :
      {m : Program Fd C}
      → is_reached plan.max_results 0 ≡ false
      → Run P fs has_user has_group X ctx plan (start P fs has_user has_group X ctx plan) m
      → Kept m
  Run-Tally n here = start-Tally n
  Run-Tally n (next r st) = Step-Tally st (Run-Tally n r)
