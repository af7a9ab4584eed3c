-- ===== src/Run/Threads/Tally.antt =====
-- src/lib.rs, `run`: where the entries are that the visitors have let pass, in every state of the
-- threads: written, with the output thread, in the channel, or in a worker's batch.
pub mod Steps
pub mod Whole
use minifind.Base.{
  ℕ, ◌+◌, ◌≤◌, ◌≡◌, refl, sym, ap, ◌∙◌, ◌⊎◌, inl, inr, Bool, Bool-cases, true, false, not, Option,
  none, some, List, [], ◌∷◌, ◌++◌, all, all_middle, and-eq-true, All, All-at, All-replace, arith,
  ◌&&◌,
}
use mathlib.Core.Path.{subst}
use minifind.FileType.{Probe}
use minifind.Meta.Nss.Cache.{IsCache}
use minifind.Walk.{Platform, Entry, Task, WalkCtx}
use minifind.Walk.System.{Seen, Worker}
use minifind.Walk.System.Costs.{sum, sum_middle}
use minifind.Walk.System.Count.{has_stopped}
use minifind.Pipeline.Batch.Laws.{concat}
use minifind.Pipeline.Output.{Printer, is_reached}
use minifind.Pipeline.Output.Growth.{AtMost, IsPrinted}
use minifind.Pipeline.Visitor.{Visit}
use minifind.Pipeline.Worker.Whole.{weight_of}
use minifind.Run.{Plan}
use minifind.Run.Channel.{Channel}
use minifind.Run.Threads.{
  Handle, Seat, Output, receiving, writing, ended, Main, done, Program, is_gone, is_walking,
}

abbrev pub printer_of : Output → Printer
printer_of (receiving p) = p
printer_of (writing b p) = p
printer_of (ended p) = p

abbrev pub is_ended : Output → Bool
is_ended (ended p) = true
is_ended _ = false

-- The weight of what a worker's batch holds.
abbrev buffer_of : (Entry → ℕ) → Option (Visit Handle) → ℕ
buffer_of weight none = 0
buffer_of weight (some v) = sum weight v.batch.buf

abbrev pub buffered : {Fd : Type 0} → (Entry → ℕ) → Seat Fd → ℕ
buffered weight s = buffer_of weight s.visitor

module _ {C : Type 0} (X : Channel C) (weight : Entry → ℕ) where
  -- The weight of what is on its way to the output.
  abbrev pub coming : Output → C → ℕ
  coming (receiving p) c = sum weight (concat (X.held c))
  coming (writing b p) c = sum weight b + sum weight (concat (X.held c))
  coming (ended p) c = 0

module _ {Fd C : Type 0} (P : Platform Fd) (fs : Probe) (has_user has_group : ℕ → Bool)
    (X : Channel C) (plan : Plan) where
  -- Only a thread that has returned has dropped its visitor.
  abbrev pub Manned : Worker Fd → Option (Visit Handle) → Type 0
  Manned w none = has_stopped w ≡ true
  Manned w (some v) = IsCache has_user has_group v.nss

  abbrev pub IsSeat : Seat Fd → Type 0
  IsSeat s = Manned s.at s.visitor

  abbrev pub weigh : (Entry → ℕ) → Seen Fd → ℕ
  weigh weight = weight_of P fs plan.filters has_user has_group weight

  abbrev pub capped : Output → Bool
  capped o = is_reached plan.max_results (printer_of o).written

  -- Nothing is written that has not passed, nor twice; and nothing is lost before a quit or the last
  -- result that is wanted. Without a signal, only that result makes a visit quit.
  pub record Tally (m : Program Fd C) : Type 0 where
    pub seated : All IsSeat m.seats
    pub printed : List Entry
    pub is_printed : IsPrinted plan.separator printed (printer_of m.output)
    pub bound : AtMost plan.max_results (printer_of m.output).written
    pub room : is_ended m.output ≡ false → capped m.output ≡ false
    pub open_same : X.is_open m.chan ≡ not (is_ended m.output)
    pub reason : m.quit ≡ true → m.shutdown ≡ false → capped m.output ≡ true
    pub ending : is_ended m.output ≡ true → capped m.output ≡ false → all is_gone m.seats ≡ true
    pub closing : is_walking m.main ≡ false → all is_gone m.seats ≡ true
    pub finished : m.main ≡ done → is_ended m.output ≡ true
    pub most :
        (weight : Entry → ℕ)
        → sum weight printed + coming X weight m.output m.chan + sum (buffered weight) m.seats
          ≤ sum (weigh weight) m.emitted
    pub exact :
        (weight : Entry → ℕ)
        → m.quit ≡ false
        → capped m.output ≡ false
        → sum weight printed + coming X weight m.output m.chan + sum (buffered weight) m.seats
          ≡ sum (weigh weight) m.emitted

  gone_too :
      (before after : List (Seat Fd)) (x y : Seat Fd)
      → (is_gone x ≡ true → is_gone y ≡ true)
      → all is_gone (before ++ (x ∷ after)) ≡ true
      → all is_gone (before ++ (y ∷ after)) ≡ true
  gone_too before after x y g h =
      let (a, b) = and-eq-true (is_gone x) _ (sym (all_middle is_gone before after x) ∙ h) in
      all_middle is_gone before after y ∙ rw (g a) b

  -- A step of the worker in one place.
  pub turned :
      (m : Program Fd C) (before after : List (Seat Fd)) (x y : Seat Fd) (queue : List (Task Fd))
      (pending : ℕ) (quit : Bool) (emitted : List (Seen Fd)) (chan : C)
      → Tally m
      → m.seats ≡ before ++ (x ∷ after)
      → IsSeat y
      → (is_gone x ≡ true → is_gone y ≡ true)
      → X.is_open chan ≡ X.is_open m.chan
      → (quit ≡ true → m.shutdown ≡ false → capped m.output ≡ true)
      → ((weight : Entry → ℕ)
          → coming X weight m.output chan + buffered weight y + sum (weigh weight) m.emitted
            ≤ coming X weight m.output m.chan + buffered weight x + sum (weigh weight) emitted)
      → ((weight : Entry → ℕ)
          → quit ≡ false
          → capped m.output ≡ false
          → (m.quit ≡ false)
            × (coming X weight m.output chan + buffered weight y + sum (weigh weight) m.emitted
                ≡ coming X weight m.output m.chan + buffered weight x + sum (weigh weight) emitted))
      → Tally (record m {
        queue = queue;
        pending = pending;
        quit = quit;
        emitted = emitted;
        seats = before ++ (y ∷ after);
        chan = chan;
      })
  turned m before after x y queue pending quit emitted chan i p s g o r most exact =
      let all_gone : all is_gone m.seats ≡ true → all is_gone (before ++ (y ∷ after)) ≡ true =
        λ h. gone_too before after x y g (ap (all is_gone) (sym p) ∙ h) in
      let old : (weight : Entry → ℕ) → _ = λ (weight : Entry → ℕ).
        ap (sum (buffered weight)) p ∙ sum_middle (buffered weight) before after x in
      record {
        seated = All-replace IsSeat before after x y (subst (All IsSeat) p i.seated) s;
        printed = i.printed;
        is_printed = i.is_printed;
        bound = i.bound;
        room = i.room;
        open_same = o ∙ i.open_same;
        reason = r;
        ending = λ e n. all_gone (i.ending e n);
        closing = λ e. all_gone (i.closing e);
        finished = i.finished;
        most = λ weight. omega (
          arith,
          i.most weight,
          most weight,
          old weight,
          sum_middle (buffered weight) before after y,
        );
        exact = λ weight q n.
            let (nq, e) = exact weight q n in
            omega (
              arith,
              i.exact weight nq n,
              e,
              old weight,
              sum_middle (buffered weight) before after y,
            );
      }

  -- A step of the output thread, which has not ended.
  pub put_out :
      (m : Program Fd C) (output : Output) (chan : C) (printed : List Entry) (i : Tally m)
      → is_ended m.output ≡ false
      → IsPrinted plan.separator printed (printer_of output)
      → AtMost plan.max_results (printer_of output).written
      → (is_ended output ≡ false → capped output ≡ false)
      → X.is_open chan ≡ not (is_ended output)
      → (is_ended output ≡ true → capped output ≡ false → all is_gone m.seats ≡ true)
      → ((weight : Entry → ℕ)
          → sum weight printed + coming X weight output chan
            ≤ sum weight i.printed + coming X weight m.output m.chan)
      → ((weight : Entry → ℕ)
          → capped output ≡ false
          → sum weight printed + coming X weight output chan
            ≡ sum weight i.printed + coming X weight m.output m.chan)
      → Tally (record m { output = output; chan = chan })
  put_out m output chan printed i n h b r o g most exact = record {
    seated = i.seated;
    printed = printed;
    is_printed = h;
    bound = b;
    room = r;
    open_same = o;
    reason = λ q s. cc (i.reason q s, i.room n);
    ending = g;
    closing = i.closing;
    finished = λ d. cc (i.finished d, n);
    most = λ weight. omega (arith, i.most weight, most weight);
    exact = λ weight q k. omega (arith, i.exact weight q (i.room n), exact weight k);
  }
