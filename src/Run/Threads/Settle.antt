-- ===== src/Run/Threads/Settle.antt =====
-- src/lib.rs, `run`: the output thread takes what the channel holds, and then no send blocks.
use minifind.Base.{ℕ, ◌≡◌, refl, ap, ◌∙◌, ◌⊎◌, inl, inr, Bool, true, false, not, List, [], ◌∷◌}
use minifind.FileType.{Probe}
use minifind.Walk.{Platform, Entry, WalkCtx}
use minifind.Pipeline.Output.{Printer, print_batch}
use minifind.Run.{Plan}
use minifind.Run.Channel.{Channel, IsChannel}
use minifind.Run.Threads.{
  Output, receiving, writing, ended, done, Program, walk_of, written, is_receiving, may_send,
  receive, write, Step, Run, here, next,
}
use minifind.Run.Threads.Tally.{is_ended, Tally}

module _ {Fd C : Type 0} (P : Platform Fd) (fs : Probe) (has_user has_group : ℕ → Bool)
    (X : Channel C) (laws : IsChannel X) (ctx : WalkCtx Fd) (plan : Plan) where
  abbrev Runs : Program Fd C → Program Fd C → Type 0
  Runs m u = Run P fs has_user has_group X ctx plan m u

  pub and_then : {m t u : Program Fd C} → Runs m t → Runs t u → Runs m u
  and_then r here = r
  and_then r (next q st) = next (and_then r q) st

  -- The run can go on to its return, with no further signal.
  abbrev pub Returns : Program Fd C → Type 0
  Returns m = (u : Program Fd C) × Runs m u × (u.main ≡ done) × (u.shutdown ≡ m.shutdown)

  pub return_after :
      {m t : Program Fd C} → Runs m t → t.shutdown ≡ m.shutdown → Returns t → Returns m
  return_after r e (u, q, d, f) = (u, and_then r q, d, f ∙ e)

  pub return_next :
      {m t : Program Fd C}
      → Step P fs has_user has_group X ctx plan m t
      → t.shutdown ≡ m.shutdown
      → Returns t
      → Returns m
  return_next st e k = return_after (next here st) e k

  -- The output thread waits at an empty channel, or it has ended.
  abbrev pub Settled : Program Fd C → Type 0
  Settled m =
      ((p : Printer) × (m.output ≡ ended p))
      ⊎ ((p : Printer) × (m.output ≡ receiving p) × (X.held m.chan ≡ []))

  -- What the output thread leaves alone.
  pub record Same (m u : Program Fd C) : Type 0 where
    pub run : Runs m u
    pub walk : walk_of u ≡ walk_of m
    pub seats : u.seats ≡ m.seats
    pub main : u.main ≡ m.main
    pub shutdown : u.shutdown ≡ m.shutdown

  same_after : {m t u : Program Fd C} → Same m t → Same t u → Same m u
  same_after a b = record {
    run = and_then a.run b.run;
    walk = b.walk ∙ a.walk;
    seats = b.seats ∙ a.seats;
    main = b.main ∙ a.main;
    shutdown = b.shutdown ∙ a.shutdown;
  }

  record Wrote (m u : Program Fd C) : Type 0 where
    same : Same m u
    output :
        ((p : Printer) × (u.output ≡ ended p))
        ⊎ ((p : Printer) × (u.output ≡ receiving p) × (X.held u.chan ≡ X.held m.chan))

  -- A batch in hand is written.
  write_out :
      (m : Program Fd C) (b : List Entry) (p : Printer)
      → m.output ≡ writing b p
      → (u : Program Fd C) × Wrote m u
  write_out m b p o = go (print_batch plan.max_results plan.separator b p) (next here (write p b o))
    where
      go :
          (r : Bool × Printer)
          → Runs m (written P fs has_user has_group X ctx plan m r)
          → (u : Program Fd C) × Wrote m u
      go (true, p') run = (
        _,
        record {
          same = record { run = run; walk = refl; seats = refl; main = refl; shutdown = refl };
          output = inr (p', refl, refl);
        },
      )
      go (false, p') run = (
        _,
        record {
          same = record { run = run; walk = refl; seats = refl; main = refl; shutdown = refl };
          output = inl (p', refl);
        },
      )

  settle_receiving :
      (bs : List (List Entry)) (m : Program Fd C) (p : Printer)
      → m.output ≡ receiving p
      → X.held m.chan ≡ bs
      → (u : Program Fd C) × Same m u × Settled u
  settle_receiving [] m p o h = (
    m,
    record { run = here; walk = refl; seats = refl; main = refl; shutdown = refl },
    inr (p, o, h),
  )
  settle_receiving (b ∷ bs) m p o h =
      let (c, e, k, q) = laws.recv_cons m.chan b bs h in
      let t : Program Fd C = record m { chan = c; output = writing b p } in
      let taken : Same m t = record {
        run = next here (receive p b c o e);
        walk = refl;
        seats = refl;
        main = refl;
        shutdown = refl;
      } in
      let (u, w) = write_out t b p refl in
      elim w.output [
        | inl over ↦ (u, same_after taken w.same, inl over)
        | inr (p', o', h') ↦
            let (z, s, d) = settle_receiving bs u p' o' (h' ∙ k) in
            (z, same_after (same_after taken w.same) s, d)
      ]

  pub settle : (m : Program Fd C) → (u : Program Fd C) × Same m u × Settled u
  settle m = go m.output refl
    where
      go : (o : Output) → m.output ≡ o → (u : Program Fd C) × Same m u × Settled u
      go (receiving p) e = settle_receiving (X.held m.chan) m p e refl
      go (ended p) e = (
        m,
        record { run = here; walk = refl; seats = refl; main = refl; shutdown = refl },
        inl (p, e),
      )
      go (writing b p) e =
          let (u, w) = write_out m b p e in
          elim w.output [
            | inl over ↦ (u, w.same, inl over)
            | inr (p', o, h) ↦
                let (z, s, d) = settle_receiving (X.held u.chan) u p' o refl in
                (z, same_after w.same s, d)
          ]

  -- Then a send completes.
  pub Settled-may_send :
      (m : Program Fd C)
      → Tally P fs has_user has_group X plan m
      → Settled m
      → may_send P fs has_user has_group X ctx plan m ≡ true
  unfolding may_send
  Settled-may_send m i (inl (p, o)) =
      laws.accepts_closed m.chan (is_receiving m.output)
        (i.open_same ∙ ap (λ (x : Output). not (is_ended x)) o)
  Settled-may_send m i (inr (p, o, h)) = rw o (laws.accepts_empty m.chan h)
