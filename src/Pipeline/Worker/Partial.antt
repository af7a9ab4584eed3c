-- ===== src/Pipeline/Worker/Partial.antt =====
-- src/lib.rs and src/walk.rs: what a run that is cut short has written.
use minifind.Base.{
  ℕ, zero, suc, ◌+◌, ◌≤◌, ◌≡◌, refl, ap, ◌∙◌, Bool, Bool-cases, inl, inr, false, Option, none, some,
  List, [], ◌∷◌, ◌++◌, arith, is_empty, leb, length, take,
}
use minifind.Base.Text.{Text}
use minifind.FileType.{Probe}
use minifind.Meta.Nss.Cache.{IsCache}
use minifind.Walk.{Platform, WalkState, Entry, WalkCtx}
use minifind.Walk.Process.Actions.{quits}
use minifind.Walk.System.{Seen, System, Reach, init, root_tasks}
use minifind.Walk.System.Costs.{sum, sum-append}
use minifind.Walk.System.Once.{WalkedAll, Within, emitted-Within}
use minifind.Pipeline.Batch.{BatchSender, batch_size, after_send, flush, push, drop}
use minifind.Pipeline.Batch.Laws.{concat}
use minifind.Pipeline.Output.{separator_of, cap_of, print_all, no_output}
use minifind.Pipeline.Output.Laws.{lines, limited, print_all-lines}
use minifind.Pipeline.Visitor.{Filters, Visit, visit}
use minifind.Pipeline.Visitor.Laws.{passes, visit-passes}
use minifind.Pipeline.Worker.{new_visit, Sent, keep_some, visit_all, sent_before, Arrives}
use minifind.Pipeline.Worker.Sending.{test, passing}
use minifind.Pipeline.Worker.Whole.{sum-concat, map, Arrives-sum, weight_of, sum-passing}

module _ (weight : Entry → ℕ) where
  -- The weight of what a sender has sent or holds.
  held : BatchSender (ℕ × Sent) → ℕ
  held b = sum weight (concat b.tx.1) + sum weight b.buf

  sum-snoc :
      (bs : Sent) (b : List Entry)
      → sum weight (concat (bs ++ (b ∷ []))) ≡ sum weight (concat bs) + sum weight b
  unfolding sum
  sum-snoc bs b =
      sum-concat weight (bs ++ (b ∷ []))
      ∙ sum-append (sum weight) bs (b ∷ [])
      ∙ omega (arith, sum-concat weight bs)

  after_send-held :
      (b : BatchSender (ℕ × Sent)) → held (after_send (keep_some b.buf b.tx) b).1 ≤ held b
  unfolding held sum
  after_send-held b = sending b.tx.0 b.tx.1 b.buf b.closed
    where
      sending :
          (n : ℕ) (sent : Sent) (buf : List Entry) (closed : Bool)
          → held
              (after_send
                (keep_some buf (n, sent))
                (record { buf = buf; tx = (n, sent); closed = closed })).1
            ≤ sum weight (concat sent) + sum weight buf
      sending zero sent buf closed = omega arith
      sending (suc n) sent buf closed = omega (arith, sum-snoc sent buf)

  flush-held : (b : BatchSender (ℕ × Sent)) → held (flush keep_some b).1 ≤ held b
  unfolding flush
  flush-held b = elim (Bool-cases (is_empty b.buf)) [
    | inl e ↦ rw e (omega arith)
    | inr e ↦ rw e (after_send-held b)
  ]

  push-held :
      (e : Entry) (b : BatchSender (ℕ × Sent)) → held (push keep_some e b).1 ≤ held b + weight e
  unfolding push held sum
  push-held e b =
      let grown : BatchSender (ℕ × Sent) = record b { buf = b.buf ++ (e ∷ []) } in
      let more = sum-append weight b.buf (e ∷ []) in
      elim (Bool-cases (leb batch_size (length grown.buf))) [
        | inl full ↦ rw full (omega (arith, flush-held grown, more))
        | inr room ↦ rw room (omega (arith, more))
      ]

module _ {Fd : Type 0} (P : Platform Fd) (fs : Probe) (f : Filters) (has_user has_group : ℕ → Bool)
    (weight : Entry → ℕ) where
  -- The weight of a visit, if it passes.
  abbrev weigh : Seen Fd → ℕ
  weigh s = weight_of P fs f has_user has_group weight s

  abbrev see : Seen Fd → Visit (ℕ × Sent) → WalkState × Visit (ℕ × Sent)
  see (e, at) v = visit P fs f has_user has_group keep_some false e at v

  abbrev Adds : Seen Fd → Visit (ℕ × Sent) → Type 0
  Adds s v =
      (held weight (see s v).1.batch ≤ held weight v.batch + weigh s)
      × IsCache has_user has_group (see s v).1.nss

  visit-held : (s : Seen Fd) (v : Visit (ℕ × Sent)) → IsCache has_user has_group v.nss → Adds s v
  unfolding weight_of passes
  visit-held (e, at) v h =
      let (w, b, h') = visit-passes P fs f has_user has_group keep_some e at v h in
      elim (Bool-cases (test P fs f has_user has_group (e, at))) [
        | inl pass ↦
            let taken : (see (e, at) v).1.batch ≡ (push keep_some e v.batch).1 = b ∙ rw pass refl in
            (rw pass (omega (arith, ap (held weight) taken, push-held weight e v.batch)), h')
        | inr fail ↦
            let same : (see (e, at) v).1.batch ≡ v.batch = b ∙ rw fail refl in
            (rw fail (omega (arith, ap (held weight) same)), h')
      ]

  visit_all-held :
      (share : List (Seen Fd)) (v : Visit (ℕ × Sent))
      → IsCache has_user has_group v.nss
      → held weight (visit_all P fs f has_user has_group keep_some share v).1.batch
        ≤ held weight v.batch + sum weigh share
  unfolding visit_all sum
  visit_all-held [] v h = omega arith
  visit_all-held (s ∷ rest) v h =
      let (a, h') = visit-held s v h in
      elim (Bool-cases (quits (see s v).0)) [
        | inl q ↦ rw q (omega (arith, a))
        | inr n ↦ rw n (omega (arith, a, visit_all-held rest (see s v).1 h'))
      ]

  -- Nothing is sent twice, and nothing that does not pass.
  sent_before-sum :
      (n : ℕ) (share : List (Seen Fd))
      → sum weight (concat (sent_before P fs f has_user has_group n share)) ≤ sum weigh share
  unfolding sent_before drop held sum
  sent_before-sum n share =
      let start : Visit (ℕ × Sent) = new_visit (n, []) in
      let end = (visit_all P fs f has_user has_group keep_some share start).1.batch in
      omega (
        arith,
        flush-held weight end,
        visit_all-held share start (record { users = tt; groups = tt }),
      )

sum-take :
    {A : Type 0} (weight : A → ℕ) (n : ℕ) (xs : List A) → sum weight (take n xs) ≤ sum weight xs
unfolding sum
sum-take weight zero xs = omega arith
sum-take weight (suc n) [] = omega arith
sum-take weight (suc n) (x ∷ xs) = omega (arith, sum-take weight n xs)

sum-limited :
    (weight : Entry → ℕ) (cap : Option ℕ) (es : List Entry)
    → sum weight (limited cap es) ≤ sum weight es
sum-limited weight none es = omega arith
sum-limited weight (some zero) es = omega arith
sum-limited weight (some (suc n)) es = sum-take weight (suc n) es

-- A worker's visits, and the number of batches that it sends before the channel closes.
abbrev pub Part : Type 0 → Type 0
Part Fd = ℕ × List (Seen Fd)

abbrev pub visits_of : {Fd : Type 0} → Part Fd → List (Seen Fd)
visits_of (n, share) = share

module _ {Fd : Type 0} (P : Platform Fd) (fs : Probe) (f : Filters)
    (has_user has_group : ℕ → Bool) where
  abbrev pub sent_in : Part Fd → Sent
  sent_in (n, share) = sent_before P fs f has_user has_group n share

  sum-sent_in :
      (weight : Entry → ℕ) (parts : List (Part Fd))
      → sum (sum (sum weight)) (map sent_in parts)
        ≤ sum (sum (weight_of P fs f has_user has_group weight)) (map visits_of parts)
  unfolding sum
  sum-sent_in weight [] = omega arith
  sum-sent_in weight ((n, share) ∷ parts) = omega (
    arith,
    sum-sent_in weight parts,
    sum-concat weight (sent_before P fs f has_user has_group n share),
    sent_before-sum P fs f has_user has_group weight n share,
  )

  -- The output is, line by line, of entries that pass of a list of visits, none of them more often.
  pub record PrintsSome (separator : ℕ) (text : Text) (visits : List (Seen Fd)) : Type 0 where
    pub printed : List Entry
    pub written : text ≡ lines separator printed
    pub within : Within printed (passing P fs f has_user has_group visits)

  -- Let the sequential walk of the roots be finite, with the visits `es`. In every state that the
  -- workers reach, also after a quit, and for any cap on the results, however the visits were shared
  -- out among the workers, whenever the channel closed for each of them, and in whatever order the
  -- batches arrive, the output is a sequence of whole lines, each the path and the separator of an
  -- entry of `es` that satisfies all filters, and none is written more often than it stands in `es`.
  pub program-PrintsSome :
      (ctx : WalkCtx Fd) (roots : List Text) {es : List (Seen Fd)} {s : System Fd}
      → WalkedAll P ctx (root_tasks P ctx roots) es
      → Reach P ctx (init P ctx roots) s
      → (parts : List (Part Fd)) → Within (concat (map visits_of parts)) s.emitted
      → (batches : Sent) → Arrives (map sent_in parts) batches
      → PrintsSome
          (separator_of ctx.args.null)
          (print_all
            (cap_of ctx.args.max_results)
            (separator_of ctx.args.null)
            batches
            no_output).out
          es
  program-PrintsSome ctx roots {es} wa r parts shared batches arrives = record {
    printed = limited ctx.args.max_results (concat batches);
    written = print_all-lines ctx.args.max_results (separator_of ctx.args.null) batches;
    within = λ weight.
        let weigh = weight_of P fs f has_user has_group weight in
        omega (
          arith,
          sum-limited weight ctx.args.max_results (concat batches),
          sum-concat weight batches,
          Arrives-sum (sum weight) arrives,
          sum-sent_in weight parts,
          sum-concat weigh (map visits_of parts),
          shared weigh,
          emitted-Within P ctx roots wa r weigh,
          sum-passing P fs f has_user has_group weight es,
        );
  }
