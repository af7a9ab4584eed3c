-- ===== src/Pipeline/Worker/Whole.antt =====
-- src/lib.rs and src/walk.rs: the whole program, from the roots to the bytes.
use minifind.Base.{
  ℕ, ◌+◌, ◌≡◌, refl, sym, ap, ◌∙◌, Bool, Bool-cases, inl, inr, true, false, none, List, [], ◌∷◌,
  arith, All, any, if◌then◌else◌,
}
use minifind.Base.Text.{Text}
use minifind.FileType.{Probe}
use minifind.Walk.{Platform, Entry, WalkCtx}
use minifind.Walk.System.{Seen, System, Reach, init, root_tasks}
use minifind.Walk.System.Costs.{sum, sum-append, sum_middle}
use minifind.Walk.System.Count.{has_stopped}
use minifind.Walk.System.Once.{WalkedAll, SameEntries, emitted-SameEntries}
use minifind.Pipeline.Batch.Laws.{concat}
use minifind.Pipeline.Output.{separator_of, cap_of, print_all, no_output}
use minifind.Pipeline.Output.Laws.{lines, print_all-lines}
use minifind.Pipeline.Visitor.{Filters}
use minifind.Pipeline.Worker.{Sent, sent_by, Arrives, over, next}
use minifind.Pipeline.Worker.Sending.{test, passing, sent_by-passing}

pub sum-concat :
    {A : Type 0} (weight : A → ℕ) (xss : List (List A))
    → sum weight (concat xss) ≡ sum (sum weight) xss
unfolding sum
sum-concat weight [] = refl
sum-concat weight (xs ∷ xss) =
    sum-append weight xs (concat xss) ∙ ap (λ n. sum weight xs + n) (sum-concat weight xss)

abbrev pub map : {A B : Type 0} → (A → B) → List A → List B
map g [] = []
map g (x ∷ xs) = g x ∷ map g xs

-- However the batches arrive, they hold what the queues held.
pub Arrives-sum :
    {B : Type 0} (weight : B → ℕ) {qs : List (List B)} {bs : List B}
    → Arrives qs bs
    → sum weight bs ≡ sum (sum weight) qs
unfolding sum
Arrives-sum {B} weight {qs} (over h) = sym (empty qs h)
  where
    empty : (qs : List (List B)) → All (λ q. q ≡ []) qs → sum (sum weight) qs ≡ 0
    empty [] h = refl
    empty (q ∷ qs) (e, h) = omega (arith, ap (sum weight) e, empty qs h)
Arrives-sum weight (next before after b q r) = omega (
  arith,
  Arrives-sum weight r,
  sum_middle (sum weight) before after q,
  sum_middle (sum weight) before after (b ∷ q),
)

module _ {Fd : Type 0} (P : Platform Fd) (fs : Probe) (f : Filters)
    (has_user has_group : ℕ → Bool) where
  -- The weight of an entry if it passes.
  unfoldable pub weight_of : (Entry → ℕ) → Seen Fd → ℕ
  weight_of weight s = if test P fs f has_user has_group s then weight s.0 else 0

  pub sum-passing :
      (weight : Entry → ℕ) (share : List (Seen Fd))
      → sum weight (passing P fs f has_user has_group share) ≡ sum (weight_of weight) share
  unfolding sum passing weight_of
  sum-passing weight [] = refl
  sum-passing weight (s ∷ share) = elim (Bool-cases (test P fs f has_user has_group s)) [
    | inl p ↦ rw p (ap (λ n. weight s.0 + n) (sum-passing weight share))
    | inr p ↦ rw p (omega (arith, sum-passing weight share))
  ]

  -- The batches of all workers hold the passing entries of all shares.
  sum-sent :
      (weight : Entry → ℕ) (shares : List (List (Seen Fd)))
      → sum (sum (sum weight)) (map (sent_by P fs f has_user has_group) shares)
        ≡ sum (sum (weight_of weight)) shares
  unfolding sum
  sum-sent weight [] = refl
  sum-sent weight (share ∷ shares) = omega (
    arith,
    sum-sent weight shares,
    sum-concat weight (sent_by P fs f has_user has_group share),
    ap (sum weight) (sent_by-passing P fs f has_user has_group share),
    sum-passing weight share,
  )

  -- The program's output holds, line by line, the entries that pass of a list of visits, each as often.
  pub record Prints (separator : ℕ) (text : Text) (visits : List (Seen Fd)) : Type 0 where
    pub printed : List Entry
    pub written : text ≡ lines separator printed
    pub same : SameEntries printed (passing P fs f has_user has_group visits)

  -- Let the sequential walk of the roots be finite, with the visits `es`, and let the workers, without a
  -- quit and with no cap on the results, reach a state in which one of them has stopped. Then however
  -- the visits were shared out among the workers, and in whatever order their batches arrive, the
  -- output is the path and the separator of every entry of `es` that satisfies all filters, each as
  -- often as the sequential walk visits it, and of no other.
  pub program-Prints :
      (ctx : WalkCtx Fd) (roots : List Text) {es : List (Seen Fd)} {s : System Fd}
      → WalkedAll P ctx (root_tasks P ctx roots) es
      → Reach P ctx (init P ctx roots) s
      → s.quit ≡ false
      → any has_stopped s.workers ≡ true
      → cap_of ctx.args.max_results ≡ none
      → (shares : List (List (Seen Fd))) → SameEntries (concat shares) s.emitted
      → (batches : Sent) → Arrives (map (sent_by P fs f has_user has_group) shares) batches
      → Prints
          (separator_of ctx.args.null)
          (print_all
            (cap_of ctx.args.max_results)
            (separator_of ctx.args.null)
            batches
            no_output).out
          es
  program-Prints ctx roots {es} {s} wa r nq st cap shares shared batches arrives = record {
    printed = concat batches;
    written = rw cap (print_all-lines none (separator_of ctx.args.null) batches);
    same = λ weight. omega (
      arith,
      sum-concat weight batches,
      Arrives-sum (sum weight) arrives,
      sum-sent weight shares,
      sum-concat (weight_of weight) shares,
      shared (weight_of weight),
      emitted-SameEntries P ctx roots wa r nq st (weight_of weight),
      sum-passing weight es,
    );
  }
