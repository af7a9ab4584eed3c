-- ===== src/Run/Threads/Sends.antt =====
-- src/lib.rs, `BatchSender` and the visitor over the channel that the workers share: what they take
-- and send, by weight.
use minifind.Base.{
  ℕ, ◌+◌, ◌≤◌, ◌≡◌, refl, ap, ◌∙◌, Bool, Bool-cases, inl, inr, true, false, List, [], ◌∷◌, ◌++◌,
  arith, is_empty, is_empty_last, leb, length,
}
use minifind.FileType.{Probe}
use minifind.Meta.Nss.Cache.{IsCache}
use minifind.Walk.{Platform, WalkState, go_on, Entry, StatAt}
use minifind.Walk.Process.Actions.{quits}
use minifind.Walk.System.{Seen}
use minifind.Walk.System.Costs.{sum, sum-append}
use minifind.Pipeline.Batch.{BatchSender, batch_size, after_send, flush, push, drop}
use minifind.Pipeline.Batch.Laws.{concat, is_empty-eq, after_send-buf}
use minifind.Pipeline.Visitor.{Filters, Visit, visit}
use minifind.Pipeline.Visitor.Laws.{passes, visit-passes}
use minifind.Pipeline.Worker.Sending.{test}
use minifind.Pipeline.Worker.Whole.{sum-concat, weight_of}
use minifind.Run.Channel.{Channel, IsChannel}

module _ {C : Type 0} (X : Channel C) (laws : IsChannel X) (weight : Entry → ℕ) where
  -- The weight of what the channel and a sender hold.
  abbrev pub pouch : BatchSender C → ℕ
  pouch b = sum weight (concat (X.held b.tx)) + sum weight b.buf

  -- A sender that has been given `more`: it loses something only if the receiver is gone.
  pub record Took (b b' : BatchSender C) (more : ℕ) : Type 0 where
    pub open_same : X.is_open b'.tx ≡ X.is_open b.tx
    pub most : pouch b' ≤ pouch b + more
    pub keeps : sum weight b'.buf ≤ sum weight b.buf + more
    pub exact : X.is_open b.tx ≡ true → pouch b' ≡ pouch b + more

  sum-snoc :
      (bs : List (List Entry)) (b : List Entry)
      → sum weight (concat (bs ++ (b ∷ []))) ≡ sum weight (concat bs) + sum weight b
  unfolding sum
  sum-snoc bs b = omega (
    arith,
    sum-concat weight (bs ++ (b ∷ [])),
    sum-append (sum weight) bs (b ∷ []),
    sum-concat weight bs,
  )

  after_send-Took : (b : BatchSender C) → Took b (after_send (X.send b.buf b.tx) b).1 0
  unfolding sum
  after_send-Took b = elim (Bool-cases (X.is_open b.tx)) [
    | inl o ↦
        let (c, e, h, k) = laws.send_open b.buf b.tx o in
        let same =
          ap (λ (l : List (List Entry)). sum weight (concat l)) h ∙ sum-snoc (X.held b.tx) b.buf in
        rw e (record {
          open_same = cc (o, k);
          most = omega (arith, same);
          keeps = omega arith;
          exact = λ p. omega (arith, same);
        })
    | inr o ↦ rw (laws.send_closed b.buf b.tx o) (record {
      open_same = refl;
      most = omega arith;
      keeps = omega arith;
      exact = λ p. cc (o, p);
    })
  ]

  after_send-open :
      (b : BatchSender C) → X.is_open b.tx ≡ true → (after_send (X.send b.buf b.tx) b).0 ≡ true
  after_send-open b o = let (c, e, h, k) = laws.send_open b.buf b.tx o in rw e refl

  flush-Took : (b : BatchSender C) → Took b (flush X.send b).1 0
  unfolding flush
  flush-Took b = elim (Bool-cases (is_empty b.buf)) [
    | inl e ↦ rw e (record {
      open_same = refl;
      most = omega arith;
      keeps = omega arith;
      exact = λ p. omega arith;
    })
    | inr e ↦ rw e (after_send-Took b)
  ]

  -- A sender that is dropped keeps nothing.
  pub drop-Took : (b : BatchSender C) → Took b (drop X.send b) 0 × ((drop X.send b).buf ≡ [])
  unfolding drop flush
  drop-Took b = elim (Bool-cases (is_empty b.buf)) [
    | inl e ↦ (flush-Took b, rw (e, drop, flush) (is_empty-eq b.buf e))
    | inr e ↦ (flush-Took b, rw (e, drop, flush) (after_send-buf (X.send b.buf b.tx) b))
  ]

  push-Took : (e : Entry) (b : BatchSender C) → Took b (push X.send e b).1 (weight e)
  unfolding push sum
  push-Took e b =
      let grown : BatchSender C = record b { buf = b.buf ++ (e ∷ []) } in
      let more = sum-append weight b.buf (e ∷ []) in
      elim (Bool-cases (leb batch_size (length grown.buf))) [
        | inl full ↦
            let f = flush-Took grown in
            rw full (record {
              open_same = f.open_same;
              most = omega (arith, f.most, more);
              keeps = omega (arith, f.keeps, more);
              exact = λ o. omega (arith, f.exact o, more);
            })
        | inr room ↦ rw room (record {
          open_same = refl;
          most = omega (arith, more);
          keeps = omega (arith, more);
          exact = λ o. omega (arith, more);
        })
      ]

  -- A push finds an open channel open.
  push-open : (e : Entry) (b : BatchSender C) → X.is_open b.tx ≡ true → (push X.send e b).0 ≡ true
  unfolding push flush
  push-open e b o =
      let grown : BatchSender C = record b { buf = b.buf ++ (e ∷ []) } in
      elim (Bool-cases (leb batch_size (length grown.buf))) [
        | inl full ↦ rw (full, is_empty_last b.buf e) (after_send-open grown o)
        | inr room ↦ rw room refl
      ]

module _ {Fd C : Type 0} (P : Platform Fd) (fs : Probe) (f : Filters)
    (has_user has_group : ℕ → Bool) (X : Channel C) (laws : IsChannel X) (weight : Entry → ℕ) where
  -- What a visit does, given whether it has found the shutdown flag set.
  pub record Visited (b : Bool) (s : Seen Fd) (v : Visit C) (r : WalkState × Visit C) : Type 0 where
    pub cache : IsCache has_user has_group r.1.nss
    pub open_same : X.is_open r.1.batch.tx ≡ X.is_open v.batch.tx
    pub most :
        pouch X laws weight r.1.batch
        ≤ pouch X laws weight v.batch + weight_of P fs f has_user has_group weight s
    pub keeps :
        sum weight r.1.batch.buf
        ≤ sum weight v.batch.buf + weight_of P fs f has_user has_group weight s
    pub unset : quits r.0 ≡ false → b ≡ false
    pub exact :
        X.is_open v.batch.tx ≡ true
        → b ≡ false
        → (r.0 ≡ go_on)
          × (pouch X laws weight r.1.batch
              ≡ pouch X laws weight v.batch + weight_of P fs f has_user has_group weight s)

  abbrev kept_by : BatchSender C → ℕ
  kept_by b = sum weight b.buf

  seen_unset :
      (e : Entry) (a : StatAt Fd) (v : Visit C)
      → IsCache has_user has_group v.nss
      → Visited false (e, a) v (visit P fs f has_user has_group X.send false e a v)
  unfolding weight_of passes
  seen_unset e a v h =
      let r = visit P fs f has_user has_group X.send false e a v in
      let (w, b, h') = visit-passes P fs f has_user has_group X.send e a v h in
      elim (Bool-cases (test P fs f has_user has_group (e, a))) [
        | inl pass ↦
            let taken : r.1.batch ≡ (push X.send e v.batch).1 = b ∙ rw pass refl in
            let t = push-Took X laws weight e v.batch in
            let same = ap (pouch X laws weight) taken in
            record {
              cache = h';
              open_same = ap (λ (x : BatchSender C). X.is_open x.tx) taken ∙ t.open_same;
              most = rw pass (omega (arith, same, t.most));
              keeps = rw pass (omega (arith, ap kept_by taken, t.keeps));
              unset = λ n. refl;
              exact = λ o n. (
                w ∙ rw (pass, push-open X laws weight e v.batch o) refl,
                rw pass (omega (arith, same, t.exact o)),
              );
            }
        | inr fail ↦
            let kept : r.1.batch ≡ v.batch = b ∙ rw fail refl in
            let same = ap (pouch X laws weight) kept in
            record {
              cache = h';
              open_same = ap (λ (x : BatchSender C). X.is_open x.tx) kept;
              most = rw fail (omega (arith, same));
              keeps = rw fail (omega (arith, ap kept_by kept));
              unset = λ n. refl;
              exact = λ o n. (w ∙ rw fail refl, rw fail (omega (arith, same)));
            }
      ]

  -- After a signal the visitor does nothing.
  seen_set :
      (e : Entry) (a : StatAt Fd) (v : Visit C)
      → IsCache has_user has_group v.nss
      → Visited true (e, a) v (visit P fs f has_user has_group X.send true e a v)
  unfolding visit
  seen_set e a v h = record {
    cache = h;
    open_same = refl;
    most = omega arith;
    keeps = omega arith;
    unset = λ n. cc n;
    exact = λ o n. cc n;
  }

  pub visit-Visited :
      (b : Bool) (e : Entry) (a : StatAt Fd) (v : Visit C)
      → IsCache has_user has_group v.nss
      → Visited b (e, a) v (visit P fs f has_user has_group X.send b e a v)
  visit-Visited false e a v h = seen_unset e a v h
  visit-Visited true e a v h = seen_set e a v h
