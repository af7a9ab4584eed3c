-- ===== src/Run/Threads/Growth.antt =====
-- src/lib.rs, `BatchSender` and the visitor: how a batch in the making grows, over any channel.
use minifind.Base.{
  ℕ, ◌+◌, ◌<◌, ◌≡◌, refl, ap, ◌∙◌, Bool, Bool-cases, inl, inr, true, false, Option, none, List, [],
  ◌∷◌, ◌++◌, is_empty_last, length, length-append, leb, arith,
}
use minifind.FileType.{Probe}
use minifind.Meta.Nss.Cache.{IsCache}
use minifind.Walk.{Platform, WalkState, quit, Entry, StatAt}
use minifind.Walk.Process.Actions.{quits}
use minifind.Walk.System.{Seen}
use minifind.Pipeline.Batch.{BatchSender, batch_size, flush, push}
use minifind.Pipeline.Batch.Laws.{after_send-buf}
use minifind.Pipeline.Visitor.{Filters, Visit, visit}
use minifind.Pipeline.Visitor.Laws.{passes, visit-passes}
use minifind.Pipeline.Worker.Sending.{test}
use minifind.Pipeline.Worker.Whole.{weight_of}

module _ {C : Type 0} (send : List Entry → C → Option C) where
  -- A batch in the making stays below its size.
  push-short :
      (e : Entry) (b : BatchSender C)
      → length b.buf < batch_size
      → length (push send e b).1.buf < batch_size
  unfolding push flush
  push-short e b h = elim (Bool-cases (leb batch_size (length (b.buf ++ (e ∷ []))))) [
    | inl full ↦
        let o = send (b.buf ++ (e ∷ [])) b.tx in
        let none_left = after_send-buf o (record b { buf = b.buf ++ (e ∷ []) }) in
        rw (full, is_empty_last b.buf e) (omega (arith, ap length none_left))
    | inr room ↦ rw room (ground (arith, length-append b.buf (e ∷ [])))
  ]

  -- Once the channel is closed, a push that succeeds has only kept its entry.
  push-closed :
      (e : Entry) (b : BatchSender C)
      → ((es : List Entry) → send es b.tx ≡ none)
      → (push send e b).0 ≡ true
      → length (push send e b).1.buf ≡ length b.buf + 1
  unfolding push flush
  push-closed e b closed h = elim (Bool-cases (leb batch_size (length (b.buf ++ (e ∷ []))))) [
    | inl full ↦ cc (rw (full, is_empty_last b.buf e, closed (b.buf ++ (e ∷ []))) at h)
    | inr room ↦ rw room (length-append b.buf (e ∷ []))
  ]

module _ {Fd C : Type 0} (P : Platform Fd) (fs : Probe) (f : Filters)
    (has_user has_group : ℕ → Bool) (send : List Entry → C → Option C) where
  -- 1 if the entry of a visit passes.
  abbrev pub one_if_passing : Seen Fd → ℕ
  one_if_passing s = weight_of P fs f has_user has_group (λ e. 1) s

  -- What a visit does to the batch.
  pub record Grows (s : Seen Fd) (v : Visit C) (r : WalkState × Visit C) : Type 0 where
    pub short : length v.batch.buf < batch_size → length r.1.batch.buf < batch_size
    pub kept :
        ((es : List Entry) → send es v.batch.tx ≡ none)
        → quits r.0 ≡ false
        → length r.1.batch.buf ≡ length v.batch.buf + one_if_passing s

  seen_unset :
      (e : Entry) (a : StatAt Fd) (v : Visit C)
      → IsCache has_user has_group v.nss
      → Grows (e, a) v (visit P fs f has_user has_group send false e a v)
  unfolding weight_of passes
  seen_unset e a v h =
      let r = visit P fs f has_user has_group send false e a v in
      let (w, b, h') = visit-passes P fs f has_user has_group send e a v h in
      elim (Bool-cases (test P fs f has_user has_group (e, a))) [
        | inl pass ↦
            let taken : r.1.batch ≡ (push send e v.batch).1 = b ∙ rw pass refl in
            let same = ap (λ (x : BatchSender C). length x.buf) taken in
            record {
              short = λ l. omega (arith, same, push-short send e v.batch l);
              kept = λ closed go. elim (Bool-cases (push send e v.batch).0) [
                | inl more ↦ rw pass (omega (arith, same, push-closed send e v.batch closed more))
                | inr less ↦
                    let ends : r.0 ≡ quit = w ∙ rw (pass, less) refl in cc (ap quits ends, go)
              ];
            }
        | inr fail ↦
            let same : r.1.batch ≡ v.batch = b ∙ rw fail refl in
            let equal = ap (λ (x : BatchSender C). length x.buf) same in
            record {
              short = λ l. omega (arith, equal);
              kept = λ closed go. rw fail (omega (arith, equal));
            }
      ]

  seen_set :
      (e : Entry) (a : StatAt Fd) (v : Visit C)
      → Grows (e, a) v (visit P fs f has_user has_group send true e a v)
  unfolding visit
  seen_set e a v = record { short = λ l. l; kept = λ closed go. cc go }

  pub visit-Grows :
      (b : Bool) (e : Entry) (a : StatAt Fd) (v : Visit C)
      → IsCache has_user has_group v.nss
      → Grows (e, a) v (visit P fs f has_user has_group send b e a v)
  visit-Grows false e a v h = seen_unset e a v h
  visit-Grows true e a v h = seen_set e a v
