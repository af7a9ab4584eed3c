-- ===== src/Pipeline/Worker/Sending.antt =====
-- src/lib.rs: what one worker sends over a channel that stays open.
use minifind.Base.{
  ℕ, ◌≡◌, refl, sym, ap, ◌∙◌, Bool, Bool-cases, inl, inr, true, false, some, some-inj, List, [],
  ◌∷◌, ◌++◌, append-nil, append_assoc, is_empty, is_empty_last, leb, length, if◌then◌else◌,
}
use minifind.FileType.{Probe}
use minifind.Meta.Nss.Cache.{IsCache}
use minifind.Walk.{Platform, go_on, Entry}
use minifind.Walk.System.{Seen}
use minifind.Pipeline.Batch.{BatchSender, batch_size, flush, push, drop}
use minifind.Pipeline.Batch.Laws.{concat, concat_last, push-entries}
use minifind.Pipeline.Visitor.{Filters, Visit, visit}
use minifind.Pipeline.Visitor.Laws.{passes, visit-passes}
use minifind.Pipeline.Worker.{new_visit, Sent, keep, visit_all, sent_by}

-- An open channel takes every batch.
flush-more : (b : BatchSender Sent) → is_empty b.buf ≡ false → (flush keep b).0 ≡ true
unfolding flush
flush-more b h = rw h refl

push-more : (e : Entry) (b : BatchSender Sent) → (push keep e b).0 ≡ true
unfolding push
push-more e b = elim (Bool-cases (leb batch_size (length (b.buf ++ (e ∷ []))))) [
  | inl full ↦ rw full (flush-more (record b { buf = b.buf ++ (e ∷ []) }) (is_empty_last b.buf e))
  | inr room ↦ rw room refl
]

keep-concat : (b : List Entry) (c c' : Sent) → keep b c ≡ some c' → c' ≡ c ++ (b ∷ [])
keep-concat b c c' e = sym (some-inj e)

-- What a sender has sent or holds.
abbrev accepted_by : BatchSender Sent → List Entry
accepted_by b = concat b.tx ++ b.buf

push-accepted :
    (e : Entry) (b : BatchSender Sent) → accepted_by (push keep e b).1 ≡ accepted_by b ++ (e ∷ [])
push-accepted e b = push-entries keep (λ s. s) keep-concat e b (push-more e b)

drop_empty : (b : BatchSender Sent) → is_empty b.buf ≡ true → drop keep b ≡ b
unfolding drop flush
drop_empty b h = rw (h, drop, flush) refl

drop_full :
    (b : BatchSender Sent)
    → is_empty b.buf ≡ false
    → drop keep b ≡ record b { buf = []; tx = b.tx ++ (b.buf ∷ []) }
unfolding drop flush
drop_full b h = rw (h, drop, flush) refl

abbrev sent_of : BatchSender Sent → List Entry
sent_of b = concat b.tx

drop-accepted : (b : BatchSender Sent) → sent_of (drop keep b) ≡ accepted_by b
drop-accepted b = elim (Bool-cases (is_empty b.buf)) [
  | inl e ↦
      ap sent_of (drop_empty b e)
      ∙ sym (append-nil (concat b.tx))
      ∙ ap (λ (l : List Entry). concat b.tx ++ l) (sym (empty b.buf e))
  | inr e ↦ ap sent_of (drop_full b e) ∙ concat_last b.tx b.buf
]
  where
    empty : (l : List Entry) → is_empty l ≡ true → l ≡ []
    empty [] h = refl
    empty (x ∷ l) h = cc

module _ {Fd : Type 0} (P : Platform Fd) (fs : Probe) (f : Filters)
    (has_user has_group : ℕ → Bool) where
  abbrev pub test : Seen Fd → Bool
  test (e, at) = passes P fs f has_user has_group keep e at

  -- The entries, in order, that satisfy every filter.
  unfoldable pub passing : List (Seen Fd) → List Entry
  passing [] = []
  passing (s ∷ rest) = if test s then s.0 ∷ passing rest else passing rest

  -- A worker whose visits meet no closed channel sees all of them, and has then accepted those that pass.
  visit_all-passing :
      (share : List (Seen Fd)) (v : Visit Sent)
      → IsCache has_user has_group v.nss
      → accepted_by (visit_all P fs f has_user has_group keep share v).1.batch
        ≡ accepted_by v.batch ++ passing share
  unfolding visit_all passing
  visit_all-passing [] v h = sym (append-nil (accepted_by v.batch))
  visit_all-passing ((e, at) ∷ rest) v h =
      let seen = visit P fs f has_user has_group keep false e at v in
      let (w, b, h') = visit-passes P fs f has_user has_group keep e at v h in
      let more = visit_all-passing rest seen.1 h' in
      elim (Bool-cases (test (e, at))) [
        | inl pass ↦
            let gone : seen.0 ≡ go_on = w ∙ rw (pass, push-more e v.batch) refl in
            let taken : seen.1.batch ≡ (push keep e v.batch).1 = b ∙ rw pass refl in
            let grown : accepted_by seen.1.batch ≡ accepted_by v.batch ++ (e ∷ []) =
              ap accepted_by taken ∙ push-accepted e v.batch in
            rw (pass, gone)
              (more
                ∙ ap (λ (l : List Entry). l ++ passing rest) grown
                ∙ append_assoc (accepted_by v.batch) (e ∷ []) (passing rest))
        | inr fail ↦
            let gone : seen.0 ≡ go_on = w ∙ rw fail refl in
            let same : seen.1.batch ≡ v.batch = b ∙ rw fail refl in
            rw (fail, gone)
              (more ∙ ap (λ (x : BatchSender Sent). accepted_by x ++ passing rest) same)
      ]

  pub sent_by-passing :
      (share : List (Seen Fd)) → concat (sent_by P fs f has_user has_group share) ≡ passing share
  unfolding sent_by
  sent_by-passing share =
      drop-accepted (visit_all P fs f has_user has_group keep share (new_visit [])).1.batch
      ∙ visit_all-passing share (new_visit []) (record { users = tt; groups = tt })
