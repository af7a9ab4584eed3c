-- ===== src/Pipeline/Batch/Laws.antt =====
-- src/lib.rs, `BatchSender`: nothing is lost or reordered, and no batch is empty or too large.
use minifind.Base.{
  append-nil, append_assoc, ◌≤◌, ◌<◌, ◌≡◌, refl, sym, ap, ◌∙◌, true, false, Option, none, some,
  List, [], ◌∷◌, ◌++◌, arith, length, is_empty, All, All-append, length-append, leb, Bool-cases,
  inl, inr,
}
use minifind.Walk.{Entry}
use mathlib.Core.Path.{subst}
use minifind.Pipeline.Batch.{BatchSender, batch_size, after_send, flush, push, drop, push_all}

abbrev pub concat : {A : Type 0} → List (List A) → List A
concat [] = []
concat (b ∷ bs) = b ++ concat bs

pub concat_last :
    (bs : List (List Entry)) (b : List Entry) → concat (bs ++ (b ∷ [])) ≡ concat bs ++ b
concat_last [] b = append-nil b
concat_last (x ∷ bs) b =
    ap (λ (l : List Entry). x ++ l) (concat_last bs b) ∙ sym (append_assoc x (concat bs) b)

-- A batch holds at least one entry and at most 256.
abbrev pub IsSized : List Entry → Type 0
IsSized b = (0 < length b) × (length b ≤ batch_size)

module _ {C : Type 0} (taken : C → List (List Entry)) where
  -- Every entry that the sender has accepted, in order.
  abbrev pub entries_of : BatchSender C → List Entry
  entries_of b = concat (taken b.tx) ++ b.buf

  abbrev pub IsSender : BatchSender C → Type 0
  IsSender b = All IsSized (taken b.tx) × (length b.buf < batch_size)

pub after_send-buf : {C : Type 0} (o : Option C) (b : BatchSender C) → (after_send o b).1.buf ≡ []
after_send-buf none b = refl
after_send-buf (some c) b = refl

pub is_empty-eq : (xs : List Entry) → is_empty xs ≡ true → xs ≡ []
is_empty-eq [] h = refl
is_empty-eq (x ∷ xs) h = cc

-- `taken` are the batches that the channel has taken so far: a send that succeeds adds its batch.
module _ {C : Type 0} (send : List Entry → C → Option C) (taken : C → List (List Entry))
    (send-taken : (b : List Entry) (c c' : C)
      → send b c ≡ some c'
      → taken c' ≡ taken c ++ (b ∷ [])) where
  after_send-entries :
      (b : BatchSender C) (o : Option C)
      → send b.buf b.tx ≡ o
      → (after_send o b).0 ≡ true
      → (entries_of taken (after_send o b).1 ≡ entries_of taken b) × ((after_send o b).1.buf ≡ [])
  after_send-entries b none e h = cc
  after_send-entries b (some c) e h = (
    append-nil (concat (taken c))
        ∙ ap concat (send-taken b.buf b.tx c e)
        ∙ concat_last (taken b.tx) b.buf,
    refl,
  )

  flush-entries :
      (b : BatchSender C)
      → (flush send b).0 ≡ true
      → (entries_of taken (flush send b).1 ≡ entries_of taken b) × ((flush send b).1.buf ≡ [])
  unfolding flush
  flush-entries b h = elim (Bool-cases (is_empty b.buf)) [
    | inl e ↦ rw e (refl, is_empty-eq b.buf e)
    | inr e ↦ rw e (after_send-entries b (send b.buf b.tx) refl (rw e at h))
  ]

  pub push-entries :
      (e : Entry) (b : BatchSender C)
      → (push send e b).0 ≡ true
      → entries_of taken (push send e b).1 ≡ entries_of taken b ++ (e ∷ [])
  unfolding push
  push-entries e b h =
      let grown : BatchSender C = record b { buf = b.buf ++ (e ∷ []) } in
      let same = sym (append_assoc (concat (taken b.tx)) b.buf (e ∷ [])) in
      elim (Bool-cases (leb batch_size (length grown.buf))) [
        | inl full ↦ rw full ((flush-entries grown (rw full at h)).0 ∙ same)
        | inr room ↦ rw room same
      ]

  push_all-entries :
      (es : List Entry) (b : BatchSender C)
      → (push_all send es b).0 ≡ true
      → entries_of taken (push_all send es b).1 ≡ entries_of taken b ++ es
  unfolding push_all
  push_all-entries [] b h = sym (append-nil (entries_of taken b))
  push_all-entries (e ∷ es) b h = elim (Bool-cases (push send e b).0) [
    | inl more ↦ rw more (
        push_all-entries es (push send e b).1 (rw more at h)
        ∙ ap (λ (l : List Entry). l ++ es) (push-entries e b more)
        ∙ append_assoc (entries_of taken b) (e ∷ []) es)
    | inr less ↦ cc (rw less at h)
  ]

  -- If the channel takes every batch, and a sender that has accepted some entries is given `es`
  -- and then dropped, then the receiver gets all of these entries, in order.
  pub drop-entries :
      (es : List Entry) (b : BatchSender C)
      → (push_all send es b).0 ≡ true
      → (flush send (push_all send es b).1).0 ≡ true
      → concat (taken (drop send (push_all send es b).1).tx) ≡ entries_of taken b ++ es
  unfolding drop
  drop-entries es b h k =
      let (same, none_left) = flush-entries (push_all send es b).1 k in
      sym (append-nil _)
      ∙ ap (λ (l : List Entry). concat (taken (drop send (push_all send es b).1).tx) ++ l)
          (sym none_left)
      ∙ same
      ∙ push_all-entries es b h

  after_send-IsSender :
      (b : BatchSender C) (o : Option C)
      → send b.buf b.tx ≡ o
      → All IsSized (taken b.tx)
      → IsSized b.buf
      → IsSender taken (after_send o b).1
  after_send-IsSender b none e h s = (h, omega arith)
  after_send-IsSender b (some c) e h s = (
    subst (All IsSized) (sym (send-taken b.buf b.tx c e))
        (All-append IsSized (taken b.tx) (b.buf ∷ []) h (s, tt)),
    omega arith,
  )

  positive : (xs : List Entry) → is_empty xs ≡ false → 0 < length xs
  positive [] h = cc
  positive (x ∷ xs) h = omega arith

  flush-IsSender :
      (b : BatchSender C)
      → All IsSized (taken b.tx)
      → length b.buf ≤ batch_size
      → IsSender taken (flush send b).1
  unfolding flush
  flush-IsSender b h l = elim (Bool-cases (is_empty b.buf)) [
    | inl e ↦ rw e (h, omega (arith, ap length (is_empty-eq b.buf e)))
    | inr e ↦ rw e (after_send-IsSender b (send b.buf b.tx) refl h (positive b.buf e, l))
  ]

  push-IsSender :
      (e : Entry) (b : BatchSender C) → IsSender taken b → IsSender taken (push send e b).1
  unfolding push
  push-IsSender e b (h, l) =
      let grown : BatchSender C = record b { buf = b.buf ++ (e ∷ []) } in
      let n = length-append b.buf (e ∷ []) in
      elim (Bool-cases (leb batch_size (length grown.buf))) [
        | inl full ↦ rw full (flush-IsSender grown h (omega arith))
        | inr room ↦ rw room (h, ground (arith, n))
      ]

  -- From a sender whose batches sent so far hold 1 to 256 entries each and whose buffer holds fewer
  -- than 256, pushes keep that so, whether the channel takes the batches or not, and the drop
  -- sends no other batch.
  pub push_all-IsSender :
      (es : List Entry) (b : BatchSender C)
      → IsSender taken b
      → IsSender taken (push_all send es b).1 × IsSender taken (drop send (push_all send es b).1)
  unfolding drop push_all
  push_all-IsSender [] b (h, l) = ((h, l), flush-IsSender b h (omega arith))
  push_all-IsSender (e ∷ es) b s = elim (Bool-cases (push send e b).0) [
    | inl more ↦ rw more (push_all-IsSender es (push send e b).1 (push-IsSender e b s))
    | inr less ↦
        let (h, l) = push-IsSender e b s in
        rw less ((h, l), flush-IsSender (push send e b).1 h (omega arith))
  ]
