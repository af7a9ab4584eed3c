-- ===== src/Run/Channel.antt =====
-- src/lib.rs, `run`: the bounded channel between the workers and the output thread (crossbeam_channel).
use minifind.Base.{ℕ, ◌≡◌, Bool, true, false, Option, none, some, List, [], ◌∷◌, ◌++◌}
use minifind.Walk.{Entry}

-- The channel's operations on its state. `accepts`, told whether the receiver waits in `recv`, says
-- whether a send completes now; one that does not blocks. `send` fails once the receiver is gone, `recv`
-- has `none` if there is nothing to take, and `hang_up` drops the receiver. `held` are the batches that
-- were sent and not yet received, the oldest first, and `is_open` says whether the receiver is there.
pub record Channel (C : Type 0) : Type 0 where
  pub bounded : ℕ → C
  pub accepts : Bool → C → Bool
  pub send : List Entry → C → Option C
  pub recv : C → Option (List Entry × C)
  pub hang_up : C → C
  pub held : C → List (List Entry)
  pub is_open : C → Bool

-- What its documentation says: batches leave in the order in which they came, a send fails once the
-- receiver is dropped, and then it does not block, nor does it where the receiver waits and nothing is held,
-- whatever the capacity: there is room, or the batch is handed over.
pub record IsChannel {C : Type 0} (X : Channel C) : Type 0 where
  pub bounded_held : (n : ℕ) → X.held (X.bounded n) ≡ []
  pub bounded_open : (n : ℕ) → X.is_open (X.bounded n) ≡ true
  pub send_open :
      (b : List Entry) (c : C)
      → X.is_open c ≡ true
      → (c' : C) × (X.send b c ≡ some c')
        × (X.held c' ≡ X.held c ++ (b ∷ []))
        × (X.is_open c' ≡ true)
  pub accepts_closed : (c : C) (waits : Bool) → X.is_open c ≡ false → X.accepts waits c ≡ true
  pub accepts_empty : (c : C) → X.held c ≡ [] → X.accepts true c ≡ true
  pub send_closed : (b : List Entry) (c : C) → X.is_open c ≡ false → X.send b c ≡ none
  pub recv_nil : (c : C) → X.held c ≡ [] → X.recv c ≡ none
  pub recv_cons :
      (c : C) (b : List Entry) (bs : List (List Entry))
      → X.held c ≡ b ∷ bs
      → (c' : C) × (X.recv c ≡ some (b, c')) × (X.held c' ≡ bs) × (X.is_open c' ≡ X.is_open c)
  pub hang_up_closed : (c : C) → X.is_open (X.hang_up c) ≡ false
