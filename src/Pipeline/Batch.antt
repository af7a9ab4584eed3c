-- ===== src/Pipeline/Batch.antt =====
-- src/lib.rs, `BatchSender`: entries are sent over the channel in batches. The channel (crossbeam) is
-- a parameter: what sending a batch makes of its state, or `none` once the receiver is gone.
pub mod Laws
use minifind.Base.{
  ℕ, Bool, true, false, not, Option, none, some, List, [], ◌∷◌, ◌++◌, length, is_empty, leb,
  if◌then◌else◌,
}
use minifind.Walk.{Entry}

abbrev pub batch_size : ℕ
batch_size = 256

pub record BatchSender (C : Type 0) : Type 0 where
  pub buf : List Entry
  pub tx : C
  pub closed : Bool

module _ {C : Type 0} where
  abbrev pub new_sender : C → BatchSender C
  new_sender tx = record { buf = []; tx = tx; closed = false }

  abbrev pub after_send : Option C → BatchSender C → Bool × BatchSender C
  after_send none b = (false, record b { buf = []; closed = true })
  after_send (some tx) b = (true, record b { buf = []; tx = tx })

module _ {C : Type 0} (send : List Entry → C → Option C) where
  unfoldable pub flush : BatchSender C → Bool × BatchSender C
  flush b = if is_empty b.buf then (not b.closed, b) else after_send (send b.buf b.tx) b

  unfoldable pub push : Entry → BatchSender C → Bool × BatchSender C
  unfolding flush
  push e b =
      let grown : BatchSender C = record b { buf = b.buf ++ (e ∷ []) } in
      if leb batch_size (length grown.buf) then flush grown else (true, grown)

  unfoldable pub drop : BatchSender C → BatchSender C
  unfolding flush
  drop b = (flush b).1

  -- Entries pushed one after the other, up to the first push that returns `false`.
  unfoldable pub push_all : List Entry → BatchSender C → Bool × BatchSender C
  unfolding push
  push_all [] b = (true, b)
  push_all (e ∷ es) b =
      let (more, b') = push e b in let rest = push_all es b' in if more then rest else (false, b')
