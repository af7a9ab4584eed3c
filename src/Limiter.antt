-- ===== src/Limiter.antt =====
-- src/ratelimit.rs: the rate limiter. The bucket (crate governor), the clock, the flag and the sleep
-- are a record of parameters over the state of the world.
pub mod Laws
use minifind.Base.{ℕ, ◌*◌, Bool, true, false, Option, none, some, min, zero, suc, if◌then◌else◌}

-- What `check` answers: a token, or the refusal with what it says of the next one.
pub data Check (Nu : Type 0) : Type 0 where
  granted : Check Nu
  not_until : Nu → Check Nu

-- Durations are in nanoseconds. `check` is the direct limiter's, `wait_time_from` that of a refusal
-- with the time the clock tells, and `load` reads the flag `quit`.
pub record World (S Nu : Type 0) : Type 0 where
  pub check : S → Check Nu × S
  pub now : S → ℕ × S
  pub wait_time_from : Nu → ℕ → ℕ
  pub load : S → Bool × S
  pub sleep : ℕ → S → S

abbrev pub max_nap : ℕ
max_nap = 100 * 1000000

-- `Ok(())`, or `Err` with the wait.
pub data Acquired : Type 0 where
  token : Acquired
  wait : ℕ → Acquired

module _ {S Nu : Type 0} (W : World S Nu) where
  abbrev pub wait_of : Check Nu × S → Acquired × S
  wait_of (granted, s) = (token, s)
  wait_of (not_until nu, s) = let (t, s') = W.now s in (wait (W.wait_time_from nu t), s')

  unfoldable pub try_acquire : S → Acquired × S
  try_acquire s = wait_of (W.check s)

  -- What follows a try: the end, or a nap and the next turn of the loop.
  abbrev pub after_try : (S → Option (Bool × S)) → Acquired × S → Option (Bool × S)
  after_try again (token, s) = some (true, s)
  after_try again (wait time, s) = again (W.sleep (min time max_nap) s)

  -- The loop of `acquire` on fuel: `none` if it has not ended.
  unfoldable pub acquire : ℕ → S → Option (Bool × S)
  unfolding try_acquire
  acquire zero s = none
  acquire (suc fuel) s =
      let (quit, seen) = W.load s in
      if quit then some (false, seen) else after_try (acquire fuel) (try_acquire seen)
