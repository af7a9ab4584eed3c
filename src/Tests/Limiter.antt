-- ===== src/Tests/Limiter.antt =====
-- Runs of src/ratelimit.rs with a bucket that has a token from 250 ms on, and a flag that is set from
-- a given time on. Reading the flag takes 1 ms, and a sleep lasts 5 ms too long.
use minifind.Base.{
  ℕ, ◌+◌, ◌-◌, ◌*◌, ◌≤◌, ◌<◌, ◌≡◌, refl, ◌⊎◌, inl, inr, Bool, Bool-cases, true, false, some, max,
  arith, leb,
}
use minifind.Limiter.{
  Check, granted, not_until, World, max_nap, Acquired, token, wait, try_acquire, acquire,
}
use minifind.Limiter.Laws.{IsDue, acquire_ends, Counts, Clock, acquire_lem}

abbrev ms : ℕ → ℕ
ms n = n * 1000000

-- The time, and the tokens given.
abbrev State : Type 0
State = ℕ × ℕ

abbrev check_at : Bool → State → Check ℕ × State
check_at true (t, n) = (granted, (t, n + 1))
check_at false (t, n) = (not_until (ms 250), (t, n))

abbrev world : ℕ → World State ℕ
world set = record {
  check = λ s. check_at (leb (ms 250) s.0) s;
  now = λ s. (s.0, s);
  wait_time_from = λ nu t. nu - t;
  load = λ s. (leb set s.0, (s.0 + ms 1, s.1));
  sleep = λ d s. (s.0 + d + ms 5, s.1);
}

-- Three naps, and a token; with the flag set at 150 ms, two naps and none.
runs :
    (acquire (world (ms 1000)) 5 (0, 0) ≡ some (true, (ms 256, 1)))
    × (acquire (world (ms 150)) 5 (0, 0) ≡ some (false, (ms 213, 0)))
unfolding acquire
runs = (refl, refl)

abbrev due : State → ℕ
due s = ms 250 - s.0

world-IsDue : IsDue (world (ms 1000)) due
unfolding try_acquire
world-IsDue = record {
  load = λ s. omega arith;
  refused = λ s s' time e. refused s s' time e;
  sleep = λ d s. omega arith;
}
  where
    refused :
        (s s' : State) (time : ℕ)
        → try_acquire (world (ms 1000)) s ≡ (wait time, s')
        → (0 < due s) × (due s' ≤ due s) × (due s' ≤ time)
    refused (t, n) s' time e = elim (Bool-cases (leb (ms 250) t)) [
      | inl q ↦ cc (rw q at e)
      | inr q ↦
          let p : ◌≡◌ {A = Acquired × State} (wait (ms 250 - t), (t, n)) (wait time, s') =
            rw q at e in
          grind (arith, p, q)
    ]

acquire_ends_example : (r : Bool × State) × (acquire (world (ms 1000)) 4 (0, 0) ≡ some r)
acquire_ends_example = acquire_ends (world (ms 1000)) due world-IsDue 3 (0, 0) (omega arith)

world-Counts : Counts (world (ms 150)) (λ s. s.1)
unfolding try_acquire
world-Counts = record {
  load = λ s. refl;
  granted = λ s s' e. given s s' e;
  refused = λ s s' time e. refused s s' time e;
  sleep = λ d s. refl;
}
  where
    given : (s s' : State) → try_acquire (world (ms 150)) s ≡ (token, s') → s'.1 ≡ s.1 + 1
    given (t, n) s' e = elim (Bool-cases (leb (ms 250) t)) [
      | inl q ↦
          let p : ◌≡◌ {A = Acquired × State} (token, (t, n + 1)) (token, s') = rw q at e in
          grind (arith, p)
      | inr q ↦ cc (rw q at e)
    ]

    refused :
        (s s' : State) (time : ℕ) → try_acquire (world (ms 150)) s ≡ (wait time, s') → s'.1 ≡ s.1
    refused (t, n) s' time e = elim (Bool-cases (leb (ms 250) t)) [
      | inl q ↦ cc (rw q at e)
      | inr q ↦
          let p : ◌≡◌ {A = Acquired × State} (wait (ms 250 - t), (t, n)) (wait time, s') =
            rw q at e in
          grind (arith, p)
    ]

world-Clock : Clock (world (ms 150)) (λ s. s.0) (ms 150) (ms 1) (ms 5)
unfolding try_acquire
world-Clock = record {
  load = λ s. omega arith;
  is_set = λ s l. ground arith;
  try = λ s. tried s;
  sleep = λ d s. omega arith;
}
  where
    tried : (s : State) → (try_acquire (world (ms 150)) s).1.0 ≤ s.0 + ms 1
    tried (t, n) = elim (Bool-cases (leb (ms 250) t)) [
      | inl q ↦ rw q (omega arith)
      | inr q ↦ rw q (omega arith)
    ]

acquire_lem_example :
    (0 ≡ 0 + 0)
    × (ms 213 ≤ max 0 (ms 150 + max_nap + ms 5 + 2 * ms 1) + ms 1)
    × ((false ≡ false) ⊎ (0 < ms 150))
unfolding acquire
acquire_lem_example =
    acquire_lem (world (ms 150)) (λ s. s.1) world-Counts (λ s. s.0) (ms 150) (ms 1) (ms 5)
      world-Clock 5 (0, 0) false {s' = (ms 213, 0)} runs.1
