-- ===== src/Limiter/Laws.antt =====
-- src/ratelimit.rs, `acquire`: it ends, and spends a token exactly if it says so.
use minifind.Base.{
  ℕ, zero, suc, ◌+◌, ◌-◌, ◌*◌, ◌≤◌, ◌<◌, ◌≡◌, refl, Bool, Bool-cases, inl, inr, true, false, Option,
  some, min, max, arith, if◌then◌else◌, ◌⊎◌,
}
use minifind.Limiter.{World, max_nap, Acquired, token, wait, try_acquire, acquire}

module _ {S Nu : Type 0} (W : World S Nu) where
  -- The answer of a turn, and the state after it.
  abbrev pub answer_of : S → Acquired × S
  answer_of s = try_acquire W (W.load s).1

  -- `due` is the time until the bucket has a token for the caller. The flag, the clock and a refusal do
  -- not put it off, a refusal names a wait that reaches it, and a sleep brings it nearer.
  pub record IsDue (due : S → ℕ) : Type 0 where
    pub load : (s : S) → due (W.load s).1 ≤ due s
    pub refused :
        (s s' : S) (time : ℕ)
        → try_acquire W s ≡ (wait time, s')
        → (0 < due s) × (due s' ≤ due s) × (due s' ≤ time)
    pub sleep : (d : ℕ) (s : S) → due (W.sleep d s) ≤ due s - d

  Answer-cases :
      (r : Acquired × S)
      → ((s : S) × (r ≡ (token, s))) ⊎ ((time : ℕ) × (s : S) × (r ≡ (wait time, s)))
  Answer-cases (token, s) = inl (s, refl)
  Answer-cases (wait time, s) = inr (time, s, refl)

  acquired :
      (fuel : ℕ) (s : S)
      → ((time : ℕ) (s' : S)
          → answer_of s ≡ (wait time, s')
          → (r : Bool × S) × (acquire W fuel (W.sleep (min time max_nap) s') ≡ some r))
      → (r : Bool × S) × (acquire W (suc fuel) s ≡ some r)
  unfolding acquire
  acquired fuel s h = elim (Bool-cases (W.load s).0) [
    | inl q ↦ ((false, (W.load s).1), rw q refl)
    | inr nq ↦ elim (Answer-cases (answer_of s)) [
      | inl (s', e) ↦ ((true, s'), rw (nq, e) refl)
      | inr (time, s', e) ↦ let (r, p) = h time s' e in (r, rw (nq, e) p)
    ]
  ]

  -- If the bucket has a token for the caller after `due` nanoseconds, then `acquire` returns, whatever
  -- the flag: it makes at most one turn for each 100 ms of them that have begun, and one more.
  pub acquire_ends :
      (due : S → ℕ)
      → IsDue due
      → (fuel : ℕ) (s : S) → due s ≤ max_nap * fuel
      → (r : Bool × S) × (acquire W (suc fuel) s ≡ some r)
  acquire_ends due h zero s l =
      acquired zero s
        (λ time s' e. absurd (omega (arith, h.load s, (h.refused (W.load s).1 s' time e).0)))
  acquire_ends due h (suc fuel) s l = acquired (suc fuel) s (λ time s' e.
      let (a, b, c) = h.refused (W.load s).1 s' time e in
      acquire_ends due h fuel (W.sleep (min time max_nap) s')
        (omega (arith, a, b, c, h.load s, h.sleep (min time max_nap) s')))

  -- `spent` counts the tokens that the bucket has given: `check` gives one if it grants, and nothing
  -- else does.
  pub record Counts (spent : S → ℕ) : Type 0 where
    pub load : (s : S) → spent (W.load s).1 ≡ spent s
    pub granted : (s s' : S) → try_acquire W s ≡ (token, s') → spent s' ≡ spent s + 1
    pub refused : (s s' : S) (time : ℕ) → try_acquire W s ≡ (wait time, s') → spent s' ≡ spent s
    pub sleep : (d : ℕ) (s : S) → spent (W.sleep d s) ≡ spent s

  acquire-spends :
      (spent : S → ℕ)
      → Counts spent
      → (fuel : ℕ) (s : S) (b : Bool) {s' : S} → acquire W fuel s ≡ some (b, s')
      → spent s' ≡ spent s + (if b then 1 else 0)
  unfolding acquire
  acquire-spends spent h zero s b e = cc
  acquire-spends spent h (suc fuel) s b {s'} e = elim (Bool-cases (W.load s).0) [
    | inl q ↦
        let p : ◌≡◌ {A = Option (Bool × S)} (some (false, (W.load s).1)) (some (b, s')) =
          rw q at e in
        grind (arith, p, h.load s)
    | inr nq ↦ elim (Answer-cases (answer_of s)) [
      | inl (t, a) ↦
          let p : ◌≡◌ {A = Option (Bool × S)} (some (true, t)) (some (b, s')) = rw (nq, a) at e in
          grind (arith, p, h.load s, h.granted (W.load s).1 t a)
      | inr (time, t, a) ↦
          let x = acquire-spends spent h fuel (W.sleep (min time max_nap) t) b (rw (nq, a) at e) in
          omega (arith, x, h.load s, h.refused (W.load s).1 t time a, h.sleep (min time max_nap) t)
    ]
  ]

  -- A clock, and a flag that reads as set from the time `set` on. A call on the flag or the bucket takes
  -- at most `calls`; a sleep, which may last longer than it is asked to, does so by at most `over`.
  pub record Clock (time : S → ℕ) (set calls over : ℕ) : Type 0 where
    pub load : (s : S) → time (W.load s).1 ≤ time s + calls
    pub is_set : (s : S) → set ≤ time s → (W.load s).0 ≡ true
    pub try : (s : S) → time (try_acquire W s).1 ≤ time s + calls
    pub sleep : (d : ℕ) (s : S) → time (W.sleep d s) ≤ time s + d + over

  -- When the last turn begins at the latest, if the flag was not set before the first.
  abbrev pub last_turn : ℕ → ℕ → ℕ → ℕ
  last_turn set calls over = set + max_nap + over + 2 * calls

  acquire-notices :
      (time : S → ℕ) (set calls over : ℕ)
      → Clock time set calls over
      → (fuel : ℕ) (s : S) (b : Bool) {s' : S} → acquire W fuel s ≡ some (b, s')
      → (time s' ≤ max (time s) (last_turn set calls over) + calls) × ((b ≡ false) ⊎ (time s < set))
  unfolding acquire
  acquire-notices time set calls over h zero s b e = cc
  acquire-notices time set calls over h (suc fuel) s b {s'} e = elim (Bool-cases (W.load s).0) [
    | inl q ↦
        let p : ◌≡◌ {A = Option (Bool × S)} (some (false, (W.load s).1)) (some (b, s')) =
          rw q at e in
        (grind (arith, p, h.load s), inl (cc p))
    | inr nq ↦
        let early : time s < set = grind (arith, h.is_set s, nq) in
        elim (Answer-cases (answer_of s)) [
          | inl (t, a) ↦
              let p : ◌≡◌ {A = Option (Bool × S)} (some (true, t)) (some (b, s')) =
                rw (nq, a) at e in
              let tried : time t ≤ time s + 2 * calls =
                grind (arith, a, h.try (W.load s).1, h.load s) in
              (grind (arith, p, tried), inr early)
          | inr (d, t, a) ↦
              let tried : time t ≤ time s + 2 * calls =
                grind (arith, a, h.try (W.load s).1, h.load s) in
              let x =
                acquire-notices time set calls over h fuel (W.sleep (min d max_nap) t) b
                  (rw (nq, a) at e) in
              (omega (arith, x.0, tried, h.sleep (min d max_nap) t), inr early)
        ]
  ]

  -- When `acquire` returns, it has spent one token if it says `true` and none if it says `false`,
  -- however often it had to wait. Let a call on the flag or the bucket take at most `calls`, and a
  -- sleep last at most `over` longer than it was asked to. Then `acquire` returns at most 100 ms, one
  -- `over` and three `calls` after the flag is set, or within one `calls` if it is called later than
  -- that, and it says `false` if it is called with the flag set.
  pub acquire_lem :
      (spent : S → ℕ)
      → Counts spent
      → (time : S → ℕ) (set calls over : ℕ) → Clock time set calls over
      → (fuel : ℕ) (s : S) (b : Bool) {s' : S} → acquire W fuel s ≡ some (b, s')
      → (spent s' ≡ spent s + (if b then 1 else 0))
        × (time s' ≤ max (time s) (set + max_nap + over + 2 * calls) + calls)
        × ((b ≡ false) ⊎ (time s < set))
  acquire_lem spent c time set calls over k fuel s b e =
      let (late, said) = acquire-notices time set calls over k fuel s b e in
      (acquire-spends spent c fuel s b e, late, said)
