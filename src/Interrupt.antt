-- ===== src/Interrupt.antt =====
-- src/interrupt.rs: the signals that set the shutdown flag.
use minifind.Base.{ℕ, Bool, true, false, List, [], ◌∷◌, Result, ok, err, ◌>>=◌, no_signal_handler}

-- `STOP_SIGNALS` on Unix, by their numbers on Linux: SIGINT, SIGTERM, SIGQUIT, SIGHUP, SIGUSR1, SIGUSR2.
abbrev pub stop_signals : List ℕ
stop_signals = 2 ∷ 15 ∷ 3 ∷ 1 ∷ 10 ∷ 12 ∷ []

-- Whether `signal_hook::flag::register` succeeds for a signal is a parameter.
abbrev pub or_unregistered : ℕ → Bool → Result (Unit {0})
or_unregistered signal true = ok tt
or_unregistered signal false = err (no_signal_handler signal)

-- The loop over the signals.
unfoldable pub register_all : (ℕ → Bool) → List ℕ → Result (Unit {0})
register_all register [] = ok tt
register_all register (signal ∷ signals) =
    let rest = register_all register signals in
    or_unregistered signal (register signal) >>= λ done. rest

unfoldable pub setup_interrupt_handler : (ℕ → Bool) → Result (Unit {0})
unfolding register_all
setup_interrupt_handler register = register_all register stop_signals
