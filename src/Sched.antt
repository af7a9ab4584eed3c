-- ===== src/Sched.antt =====
-- src/sched.rs, and `raise_nofile_limit` of src/lib.rs: the system calls that set priorities and limits,
-- which are records of parameters.
use minifind.Base.{ℕ, ◌*◌, ◌^◌, ◌==◌, Bool, true, false, not, Option, none, some, if◌then◌else◌}
use minifind.Base.Int.{ℤ, pos, negsuc}

-- What the calls return, by their arguments.
pub record Scheduler : Type 0 where
  pub sched_setscheduler : ℕ → ℕ → ℕ → ℤ
  pub ioprio_set : ℕ → ℕ → ℕ → ℤ
  pub setpriority : ℕ → ℕ → ℕ → ℤ

-- `rc == -1` is an error.
abbrev pub succeeds : ℤ → Bool
succeeds (negsuc n) = not (n == 0)
succeeds (pos n) = true

-- `SCHED_IDLE` and `PRIO_PROCESS` of libc on Linux.
abbrev pub sched_idle : ℕ
sched_idle = 5

abbrev pub prio_process : ℕ
prio_process = 0

unfoldable pub set_idle_cpu : Scheduler → Bool
set_idle_cpu K = succeeds (K.sched_setscheduler 0 sched_idle 0)

-- `IOPRIO_WHO_PROCESS`, and `IOPRIO_CLASS_IDLE << IOPRIO_CLASS_SHIFT`.
unfoldable pub set_idle_io : Scheduler → Bool
set_idle_io K = succeeds (K.ioprio_set 1 0 (3 * 2 ^ 13))

unfoldable pub lower_nice : Scheduler → Bool
lower_nice K = succeeds (K.setpriority prio_process 0 19)

-- The soft and the hard limit; `none` is unlimited.
pub record Rlimit : Type 0 where
  pub current : Option ℕ
  pub maximum : Option ℕ

abbrev pub same_limit : Option ℕ → Option ℕ → Bool
same_limit none none = true
same_limit (some a) (some b) = a == b
same_limit _ _ = false

module _ {S : Type 0} (getrlimit : S → Rlimit) (setrlimit : Rlimit → S → S) where
  -- A failure of `setrlimit` is ignored: it leaves the state as it is.
  unfoldable pub raise_nofile_limit : S → Option ℕ × S
  raise_nofile_limit s =
      let lim = getrlimit s in
      let s' =
        if not (same_limit lim.current lim.maximum)
        then setrlimit (record lim { current = lim.maximum }) s
        else s in
      ((getrlimit s').current, s')
