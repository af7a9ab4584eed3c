-- ===== src/Walk/System/OneDevice.antt =====
-- src/walk.rs: on one device, the whole walk is the same with `--one-filesystem` and without.
use minifind.Base.{◌↔◌, sym, ℕ, ◌≡◌, refl, true, false, Option, none, some, List, [], ◌∷◌, All}
use mathlib.Core.Path.{subst}
use minifind.Base.Text.{Text}
use minifind.Walk.{FileId, Platform, Task, WalkCtx}
use minifind.Walk.Process.Actions.{Action, actions}
use minifind.Walk.Process.Actions.Spawned.{Spawned, actions-Spawned}
use minifind.Walk.Process.Actions.OneDevice.{with_one, DirsOn, actions-same}
use minifind.Walk.System.{Seen, root_tasks, root_task, first_dev}
use minifind.Walk.System.Once.{Walked, done, visited, entered, WalkedAll, none_left, one_more}

-- Every root that has an id is on the device.
abbrev pub PathsOn : {Fd : Type 0} → Platform Fd → ℕ → Type 0
PathsOn P dev = (path : Text) (d i : ℕ) → P.path_id path ≡ some (d, i) → d ≡ dev

abbrev OnDevice : {Fd : Type 0} → ℕ → Task Fd → Type 0
OnDevice dev t = t.root_dev ≡ dev

-- Two settings with which tasks of the device do the same.
module _ {Fd : Type 0} (P : Platform Fd) (dev : ℕ) (ctx ctx' : WalkCtx Fd)
    (same : (t : Task Fd) → OnDevice dev t → actions P ctx t ≡ actions P ctx' t) where
  below : (t : Task Fd) → OnDevice dev t → Spawned (OnDevice dev) (actions P ctx t)
  below t h = actions-Spawned P ctx t (OnDevice dev) (λ dir id e d c q. h)

  walked_same :
      {acts : List (Action Fd)} {es : List (Seen Fd)}
      → Spawned (OnDevice dev) acts
      → Walked P ctx acts es
      → Walked P ctx' acts es
  walked_same h done = done
  walked_same h (visited w) = visited (walked_same h w)
  walked_same h (entered {t = t} {fs = fs} a b q) =
      entered
        (subst (λ (l : List (Action Fd)). Walked P ctx' l fs) (same t h.0)
          (walked_same (below t h.0) a))
        (walked_same h.1 b) q

  all_walked_same :
      {ts : List (Task Fd)} {es : List (Seen Fd)}
      → All (OnDevice dev) ts
      → WalkedAll P ctx ts es
      → WalkedAll P ctx' ts es
  all_walked_same h none_left = none_left
  all_walked_same h (one_more {t = t} {fs = fs} a b q) =
      one_more
        (subst (λ (l : List (Action Fd)). Walked P ctx' l fs) (same t h.0)
          (walked_same (below t h.0) a))
        (all_walked_same h.1 b) q

module _ {Fd : Type 0} (P : Platform Fd) (ctx : WalkCtx Fd) (dev : ℕ) (dirs : DirsOn P dev)
    (paths : PathsOn P dev) where
  root-OnDevice :
      (path : Text) (o : Option FileId) (rest : List (Task Fd))
      → P.path_id path ≡ o
      → All (OnDevice dev) rest
      → All (OnDevice dev) (root_task P (with_one ctx true) path (first_dev o) rest)
  unfolding root_task
  root-OnDevice path none rest e h = h
  root-OnDevice path (some (d, i)) rest e h = (paths path d i e, h)

  roots-OnDevice : (roots : List Text) → All (OnDevice dev) (root_tasks P (with_one ctx true) roots)
  unfolding root_tasks
  roots-OnDevice [] = tt
  roots-OnDevice (path ∷ roots) = root-OnDevice path (P.path_id path) _ refl (roots-OnDevice roots)

  roots_same :
      (roots : List Text)
      → root_tasks P (with_one ctx true) roots ≡ root_tasks P (with_one ctx false) roots
  unfolding root_tasks root_task
  roots_same [] = refl
  roots_same (path ∷ roots) = rw (roots_same roots) refl

  -- The walk of the roots visits the same with `--one-filesystem` and without.
  pub one_filesystem_same :
      (roots : List Text) (es : List (Seen Fd))
      → WalkedAll P (with_one ctx true) (root_tasks P (with_one ctx true) roots) es
        ↔ WalkedAll P (with_one ctx false) (root_tasks P (with_one ctx false) roots) es
  one_filesystem_same roots es =
      let tasks = root_tasks P (with_one ctx true) roots in
      let same = actions-same P ctx dev dirs in
      (
        λ w.
            subst (λ (l : List (Task Fd)). WalkedAll P (with_one ctx false) l es) (roots_same roots)
              (all_walked_same P dev (with_one ctx true) (with_one ctx false) same
                (roots-OnDevice roots) w),
        λ w.
            all_walked_same P dev (with_one ctx false) (with_one ctx true) (λ t h. sym (same t h))
              (roots-OnDevice roots)
              (subst (λ (l : List (Task Fd)). WalkedAll P (with_one ctx false) l es)
                (sym (roots_same roots)) w),
      )
