-- ===== src/Walk/Fallback/Laws.antt =====
-- src/walk/fallback.rs: what is lost off Unix, and what is not.
use minifind.Base.{◌↔◌, true, false, List}
use minifind.Base.Text.{Text}
use minifind.Walk.{WalkCtx}
use minifind.Walk.Process.Actions.OneDevice.{with_one}
use minifind.Walk.System.{Seen, root_tasks}
use minifind.Walk.System.Once.{WalkedAll}
use minifind.Walk.System.OneDevice.{one_filesystem_same}
use minifind.Walk.Fallback.{Std, platform}

-- Off Unix every directory counts as on device 0, and `--one-filesystem` has no effect: the walk of the
-- roots with it visits just what the walk without it does.
pub one_filesystem_is_void :
    (S : Std) (ctx : WalkCtx Text) (roots : List Text) (es : List (Seen Text))
    → WalkedAll
        (platform S)
        (with_one ctx true)
        (root_tasks (platform S) (with_one ctx true) roots)
        es
      ↔ WalkedAll
          (platform S)
          (with_one ctx false)
          (root_tasks (platform S) (with_one ctx false) roots)
          es
one_filesystem_is_void S ctx roots es =
    one_filesystem_same (platform S) ctx 0 (λ dir d i e. cc e) (λ path d i e. cc e) roots es
