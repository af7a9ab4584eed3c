-- ===== src/Walk/System/Finite.antt =====
-- src/walk.rs: the walk is finite, by `--max-depth` or by the check for cycles of symbolic links.
use minifind.Base.{
  ℕ, zero, suc, ◌+◌, ◌-◌, ◌≤◌, ◌<◌, ◌≡◌, refl, ap, ◌⊎◌, inl, inr, All, is_some, true, false, ◌||◌,
  Bool-cases, Option, none, some, List, [], ◌∷◌, ◌++◌, arith, ◌==◌, if◌then◌else◌, and-eq-true,
  ==→≡,
}
use minifind.Base.Text.{Text}
use minifind.Walk.{FileId, Platform, Task, WalkCtx}
use minifind.Walk.Process.{below_max, same_id, contains, in_cycle, with_own}
use minifind.Walk.Process.Actions.{Action, emit, spawn, actions}
use minifind.Walk.Process.Actions.Spawned.{Spawned, Children, actions-Spawned}
use minifind.Walk.System.{Seen, root_tasks, root_task, first_dev}
use minifind.Walk.System.Once.{Walked, done, visited, entered, WalkedAll, none_left, one_more}

module _ {Fd : Type 0} (P : Platform Fd) (ctx : WalkCtx Fd) where
  -- A measure of tasks that falls from each task to those that it spawns, as long as `Good` holds.
  module _ (Good : Task Fd → Type 0) (measure : Task Fd → ℕ)
      (falls : (t : Task Fd)
        → Good t
        → Children P ctx t (λ c. Good c × (measure c < measure t))) where
    walked :
        (n : ℕ) (acts : List (Action Fd))
        → Spawned (λ t. Good t × (measure t < n)) acts
        → (es : List (Seen Fd)) × Walked P ctx acts es
    walked n [] h = ([], done)
    walked n (emit e a ∷ rest) h = let (es, w) = walked n rest h in ((e, a) ∷ es, visited w)
    walked zero (spawn t ∷ rest) ((g, l), h) = absurd (omega arith)
    walked (suc n) (spawn t ∷ rest) ((g, l), h) =
        let (fs, w) = walked n (actions P ctx t) (
          actions-Spawned P ctx t (λ c. Good c × (measure c < n))
            (λ dir id e d c q.
              let (g', l') = falls t g dir id e d c q in (g', omega (arith, l, l')))) in
        let (es, v) = walked (suc n) rest h in (fs ++ es, entered w v refl)

    walked_all : (ts : List (Task Fd)) → All Good ts → (es : List (Seen Fd)) × WalkedAll P ctx ts es
    walked_all [] h = ([], none_left)
    walked_all (t ∷ ts) (g, h) =
        let (fs, w) =
          walked (measure t) (actions P ctx t) (actions-Spawned P ctx t _ (falls t g)) in
        let (es, v) = walked_all ts h in (fs ++ es, one_more w v refl)

  below-lt : (m d : ℕ) → below_max (some m) d ≡ true → d < m
  below-lt m d h = ground arith

  -- With `--max-depth`, the levels that are left fall.
  module _ (m : ℕ) (given : ctx.args.max_depth ≡ some m) where
    depth-falls :
        (t : Task Fd) → Unit {0} → Children P ctx t (λ c. Unit {0} × (m - c.depth < m - t.depth))
    depth-falls t g dir id e d c q =
        let below : below_max (some m) (t.depth + 1) ≡ true =
          (and-eq-true (below_max (some m) (t.depth + 1)) _ (rw given at q)).0 in
        (tt, omega (arith, below-lt m (t.depth + 1) below))

-- The ids of a list that are not among the ancestors.
missing : List FileId → List FileId → ℕ
missing anc [] = 0
missing anc (u ∷ us) = (if contains u anc then 0 else 1) + missing anc us

contains-append :
    (u : FileId) (anc : List FileId) (id : FileId)
    → contains u (anc ++ (id ∷ [])) ≡ (contains u anc || same_id id u)
unfolding contains
contains-append u [] id = ground arith
contains-append u (a ∷ anc) id = ground (arith, contains-append u anc id)

missing-le : (anc us : List FileId) (id : FileId) → missing (anc ++ (id ∷ [])) us ≤ missing anc us
unfolding missing
missing-le anc [] id = omega arith
missing-le anc (u ∷ us) id = ground (arith, missing-le anc us id, contains-append u anc id)

same_id-eq : (a b : FileId) → same_id a b ≡ true → a ≡ b
same_id-eq (d, i) (d', i') h =
    let (p, q) = and-eq-true (d == d') _ h in cc (==→≡ d d' p, ==→≡ i i' q)

same_id_self : (a : FileId) → same_id a a ≡ true
same_id_self (d, i) = ground arith

-- An id of the list that becomes an ancestor is missing no more.
missing-lt :
    (anc us : List FileId) (id : FileId)
    → contains id us ≡ true
    → contains id anc ≡ false
    → missing (anc ++ (id ∷ [])) us < missing anc us
unfolding missing contains
missing-lt anc [] id h n = cc
missing-lt anc (u ∷ us) id h n = elim (Bool-cases (same_id u id)) [
  | inl e ↦
      let q : u ≡ id = same_id-eq u id e in
      let gone : contains u anc ≡ false = rw q n in
      ground (
        arith,
        missing-le anc us id,
        contains-append u anc id,
        ap (λ (x : FileId). same_id x u) q,
        same_id_self u,
      )
  | inr e ↦ ground (arith, missing-lt anc us id, contains-append u anc id)
]

abbrev ancestors_of : Option (List FileId) → List FileId
ancestors_of none = []
ancestors_of (some anc) = anc

module _ {Fd : Type 0} (P : Platform Fd) (ctx : WalkCtx Fd) (ids : List FileId)
    (listed : (dir : Fd) (id : FileId) → P.dir_id dir ≡ some id → contains id ids ≡ true) where
  -- A task that carries its ancestors.
  HasAncestors : Task Fd → Type 0
  HasAncestors t = is_some t.ancestors ≡ true

  ancestors-falls :
      (o : Option (List FileId)) (id : FileId)
      → is_some o ≡ true
      → in_cycle o id ≡ false
      → contains id ids ≡ true
      → (is_some (with_own o id) ≡ true)
        × (missing (ancestors_of (with_own o id)) ids < missing (ancestors_of o) ids)
  ancestors-falls none id h c k = cc
  ancestors-falls (some anc) id h c k = (refl, missing-lt anc ids id k c)

  root-HasAncestors :
      (path : Text) (o : Option ℕ) (rest : List (Task Fd))
      → ctx.args.follow_symlinks ≡ true
      → All HasAncestors rest
      → All HasAncestors (root_task P ctx path o rest)
  unfolding root_task HasAncestors
  root-HasAncestors path none rest f h = h
  root-HasAncestors path (some dev) rest f h = (rw f refl, h)

  roots-HasAncestors :
      (roots : List Text)
      → ctx.args.follow_symlinks ≡ true
      → All HasAncestors (root_tasks P ctx roots)
  unfolding root_tasks
  roots-HasAncestors [] f = tt
  roots-HasAncestors (path ∷ paths) f =
      root-HasAncestors path (first_dev (P.path_id path)) _ f (roots-HasAncestors paths f)

  walked_by_ids :
      (roots : List Text)
      → ctx.args.follow_symlinks ≡ true
      → (es : List (Seen Fd)) × WalkedAll P ctx (root_tasks P ctx roots) es
  unfolding HasAncestors
  walked_by_ids roots f =
      walked_all P ctx HasAncestors (λ t. missing (ancestors_of t.ancestors) ids)
        (λ t g dir id e d c q. ancestors-falls t.ancestors id g c (listed dir id d))
        (root_tasks P ctx roots) (roots-HasAncestors roots f)

all_tasks : {Fd : Type 0} (ts : List (Task Fd)) → All (λ t. Unit {0}) ts
all_tasks [] = tt
all_tasks (t ∷ ts) = (tt, all_tasks ts)

walked_by_depth :
    {Fd : Type 0} (P : Platform Fd) (ctx : WalkCtx Fd) (m : ℕ)
    → ctx.args.max_depth ≡ some m
    → (roots : List Text) → (es : List (Seen Fd)) × WalkedAll P ctx (root_tasks P ctx roots) es
walked_by_depth P ctx m given roots =
    walked_all P ctx (λ t. Unit {0}) (λ t. m - t.depth) (depth-falls P ctx m given)
      (root_tasks P ctx roots) (all_tasks (root_tasks P ctx roots))

-- The sequential walk of the roots is finite if `--max-depth` is given, whatever the file system
-- (its directories may go round in circles), or if symbolic links are followed and the directories
-- that can be opened have but the ids of some list: then the check of a directory's id against
-- those of its ancestors ends every cycle.
pub walk_is_finite :
    {Fd : Type 0} (P : Platform Fd) (ctx : WalkCtx Fd) (ids : List FileId)
    → ((m : ℕ) × (ctx.args.max_depth ≡ some m))
      ⊎ ((ctx.args.follow_symlinks ≡ true)
          × ((dir : Fd) (id : FileId) → P.dir_id dir ≡ some id → contains id ids ≡ true))
    → (roots : List Text) → (es : List (Seen Fd)) × WalkedAll P ctx (root_tasks P ctx roots) es
walk_is_finite P ctx ids (inl (m, given)) roots = walked_by_depth P ctx m given roots
walk_is_finite P ctx ids (inr (f, listed)) roots = walked_by_ids P ctx ids listed roots f
