-- ===== src/Pipeline/Visitor/Laws.antt =====
-- src/lib.rs: the visitor hands over exactly the entries that satisfy every filter.
use minifind.Base.{
  ℕ, ◌≡◌, refl, ap, Bool, true, false, not, ◌&&◌, ◌||◌, Option, none, some, List, ◌==◌, ltb, leb,
  if◌then◌else◌, arith, Bool-cases, inl, inr,
}
use mathlib.Core.Path.{subst}
use minifind.Base.Text.{Text}
use minifind.FileType
use minifind.FileType.{EntryType, Probe}
use minifind.Meta.Fields.{Meta}
use minifind.Meta.Predicates
use minifind.Meta.Nss.{NssCache, user_exists}
use minifind.Meta.Nss.Cache.{IsCache, user_exists_lem, group_exists_lem}
use minifind.Walk.{
  Platform, WalkState, go_on, quit, Entry, StatAt, fetch, access, readlink, file_name,
}
use minifind.Walk.Process.{is_symlink}
use minifind.Pipeline.Batch.{push}
use minifind.Pipeline.Visitor.{
  Filters, Visit, rejects, lname_rejects, check_group, check_user, check_fetched, check_meta,
  hand_over, after_meta, visit,
}

-- What the filters ask of an entry, in no particular order and without a cache.
module _ (f : Filters) (has_user has_group : ℕ → Bool) where
  abbrev pub meta_passes : Option Meta → Bool
  meta_passes none = false
  meta_passes (some m) =
      Predicates.matches f.predicates m f.now
      && (not (f.predicates.nouser && has_user m.uid)
          && not (f.predicates.nogroup && has_group m.gid))

  check_group_lem :
      (gid : ℕ) (c : NssCache)
      → IsCache has_user has_group c
      → ((check_group f has_user has_group gid c).0 ≡ not (f.predicates.nogroup && has_group gid))
        × IsCache has_user has_group (check_group f has_user has_group gid c).1
  unfolding check_group
  check_group_lem gid c h =
      let (b, h') = group_exists_lem has_user has_group gid c h in
      elim (Bool-cases f.predicates.nogroup) [
        | inl e ↦ rw e (ap not b, h')
        | inr e ↦ rw e (refl, h)
      ]

  check_user_lem :
      (uid gid : ℕ) (c : NssCache)
      → IsCache has_user has_group c
      → ((check_user f has_user has_group uid gid c).0 ≡ (
          not (f.predicates.nouser && has_user uid) && not (f.predicates.nogroup && has_group gid)))
        × IsCache has_user has_group (check_user f has_user has_group uid gid c).1
  unfolding check_user
  check_user_lem uid gid c h =
      let (b, h') = user_exists_lem has_user has_group uid c h in
      elim (Bool-cases f.predicates.nouser) [
        | inl e ↦ elim (Bool-cases (has_user uid)) [
          | inl known ↦ rw (e, b, known) (refl, h')
          | inr new ↦ rw (e, b, new) (check_group_lem gid (user_exists has_user uid c).1 h')
        ]
        | inr e ↦ rw e (check_group_lem gid c h)
      ]

  check_fetched_lem :
      (o : Option Meta) (c : NssCache)
      → IsCache has_user has_group c
      → ((check_fetched f has_user has_group o c).0 ≡ meta_passes o)
        × IsCache has_user has_group (check_fetched f has_user has_group o c).1
  unfolding check_fetched
  check_fetched_lem none c h = (refl, h)
  check_fetched_lem (some m) c h = elim (Bool-cases (Predicates.matches f.predicates m f.now)) [
    | inl e ↦ rw e (check_user_lem m.uid m.gid c h)
    | inr e ↦ rw e (refl, h)
  ]

-- A pattern set that is given must match.
abbrev pub accepted : Option (Text → Bool) → Text → Bool
accepted none text = true
accepted (some is_match) text = is_match text

-- `-lname`, if given, wants a symbolic link with a readable target that matches.
abbrev pub link_accepted : Option (Text → Bool) → EntryType → Option Text → Bool
link_accepted none ty target = true
link_accepted (some is_match) ty none = false
link_accepted (some is_match) ty (some target) = is_symlink ty && is_match target

rejects-accepted : (o : Option (Text → Bool)) (t : Text) → rejects o t ≡ not (accepted o t)
rejects-accepted none t = refl
rejects-accepted (some is_match) t = refl

lname_rejects-accepted :
    (o : Option (Text → Bool)) (ty : EntryType) (t : Option Text)
    → lname_rejects o ty t ≡ not (link_accepted o ty t)
lname_rejects-accepted none ty t = refl
lname_rejects-accepted (some is_match) ty none = ground arith
lname_rejects-accepted (some is_match) ty (some target) = ground arith

ltb-leb : (a b : ℕ) → ltb a b ≡ not (leb b a)
ltb-leb a b = ground arith

module _ {Fd C : Type 0} (P : Platform Fd) (fs : Probe) (f : Filters)
    (has_user has_group : ℕ → Bool) (send : List Entry → C → Option C) where
  stat_passes : StatAt Fd → Bool
  stat_passes at =
      (not (Predicates.is_active f.predicates)
        || meta_passes f has_user has_group (fetch P at (Predicates.mask f.predicates)))
      && ((f.access == 0) || access P at f.access)

  -- Whether an entry satisfies every filter.
  unfoldable pub passes : Entry → StatAt Fd → Bool
  unfolding stat_passes
  passes e at =
      leb f.min_depth e.depth
      && (not (FileType.ignore_filetype fs f.file_type e.file_type e.path)
          && (accepted f.glob_name (file_name P e.path)
              && (accepted f.regex_name e.path
                  && (accepted f.glob_path e.path
                      && (link_accepted f.glob_lname e.file_type (readlink P at)
                          && stat_passes at)))))

  -- The entry is pushed if it passes, and the walk goes on unless a push finds the channel closed;
  -- the cache stays right.
  abbrev pub HandsOver : Bool → Entry → Visit C → WalkState × Visit C → Type 0
  HandsOver pass e v r =
      (r.0 ≡ (if pass then (if (push send e v.batch).0 then go_on else quit) else go_on))
      × (r.1.batch ≡ (if pass then (push send e v.batch).1 else v.batch))
      × IsCache has_user has_group r.1.nss

  check_meta_lem :
      (at : StatAt Fd) (c : NssCache)
      → IsCache has_user has_group c
      → ((check_meta P fs f has_user has_group send at c).0 ≡ (
          not (Predicates.is_active f.predicates)
          || meta_passes f has_user has_group (fetch P at (Predicates.mask f.predicates))))
        × IsCache has_user has_group (check_meta P fs f has_user has_group send at c).1
  unfolding check_meta
  check_meta_lem at c h = elim (Bool-cases (Predicates.is_active f.predicates)) [
    | inl e ↦
        rw e
          (check_fetched_lem f has_user has_group (fetch P at (Predicates.mask f.predicates)) c h)
    | inr e ↦ rw e (refl, h)
  ]

  after_meta_lem :
      (e : Entry) (at : StatAt Fd) (v : Visit C) (kept : Bool) (c : NssCache)
      → IsCache has_user has_group c
      → HandsOver
          (kept && ((f.access == 0) || access P at f.access))
          e
          v
          (after_meta P fs f has_user has_group send e at v (kept, c))
  unfolding after_meta hand_over
  after_meta_lem e at v false c h = (refl, refl, h)
  after_meta_lem e at v true c h = elim (Bool-cases (f.access == 0)) [
    | inl free ↦ rw free (refl, refl, h)
    | inr asked ↦ elim (Bool-cases (access P at f.access)) [
      | inl can ↦ rw (asked, can) (refl, refl, h)
      | inr bars ↦ rw (asked, bars) (refl, refl, h)
    ]
  ]

  -- Unless the shutdown flag is set, and from a cache of true answers, the visitor pushes an entry to
  -- its batch exactly if the entry satisfies every filter, quits exactly if that push finds the
  -- channel closed, and keeps the cache one of true answers.
  pub visit-passes :
      (e : Entry) (at : StatAt Fd) (v : Visit C)
      → IsCache has_user has_group v.nss
      → HandsOver (passes e at) e v (visit P fs f has_user has_group send false e at v)
  unfolding visit passes stat_passes
  visit-passes e at v h =
      let stop : HandsOver false e v (go_on, v) = (refl, refl, h) in
      let (k, hc) = check_meta_lem at v.nss h in
      let checked = check_meta P fs f has_user has_group send at v.nss in
      let last =
        subst
          (λ (b : Bool).
            HandsOver (b && ((f.access == 0) || access P at f.access)) e v
              (after_meta P fs f has_user has_group send e at v checked))
          k (after_meta_lem e at v checked.0 checked.1 hc) in
      rw
        (
          ltb-leb e.depth f.min_depth,
          rejects-accepted f.glob_name (file_name P e.path),
          rejects-accepted f.regex_name e.path,
          rejects-accepted f.glob_path e.path,
          lname_rejects-accepted f.glob_lname e.file_type (readlink P at),
        )
        (elim (Bool-cases (leb f.min_depth e.depth)) [
          | inr a ↦ rw a stop
          | inl a ↦ elim (Bool-cases (FileType.ignore_filetype fs f.file_type e.file_type e.path)) [
            | inl b ↦ rw (a, b) stop
            | inr b ↦ elim (Bool-cases (accepted f.glob_name (file_name P e.path))) [
              | inr c ↦ rw (a, b, c) stop
              | inl c ↦ elim (Bool-cases (accepted f.regex_name e.path)) [
                | inr d ↦ rw (a, b, c, d) stop
                | inl d ↦ elim (Bool-cases (accepted f.glob_path e.path)) [
                  | inr g ↦ rw (a, b, c, d, g) stop
                  | inl g ↦
                      elim (Bool-cases (link_accepted f.glob_lname e.file_type (readlink P at))) [
                        | inr l ↦ rw (a, b, c, d, g, l) stop
                        | inl l ↦ rw (a, b, c, d, g, l) last
                      ]
                ]
              ]
            ]
          ]
        ])
