-- ===== src/Meta/Nss/Cache.antt =====
-- src/meta.rs, `NssCache`: the memo answers as the lookup does, and each id is looked up once.
use minifind.Base.{
  ℕ, ◌≡◌, refl, ap, Bool, true, false, not, Option, none, some, is_some, List, [], ◌∷◌, all, ◌==◌,
  ==→≡, Bool-cases, Option-cases, inl, inr, arith, if◌then◌else◌,
}
use mathlib.Core.HLevel.{⊥_prop}
use mathlib.Core.List.{Mem, Nodup, Nodup-nil, Nodup-cons, not-mem-nil, eq-or-mem_of_mem-cons}
use mathlib.Core.List.{mem-cons_self, mem-cons_of_mem}
use mathlib.Core.Logic.Or
use mathlib.Core.Path.{ap₂}
use minifind.Meta.Nss.{or_insert, Memo, lookup, NssCache, user_exists, group_exists}

-- Every entry is the lookup's answer, and no id has two entries.
abbrev pub IsMemo : (ℕ → Bool) → Memo → Type 0
IsMemo has [] = Unit
IsMemo has ((k, b) ∷ m) = (b ≡ has k) × (lookup k m ≡ none) × IsMemo has m

pub record IsCache (has_user has_group : ℕ → Bool) (c : NssCache) : Type 0 where
  pub users : IsMemo has_user c.users
  pub groups : IsMemo has_group c.groups

lookup-IsMemo :
    (has : ℕ → Bool) (m : Memo) (id : ℕ) {b : Bool}
    → IsMemo has m
    → lookup id m ≡ some b
    → b ≡ has id
unfolding lookup
lookup-IsMemo has [] id h e = cc
lookup-IsMemo has ((k, v) ∷ m) id {b} h e = elim (Bool-cases (k == id)) [
  | inl same ↦ let w : some v ≡ some b = rw (same, lookup) at e in cc (w, h.0, ==→≡ k id same)
  | inr other ↦ lookup-IsMemo has m id h.2 (rw (other, lookup) at e)
]

-- A consultation of the memo gives the lookup's answer, and leaves a memo.
or_insert_lem :
    (has : ℕ → Bool) (m : Memo) (id : ℕ) (o : Option Bool)
    → lookup id m ≡ o
    → IsMemo has m
    → ((or_insert o id (has id) m).0 ≡ has id) × IsMemo has (or_insert o id (has id) m).1
or_insert_lem has m id none e h = (refl, (refl, e, h))
or_insert_lem has m id (some b) e h = (lookup-IsMemo has m id h e, h)

-- A call for either kind of id, in any order: what the visitor asks of its cache.
pub data Query : Type 0 where
  user : ℕ → Query
  group : ℕ → Query

-- Whether the map of the query's kind has an entry for its id. Where it has none, the closure of
-- `or_insert_with` runs: that is the lookup.
abbrev pub holds : Query → NssCache → Bool
holds (user id) c = is_some (lookup id c.users)
holds (group id) c = is_some (lookup id c.groups)

-- An id that has been asked for has an entry, and no entry is lost.
or_insert-holds :
    (m : Memo) (id : ℕ) (fresh : Bool) (o : Option Bool)
    → lookup id m ≡ o
    → is_some (lookup id (or_insert o id fresh m).1) ≡ true
unfolding lookup
or_insert-holds m id fresh none e = ground arith
or_insert-holds m id fresh (some b) e = ap is_some e

or_insert-keeps :
    (m : Memo) (id k : ℕ) (fresh : Bool) (o : Option Bool)
    → is_some (lookup k m) ≡ true
    → is_some (lookup k (or_insert o id fresh m).1) ≡ true
unfolding lookup
or_insert-keeps m id k fresh none h = ground arith
or_insert-keeps m id k fresh (some b) h = h

all_of_mem :
    {A : Type 0} (p : A → Bool) (xs : List A) → ((x : A) → Mem x xs → p x ≡ true) → all p xs ≡ true
all_of_mem p [] h = refl
all_of_mem p (x ∷ xs) h =
    rw (h x mem-cons_self) (all_of_mem p xs (λ y m. h y (mem-cons_of_mem x m)))

module _ (has_user has_group : ℕ → Bool) where
  abbrev pub answer : Query → Bool
  answer (user id) = has_user id
  answer (group id) = has_group id

  unfoldable pub ask : Query → NssCache → Bool × NssCache
  ask (user id) c = user_exists has_user id c
  ask (group id) c = group_exists has_group id c

  pub ask_all : List Query → NssCache → List Bool × NssCache
  ask_all [] c = ([], c)
  ask_all (q ∷ qs) c = let (b, c') = ask q c in let (bs, end) = ask_all qs c' in (b ∷ bs, end)

  abbrev pub answers : List Query → List Bool
  answers [] = []
  answers (q ∷ qs) = answer q ∷ answers qs

  ask_lem :
      (q : Query) (c : NssCache)
      → IsCache has_user has_group c
      → ((ask q c).0 ≡ answer q) × IsCache has_user has_group (ask q c).1
  unfolding ask user_exists group_exists
  ask_lem (user id) c h =
      let (b, m) = or_insert_lem has_user c.users id (lookup id c.users) refl h.users in
      (b, record { users = m; groups = h.groups })
  ask_lem (group id) c h =
      let (b, m) = or_insert_lem has_group c.groups id (lookup id c.groups) refl h.groups in
      (b, record { users = h.users; groups = m })

  pub user_exists_lem :
      (uid : ℕ) (c : NssCache)
      → IsCache has_user has_group c
      → ((user_exists has_user uid c).0 ≡ has_user uid)
        × IsCache has_user has_group (user_exists has_user uid c).1
  unfolding ask
  user_exists_lem uid c h = ask_lem (user uid) c h

  pub group_exists_lem :
      (gid : ℕ) (c : NssCache)
      → IsCache has_user has_group c
      → ((group_exists has_group gid c).0 ≡ has_group gid)
        × IsCache has_user has_group (group_exists has_group gid c).1
  unfolding ask
  group_exists_lem gid c h = ask_lem (group gid) c h

  ask_all_lem :
      (qs : List Query) (c : NssCache)
      → IsCache has_user has_group c
      → ((ask_all qs c).0 ≡ answers qs) × IsCache has_user has_group (ask_all qs c).1
  unfolding ask_all
  ask_all_lem [] c h = (refl, h)
  ask_all_lem (q ∷ qs) c h =
      let (b, h') = ask_lem q c h in
      let (bs, end) = ask_all_lem qs (ask q c).1 h' in (ap₂ ◌∷◌ b bs, end)

  -- The queries of a sequence that are looked up, in order.
  unfoldable pub looked_up : List Query → NssCache → List Query
  unfolding ask
  looked_up [] c = []
  looked_up (q ∷ qs) c = let rest = looked_up qs (ask q c).1 in if holds q c then rest else q ∷ rest

  ask-holds : (q : Query) (c : NssCache) → holds q (ask q c).1 ≡ true
  unfolding ask user_exists group_exists
  ask-holds (user id) c = or_insert-holds c.users id (has_user id) (lookup id c.users) refl
  ask-holds (group id) c = or_insert-holds c.groups id (has_group id) (lookup id c.groups) refl

  ask-keeps : (p q : Query) (c : NssCache) → holds p c ≡ true → holds p (ask q c).1 ≡ true
  unfolding ask user_exists group_exists
  ask-keeps (user k) (user id) c h =
      or_insert-keeps c.users id k (has_user id) (lookup id c.users) h
  ask-keeps (user k) (group id) c h = h
  ask-keeps (group k) (user id) c h = h
  ask-keeps (group k) (group id) c h =
      or_insert-keeps c.groups id k (has_group id) (lookup id c.groups) h

  -- What the cache holds is not looked up.
  not_looked_up :
      (p : Query) (qs : List Query) (c : NssCache) → holds p c ≡ true → ¬ Mem p (looked_up qs c)
  unfolding looked_up
  not_looked_up p [] c h m = not-mem-nil m
  not_looked_up p (q ∷ qs) c h m =
      let later = not_looked_up p qs (ask q c).1 (ask-keeps p q c h) in
      elim (Bool-cases (holds q c)) [
        | inl hit ↦ later (rw hit at m)
        | inr miss ↦
            let n : Mem p (q ∷ looked_up qs (ask q c).1) = rw miss at m in
            Or.elim ⊥_prop (eq-or-mem_of_mem-cons n) (λ e. cc (e, h, miss)) later
      ]

  looked_up-Nodup : (qs : List Query) (c : NssCache) → Nodup (looked_up qs c)
  unfolding looked_up
  looked_up-Nodup [] c = Nodup-nil
  looked_up-Nodup (q ∷ qs) c =
      let rest = looked_up-Nodup qs (ask q c).1 in
      elim (Bool-cases (holds q c)) [
        | inl hit ↦ rw hit rest
        | inr miss ↦ rw miss (Nodup-cons.1 (not_looked_up q qs (ask q c).1 (ask-holds q c), rest))
      ]

  looked_up-missing :
      (qs : List Query) (c : NssCache) → all (λ q. not (holds q c)) (looked_up qs c) ≡ true
  looked_up-missing qs c =
      all_of_mem (λ q. not (holds q c)) (looked_up qs c)
        (λ q m. elim (Bool-cases (holds q c)) [
          | inl hit ↦ absurd (not_looked_up q qs c hit m)
          | inr miss ↦ ap not miss
        ])

-- Two pairs of lookups: `has_user` with `has_group`, and `other_user` with `other_group`.
module _ (has_user has_group other_user other_group : ℕ → Bool) where
  -- A question that the cache holds is answered without a lookup; any other needs that of its own id.
  ask-same :
      (q : Query) (c : NssCache)
      → ((holds q c ≡ false) → answer other_user other_group q ≡ answer has_user has_group q)
      → ask other_user other_group q c ≡ ask has_user has_group q c
  unfolding ask user_exists group_exists
  ask-same (user id) c h = elim (Option-cases (lookup id c.users)) [
    | inl e ↦ rw (e, h (ap is_some e)) refl
    | inr (b, e) ↦ rw e refl
  ]
  ask-same (group id) c h = elim (Option-cases (lookup id c.groups)) [
    | inl e ↦ rw (e, h (ap is_some e)) refl
    | inr (b, e) ↦ rw e refl
  ]

  -- What is answered depends on the lookups of `looked_up` only.
  ask_all-same :
      (qs : List Query) (c : NssCache)
      → answers other_user other_group (looked_up has_user has_group qs c)
        ≡ answers has_user has_group (looked_up has_user has_group qs c)
      → ask_all other_user other_group qs c ≡ ask_all has_user has_group qs c
  unfolding ask_all looked_up
  ask_all-same [] c h = refl
  ask_all-same (q ∷ qs) c h = elim (Bool-cases (holds q c)) [
    | inl hit ↦
        let e = ask-same q c (λ miss. cc (hit, miss)) in
        let l = ask_all-same qs (ask has_user has_group q c).1 (rw hit at h) in rw (e, l) refl
    | inr miss ↦
        let k : answers other_user other_group
              (q ∷ looked_up has_user has_group qs (ask has_user has_group q c).1)
            ≡ answers has_user has_group
                (q ∷ looked_up has_user has_group qs (ask has_user has_group q c).1) =
          rw miss at h in
        let e = ask-same q c (λ _. cc k) in
        let l = ask_all-same qs (ask has_user has_group q c).1 (cc k) in rw (e, l) refl
  ]

  -- From a cache that holds only true answers and each id at most once, any sequence of questions is
  -- answered as the lookups would answer it, and the cache is again of that kind. Of the questions,
  -- none is looked up twice, and none whose id the cache held at the start is looked up at all. No
  -- other id is looked up: with other lookups that agree on these, the answers and the cache are the
  -- same.
  pub ask_all-answers :
      (qs : List Query) (c : NssCache)
      → IsCache has_user has_group c
      → answers other_user other_group (looked_up has_user has_group qs c)
        ≡ answers has_user has_group (looked_up has_user has_group qs c)
      → ((ask_all has_user has_group qs c).0 ≡ answers has_user has_group qs)
        × IsCache has_user has_group (ask_all has_user has_group qs c).1
        × Nodup (looked_up has_user has_group qs c)
        × (all (λ q. not (holds q c)) (looked_up has_user has_group qs c) ≡ true)
        × (ask_all other_user other_group qs c ≡ ask_all has_user has_group qs c)
  ask_all-answers qs c h k =
      let (e, end) = ask_all_lem has_user has_group qs c h in
      (
        e,
        end,
        looked_up-Nodup has_user has_group qs c,
        looked_up-missing has_user has_group qs c,
        ask_all-same qs c k,
      )
