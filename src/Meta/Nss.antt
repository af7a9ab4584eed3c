-- ===== src/Meta/Nss.antt =====
-- src/meta.rs, the lookups of users and groups: `nss_uid`, `nss_gid`, `nss_user_exists`,
-- `nss_group_exists`, `resolve_user`, `resolve_group` and `NssCache`. The libc functions are
-- parameters: what a call answers at each length of the buffer.
pub mod Laws
pub mod Cache
use minifind.Base.{
  ℕ, zero, suc, ◌*◌, Bool, true, false, Option, none, some, List, [], ◌∷◌, any, ◌==◌, if◌then◌else◌,
  Error, Result, ok, err, unknown_user, unknown_group,
}
use minifind.Base.Text.{Text, parse_u32}

-- What `getpwnam_r` and its kin return: an entry (with its id), no entry, ERANGE, another error.
pub data Reply : Type 0 where
  found : ℕ → Reply
  absent : Reply
  erange : Reply
  failed : Reply

-- The loop of `nss_uid` and `nss_gid` over the length of the buffer. Without fuel the result is
-- `none`: the loop is still running.
unfoldable pub find_id : ℕ → (ℕ → Reply) → ℕ → Option (Option ℕ)
find_id zero call len = none
find_id (suc fuel) call len = elim (call len) [
  | found id ↦ some (some id)
  | absent ↦ some none
  | erange ↦ find_id fuel call (len * 2)
  | failed ↦ some none
]

-- The loop of `nss_user_exists` and `nss_group_exists`: an error counts as an entry.
unfoldable pub find_entry : ℕ → (ℕ → Reply) → ℕ → Option Bool
find_entry zero call len = none
find_entry (suc fuel) call len = elim (call len) [
  | found id ↦ some true
  | absent ↦ some false
  | erange ↦ find_entry fuel call (len * 2)
  | failed ↦ some true
]

abbrev pub first_len : ℕ
first_len = 1024

-- `CString::new(name).ok()?` fails on a NUL inside the name.
unfoldable pub nss_id : ℕ → (Text → ℕ → Reply) → Text → Option (Option ℕ)
unfolding find_id
nss_id fuel getnam name =
    if any (λ c. c == 0) name then some none else find_id fuel (getnam name) first_len

unfoldable pub nss_exists : ℕ → (ℕ → ℕ → Reply) → ℕ → Option Bool
unfolding find_entry
nss_exists fuel getid id = find_entry fuel (getid id) first_len

abbrev numeric : Error → Option ℕ → Result ℕ
numeric e none = err e
numeric e (some n) = ok n

abbrev or_numeric : Error → Option ℕ → Option ℕ → Result ℕ
or_numeric e (some id) n = ok id
or_numeric e none n = numeric e n

-- `resolve_user` and `resolve_group`, from the answer of the lookup by name.
unfoldable pub resolve_user : (Text → Option ℕ) → Text → Result ℕ
resolve_user nss name = or_numeric (unknown_user name) (nss name) (parse_u32 name)

unfoldable pub resolve_group : (Text → Option ℕ) → Text → Result ℕ
resolve_group nss name = or_numeric (unknown_group name) (nss name) (parse_u32 name)

-- One map of `NssCache`: `entry(id).or_insert_with(..)`, with the entries latest first.
abbrev pub Memo : Type 0
Memo = List (ℕ × Bool)

unfoldable pub lookup : ℕ → Memo → Option Bool
lookup id [] = none
lookup id ((k, b) ∷ m) = if k == id then some b else lookup id m

pub record NssCache : Type 0 where
  pub users : Memo
  pub groups : Memo

abbrev or_insert : Option Bool → ℕ → Bool → Memo → Bool × Memo
or_insert (some b) id fresh m = (b, m)
or_insert none id fresh m = (fresh, (id, fresh) ∷ m)

unfoldable pub user_exists : (ℕ → Bool) → ℕ → NssCache → Bool × NssCache
user_exists has_user uid c =
    let (b, users) = or_insert (lookup uid c.users) uid (has_user uid) c.users in
    (b, record c { users = users })

unfoldable pub group_exists : (ℕ → Bool) → ℕ → NssCache → Bool × NssCache
group_exists has_group gid c =
    let (b, groups) = or_insert (lookup gid c.groups) gid (has_group gid) c.groups in
    (b, record c { groups = groups })
