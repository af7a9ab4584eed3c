-- ===== src/Base/Errors.antt =====
-- The error values that parsing returns, with the text that the message cites, and the monad.
use Prim.Native.Nat.{ℕ}
use mathlib.Core.Path.{◌≡◌, refl}
use mathlib.Core.Logic.{◌⊎◌, inl, inr}
use mathlib.Core.List.{List}

-- One constructor for each `anyhow!` message and for each error that `?` passes on.
pub data Error : Type 0 where
  invalid_number : List ℕ → Error
  empty_size : Error
  missing_unit : List ℕ → Error
  empty_mode : Error
  invalid_octal : List ℕ → Error
  octal_range : List ℕ → Error
  expected_op : List ℕ → Error
  invalid_perm_char : List ℕ → Error
  unknown_user : List ℕ → Error
  unknown_group : List ℕ → Error
  no_reference : List ℕ → Error
  invalid_file_type : List ℕ → Error
  not_a_number : List ℕ → Error
  threads_range : Error
  not_a_directory : List ℕ → Error
  unexpected_argument : Error
  missing_value : Error
  name_and_regex : Error
  no_paths : Error
  invalid_glob : List ℕ → Error
  invalid_regex : Error
  set_too_large : Error
  no_signal_handler : ℕ → Error

-- anyhow's `Result`.
pub data Result {ℓ} (T : Type ℓ) : Type ℓ where
  err : Error → Result T
  ok : T → Result T

-- `?`, which passes an error on.
infixl 5 ◌>>=◌
abbrev pub ◌>>=◌ {ℓ κ} : {T : Type ℓ} {U : Type κ} → Result T → (T → Result U) → Result U
result >>= next = elim result [ err cause ↦ err cause | ok value ↦ next value ]

-- What succeeds after `?` had a value before it.
pub >>=-eq-ok {ℓ κ} :
    {T : Type ℓ} {U : Type κ} (result : Result T) (next : T → Result U) {last : U}
    → (result >>= next) ≡ ok last
    → (first : T) × (result ≡ ok first) × (next first ≡ ok last)
>>=-eq-ok (err cause) next same = cc
>>=-eq-ok (ok first) next same = (first, refl, same)

pub ok-inj {ℓ} : {T : Type ℓ} {first last : T} → ok first ≡ ok last → first ≡ last
ok-inj same = cc

pub Result-cases {ℓ} :
    {T : Type ℓ} (result : Result T)
    → ((cause : Error) × (result ≡ err cause)) ⊎ ((value : T) × (result ≡ ok value))
Result-cases (err cause) = inl (cause, refl)
Result-cases (ok value) = inr (value, refl)
