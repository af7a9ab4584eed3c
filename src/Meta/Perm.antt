-- ===== src/Meta/Perm.antt =====
-- src/meta.rs, `PermPred` and `parse_mode`: `-perm` with an octal or a symbolic mode.
pub mod Laws
use Prim.Native.Nat.{bit_and}
use minifind.Base.{
  ℕ, Bool, true, not, ◌&&◌, ◌||◌, Option, none, some, [], ◌∷◌, ltb, leb, all, ◌==◌, if◌then◌else◌,
  is_empty, Result, ok, err, ◌>>=◌, empty_mode, invalid_octal, octal_range,
}
use minifind.Base.Text.{Text, strip_prefix, parse_unsigned, u32_max}
use minifind.Meta.Symbolic.{parse_symbolic_mode}

pub data PermKind : Type 0 where
  exact all_of any_of : PermKind

pub record PermPred : Type 0 where
  pub mode : ℕ
  pub kind : PermKind

-- `b.is_ascii_digit() && b <= b'7'`.
abbrev pub is_octal : ℕ → Bool
is_octal b = (leb b'0' b && leb b b'9') && leb b b'7'

abbrev in_range : Text → Option ℕ → Result ℕ
in_range s none = err (invalid_octal s)
in_range s (some m) = if ltb 0o7777 m then err (octal_range s) else ok m

unfoldable pub parse_mode : Text → Result ℕ
parse_mode s =
    if is_empty s
    then err empty_mode
    else if all is_octal s
    then in_range s (parse_unsigned 8 u32_max s)
    else parse_symbolic_mode s

abbrev with_kind : PermKind → Text → Result PermPred
with_kind k rest = do m ← parse_mode rest; ok (record { mode = m; kind = k })

abbrev with_prefix : Text → Option Text → Option Text → Result PermPred
with_prefix s (some r) m = with_kind PermKind.any_of r
with_prefix s none (some r) = with_kind PermKind.all_of r
with_prefix s none none = with_kind PermKind.exact s

unfoldable pub parse : Text → Result PermPred
parse s = with_prefix s (strip_prefix b'/' s) (strip_prefix b'-' s)

abbrev test : PermKind → ℕ → ℕ → Bool
test PermKind.exact mode m = m == mode
test PermKind.all_of mode m = bit_and m mode == mode
test PermKind.any_of mode m = (mode == 0) || not (bit_and m mode == 0)

unfoldable pub matches : PermPred → ℕ → Bool
matches p st_mode = test p.kind p.mode (bit_and st_mode 0o7777)
