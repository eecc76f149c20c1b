-- ===== src/Network/Vlan.antt =====
-- internal/domain/vlan/vlan.go.
use switch_manager.Base.{
  Bool, false, not, ◌&&◌, ◌||◌, [], ◌∷◌, ltb, leb, ◌==◌, ℕ, all, is_empty, Result, ok, ◌>>=◌, ◌>>◌,
  fail_if,
}
use switch_manager.Base.Text.{Text, text_eq, trim_space, byte_len}
use switch_manager.Base.Int.{ℤ, pos, lt_int}

pub data VlanError : Type 0 where
  id_out_of_range name_has_space name_required bad_name : VlanError

abbrev pub min_id : ℤ
min_id = pos 1

abbrev pub max_id : ℤ
max_id = pos 4094

-- `ValidateID`.
unfoldable pub validate_id : ℤ → Result VlanError (Unit {0})
validate_id id = fail_if (lt_int id min_id || lt_int max_id id) id_out_of_range

abbrev pub is_letter : ℕ → Bool
is_letter c = leb b'A' c && leb c b'Z' || leb b'a' c && leb c b'z'

abbrev pub is_digit : ℕ → Bool
is_digit c = leb b'0' c && leb c b'9'

abbrev pub is_name_char : ℕ → Bool
is_name_char c = is_letter c || is_digit c || c == b' ' || c == b'.' || c == b'_' || c == b'-'

-- `^[A-Za-z0-9][A-Za-z0-9 ._-]{0,63}$`; each character that it admits is one byte.
unfoldable pub matches_name : Text → Bool
matches_name [] = false
matches_name (c ∷ cs) =
    (is_letter c || is_digit c) && all is_name_char cs && not (ltb 63 (byte_len cs))

-- `NormalizeName`.
unfoldable pub normalize_name : Text → Bool → Result VlanError Text
normalize_name name required = do
  fail_if (not (text_eq name (trim_space name))) name_has_space
  fail_if (is_empty name && required) name_required
  fail_if (not (is_empty name) && (ltb 64 (byte_len name) || not (matches_name name))) bad_name
  ok name

pub record Vlan : Type 0 where
  pub id : ℤ
  pub name : Text

-- `VLAN.Validate`.
pub vlan_validate : Vlan → Result VlanError (Unit {0})
vlan_validate v = do validate_id v.id; name ← normalize_name v.name false; ok tt
