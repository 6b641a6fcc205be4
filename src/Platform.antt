-- ===== src/Platform.antt =====
-- What the program takes from Python and its standard library and this development does not
-- define: the Unicode tables, `datetime.fromisoformat`, and `json.dumps` with SHA-256.
use deb_builder.Base.{ℕ, Bool, Text, Option}
use deb_builder.Base.Json.{Fields}

pub record Platform : Type 0 where
  -- str.isspace, str.lower and str.isdigit of one character
  pub is_space : ℕ → Bool
  pub lower : ℕ → Text
  pub is_number : ℕ → Bool
  -- datetime.fromisoformat: `none` is a ValueError, else whether the value carries a timezone
  pub iso : Text → Option Bool
  -- hashlib.sha256(json.dumps(payload, ensure_ascii=False, sort_keys=True, …)).hexdigest()
  pub digest : Fields → Text
