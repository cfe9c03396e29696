-- ===== src/Host.antt =====
-- What the program takes from Python and its standard library, as one parameter: `str(UUID)`,
-- `str(int)`, `datetime.isoformat`, `json.dumps` (with sorted
-- keys), `json.loads`, `hashlib.sha256`, `str.strip`, `str.lower`,
-- `str.upper`, the matches of `[^\W_]+` in a text (`re`), `str.casefold`, `str.startswith`,
-- `str` of a number, the order of texts, and `json.dumps` with the compact separators.
use sarmady.Prelude.{ℕ, String, List, Option, Bool}
use sarmady.Time.{DateTime}
use sarmady.Values.{Value}

pub record Host : Type 0 where
  pub uuid_text : ℕ → String
  pub int_text : ℕ → String
  pub isoformat : DateTime → String
  pub utc_isoformat : DateTime → String
  pub json_dumps : Value → String
  pub json_loads : String → Option Value
  pub sha256 : String → String
  pub strip : String → String
  pub lower : String → String
  pub upper : String → String
  pub words : String → List String
  pub casefold : String → String
  pub startswith : String → String → Bool
  pub number_text : Value → String
  pub text_leb : String → String → Bool
  pub json_compact : Value → String
