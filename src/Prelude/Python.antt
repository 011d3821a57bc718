-- ===== src/Prelude/Python.antt =====
-- What the code takes from Python's standard library and from the world outside: parameters of the
-- model. Each stands for the function that its comment names.
use Prim.Native.Nat.{ℕ}
use Prim.Native.String.{String}
use mathlib.Core.Option.{Option}
use mathlib.Core.List.{List}
use llm_agent_runtime.Prelude.Json.{Json}

pub record Python : Type 0 where
  -- `str.lower`
  pub lower : String → String
  -- `str.strip`
  pub strip : String → String
  -- `s.strip("`")`
  pub strip_ticks : String → String
  -- `str(value)`
  pub text_of : Json → String
  -- `json.dumps(value, ensure_ascii=False, default=str)`
  pub dumps : Json → String
  -- `json.dumps(value, sort_keys=True, ensure_ascii=False, default=str)`
  pub dumps_sorted : Json → String
  -- `json.JSONDecoder().raw_decode(text)[0]`, `none` where it raises
  pub raw_decode : String → Option Json
  -- `hashlib.sha1(text.encode("utf-8")).hexdigest()`
  pub sha1_hex : String → String
  -- `int(text)`, `none` where it raises
  pub int_of : String → Option ℕ
  -- `unicodedata.decimal(chr(n), None)`
  pub decimal : ℕ → Option ℕ
  -- `str(sorted(names))`
  pub sorted_names : List String → String
