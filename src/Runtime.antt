-- ===== src/Runtime.antt =====
-- Functions of Python's standard library that the code calls and whose results are only passed on,
-- as a parameter of the development: the digest of `hashlib.sha256`, the text of a value (`str`,
-- `json.dumps`, the format `.2f`), the readers (`json.loads`, `float`), and base64.
use merita.Prelude.{ℕ, String, List, Option}
use merita.Prelude.Int.{ℤ}
use merita.Prelude.Float.{Float}
use merita.Json.{Json}

pub record Runtime : Type 0 where
  -- `sha256(bytes).hexdigest()`
  pub sha256 : List ℕ → String
  -- `str(value)`
  pub str_of : Json → String
  -- `json.dumps(value)`
  pub dumps : Json → String
  -- `json.loads(text)` on code points; `none` where it raises
  pub loads : List ℕ → Option Json
  -- `float(text)` and `float(int)`; `none` where they raise
  pub float_of_text : String → Option Float
  pub float_of_int : ℤ → Option Float
  -- `f"{x:.2f}"`
  pub format_2f : Float → String
  -- `json.loads(base64.b64decode(text))`; `none` where either raises
  pub decode_b64 : String → Option Json
  -- `base64.b64encode(json.dumps(value).encode()).decode()`
  pub encode_b64 : Json → String
  -- `int(round(human * 10 ** decimals))`
  pub round_product : Float → ℕ → ℤ
