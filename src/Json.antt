-- ===== src/Json.antt =====
-- Decoded JSON, as Python's `json.loads` returns it. Python code works on these values.
use merita.Prelude.{
  String-cases, eq_iff, eq_refl, inl, inr, arith, ◌≡◌, String, Bool, true, false, not, Option, none,
  some, ◌==◌, if◌then◌else◌, eqb,
}
use merita.Prelude.Int.{ℤ, pos, negsuc}
use merita.Prelude.Float
use merita.Prelude.Float.{Float, zero_point}

mutual
  pub data Json : Type 0 where
    null : Json
    bool : Bool → Json
    int : ℤ → Json
    float : Float → Json
    str : String → Json
    arr : Items → Json
    obj : Fields → Json

  pub data Items : Type 0 where
    nil : Items
    cons : Json → Items → Items

  pub data Fields : Type 0 where
    end : Fields
    field : String → Json → Fields → Fields

-- `k in d` and `d[k]`; a decoded object names no key twice
unfoldable pub lookup : String → Fields → Option Json
lookup k end = none
lookup k (field j v rest) = if j == k then some v else lookup k rest

abbrev pub or_null : Option Json → Json
or_null none = null
or_null (some v) = v

-- `d.get(k)`
unfoldable pub get : String → Fields → Json
unfolding lookup
get k d = or_null (lookup k d)

-- Python's truth of a value
unfoldable pub truthy : Json → Bool
truthy null = false
truthy (bool b) = b
truthy (int (pos n)) = not (eqb n 0)
truthy (int (negsuc n)) = true
truthy (float x) = not (Float.eq x zero_point)
truthy (str s) = not (s == "")
truthy (arr nil) = false
truthy (arr (cons x xs)) = true
truthy (obj end) = false
truthy (obj (field k v rest)) = true

-- `a or b`
abbrev pub or_else : Json → Json → Json
or_else a b = if truthy a then a else b

-- `v is True`
abbrev pub is_true : Json → Bool
is_true (bool true) = true
is_true _ = false

-- `{k: v for k, v in d.items() if test(k)}`
unfoldable pub keep : (String → Bool) → Fields → Fields
keep test end = end
keep test (field k v rest) = if test k then field k v (keep test rest) else keep test rest

lookup-keep :
    (test : String → Bool) (k : String) (d : Fields)
    → lookup k (keep test d) ≡ (if test k then lookup k d else none)
unfolding lookup keep
lookup-keep test k end = ground arith
lookup-keep test k (field j v rest) = elim (String-cases j k) [
  | inl same ↦ rw same (rw (eq_refl k) (ground (arith, lookup-keep test k rest, eq_refl k)))
  | inr differ ↦ ground (arith, lookup-keep test k rest, eq_iff j k, differ)
]
