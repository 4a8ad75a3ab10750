-- ===== src/HttpDoor/Describe.antt =====
-- `_describe_payment` of asp/http_x402.py: what the log says of a payment's header.
use Prim.Native.Nat.{Ordering}
use Prim.Native.String.{compare}
use merita.Prelude.{
  ℕ, String, Bool, true, false, ◌≡◌, refl, ap, ◌∙◌, Option, none, some, List, [], ◌∷◌,
  if◌then◌else◌, length, codes, concat, prefix_of,
}
use merita.Prelude.Int.{pos}
use merita.Json.{
  Json, null, bool, int, float, str, arr, obj, Items, nil, cons, Fields, end, field, get,
}
use merita.Runtime.{Runtime}

-- `obj.keys()`
unfoldable pub keys_of : Fields → List String
keys_of end = []
keys_of (field k v rest) = k ∷ keys_of rest

-- `sorted` on texts
abbrev after : String → String → Bool
after a b = elim (compare a b) [ Ordering.gt ↦ true | _ ↦ false ]

unfoldable pub insert_sorted : String → List String → List String
insert_sorted s [] = s ∷ []
insert_sorted s (t ∷ ts) = if after s t then t ∷ insert_sorted s ts else s ∷ t ∷ ts

unfoldable pub sorted : List String → List String
unfolding insert_sorted
sorted [] = []
sorted (s ∷ ss) = insert_sorted s (sorted ss)

abbrev texts : List String → Items
texts [] = nil
texts (s ∷ ss) = cons (str s) (texts ss)

-- `type(obj).__name__`
unfoldable pub type_name : Json → String
type_name null = "NoneType"
type_name (bool b) = "bool"
type_name (int z) = "int"
type_name (float x) = "float"
type_name (str s) = "str"
type_name (arr xs) = "list"
type_name (obj d) = "dict"

-- `" ".join(bits)`
unfoldable pub spaced : List String → String
spaced [] = ""
spaced (s ∷ []) = s
spaced (s ∷ t ∷ rest) = concat (s ∷ " " ∷ spaced (t ∷ rest) ∷ [])

module _ (rt : Runtime) where
  -- `f"{sorted(d.keys())}"`
  abbrev list_text : List String → String
  list_text ks = rt.str_of (arr (texts (sorted ks)))

  abbrev inner_bits : Json → List String
  inner_bits (obj inner) = concat ("payload_keys=" ∷ list_text (keys_of inner) ∷ []) ∷ []
  inner_bits other = []

  unfoldable pub decoded_bits : Json → List String
  unfolding keys_of sorted get type_name
  decoded_bits (obj d) =
      concat ("b64_json_keys=" ∷ list_text (keys_of d) ∷ []) ∷ inner_bits (get "payload" d)
  decoded_bits other = concat ("b64_json_type=" ∷ type_name other ∷ []) ∷ []

  unfoldable pub shape_bits : Option Json → String → List String
  unfolding decoded_bits
  shape_bits (some j) value = decoded_bits j
  shape_bits none value =
      if prefix_of (codes "0x") (codes value)
      then "shape=hex (bare signature? an authorization must accompany it)" ∷ []
      else "shape=opaque (not base64-JSON)" ∷ []

  abbrev described : String → ℕ → List String → String
  described name size bits =
      spaced
        (concat ("header=" ∷ name ∷ []) ∷ concat ("len=" ∷ rt.str_of (int (pos size)) ∷ []) ∷ bits)

  unfoldable pub describe_payment : String → String → String
  unfolding shape_bits spaced
  describe_payment name value =
      described name (length (codes value)) (shape_bits (rt.decode_b64 value) value)

  -- The outline of a decoded value: its type, its keys, and the keys of its payload.
  abbrev object_keys : Json → Option (List String)
  object_keys (obj d) = some (keys_of d)
  object_keys other = none

  abbrev payload_keys : Json → Option (List String)
  payload_keys (obj d) = object_keys (get "payload" d)
  payload_keys other = none

  -- Two headers that differ in their values only: they have the same length, and what they decode to has
  -- the same type, keys and payload keys; or neither decodes, and both or none begin with 0x.
  abbrev pub SameOutline : Json → Json → Type 0
  SameOutline a b =
      (type_name a ≡ type_name b)
      × (object_keys a ≡ object_keys b)
      × (payload_keys a ≡ payload_keys b)

  abbrev pub SameShape : String → String → Option Json → Option Json → Type 0
  SameShape v w (some a) (some b) = SameOutline a b
  SameShape v w none none = prefix_of (codes "0x") (codes v) ≡ prefix_of (codes "0x") (codes w)
  SameShape v w (some a) none = ⊥
  SameShape v w none (some b) = ⊥

  -- what is written, from the outline alone
  abbrev inner_of : Option (List String) → List String
  inner_of none = []
  inner_of (some ks) = concat ("payload_keys=" ∷ list_text ks ∷ []) ∷ []

  abbrev bits_of : String → Option (List String) → Option (List String) → List String
  bits_of t none inner = concat ("b64_json_type=" ∷ t ∷ []) ∷ []
  bits_of t (some ks) inner = concat ("b64_json_keys=" ∷ list_text ks ∷ []) ∷ inner_of inner

  inner_bits-outline : (j : Json) → inner_bits j ≡ inner_of (object_keys j)
  inner_bits-outline (obj d) = refl
  inner_bits-outline null = refl
  inner_bits-outline (bool b) = refl
  inner_bits-outline (int z) = refl
  inner_bits-outline (float x) = refl
  inner_bits-outline (str s) = refl
  inner_bits-outline (arr xs) = refl

  decoded_bits-outline :
      (j : Json) → decoded_bits j ≡ bits_of (type_name j) (object_keys j) (payload_keys j)
  unfolding decoded_bits
  decoded_bits-outline (obj d) = rw (inner_bits-outline (get "payload" d)) refl
  decoded_bits-outline null = refl
  decoded_bits-outline (bool b) = refl
  decoded_bits-outline (int z) = refl
  decoded_bits-outline (float x) = refl
  decoded_bits-outline (str s) = refl
  decoded_bits-outline (arr xs) = refl

  shape_bits-same :
      (v w : String) (a b : Option Json) → SameShape v w a b → shape_bits a v ≡ shape_bits b w
  unfolding shape_bits
  shape_bits-same v w (some a) (some b) (t, k, p) =
      rw (decoded_bits-outline a, decoded_bits-outline b, t, k, p) refl
  shape_bits-same v w none none same = rw same refl
  shape_bits-same v w (some a) none differ = absurd differ
  shape_bits-same v w none (some b) differ = absurd differ

  -- The log never holds a payment's values. Two headers under one name that have the same length and the
  -- same shape, whatever their signatures and authorizations are, are described by the same text.
  description_hides_values :
      (name v w : String)
      → length (codes v) ≡ length (codes w)
      → SameShape v w (rt.decode_b64 v) (rt.decode_b64 w)
      → describe_payment name v ≡ describe_payment name w
  unfolding describe_payment
  description_hides_values name v w long same =
      ap (λ n. described name n (shape_bits (rt.decode_b64 v) v)) long
      ∙ ap (described name (length (codes w)))
          (shape_bits-same v w (rt.decode_b64 v) (rt.decode_b64 w) same)
