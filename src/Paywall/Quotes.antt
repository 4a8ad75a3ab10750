-- ===== src/Paywall/Quotes.antt =====
-- What a buyer is quoted by a 402 of asp/paywall.py, and what it is charged.
use merita.Prelude.{String, ◌≡◌, Option, none, some, value_at}
use merita.Prelude.Int.{pos}
use merita.Prelude.Attempt.{Attempt}
use merita.Json.{Json, int, str, arr, obj, nil, cons, Fields, end, field, get}
use merita.Runtime.{Runtime}
use merita.Facilitator.{Service, service, Reply, Token, Auth}
use merita.Paywall.Wire.{Answer}

-- The three places where a buyer reads the terms: the header, the body's copy of it, and the body's list.
abbrev pub of_header : Runtime → Answer → Option Json
of_header rt a = elim (value_at "payment-required" a.headers) [
  | none ↦ none
  | some text ↦ rt.decode_b64 text
]

abbrev pub of_copy : Runtime → Answer → Option Json
of_copy rt a = elim (get "accepts_b64" a.content) [ str text ↦ rt.decode_b64 text | _ ↦ none ]

-- the terms, as the header's JSON holds them
abbrev pub offer : Fields → Json
offer reqs =
    obj (field "x402Version" (int (pos 2)) (field "accepts" (arr (cons (obj reqs) nil)) end))

-- An answer with status 402 that offers the terms in all three places.
abbrev pub Offers : Runtime → Answer → Fields → Type 0
Offers rt a reqs =
    (a.status ≡ 402)
    × (of_header rt a ≡ some (offer reqs))
    × (of_copy rt a ≡ some (offer reqs))
    × (get "accepts" a.content ≡ arr (cons (obj reqs) nil))

module _ (rt : Runtime) (facilitator : String → Json → Reply) (token : Token) (auth : Auth)
    (url : String) where
  abbrev pub fac : Service
  fac = service rt facilitator token auth url
