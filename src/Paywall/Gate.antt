-- ===== src/Paywall/Gate.antt =====
-- The gate of asp/paywall.py lets no unpaid call of a paid tool through, and serves every paid one.
use merita.Prelude.{
  String, Bool, true, false, not, ◌&&◌, ◌≡◌, ◌≢◌, refl, ◌⊎◌, inl, inr, Option, none, some, List,
  if◌then◌else◌, is_some, arith, Bool-cases, Option-cases, eq_iff,
}
use merita.Prelude.Attempt.{Attempt, returned, raised}
use merita.Json.{Json, str}
use merita.Facilitator.{Settlement, Service}
use merita.Paywall.{
  Scope, Tariff, Payment, forward, challenge, free_reject, tool_name, tool_args, find,
  canonical_challenge, honour, prechecked, charge, dispatch, decide, payment_header, is_mcp_path,
  is_http_door, looks_like_x402_probe, accepts_sse, terms,
}

module _ (fac : Service) (paid : List (String × Tariff)) where
  -- The payment for a tool was found, put to the facilitator with the tool's own terms, and accepted.
  abbrev pub IsPaid : Scope → Tariff → Payment → Type 0
  IsPaid scope t p =
      (s : Settlement) × (payment_header scope ≡ some p.x_payment)
      × (fac.settle_or_accept p.x_payment (terms fac t) ≡ returned s)
      × (s.ok ≡ true)
      × (p.reqs ≡ terms fac t)
      × (p.receipt ≡ s.receipt)

  -- The other door, which settles for itself: a plain buyer with a payment is sent there.
  abbrev pub IsSentOn : Scope → String → Type 0
  IsSentOn scope path =
      (path ≡ "/x402/verify")
      × (is_some (payment_header scope) ≡ true)
      × (accepts_sse scope ≡ false)

  honour_settled :
      (scope : Scope) (t : Tariff) (x : String) (a : Attempt Settlement) (path : String)
      (stash : Option Payment)
      → payment_header scope ≡ some x
      → fac.settle_or_accept x (terms fac t) ≡ a
      → honour fac paid scope t ≡ forward path stash
      → (p : Payment) × (stash ≡ some p) × (path ≡ scope.path) × IsPaid scope t p
  unfolding honour
  honour_settled scope t x raised path stash h e f = absurd (ground (arith, rw (h, e, honour) at f))
  honour_settled scope t x (returned s) path stash h e f = elim (Bool-cases s.ok) [
    | inl paid_up ↦
        let f' = rw (h, e, paid_up, honour) at f in
        (
          record { reqs = terms fac t; x_payment = x; receipt = s.receipt },
          ground (arith, f'),
          ground (arith, f'),
          (s, h, e, paid_up, refl, refl),
        )
    | inr refused ↦ absurd (ground (arith, rw (h, e, refused, honour) at f))
  ]

  pub honour_forward :
      (scope : Scope) (t : Tariff) (path : String) (stash : Option Payment)
      → honour fac paid scope t ≡ forward path stash
      → (p : Payment) × (stash ≡ some p) × (path ≡ scope.path) × IsPaid scope t p
  honour_forward scope t path stash f = elim (Option-cases (payment_header scope)) [
    | inl unpaid ↦ absurd (unfold honour in ground (arith, rw (unpaid, honour) at f))
    | inr (x, h) ↦
        honour_settled scope t x (fac.settle_or_accept x (terms fac t)) path stash h refl f
  ]

  module _ (precheck : Option (String → Json → Attempt (Bool × String))) where
    charge_forward :
        (scope : Scope) (body : Option Json) (tool : String) (t : Tariff) (path : String)
        (stash : Option Payment)
        → charge fac paid precheck scope body tool t ≡ forward path stash
        → (p : Payment) × (stash ≡ some p) × (path ≡ scope.path) × IsPaid scope t p
    unfolding charge
    charge_forward scope body tool t path stash f =
        honour_forward scope t path stash (ground (arith, f))

    canonical_challenge-ne-forward :
        (path : String) (stash : Option Payment) → canonical_challenge fac paid ≢ forward path stash
    unfolding canonical_challenge
    canonical_challenge-ne-forward path stash f = ground arith

    dispatch-paid :
        (scope : Scope) (body : Option Json) (tool : String) (t : Tariff)
        → find tool paid ≡ some t
        → dispatch fac paid precheck scope body (returned (str tool))
          ≡ charge fac paid precheck scope body tool t
    unfolding dispatch
    dispatch-paid scope body tool t listed = ground arith

    -- What becomes of a POST over HTTP to another path than the other door's.
    decide_post :
        (scope : Scope) (body : Option Json)
        → scope.kind ≡ "http"
        → scope.method ≡ "POST"
        → is_http_door scope ≡ false
        → decide fac paid precheck scope body ≡ (
            if looks_like_x402_probe scope
            then canonical_challenge fac paid
            else if is_mcp_path scope && not (accepts_sse scope)
            then (if is_some (payment_header scope)
                then forward "/x402/verify" none
                else canonical_challenge fac paid)
            else dispatch fac paid precheck scope body (tool_name body))
    unfolding decide
    decide_post scope body kind post door =
        rw ((eq_iff scope.kind "http").1 kind, door, (eq_iff scope.method "POST").1 post)

    -- A call of a paid tool that the gate lets through is paid for: the gate found a payment, put it
    -- to the facilitator with the tool's terms, and it was accepted, and the receipt goes with the
    -- request; or the request goes to the other door, which settles for itself, with a payment.
    pub paid_tool-IsPaid :
        (scope : Scope) (body : Option Json) (tool : String) (t : Tariff) (path : String)
        (stash : Option Payment)
        → scope.kind ≡ "http"
        → scope.method ≡ "POST"
        → is_http_door scope ≡ false
        → tool_name body ≡ returned (str tool)
        → find tool paid ≡ some t
        → decide fac paid precheck scope body ≡ forward path stash
        → IsSentOn scope path
          ⊎ ((p : Payment) × (stash ≡ some p) × (path ≡ scope.path) × IsPaid scope t p)
    paid_tool-IsPaid scope body tool t path stash kind post door named listed f =
        elim (Bool-cases (looks_like_x402_probe scope)) [
          | inl probe ↦ absurd (canonical_challenge-ne-forward path stash (rw probe at g))
          | inr replay ↦ elim (Bool-cases (is_mcp_path scope && not (accepts_sse scope))) [
            | inl plain ↦ elim (Bool-cases (is_some (payment_header scope))) [
              | inl pays ↦ inl (ground (arith, rw (replay, plain, pays) at g), pays, ground arith)
              | inr broke ↦
                  absurd
                    (canonical_challenge-ne-forward path stash (rw (replay, plain, broke) at g))
            ]
            | inr session ↦ inr (
                charge_forward scope body tool t path stash
                  (rw (replay, session, named, dispatch-paid scope body tool t listed) at g))
          ]
        ]
      where
        g :
            (if looks_like_x402_probe scope
              then canonical_challenge fac paid
              else if is_mcp_path scope && not (accepts_sse scope)
              then (if is_some (payment_header scope)
                  then forward "/x402/verify" none
                  else canonical_challenge fac paid)
              else dispatch fac paid precheck scope body (tool_name body))
            ≡ forward path stash
        g = rw (decide_post scope body kind post door) at f

    module _ (scope : Scope) (body : Option Json) (tool : String) (t : Tariff) where
      -- A call of a paid tool by an MCP client, which is no probe and no plain buyer's.
      pub record IsPaidCall : Type 0 where
        pub kind : scope.kind ≡ "http"
        pub post : scope.method ≡ "POST"
        pub door : is_http_door scope ≡ false
        pub probe : looks_like_x402_probe scope ≡ false
        pub plain : (is_mcp_path scope && not (accepts_sse scope)) ≡ false
        pub named : tool_name body ≡ returned (str tool)
        pub listed : find tool paid ≡ some t
        pub ready : fac.configured ≡ true

      pub decide-paid_call :
          IsPaidCall
          → decide fac paid precheck scope body
            ≡ elim (prechecked fac paid precheck tool (tool_args body)) [
              | some reason ↦ free_reject reason
              | none ↦ honour fac paid scope t
            ]
      unfolding charge
      decide-paid_call c =
          rw
            (
              decide_post scope body c.kind c.post c.door,
              c.probe,
              c.plain,
              c.named,
              dispatch-paid scope body tool t c.listed,
            )
            (rw c.ready)

      -- A call that the hook says cannot succeed is rejected at no charge: whatever the facilitator
      -- would have answered, it is not asked.
      doomed_call_is_free :
          IsPaidCall
          → (check : String → Json → Attempt (Bool × String)) (reason : String)
          → precheck ≡ some check
          → check tool (tool_args body) ≡ returned (false, reason)
          → decide fac paid precheck scope body ≡ free_reject reason
      unfolding prechecked
      doomed_call_is_free c check reason hook says = rw (decide-paid_call c, prechecked, hook, says)

      -- Where the hook does not object, a payment that the facilitator accepts is served, with its
      -- receipt, and one that it refuses is challenged with the facilitator's reason.
      payment_is_honoured :
          IsPaidCall
          → (x : String) (s : Settlement)
          → prechecked fac paid precheck tool (tool_args body) ≡ none
          → payment_header scope ≡ some x
          → fac.settle_or_accept x (terms fac t) ≡ returned s
          → decide fac paid precheck scope body ≡ (
              if s.ok
              then forward scope.path
                  (some (record { reqs = terms fac t; x_payment = x; receipt = s.receipt }))
              else challenge (terms fac t) (some s.reason))
      payment_is_honoured c x s free found answered =
          rw (decide-paid_call c, free) (unfold honour in rw (found, answered, honour))
