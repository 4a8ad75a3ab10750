-- ===== src/Orchestrator/Requests.antt =====
-- How many requests each step of brain/merita/orchestrator.py sends to a path of the chain seam.
use merita.Prelude.{
  ℕ, ◌+◌, String, Bool, true, false, ◌≡◌, inl, inr, Option, some, List, [], ◌∷◌, arith, Bool-cases,
  if◌then◌else◌, ◌==◌, count_if, count_if-append,
}
use merita.Prelude.Int.{ℤ}
use merita.Prelude.Attempt.{Attempt, returned, raised}
use merita.Json.{Json, Fields, str, field, end, or_else}
use merita.Runtime.{Runtime}
use merita.Commitment.{AcceptanceTest}
use merita.Models.{Receipt, Verdict, settled, failed}
use merita.Sidecar.{Sidecar, Post, World, Work, ◌>>=◌, pure, lift, post, observe}
use merita.Router.{release, refund, pay_ace, released, referee_fee, read_ace, read_signature}
use merita.Referee.Tier2.{Call, adjudicate}
use merita.Orchestrator.{
  Bounty, book, seal, consult, escalate, rule, settle_escrow, withdraw_escrow, pay_out, publish,
  text_of, opt_list, unsure, entries, feedback_body,
}

-- how many requests went to a path
abbrev pub requests : String → World → ℕ
requests path w = count_if (λ (p : Post). p.path == path) w.posts

-- The step sends `n` requests to the path, however it ends.
abbrev pub Sends {ℓ} : {A : Type ℓ} → String → ℕ → Work A → Type 0
Sends path n m = (w : World) → requests path (m w).1 ≡ requests path w + n

abbrev pub hit : String → String → ℕ
hit sent path = if sent == path then 1 else 0

pub >>=-Sends {ℓ κ} :
    {A : Type ℓ} {B : Type κ} (path : String) (n : ℕ) (m : Work A) (f : A → Work B)
    → Sends path n m
    → ((a : A) → Sends path 0 (f a))
    → Sends path n (m >>= f)
>>=-Sends {A = A} {B = B} path n m f hm hf w = split (m w) (hm w)
  where
    split :
        (p : Attempt A × World)
        → requests path p.1 ≡ requests path w + n
        → requests path
            (let (o, w') = p in
              elim o as (λ o. Attempt B × World) [ returned a ↦ f a w' | raised ↦ (raised, w') ]).1
          ≡ requests path w + n
    split (returned a, w') h = omega (arith, hf a w', h)
    split (raised, w') h = h

pub pure-Sends {ℓ} : {A : Type ℓ} (path : String) (a : A) → Sends path 0 (pure a)
pure-Sends path a w = omega arith

pub lift-Sends {ℓ} : {A : Type ℓ} (path : String) (o : Attempt A) → Sends path 0 (lift o)
lift-Sends path o w = omega arith

if-Sends {ℓ} :
    {A : Type ℓ} (path : String) (c : Bool) (a b : Work A) (n m : ℕ)
    → Sends path n a
    → Sends path m b
    → Sends path (if c then n else m) (if c then a else b)
if-Sends path true a b n m h k = h
if-Sends path false a b n m h k = k

pub post-Sends :
    (sidecar : Sidecar) (path sent : String) (body : Fields)
    → Sends path (hit sent path) (post sidecar sent body)
unfolding post
post-Sends sidecar path sent body w = omega (
  arith,
  count_if-append (λ (p : Post). p.path == path) w.posts (record { path = sent; body = body } ∷ []),
)

pub book-Sends : (path : String) (rs : List Receipt) (b : Bounty) → Sends path 0 (book rs b)
unfolding book observe
book-Sends path [] b w = omega arith
book-Sends path (r ∷ rs) b w = book-Sends path rs _ _

module _ (rt : Runtime) (sidecar : Sidecar) (int_of : Json → Option ℤ)
    (referee_pda referee_wallet : String)
    (referee : String → String → String → Option Json → Verdict)
    (tests : String → Option AcceptanceTest) (prompt : String → Option Json → String) where
  pub pay_ace-Sends :
      (path service : String) (args : Json) (worker : String)
      → Sends path (hit "/ace/call" path) (pay_ace sidecar int_of referee_pda service args worker)
  unfolding pay_ace
  pay_ace-Sends path service args worker =
      let body : Fields = field "service" (str service) (field "args" args end) in
      >>=-Sends path (hit "/ace/call" path) (post sidecar "/ace/call" body)
        (λ answer. lift (read_ace int_of service worker answer))
        (post-Sends sidecar path "/ace/call" body)
        (λ answer. lift-Sends path (read_ace int_of service worker answer))

  release-Sends :
      (path poster worker : String) (escrow : Json) (reward : ℤ)
      → Sends path
          (hit "/sap/escrow/settle" path)
          (release sidecar int_of referee_pda poster escrow worker reward)
  unfolding release
  release-Sends path poster worker escrow reward =
      let body : Fields = field "posterWalletPath" (str poster) (field "escrowId" escrow end) in
      let pay : Option String → Work (List Receipt) =
        λ tx. pure (released poster worker referee_pda reward (referee_fee reward) tx) in
      >>=-Sends path (hit "/sap/escrow/settle" path) (post sidecar "/sap/escrow/settle" body)
        (λ answer. lift (read_signature answer) >>= pay)
        (post-Sends sidecar path "/sap/escrow/settle" body)
        (λ answer.
          >>=-Sends path 0 (lift (read_signature answer)) pay
            (lift-Sends path (read_signature answer))
            (λ tx.
              pure-Sends path (released poster worker referee_pda reward (referee_fee reward) tx)))

  refund-Sends :
      (path poster : String) (escrow : Json)
      → Sends path
          (hit "/sap/escrow/withdraw" path)
          (refund sidecar int_of referee_pda poster escrow)
  unfolding refund
  refund-Sends path poster escrow =
      post-Sends sidecar path "/sap/escrow/withdraw"
        (field "posterWalletPath" (str poster) (field "escrowId" escrow end))

  consult-Sends :
      (path : String) (b : Bounty)
      → Sends path
          (hit "/ace/call" path)
          (consult rt sidecar int_of referee_pda referee_wallet referee tests prompt b)
  unfolding consult
  consult-Sends path b w = pay_ace-Sends path _ _ _ w

  escalate-Sends :
      (path : String) (b : Bounty)
      → hit "/ace/call" path ≡ 0
      → Sends path 0 (escalate rt sidecar int_of referee_pda referee_wallet referee tests prompt b)
  unfolding escalate
  escalate-Sends path b h =
      let ruled : Call → Bounty → Work (Verdict × Bounty) =
        λ reply b'. pure ((adjudicate rt reply).0, b') in
      >>=-Sends path 0 (consult rt sidecar int_of referee_pda referee_wallet referee tests prompt b)
        (λ reply. book (opt_list (adjudicate rt reply).1) b >>= ruled reply)
        (λ w. omega (arith, h, consult-Sends path b w))
        (λ reply.
          >>=-Sends path 0 (book (opt_list (adjudicate rt reply).1) b) (ruled reply)
            (book-Sends path (opt_list (adjudicate rt reply).1) b)
            (λ b'. let p : Verdict × Bounty = ((adjudicate rt reply).0, b') in pure-Sends path p))

  pub rule-Sends :
      (path : String) (b : Bounty) (v : Verdict)
      → hit "/ace/call" path ≡ 0
      → Sends path 0 (rule rt sidecar int_of referee_pda referee_wallet referee tests prompt b v)
  unfolding rule
  rule-Sends path b v h =
      elim (Bool-cases
        (unsure rt sidecar int_of referee_pda referee_wallet referee tests prompt v)) [
          | inl e ↦ rw e (escalate-Sends path b h)
          | inr e ↦ let p : Verdict × Bounty = (v, b) in rw e (pure-Sends path p)
        ]

  pub seal-Sends :
      (path : String) (b : Bounty) (lines : List String)
      → Sends path
          (hit "/sap/audit/seal" path)
          (seal rt sidecar int_of referee_pda referee_wallet referee tests prompt b lines)
  unfolding seal
  seal-Sends path b lines w = post-Sends sidecar path "/sap/audit/seal" _ w

  pub publish-Sends :
      (path : String) (b : Bounty) (v : Verdict)
      → hit "/sap/feedback" path ≡ 0
      → hit "/sap/audit/seal" path ≡ 0
      → Sends path 0 (publish rt sidecar int_of referee_pda referee_wallet referee tests prompt b v)
  unfolding publish
  publish-Sends path b v f a =
      let trace : Work (Attempt Json) =
        seal rt sidecar int_of referee_pda referee_wallet referee tests prompt b
          (entries rt sidecar int_of referee_pda referee_wallet referee tests prompt b v) in
      let body : Fields =
        feedback_body rt sidecar int_of referee_pda referee_wallet referee tests prompt b v in
      >>=-Sends path 0 (post sidecar "/sap/feedback" body) (λ posted. trace >>= (λ sealed. pure b))
        (λ w. omega (arith, f, post-Sends sidecar path "/sap/feedback" body w))
        (λ posted.
          >>=-Sends path 0 trace (λ sealed. pure b)
            (λ w. omega (
              arith,
              a,
              seal-Sends path b
                  (entries rt sidecar int_of referee_pda referee_wallet referee tests prompt b v) w,
            ))
            (λ sealed. pure-Sends path b))

  settle_escrow-Sends :
      (path : String) (b : Bounty) (v : Verdict)
      → Sends path
          (hit "/sap/escrow/settle" path)
          (settle_escrow rt sidecar int_of referee_pda referee_wallet referee tests prompt b v)
  unfolding settle_escrow
  settle_escrow-Sends path b v =
      let close : Bounty → Work Bounty =
        λ b'. pure (record b' { state = settled; verdict = some v }) in
      >>=-Sends path (hit "/sap/escrow/settle" path)
        (release sidecar int_of referee_pda b.poster_wallet_path (or_else b.escrow_id (str ""))
          (text_of b.claimed_by_pda) b.reward_lamports)
        (λ rs. book rs b >>= close)
        (release-Sends path b.poster_wallet_path (text_of b.claimed_by_pda)
          (or_else b.escrow_id (str "")) b.reward_lamports)
        (λ rs.
          >>=-Sends path 0 (book rs b) close (book-Sends path rs b)
            (λ b'. pure-Sends path (record b' { state = settled; verdict = some v })))

  withdraw_escrow-Sends :
      (path : String) (b : Bounty) (v : Verdict)
      → Sends path
          (hit "/sap/escrow/withdraw" path)
          (withdraw_escrow rt sidecar int_of referee_pda referee_wallet referee tests prompt b v)
  unfolding withdraw_escrow
  withdraw_escrow-Sends path b v =
      >>=-Sends path (hit "/sap/escrow/withdraw" path)
        (refund sidecar int_of referee_pda b.poster_wallet_path (or_else b.escrow_id (str "")))
        (λ done. pure (record b { state = failed; verdict = some v }))
        (refund-Sends path b.poster_wallet_path (or_else b.escrow_id (str "")))
        (λ done. pure-Sends path (record b { state = failed; verdict = some v }))

  pub pay_out-Sends :
      (path : String) (b : Bounty) (v : Verdict)
      → Sends path
          (if v.passed then hit "/sap/escrow/settle" path else hit "/sap/escrow/withdraw" path)
          (pay_out rt sidecar int_of referee_pda referee_wallet referee tests prompt b v)
  unfolding pay_out
  pay_out-Sends path b v =
      if-Sends path v.passed
        (settle_escrow rt sidecar int_of referee_pda referee_wallet referee tests prompt b v)
        (withdraw_escrow rt sidecar int_of referee_pda referee_wallet referee tests prompt b v) _ _
        (settle_escrow-Sends path b v) (withdraw_escrow-Sends path b v)
