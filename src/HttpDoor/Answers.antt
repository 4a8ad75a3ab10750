-- ===== src/HttpDoor/Answers.antt =====
-- What `verify_http` of asp/http_x402.py answers, and what it leaves in the database.
use merita.Prelude.{
  String, true, false, ◌≡◌, ◌≢◌, refl, ◌⊎◌, inl, inr, none, some, Bool-cases, Option-cases,
}
use merita.Prelude.Attempt.{Attempt, returned, raised}
use merita.Facilitator.{Settlement}
use merita.Store.{Commitment, Db, find}
use merita.HttpDoor.{
  Door, Response, payment_required, failed, verdict, VerdictBody, Request, Outcome, go, stop, fault,
  terms, serve, finish, handle, payment_header,
}
use merita.HttpDoor.Control.{Ends}
use merita.HttpDoor.Serving.{IsHonest, serve-Ends}
use merita.HttpDoor.Lookups.{Kept, IsFailure}

-- An answer that a buyer who has paid may get: no demand to pay, and no claim that nothing was charged.
unfoldable pub IsForAPaidBuyer : Response → Type 0
IsForAPaidBuyer (payment_required accepts reason) = ⊥
IsForAPaidBuyer (failed code e charged) = charged ≢ some false
IsForAPaidBuyer (verdict v) = v.charged ≡ true

module _ (door : Door) where
  finish-IsForAPaidBuyer :
      (db : Db) (p : Outcome VerdictBody × Db)
      → Ends
          (λ v db'. Kept db db' × IsHonest door v db')
          (λ r db'. Kept db db' × IsFailure true r)
          (Kept db)
          p
      → IsForAPaidBuyer (finish door p).0
  unfolding Ends IsForAPaidBuyer
  finish-IsForAPaidBuyer db (go v, db') (kept, honest) = honest.1
  finish-IsForAPaidBuyer db (stop r, db') (kept, (code, e, is)) = rw (is, IsForAPaidBuyer) (λ h. cc)
  finish-IsForAPaidBuyer db (fault, db') h = λ h. cc

  finish-Kept :
      (db : Db) (p : Outcome VerdictBody × Db)
      → Ends
          (λ v db'. Kept db db' × IsHonest door v db')
          (λ r db'. Kept db db' × IsFailure true r)
          (Kept db)
          p
      → Kept db (finish door p).1
  unfolding Ends
  finish-Kept db (go v, db') h = h.0
  finish-Kept db (stop r, db') h = h.0
  finish-Kept db (fault, db') h = h

  finish-IsHonest :
      (db : Db) (p : Outcome VerdictBody × Db) (v : VerdictBody)
      → Ends
          (λ v db'. Kept db db' × IsHonest door v db')
          (λ r db'. Kept db db' × IsFailure true r)
          (Kept db)
          p
      → (finish door p).0 ≡ verdict v
      → IsHonest door v (finish door p).1
  unfolding Ends
  finish-IsHonest db (go w, db') v (kept, honest) h = let e : w ≡ v = cc in rw (← e) honest
  finish-IsHonest db (stop r, db') v (kept, (code, e, is)) h = cc
  finish-IsHonest db (fault, db') v k h = cc

  -- A request whose payment the facilitator settled or had settled is never asked to pay again, and
  -- whatever error it gets, the error does not say that nothing was charged.
  pub paid_request_is_served :
      (request : Request) (db : Db) {x : String} {settled : Settlement}
      → payment_header request ≡ some x
      → door.fac.settle_or_accept x (terms door) ≡ returned settled
      → settled.ok ≡ true
      → IsForAPaidBuyer (handle door request db).0
  unfolding handle serve
  paid_request_is_served request db {settled = settled} has returns honoured =
      rw (has, handle, returns, honoured)
        (finish-IsForAPaidBuyer db (serve door settled request db)
          (serve-Ends door settled request db))

  -- A request was served as paid, or it was answered otherwise and wrote nothing.
  abbrev pub WasPaid : Request → Settlement → Type 0
  WasPaid request settled =
      (x : String) × (payment_header request ≡ some x)
      × (door.fac.settle_or_accept x (terms door) ≡ returned settled)
      × (settled.ok ≡ true)

  abbrev Handled : Request → Db → Type 0
  Handled request db =
      ((settled : Settlement) × (handle door request db
          ≡ finish door (serve door settled request db))
        × WasPaid request settled)
      ⊎ ((r : Response) × (handle door request db ≡ (r, db)) × ((v : VerdictBody) → r ≢ verdict v))

  handle-cases : (request : Request) (db : Db) → Handled request db
  unfolding handle serve
  handle-cases request db = elim (Option-cases (payment_header request)) [
    | inl e ↦ inr (payment_required (terms door) none, rw (e, handle) refl, λ v h. cc)
    | inr (x, e) ↦ paid x e (door.fac.settle_or_accept x (terms door)) refl
  ]
    where
      paid :
          (x : String)
          → payment_header request ≡ some x
          → (a : Attempt Settlement) → door.fac.settle_or_accept x (terms door) ≡ a
          → Handled request db
      paid x e raised h = inr (failed 500 "internal_error" none, rw (e, handle, h) refl, λ v k. cc)
      paid x e (returned s) h = elim (Bool-cases s.ok) [
        | inl o ↦ inl (s, simp (e, handle, h, o), (x, e, h, o))
        | inr o ↦
            inr (payment_required (terms door) (some s.reason), simp (e, handle, h, o), λ v k. cc)
      ]

  -- A verdict is given only to a request with a payment header whose payment the facilitator settled
  -- or had settled. The verdict is the referee's, on the test, the nonce and the hash of the row that
  -- the ledger then holds for the task of the verdict, and it says of every test, also of one that
  -- came in the same request, that it was committed in advance.
  pub verdict-IsHonest :
      (request : Request) (db : Db) (v : VerdictBody)
      → (handle door request db).0 ≡ verdict v
      → ((settled : Settlement) × WasPaid request settled)
        × IsHonest door v (handle door request db).1
  verdict-IsHonest request db v h = elim (handle-cases request db) [
    | inl (settled, e, paid) ↦ (
      (settled, paid),
      rw e (
          finish-IsHonest db (serve door settled request db) v (serve-Ends door settled request db)
            (rw e at h)),
    )
    | inr (r, e, other) ↦ absurd (other v (rw e at h))
  ]

  -- However a request ends, an exception included, every row that the ledger had is still there, with
  -- the same test, nonce and hash: a test that comes with a request does not replace a sealed one.
  pub handle_keeps :
      (request : Request) (db : Db) (t : String) (r : Commitment)
      → find t db.commitments ≡ some r
      → find t (handle door request db).1.commitments ≡ some r
  handle_keeps request db t r h = elim (handle-cases request db) [
    | inl (settled, e, paid) ↦
        rw e (
          finish-Kept db (serve door settled request db) (serve-Ends door settled request db) t r h)
    | inr (other, e, none_such) ↦ rw e h
  ]
