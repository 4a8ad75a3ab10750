-- ===== src/HttpDoor/Control.antt =====
-- The answers of asp/http_x402.py, and a handler's control flow: it goes on, returns early, or raises,
-- and the database keeps what was written.
use merita.Prelude.{ℕ, String, Bool, Option}
use merita.Prelude.Float.{Float}
use merita.Json.{Json, Fields}
use merita.Store.{Db}

pub record VerdictBody : Type 0 where
  pub task_id : String
  pub passed : Bool
  pub confidence : Float
  pub reason : String
  pub reveal_valid : Bool
  pub commitment : String
  pub settle_escrow : Bool
  pub precommitted : Bool
  pub charged : Bool
  pub tx_hash : Json
  pub payment_receipt : Option String
  pub demonstration : Bool

-- 402 with the terms and perhaps the facilitator's reason; an error with its status, code and
-- `charged`, which may be null; or 200 with a verdict.
pub data Response : Type 0 where
  payment_required : Fields → Option String → Response
  failed : ℕ → String → Option Bool → Response
  verdict : VerdictBody → Response

pub data Outcome {ℓ} (A : Type ℓ) : Type ℓ where
  go : A → Outcome A
  stop : Response → Outcome A
  fault : Outcome A

abbrev pub Flow {ℓ} : Type ℓ → Type ℓ
Flow A = Db → Outcome A × Db

infixl 5 ◌>>=◌
abbrev pub ◌>>=◌ {ℓ κ} : {A : Type ℓ} {B : Type κ} → Flow A → (A → Flow B) → Flow B
◌>>=◌ m f db =
    let (o, db') = m db in elim o [ go a ↦ f a db' | stop r ↦ (stop r, db') | fault ↦ (fault, db') ]

abbrev pub pure {ℓ} : {A : Type ℓ} → A → Flow A
pure a db = (go a, db)

abbrev pub answer {ℓ} : {A : Type ℓ} → Response → Flow A
answer r db = (stop r, db)

abbrev pub raise {ℓ} : {A : Type ℓ} → Flow A
raise db = (fault, db)

-- `Ends G S F p`: where the run `p` goes on, its value and database satisfy `G`; where it returns
-- early, its answer and database satisfy `S`; where it raises, its database satisfies `F`.
unfoldable pub Ends {ℓ κ} :
    {A : Type ℓ}
    → (A → Db → Type κ)
    → (Response → Db → Type κ)
    → (Db → Type κ)
    → Outcome A × Db
    → Type κ
Ends G S F (go a, db) = G a db
Ends G S F (stop r, db) = S r db
Ends G S F (fault, db) = F db

-- the rule of sequence
pub >>=-Ends {ℓ κ ρ} :
    {A : Type ℓ} {B : Type κ} (G : A → Db → Type ρ) (H : B → Db → Type ρ)
    (S : Response → Db → Type ρ) (F : Db → Type ρ) (m : Flow A) (f : A → Flow B) (db : Db)
    → Ends G S F (m db)
    → ((a : A) (db' : Db) → G a db' → Ends H S F (f a db'))
    → Ends H S F ((m >>= f) db)
unfolding Ends
>>=-Ends {A = A} {B = B} G H S F m f db h k = split (m db) h
  where
    split :
        (p : Outcome A × Db)
        → Ends G S F p
        → Ends H S F (
            let (o, db') = p in
            elim o [ go a ↦ f a db' | stop r ↦ (stop r, db') | fault ↦ (fault, db') ])
    split (go a, db') h = k a db' h
    split (stop r, db') h = h
    split (fault, db') h = h
