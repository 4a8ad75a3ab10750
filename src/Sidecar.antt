-- ===== src/Sidecar.antt =====
-- brain/merita/sidecar.py as the brain sees it: `post` sends a body to a path of the chain seam, and
-- returns the decoded answer or raises. The answer may depend on everything that was posted before.
use merita.Prelude.{String, Bool, true, List, [], ◌∷◌, ◌++◌, ◌≡◌, refl, ap}
use merita.Prelude.Attempt.{Attempt, returned, raised}
use merita.Json.{Json, Fields}
use merita.Models.{Receipt}

pub record Post : Type 0 where
  pub path : String
  pub body : Fields

abbrev pub Sidecar : Type 0
Sidecar = List Post → Post → Attempt Json

-- what `observe_spec` and `observe` add to the integrity graph
pub data Observation : Type 0 where
  spec_seen : String → String → Observation
  receipt_seen : Receipt → Observation

-- What was posted, and what the integrity graph was shown, in order.
pub record World : Type 0 where
  pub posts : List Post
  pub observed : List Observation

-- What the brain does: a result or an exception, and the world after it.
abbrev pub Work {ℓ} : Type ℓ → Type ℓ
Work A = World → Attempt A × World

infixl 5 ◌>>=◌
abbrev pub ◌>>=◌ {ℓ κ} : {A : Type ℓ} {B : Type κ} → Work A → (A → Work B) → Work B
◌>>=◌ m f log = let (o, log') = m log in elim o [ returned a ↦ f a log' | raised ↦ (raised, log') ]

abbrev pub pure {ℓ} : {A : Type ℓ} → A → Work A
pure a log = (returned a, log)

-- a step that posts nothing and may raise
abbrev pub lift {ℓ} : {A : Type ℓ} → Attempt A → Work A
lift o log = (o, log)

unfoldable pub post : Sidecar → String → Fields → Work Json
post sidecar path body w = (
  sidecar w.posts (record { path = path; body = body }),
  record w { posts = w.posts ++ (record { path = path; body = body }) ∷ [] },
)

-- `try`: an exception becomes a value
abbrev pub attempt {ℓ} : {A : Type ℓ} → Work A → Work (Attempt A)
attempt m w = (returned (m w).0, (m w).1)

unfoldable pub observe : Observation → Work Bool
observe o w = (returned true, record w { observed = w.observed ++ o ∷ [] })

-- Inversion of a bind that returned.
pub >>=-returned {ℓ κ} :
    {A : Type ℓ} {B : Type κ} (m : Work A) (f : A → Work B) (log : World) {b : B}
    → ((m >>= f) log).0 ≡ returned b
    → (a : A) × ((m log).0 ≡ returned a) × ((f a (m log).1).0 ≡ returned b)
>>=-returned {A = A} {B = B} m f log {b = b} h = split (m log) h
  where
    split :
        (p : Attempt A × World)
        → (let (o, log') = p in
            elim o as (λ o. Attempt B × World) [
              | returned a ↦ f a log'
              | raised ↦ (raised, log')
            ]).0
          ≡ returned b
        → (a : A) × (p.0 ≡ returned a) × ((f a p.1).0 ≡ returned b)
    split (returned a, log') h = (a, refl, h)
    split (raised, log') h = cc

-- A bind that returned ran its second part in the world that the first one left.
pub >>=-runs {ℓ κ} :
    {A : Type ℓ} {B : Type κ} (m : Work A) (f : A → Work B) (w : World) {b : B}
    → ((m >>= f) w).0 ≡ returned b
    → (a : A) × ((m w).0 ≡ returned a) × ((m >>= f) w ≡ f a (m w).1)
>>=-runs {A = A} {B = B} m f w {b = b} h = split (m w) h
  where
    split :
        (p : Attempt A × World)
        → (let (o, w') = p in
            elim o as (λ o. Attempt B × World) [ returned a ↦ f a w' | raised ↦ (raised, w') ]).0
          ≡ returned b
        → (a : A) × (p.0 ≡ returned a)
          × ((let (o, w') = p in
                elim o as (λ o. Attempt B × World) [ returned a ↦ f a w' | raised ↦ (raised, w') ])
              ≡ f a p.1)
    split (returned a, w') h = (a, refl, refl)
    split (raised, w') h = cc

-- What follows a part that returned, and what a part that raised ends with.
pub >>=-goes_on {ℓ κ} :
    {A : Type ℓ} {B : Type κ} (m : Work A) (f : A → Work B) (w : World) (a : A)
    → (m w).0 ≡ returned a
    → (m >>= f) w ≡ f a (m w).1
>>=-goes_on {A = A} {B = B} m f w a e =
    ap
      (λ (o : Attempt A). elim o as (λ o. Attempt B × World) [
        | returned x ↦ f x (m w).1
        | raised ↦ (raised, (m w).1)
      ])
      e

pub >>=-stops {ℓ κ} :
    {A : Type ℓ} {B : Type κ} (m : Work A) (f : A → Work B) (w : World)
    → (m w).0 ≡ raised
    → (m >>= f) w ≡ (raised, (m w).1)
>>=-stops {A = A} {B = B} m f w e =
    ap
      (λ (o : Attempt A). elim o as (λ o. Attempt B × World) [
        | returned x ↦ f x (m w).1
        | raised ↦ (raised, (m w).1)
      ])
      e

-- What only reads leaves the log as the step before left it.
pub >>=-lift-log {ℓ κ} :
    {A : Type ℓ} {B : Type κ} (m : Work A) (f : A → Attempt B) (log : World)
    → ((m >>= (λ a. lift (f a))) log).1 ≡ (m log).1
>>=-lift-log {A = A} {B = B} m f log = split (m log)
  where
    split :
        (p : Attempt A × World)
        → (let (o, log') = p in
            elim o as (λ o. Attempt B × World) [
              | returned a ↦ lift (f a) log'
              | raised ↦ (raised, log')
            ]).1
          ≡ p.1
    split (returned a, log') = refl
    split (raised, log') = refl
