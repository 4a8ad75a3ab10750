-- ===== src/A2aWorker/Cli.antt =====
-- The command line of asp/a2a_worker.py: `_run` and `_json_from`. A command that cannot be started or
-- does not end in time raises. The commands that were run are a log, on which the answer may depend.
use merita.Prelude.{
  ℕ, String, Bool, Option, none, some, List, [], ◌∷◌, ◌++◌, reverse, if◌then◌else◌, eqb, codes, ◌≡◌,
  refl, ap,
}
use merita.Prelude.Attempt.{Attempt, returned, raised}
use merita.Json.{Json}
use merita.Runtime.{Runtime}

pub record CliResult : Type 0 where
  pub ok : Bool
  pub stdout : String
  pub stderr : String

abbrev pub Command : Type 0
Command = List String

-- What the worker does: a result or an exception, and the commands that were run.
abbrev pub Run {ℓ} : Type ℓ → Type ℓ
Run A = List Command → Attempt A × List Command

infixl 5 ◌>>=◌
abbrev pub ◌>>=◌ {ℓ κ} : {A : Type ℓ} {B : Type κ} → Run A → (A → Run B) → Run B
◌>>=◌ m f log = let (o, log') = m log in elim o [ returned a ↦ f a log' | raised ↦ (raised, log') ]

abbrev pub pure {ℓ} : {A : Type ℓ} → A → Run A
pure a log = (returned a, log)

abbrev pub lift {ℓ} : {A : Type ℓ} → Attempt A → Run A
lift o log = (o, log)

unfoldable pub run_command : (List Command → Command → Attempt CliResult) → Command → Run CliResult
run_command cli args log = (cli log args, log ++ args ∷ [])

-- the text from the first of a character on
unfoldable pub from_first : ℕ → List ℕ → List ℕ
from_first c [] = []
from_first c (d ∷ s) = if eqb d c then d ∷ s else from_first c s

-- `text[start : end + 1]`, empty where there is no `{` or no `}` behind it
unfoldable pub braced : List ℕ → List ℕ
unfolding from_first
braced s = reverse (from_first b'}' (reverse (from_first b'{' s)))

abbrev nonempty_loads : Runtime → List ℕ → Option Json
nonempty_loads rt [] = none
nonempty_loads rt (c ∷ s) = rt.loads (c ∷ s)

-- `_json_from`
unfoldable pub json_from : Runtime → String → Option Json
unfolding braced
json_from rt text = elim (rt.loads (codes text)) [
  | some j ↦ some j
  | none ↦ nonempty_loads rt (braced (codes text))
]

-- What follows a part that returned.
pub >>=-returned {ℓ κ} :
    {A : Type ℓ} {B : Type κ} (m : Run A) (f : A → Run B) (a : A) (log log' : List Command)
    → m log ≡ (returned a, log')
    → (m >>= f) log ≡ f a log'
>>=-returned {A = A} {B = B} m f a log log' e =
    ap
      (λ (p : Attempt A × List Command).
        let (o, l) = p in
        elim o as (λ o. Attempt B × List Command) [ returned x ↦ f x l | raised ↦ (raised, l) ])
      e

-- The rule of sequence: what holds if the first part raises, and of what follows if it returns.
pub >>=-rule {ℓ κ ρ} :
    {A : Type ℓ} {B : Type κ} (P : Attempt B × List Command → Type ρ) (m : Run A) (f : A → Run B)
    (log : List Command)
    → ((a : A) → (m log).0 ≡ returned a → P (f a (m log).1))
    → ((m log).0 ≡ raised → P (raised, (m log).1))
    → P ((m >>= f) log)
>>=-rule {A = A} {B = B} P m f log on_return on_raise = split (m log) on_return on_raise
  where
    split :
        (p : Attempt A × List Command)
        → ((a : A) → p.0 ≡ returned a → P (f a p.1))
        → (p.0 ≡ raised → P (raised, p.1))
        → P (
            let (o, log') = p in
            elim o as (λ o. Attempt B × List Command) [
              | returned a ↦ f a log'
              | raised ↦ (raised, log')
            ])
    split (returned a, log') g k = g a refl
    split (raised, log') g k = k refl
