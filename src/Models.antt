-- ===== src/Models.antt =====
-- brain/merita/models.py: the domain. Time stamps (`ran_at`, `settled_at`, `created_at`) are not
-- modelled: no code reads them.
use merita.Prelude.{String, Bool, ◌&&◌, Option, is_some}
use merita.Prelude.Int.{ℤ, pos, ltb_ℤ}
use merita.Prelude.Float.{Float}

pub data Rail : Type 0 where
  sap_escrow ace_x402 : Rail

pub data BountyState : Type 0 where
  draft open_ claimed submitted verifying settled failed quarantined expired : BountyState

pub data Tier : Type 0 where
  deterministic adjudicated arbitrated : Tier

pub record Verdict : Type 0 where
  pub passed : Bool
  pub tier_used : Tier
  pub confidence : Float
  pub reason : String
  pub reveal_valid : Bool

pub record Receipt : Type 0 where
  pub rail : Rail
  pub leg : String
  pub payer : String
  pub payee : String
  pub amount_atomic : ℤ
  pub token : String
  pub tx : Option String

unfoldable pub is_countable : Receipt → Bool
is_countable r = is_some r.tx && ltb_ℤ (pos 0) r.amount_atomic
