-- ===== src/Commitment.antt =====
-- The commitment H(source ‖ 0 ‖ nonce): `_commitment` of asp/store.py and `AcceptanceTest` of
-- brain/merita/models.py. SHA-256 is a parameter: a function from bytes to a hexadecimal digest.
pub mod Binding
use merita.Prelude.{ℕ, String, Bool, List, [], ◌∷◌, ◌++◌, ◌==◌, encode}

-- `h.update(b)` three times: the bytes that are hashed.
unfoldable pub preimage : String → String → List ℕ
preimage source nonce = encode source ++ (0 ∷ encode nonce)

module _ (sha256 : List ℕ → String) where
  unfoldable pub commitment : String → String → String
  unfolding preimage
  commitment source nonce = sha256 (preimage source nonce)

-- brain/merita/models.py: a test and its nonce, which the constructor draws from `secrets`.
pub record AcceptanceTest : Type 0 where
  pub source : String
  pub nonce : String

module _ (sha256 : List ℕ → String) where
  unfoldable pub test_commitment : AcceptanceTest → String
  test_commitment t = sha256 ((encode t.source ++ (0 ∷ [])) ++ encode t.nonce)

  unfoldable pub verify_reveal : String → String → String → Bool
  unfolding test_commitment
  verify_reveal source nonce c = test_commitment (record { source = source; nonce = nonce }) == c
