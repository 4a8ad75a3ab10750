-- ===== src/Router/Conservation.antt =====
-- The money of brain/merita/rails/router.py: what is locked is what the receipts of the release pay.
use merita.Prelude.{
  ℕ, ◌+◌, ◌*◌, ◌/◌, ◌≤◌, ◌<◌, String, ◌≡◌, ap, refl, Option, List, [], ◌∷◌, ◌++◌, arith,
}
use merita.Prelude.Int.{ℤ, pos, ◌+ℤ◌, int_laws}
use merita.Prelude.Attempt.{returned}
use merita.Json.{Json, int, get, lookup, str, field, end}
use merita.Models.{Receipt}
use merita.Sidecar.{Sidecar, Post, World, post, lift, pure, Work, ◌>>=◌, >>=-returned, >>=-lift-log}
use merita.Router.{
  referee_fee, lock_reward, lock_body, release, released, read_lock, read_signature,
}

-- The fee on a reward is three percent of it, rounded down, and never more than the reward.
referee_fee_bounds :
    (reward : ℕ)
    → (fee : ℕ) × (referee_fee (pos reward) ≡ pos fee)
      × (fee * 10000 ≤ reward * 300)
      × (reward * 300 < (fee + 1) * 10000)
      × (fee ≤ reward)
unfolding referee_fee
referee_fee_bounds n = (n * 300 / 10000, refl, omega arith, omega arith, omega arith)

-- the sum of what receipts say was paid
abbrev pub paid_out : List Receipt → ℤ
paid_out [] = pos 0
paid_out (r ∷ rs) = r.amount_atomic +ℤ paid_out rs

+ℤ-zero : (a : ℤ) → a +ℤ pos 0 ≡ a
+ℤ-zero a = grind int_laws

module _ (sidecar : Sidecar) (int_of : Json → Option ℤ) (referee_pda : String) where
  release_pays :
      (poster worker : String) (escrow : Json) (reward : ℤ) (w : World) (rs : List Receipt)
      → (release sidecar int_of referee_pda poster escrow worker reward w).0 ≡ returned rs
      → (tx : Option String) × (released poster worker referee_pda reward (referee_fee reward) tx
          ≡ rs)
  unfolding release
  release_pays poster worker escrow reward w rs h =
      let pay : Option String → Work (List Receipt) =
        λ tx. pure (released poster worker referee_pda reward (referee_fee reward) tx) in
      let (answer, o, rest) =
        >>=-returned
          (post sidecar "/sap/escrow/settle"
            (field "posterWalletPath" (str poster) (field "escrowId" escrow end)))
          (λ answer. lift (read_signature answer) >>= pay) w h in
      let (tx, read, last) = >>=-returned (lift (read_signature answer)) pay _ rest in (tx, cc)

  -- A lock posts one request, whose amount is what a release of the same reward pays out by its
  -- receipts: nothing is left in the escrow, and nothing is paid that was not locked.
  pub escrow_conserves :
      (poster worker memo : String) (escrow : Json) (reward : ℤ) (w w' : World) (rs : List Receipt)
      → (release sidecar int_of referee_pda poster escrow worker reward w').0 ≡ returned rs
      → (p : Post) × ((lock_reward sidecar int_of referee_pda poster worker reward memo w).1.posts
          ≡ w.posts ++ p ∷ [])
        × (get "amountLamports" p.body ≡ int (paid_out rs))
  unfolding lock_reward post get lookup
  escrow_conserves poster worker memo escrow reward w w' rs h =
      let (tx, e) = release_pays poster worker escrow reward w' rs h in
      let total : paid_out rs ≡ reward +ℤ referee_fee reward =
        rw (← e, +ℤ-zero (referee_fee reward)) in
      (
        record {
          path = "/sap/escrow/lock";
          body =
              lock_body sidecar int_of referee_pda poster worker (reward +ℤ referee_fee reward)
                memo;
        },
        ap (λ (w : World). w.posts)
            (>>=-lift-log
              (post sidecar "/sap/escrow/lock" (
                lock_body sidecar int_of referee_pda poster worker (reward +ℤ referee_fee reward)
                  memo))
              read_lock w),
        rw total,
      )
