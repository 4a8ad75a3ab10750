-- ===== src/Router.antt =====
-- brain/merita/rails/router.py: the settlement router. `sidecar` is the chain seam.
mod Reading
pub mod Conservation
pub use Reading.{released}
unfoldable pub use Reading.{read_lock, read_signature, ace_receipt, read_ace}
use merita.Prelude.{
  ℕ, zero, suc, ◌+◌, ◌*◌, ◌/◌, ◌-◌, String, Option, none, some, List, [], ◌∷◌, concat,
}
use merita.Prelude.Int.{ℤ, pos, negsuc, ◌+ℤ◌}
use merita.Prelude.Attempt.{Attempt, returned, raised}
use merita.Json.{Json, null, int, str, obj, Fields, end, field, get, lookup, or_else}
use merita.Models.{Receipt, sap_escrow, ace_x402}
use merita.Facilitator.{as_object}
use merita.Sidecar.{Sidecar, Work, ◌>>=◌, pure, lift, post}

abbrev pub take_rate_bps : ℕ
take_rate_bps = 300

-- `z // 10_000` on Python's integers, which rounds down
unfoldable pub floor_bps : ℤ → ℤ
floor_bps (pos n) = pos (n / 10000)
floor_bps (negsuc n) = negsuc (n / 10000)

abbrev times_rate : ℤ → ℤ
times_rate (pos n) = pos (n * take_rate_bps)
times_rate (negsuc n) = negsuc ((n + 1) * take_rate_bps - 1)

unfoldable pub referee_fee : ℤ → ℤ
unfolding floor_bps
referee_fee reward = floor_bps (times_rate reward)

module _ (sidecar : Sidecar) (int_of : Json → Option ℤ) (referee_pda : String) where
  abbrev pub lock_body : String → String → ℤ → String → Fields
  lock_body poster_wallet_path worker_pda amount memo =
      field "posterWalletPath" (str poster_wallet_path) (
        field "payeeAgentPda" (str worker_pda)
          (field "amountLamports" (int amount) (field "memo" (str memo) end)))

  -- the escrow's id and the signature
  unfoldable pub lock_reward : String → String → ℤ → String → Work (Json × Json)
  unfolding post referee_fee read_lock
  lock_reward poster_wallet_path worker_pda reward_lamports memo = do
    answer ← post sidecar "/sap/escrow/lock" (
        lock_body poster_wallet_path worker_pda (reward_lamports +ℤ referee_fee reward_lamports)
          memo)
    lift (read_lock answer)

  -- two receipts, the worker's reward and the referee's fee
  unfoldable pub release : String → Json → String → ℤ → Work (List Receipt)
  unfolding post referee_fee read_signature
  release poster_wallet_path escrow_id worker_pda reward_lamports = do
    answer ←
        post sidecar "/sap/escrow/settle"
          (field "posterWalletPath" (str poster_wallet_path) (field "escrowId" escrow_id end))
    tx ← lift (read_signature answer)
    pure (
        released poster_wallet_path worker_pda referee_pda reward_lamports
          (referee_fee reward_lamports) tx)

  unfoldable pub refund : String → Json → Work Json
  unfolding post
  refund poster_wallet_path escrow_id =
      post sidecar "/sap/escrow/withdraw"
        (field "posterWalletPath" (str poster_wallet_path) (field "escrowId" escrow_id end))

  unfoldable pub pay_ace : String → Json → String → Work (Json × Option Receipt)
  unfolding post read_ace
  pay_ace service args worker_pda = do
    answer ← post sidecar "/ace/call" (field "service" (str service) (field "args" args end))
    lift (read_ace int_of service worker_pda answer)
