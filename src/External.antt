-- ===== src/External.antt =====
-- What the modules take from outside the repository: the Cosmos SDK's bank keeper, its address
-- decoder, and ed25519 verification. Each is a parameter of the handlers that call it.
use wevibe_chain.Common.{ℕ, ◌+◌, ◌≡◌, Bool, Option, Text, Result, ok}

-- crypto/ed25519's Verify(public key, message, signature), and sdk.AccAddressFromBech32.
pub record Sdk : Type 0 where
  pub ed25519_verify : Text → Text → Text → Bool
  pub acc_address_from_bech32 : Text → Option Text

-- The bank keeper over its own state `B`, for the coin "uvibe". `module_balance` observes the
-- balance of a module account; the two laws are what minting and sending do to it.
pub record BankKeeper (B : Type 0) : Type 0 where
  pub mint_coins : Text → ℕ → B → Result B
  pub send_coins_from_module_to_account : Text → Text → ℕ → B → Result B
  pub module_balance : Text → B → ℕ
  pub mint-balance :
      (m : Text) (n : ℕ) (b b' : B)
      → mint_coins m n b ≡ ok b'
      → module_balance m b' ≡ module_balance m b + n
  pub send-balance :
      (m a : Text) (n : ℕ) (b b' : B)
      → send_coins_from_module_to_account m a n b ≡ ok b'
      → module_balance m b' + n ≡ module_balance m b
