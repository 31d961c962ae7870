-- ===== src/Credential.antt =====
-- The record of a credential that the identity oracle hands to the credit oracle
-- (contracts/credit-oracle-types/src/lib.rs).
use stellar_did_credit.Base.{Bool, ℕ}
use stellar_did_credit.Host.{Address, Hash}

pub record IdentityVcRecord : Type 0 where
  pub vc_hash : Hash
  pub issuer : Address
  pub anchored_at : ℕ
  pub revoked : Bool
