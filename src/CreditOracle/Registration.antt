-- ===== src/CreditOracle/Registration.antt =====
-- Feeders and lenders in contracts/credit-oracle/src/lib.rs: an append-only index of addresses and
-- a flag for each, `false` once deregistered.
use stellar_did_credit.Base.{
  Bool, List, Map, [], contains, false, if◌then◌else◌, nat_eq, push_back, put, some, true,
  unwrap_or, ◌∷◌,
}
use stellar_did_credit.Host.{Address, gets, modify, pure, ◌>>=◌, ◌>>◌}
use stellar_did_credit.CreditOracle.State.{Event, Method, Oracle, emit, expect_admin}

unfoldable pub register_feeder : Address → Address → Method (Unit {0})
unfolding expect_admin
register_feeder admin feeder = do
  expect_admin admin
  stored ← gets (λ s. s.feeders_index)
  let feeders = unwrap_or stored []
  if contains feeder feeders
      then pure tt
      else modify (λ s. record s { feeders_index = some (push_back feeders feeder) })
  modify (λ s. record s { trusted_feeder = put feeder true s.trusted_feeder })
  emit (Event.fdr_reg feeder)

unfoldable pub deregister_feeder : Address → Address → Method (Unit {0})
unfolding expect_admin
deregister_feeder admin feeder = do
  expect_admin admin
  modify (λ s. record s { trusted_feeder = put feeder false s.trusted_feeder })
  emit (Event.fdr_de_reg feeder)

unfoldable pub register_lender : Address → Address → Method (Unit {0})
unfolding expect_admin
register_lender admin lender = do
  expect_admin admin
  stored ← gets (λ s. s.lenders_index)
  let lenders = unwrap_or stored []
  if contains lender lenders
      then pure tt
      else modify (λ s. record s { lenders_index = some (push_back lenders lender) })
  modify (λ s. record s { trusted_lender = put lender true s.trusted_lender })
  emit (Event.lnd_reg lender)

unfoldable pub deregister_lender : Address → Address → Method (Unit {0})
unfolding expect_admin
deregister_lender admin lender = do
  expect_admin admin
  modify (λ s. record s { trusted_lender = put lender false s.trusted_lender })
  emit (Event.lnd_de_reg lender)

-- The loop of `list_feeders` and `list_lenders`, over the local vector `active`.
unfoldable pub push_active : Map Address Bool → List Address → List Address → List Address
push_active trusted [] active = active
push_active trusted (a ∷ rest) active =
    push_active trusted rest (if unwrap_or (trusted a) false then push_back active a else active)

unfoldable pub list_feeders : Oracle → List Address
unfolding push_active
list_feeders s = push_active s.trusted_feeder (unwrap_or s.feeders_index []) []

unfoldable pub list_lenders : Oracle → List Address
unfolding push_active
list_lenders s = push_active s.trusted_lender (unwrap_or s.lenders_index []) []
