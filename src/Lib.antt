-- ===== src/Lib.antt =====
-- The five Soroban contracts of the repository and its zero-knowledge circuit, and how they are
-- modelled.
--
-- The program is a set of on-chain contracts for decentralised credit scores. The identity oracle
-- (contracts/identity-oracle) keeps the credentials of subjects, anchored by trusted issuers. The
-- revocation registry (contracts/revocation-registry) keeps which credentials their issuers revoked.
-- The credit oracle (contracts/credit-oracle) keeps score inputs of subjects, computes their scores
-- and keeps the scoring weights behind a time lock. The registry tells the identity oracle of a
-- revocation, the identity oracle asks the registry whether a hash is revoked, and the credit oracle
-- asks the identity oracle for the credentials of a subject. The governance contract
-- (contracts/governance) lets registered voters decide on new scoring weights, and queues those of a
-- carried proposal in the credit oracle that it administers. The score-range verifier
-- (contracts/score-range-verifier) checks zero-knowledge proofs about a committed score; the circuit of
-- these proofs (zk/circuit) says what a prover is held to.
--
-- Files
--   Base, Base/*           booleans, lists, machine words, integers and maps over native numbers
--   Host                   what the contracts use of the host: Env, Outcome, the monad Call
--   Credential             the record of a credential in contracts/credit-oracle-types/src/lib.rs
--   RevocationRegistry/    contracts/revocation-registry/src/lib.rs
--     State, Admin, Revoke, Queries      storage and entry points, each by its name in the source
--     Steps                              the entry points that write as one relation
--     Effects, Batch, Decide             what a revocation and a batch leave, and how they end
--     Invariant, Permanence, Control, Pages   the theorems they are named for
--   CreditOracle/          contracts/credit-oracle/src/lib.rs, contracts/credit-oracle-types/src/lib.rs
--     Types, State                       records, errors, storage, events, private helpers
--     Scoring, Scoring/*                 compute_score_pure and the recency decay
--     Admin, Registration, Inputs, Weights, Compute, Reading, Disputes   the entry points
--     Steps, Frame                       the entry points that write as one relation, and what
--                                        each of them leaves alone
--     Control, Timelock, Index, Listing, Repayments, Migration, Scores, Success, Tally, Writes,
--     DisputeMoves, DisputeIndex         the theorems they are named for
--   IdentityOracle/        contracts/identity-oracle/src/lib.rs
--     State, Admin, Credentials, Identities, Queries   storage and entry points
--     Steps                              the entry points that write as one relation
--     Active, Deactivation, Marks        the theorems they are named for
--     Exact, ExactSteps, Links, ExactReach   the cached count of active credentials
--   Governance/            contracts/governance/src/lib.rs
--     State, Admin, Voters, Proposals    storage and entry points
--     Client                             the wrappers of contracts/credit-oracle-types/src/lib.rs
--     Steps                              the entry points that write as one relation
--     Effects, Outcomes                  what each request leaves, and all of them as one relation
--     Ballots, TallySteps, Tallies, Weighing, Replay, Lifecycle, Permanence, Decisions, Control,
--     Paging                             the theorems they are named for
--   ScoreRangeVerifier/    contracts/score-range-verifier/src/lib.rs
--     State, Key, Encoding, Groth16, Contract   types, the embedded key, encodings, the pairing
--                                        check, and the entry points with their relation
--     Replay, Alias, Injective, Pairing, Version   the theorems they are named for
--   Circuit/               zk/circuit/src
--     Field                              what is used of the scalar field
--     Range, Commitment, Score           range.rs, commitment.rs, score.rs
--     Inputs, Constraints                score_circuit.rs: the inputs, and one definition for each group
--                                        of constraints of generate_constraints
--     Proofs                             lib.rs: making and checking proofs
--     Bits, Products, Checks, Exact, Exact/*, Conditions   the constraints as conditions on numbers
--     Opening, Reference                 the commitment and the score against their references
--     Soundness, Honest, Completeness    what a satisfied circuit shows, and who can satisfy it
--   Together               the credit oracle over the identity oracle
--   Together/Revocation    the identity oracle over the revocation registry
--   Together/Peers         the governance contract over the credit oracle
--   Together/Governed, Together/Voted, Together/Enacting   where the scoring weights come from
--   Together/Statement     the public inputs of the verifier and those of the circuit
--   */Tests                concrete states, and the theorems at them
--
-- Modelling
--   An entry point is a function from the environment and the state to an Outcome: `ok` with the
--   result and the new state, `err` with the contract error, or `trap` for a panic, a failed
--   `require_auth` or a failed call. The host discards the writes of `err` and `trap`, and so does
--   the model. The state is a record with a field for each constructor of the storage key type; a
--   key with arguments is a function to Option. Events, notices of the registry to the identity
--   oracle and the hash of an upgrade are kept in the state, newest first.
--   Addresses and hashes are numbers, as they are only compared; symbols are strings, and a host
--   string is the list of its bytes. Machine integers are native numbers with the saturation, cast
--   or overflow of the source written out; `i128` is ℤ, saturated where the source saturates. The
--   release profile keeps overflow checks on, so an unchecked `+` that overflows traps. Every loop
--   runs over a list or a number of rounds that is known before it starts, so no fuel is needed.
--   A typed read of a repayment record of the other layout traps, as the decoding of a struct with
--   another set of fields fails.
--
--   The circuit is modelled by the values that a prover assigns to its variables: a gadget is a function
--   of these values and a check is whether its constraints hold. The types of the witness are those of
--   the variables, so a statement on all witnesses is one on all assignments, dishonest ones included.
--   `PrimeField` has the operations of the scalar field of ark-bls12-381, `IsLarge` what is relied on:
--   residues below a modulus of at least 2 ^ 100 and canonical bits. SHA-256 and Groth16 are parameters.
--   In Together/Statement the host reads a field element from its bytes highest byte first, as
--   `Fr::from_bytes` of soroban-sdk does.
--
-- Calls between contracts are parameters of the contract that makes them: `IdentityClient` of the
-- credit oracle and `RegistryClient` of the identity oracle have a function for each entry point
-- that is called, with `none` for a call that traps, and `Peer` says whether the identity oracle
-- accepts a notice of the registry. `Governance.State.Peer` says how the credit oracle ends each call of
-- the governance contract, and `Crypto` has the hash, the XDR and the curve operations of the host that
-- the verifier uses. Nothing is assumed of them but what a theorem states. Together,
-- Together/Revocation and Together/Peers fill them with the models of the contracts that are called;
-- there, the calling contract counts as authorized in the call, and nobody else can authorize for it.
--
-- Not modelled: the time to live of storage entries (an entry never expires here); the client wrappers
-- in credit-oracle-types that no contract calls; in zk the draw of a random blinding and the program
-- that prints a key; the packages in TypeScript and wasm, which run outside the contracts.
pub mod Base
pub mod Governance
pub mod ScoreRangeVerifier
pub mod Host
pub mod Credential
pub mod RevocationRegistry
pub mod CreditOracle
pub mod IdentityOracle
pub mod Circuit
pub mod Together
