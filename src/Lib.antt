-- ===== src/Lib.antt =====
-- FairCross: a sealed-batch crossing engine (cpp/). Orders for one instrument are collected in a batch,
-- a uniform price is found that trades the largest volume, the volume is allocated to the orders of
-- both sides, and the fills are settled on a ledger of accounts.
--
-- The parts, the files that model them, and the code that these stand for:
-- + Domain/Error: cpp/include/faircross/domain/error.hpp (`Result`, the error kinds and messages).
-- + Domain/Words, Domain/Price, Domain/Qty, Domain/Money: cpp/include/faircross/domain/primitives.hpp.
-- + Domain/Order, Domain/Fill, Domain/Oracle: order.hpp, fill.hpp and oracle.hpp beside it.
-- + Domain/Account, Domain/Ledger: account.hpp beside it (`AccountState`, `Ledger`).
-- + Engine/Batch: cpp/src/engine/batch.cpp (`Batch::Batch`, `Batch::create`).
-- + Engine/Auction: cpp/src/engine/auction.cpp, one function for each of the file, and one for each
--   loop. Its children: Totals (direct sums), Candidates (the sorted distinct prices), Bucketing and
--   Running (the loops), Reference and Optimal (their results), Clearing (the outcome).
-- + Engine/Partition, Engine/Allocation: partition.hpp and cpp/src/engine/allocation.cpp. Children of
--   the latter: Fills (maps of fills), Shares (rounding), Precedence (who is served first), InTheMoney, AtTheMoney, OneSide (the rules of
--   a side), Merging, Whole.
-- + Engine/Fills: cpp/src/engine/fill.cpp (`generate_canonical_fills`).
-- + Engine/OracleValidation: cpp/include/faircross/engine/oracle_validation.hpp.
-- + Engine/Transition: cpp/src/engine/transition.cpp (`apply_batch_transition`, `execute_batch`).
--   Children: Movements (one fill), Conservation (lists of fills), Balance (the guards), Execution.
-- + Engine/Checker: cpp/src/engine/checker.cpp (`verify_transition`). Children: Sound, Complete.
-- + Engine/Accounting: cpp/src/engine/accounting.cpp, with the child Sound.
-- + Domain/Encoding: encoding.hpp of cpp/include/faircross/domain/. Children: Bytes, Injective.
-- + Commitments/Sha256, Merkle, Payloads, LedgerRoot: cpp/include/faircross/commitments/ with sha256.cpp and
--   merkle.cpp of cpp/src/commitments/. Children: Sha256/Standard (FIPS 180-4), Compression and
--   Padding (the code against it), Bytes (arrays and digests), Collision (equal hashes), Merkle/Inclusion and Binding, Payloads/Binding and Header, LedgerRoot/Accounts.
-- + MarketData/Messages, Book, Parser, Replay: the headers of cpp/include/faircross/marketdata/ and
--   book.cpp, parser.cpp and replay.cpp of cpp/src/marketdata/ (`OrderBook`, `ItchStreamParser`,
--   `SlicePacketSource`, `ItchReplayEngine`, `OracleBridge`). Children of Book: Levels, Tally (the sums
--   that the levels should be), Invariant, Best; of Parser: Wire (the format, written down on its own),
--   Reads, RoundTrip; of Replay: Laws.
-- + Proof/R1cs: cpp/include/faircross/proof/r1cs.hpp (`ConstraintSystem`). Proof/Statement: statement.hpp
--   beside it. Proof/Constraints: the synthesizers of cpp/src/proof/constraints/, in the children
--   OrderValidity (with OneOrder and Exact, which read its constraints), CompleteInput (with
--   merkle_inclusion.cpp), Clearing (with allocation.cpp), FillBounds, Conservation and Oracle.
-- + Proof/Prover and Proof/Verifier: prover.cpp and verifier.cpp of cpp/src/proof/. Children of the former:
--   Bound and Sound (what the prover has checked), Counted and Accepted (the verifier on its proofs).
-- + Proof/Session: state.cpp, prover.cpp and verifier.cpp of cpp/src/proof/recursive/. Children: Chain (a
--   session as a relation between states), Accepted (its verifier), Binding (what the history keeps).
-- + Adversary: cpp/src/adversary/mutator.cpp (`AdversarialOperator`), with the children Matrix (matrix.cpp
--   beside it) and Honest (runs of the operator).
-- + Simulator/Rng: cpp/include/faircross/simulator/rng.hpp (`DeterministicRng`).
-- + Prelude: Boolean tests, lists, sums, sorting and ordered maps. Tests: runs on concrete input.
-- `execute_batch` calls the auction, the allocation, the fills and the settlement in this order; each
-- is a function here, with the state it changes passed on, and an error ends the whole. The checker
-- runs the same stages on its own and compares. The replay takes messages from the packet source, which
-- calls the parser, and applies each to the book; the book's midpoint becomes a reference price, which
-- Engine/OracleValidation judges. Orders, ledgers, batches and oracle references are encoded, hashed
-- and, for lists of them, joined in Merkle trees. A method that changes an object before it fails
-- returns the object beside the error. The prover binds a witness to the public inputs, runs the checker
-- and the accounting on it, builds one constraint system out of all subrelations and checks that the
-- witness satisfies it; a session folds such steps into a running state.
--
-- How the model stands to the code. A number is a natural number; the checked operations test against
-- the limits of the types, and unchecked ones wrap around at 2 ^ 64 or 2 ^ 128 (add64, sub64, mul128,
-- to_u64). A byte that is no enumerator of `Side` is `invalid`. A `std::map` is a list of pairs with
-- ascending keys, a `std::set` such a map to the unit. `std::sort` is an insertion sort that keeps the
-- order of equal elements; the standard leaves that order open, and no theorem but those on runs
-- depends on it. An early return of an error of another type keeps its message only (`converted`).
-- A loop is a recursion over the list it walks. The loops over a stream of bytes are on fuel, the
-- length of the stream (and one round more for the replay), since each round consumes a byte at least;
-- where it runs out the result is `none`. The loop over the layers of a tree is on the number of its
-- leaves, since each layer is shorter than the one below. A byte is a natural number, shifted in as
-- `* 256 +` at the width of the value read; a fixed array of bytes is a list of them, or a record in
-- the messages. The checker takes `std::to_string` as a parameter; it shows in the text of errors only.
-- A scalar of a constraint system is the residue of the signed 128-bit number modulo 2 ^ 128. A
-- synthesizer takes the system with the scalars pushed so far (`Synthesis`) and returns both; a run of
-- `alloc_witness` and of the `push_back` of its scalars is one step, since the code pairs them in
-- order. The provers take `std::to_string`, the digits that a stream writes (`decimal`), and
-- `std::from_chars` as parameters; of the last two the sessions rely on numbers
-- of 64 bits being read back.
-- A hash is not injective, so what a commitment binds is stated as a choice: the committed values are
-- the same, or two different ones of the byte strings (LeafCollision) or of the pairs of nodes
-- (NodeCollision) that the code hashes for these very values have the same hash, which the entries
-- below call a collision of them. Such byte strings are of numbers below 256 (IsBytes), such nodes of 32
-- of them (IsDigest), which is asked of the arrays that the values hold and proved of what is computed. The standard's SHA-256 is written down on its own in Sha256/Standard,
-- its constants computed from the roots of primes.
--
-- Not modelled: the simulator beside its random numbers, which uses this core; the types `InvariantViolation` and
-- `BookLevel`, which nothing uses; and the command line, JSON, tests and benchmarks, which are input,
-- output and measurement.
pub mod Prelude
pub mod Domain
pub mod Engine
pub mod MarketData
pub mod Commitments
pub mod Proof
pub mod Adversary
pub mod Simulator
pub mod Tests
