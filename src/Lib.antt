-- ===== src/Lib.antt =====
-- The automated trading bot: its simulated ledger and execution, the contracts of its domain, and the
-- commit boundary of its protected operations.
--
-- The program simulates trading for research and fixes, as values without input or output, the
-- contracts under which events, commands and state transitions may be stored and delivered. An
-- order is submitted to a simulated order management, which executes it against market snapshots
-- at modelled costs and books fills; a fill is posted as a trade to an append-only ledger, whose
-- events determine cash, positions and results and can be replayed. Independently, a transition of
-- a generic state is requested under a concurrency token, its events are admitted once by
-- idempotency records, and inbox and outbox records carry them to handlers and destinations;
-- versioned bytes are read through a registry of codecs and upcasts, and a trade needs an approval
-- that matches its proposal. A protected operation is committed in serializable transactions, retried
-- within a deadline; a journal on the supervisor's side records what may have taken effect, and forbids
-- new exposure until an independent authority has signed what became of it.
--
-- The files, with the code that each models, under src/automated_trading_bot/:
--   Prelude and its children: names of the libraries, tests on numbers, lists, integers, texts as
--     Python compares and sorts them, and calls that may raise (Result).
--   Decimal: Python's Decimal at its default context, 28 digits rounded half to even, for the
--     finite values that the code admits. Exponents are unbounded: overflow, underflow and the
--     special values are not modelled.
--   Research/Ledger: research/simulation_ledger.py. Event is FinancialEvent with its shape checks,
--     State is _transition and the accounts, Book is SimulationLedger with apply and replay.
--     Positions, Accounting, Trades and History hold the proofs.
--   Research/Execution: research/simulated_execution.py. Costs, Orders, Oms (SimulatedOms with
--     submit, cancel, mark_unfilled and apply_fill) and Execute (execute); Records, Keeps, Commands
--     and Runs hold the proofs, Runs over any sequence of calls, failing ones included.
--   Research/Posting: post_fill_to_ledger of the same file, with the proofs in Once.
--   Domain/Versioning: domain/versioning.py. Registry, Interpret; Paths and Readings hold proofs.
--   Domain/Transitions: domain/state_transitions.py.
--   Domain/Delivery: domain/delivery.py, with the proofs in Outcomes.
--   Domain/Concurrency: domain/concurrency.py and the dispositions of domain/persistence.py.
--   Domain/Idempotency: domain/idempotency.py, with the proofs in Duplicates.
--   Domain/Composition: domain/transaction_composition.py, with the proofs in Members.
--   Domain/Decision: domain/decision.py, with the proofs in Matching.
--   Stage5/Operation: the request of stage5/commit_boundary/operation_envelope.py; Canonical is its
--     normalisation and validation, Rebuilt holds the proofs. bind_scope is not modelled.
--   Stage5/Commit: stage5/commit_boundary/postgres_serializable.py. Outcome is its values and their
--     checks, Effects the calls that leave the module and the calls that may raise, Envelope the parts
--     of SerializableOperationEnvelope around one connection, Attempts its method execute. Triples is a
--     small logic of calls that may raise; Kept, Ended and Returned carry a relation between outcomes
--     and the world through execute; Truth instantiates it. Counting, Quietness, Records and Bound
--     count its records.
--   Stage5/Authority: stage5/commit_boundary/recovery_authority.py, with the proofs in Accepted,
--     Once and Later. The nonce is the primary key of the store of consumed receipts.
--   Stage5/Admission: stage5/commit_boundary/g00_auth.py, with the proofs in Accepted, Once and
--     Signed.
--   Stage5/Restriction: stage5/commit_boundary/restriction_publisher.py; Readback holds the proofs.
--   Stage5/Journal: stage5/commit_boundary/recovery_journal.py. Records is its tables as its CREATE
--     TABLE statements declare them, Connection _connect and deny_new_exposure, Intents the
--     operations on one row, Opening _construct with _initialize and _restore_fail_closed_gate,
--     Recovery the bootstrap and the requalification, Resolution resolve_authenticated_terminal,
--     Commands sequences of operations. Kept, Laws, Lives and Resolved carry what the statements keep
--     through every operation; Rows, WellFormed, Holding, Held, Evidence, Closing, Exposure,
--     Cleared and Reopening hold the proofs.
--   The modules named Tests run the models on concrete values.
--
-- How the models stand for the code: a method of a frozen data class is a function that returns the
-- next value; an exception is an error value, named for its message; the checks of Python types are
-- dropped, since the models are typed, and __post_init__ is a function named validate_... or
-- require_...; UUIDs are their integers, timestamps their microseconds, digests and currencies
-- their texts, byte strings lists of numbers; a dictionary is a list in insertion order, and a
-- lookup takes the first match. The parameters of an operation tell a dict from a MappingProxyType.
--
-- Bounds: the loop that searches for upcasts (_path) is recursion on fuel, one step more than the
-- version of its target; routes only raise versions, so that the search never ends for want of fuel
-- (Domain.Versioning.Paths). All other recursion is on lists.
--
-- The attempts of execute are recursion on the attempts that are left. How a connection of the
-- journal ends (completed, refused, rolled back, late, or with a commit whose effect is unknown) and
-- which writes of a denial succeed are arguments of its operations, so that a theorem over all of them
-- covers every deadline, lock and crash of a commit. The journal's operations run one after another,
-- and one reading of the clock stands for those that an operation takes.
--
-- Parameters: the UUID that _uuid hashes out of a fill, SHA-256, and the codecs and upcasts of a
-- registry; the clock, the connections and the backend of the serializable envelope (Environment);
-- hashing, hexadecimal digits and modular powers of the recovery authority (Crypto) and of the
-- admission receipts (Codes); the connection of the restriction publisher;
-- Unicode data, upper case and the digest of a request (Python); the row that a
-- SELECT without an order fetches first. Nothing is assumed about any of them but where a theorem
-- lists it among its conditions. The hypothesis Database of Stage5/Commit says what a transactional
-- store does: a transaction that has written nothing looks up what is durable, a commit that returns makes durable
-- what its transaction has looked up, and cleanup calls change nothing for good.
--
-- Not modelled: the JSON codecs of the envelopes, the services, databases and processes of stage5,
-- datasets, market data, research statistics and strategies, monitoring, and the operator console.
pub mod Prelude
pub mod Decimal
pub mod Research
pub mod Domain
pub mod Stage5
