-- ===== src/Lib.antt =====
-- The core of superform-go-utils as a verification library: the transaction manager of evm/txmngr,
-- the event indexer of evm/eventindexer, the AWS KMS signer of evm/ethawskmssigner, the retrying HTTP
-- client and the backoff of pkg, and the token amounts and Polymarket orders of utils.
--
-- The parts and how they interact. The transaction manager keeps a queue of transactions and nonce lanes.
-- `SendTxAsync` (Txmngr/Submit) writes a row to the queue. `processTxs` (Txmngr/Batch) picks chains round
-- robin and, for each, locks the lane of the manager's sender, seeds the lane's next nonce from the queue,
-- selects the due rows and runs `processTransactionStep` (Txmngr/Step) on each. A step validates the
-- durable attempts of the row, asks the nodes for a receipt, and then settles the row (Txmngr/Settle),
-- reschedules it (Txmngr/Schedule), signs an attempt (Txmngr/Sign) whose hash the queue must own before it
-- is sent (Txmngr/Send), or reconciles a rejected one against the node's pending nonce. A settled row with
-- an intent is due for a status callback (Txmngr/Notify). The other parts stand alone: the event indexer
-- runs a goroutine per watched contract, the HTTP transport repeats an attempt, an order is built from
-- numbers, written as decimal text and hashed from that text.
--
-- Which file models which part:
--   Txmngr/Types, Errors    evm/txmngr/txmngr_provider/tx.go, and Go's wrapped errors
--   Txmngr/Mem, Mem/Query   evm/txmngr/txmngr_provider/mem/tx.go and util.go
--   Txmngr/Lane             `nonceLane` of evm/txmngr/txmngr.go, and so on in that file:
--   Txmngr/Fees             `GasFee`, `bumpGasPrice`, `suggestGasPrice`, `suggestEIP1559GasFee`
--   Txmngr/Broadcast        `classifyBroadcastError` and the predicates it asks
--   Txmngr/Message          `messageTail`, `messageHeadAndTail`, `appendReconciliationError`
--   Txmngr/Manager, Summary `txManager`, its cadences, `rpcErrorSummary`
--   Txmngr/Schedule, Settle `scheduleNextCheck`, `persistTerminal` and their kin
--   Txmngr/Attempts, Sign   `validatePersistedAttempts`, `signAttempt`, `persistUniqueAttempt`
--   Txmngr/Send, Step       `handleBroadcastFailure`, `processTransactionStep`
--   Txmngr/Batch, Notify    `processLaneBatch`, `processTxs`, `deliverStatusNotifications`
--   Txmngr/Submit           `SendTxAsync`, `transactionPayloadHash`
--   Txmngr/Action           the state passing that these methods are written in
--   EventIndexer            evm/eventindexer/event_indexer.go: the state and what runs under its lock
--   EventIndexer/Registrations  `AddContract`, `RemoveContract`, `processLogs`
--   EventIndexer/Steps      the steps that callers, the watcher and the goroutines take, interleaved
--   Signer                  evm/ethawskmssigner/signer.go and pk_cache.go
--   Backoff                 pkg/backoff/backoff.go
--   HttpClient              pkg/http_client/http.go: `attempt` and `RoundTrip`
--   HttpClient/Body, Building  `responseBody.Read`, and the client builder
--   Units                   utils/units/units.go
--   Polymarket              utils/polymarket/order.go: building and validating orders
--   Polymarket/Digest       `Order.Hash`, and utils/polymarket/constants.go
--   Polymarket/Decimal      `ParseFixedPoint`, `DecimalToE6`
--   Prelude                 texts as bytes, Go maps as association lists, tests, stable sort, integers,
--                           decimal text, white space, 64-bit wrap-around
-- The files in the folders below these hold the proofs, named for what they prove; Txmngr/Safety,
-- Txmngr/Nonces and Txmngr/Guarantees are about whole passes, and Txmngr/Tests runs the model at concrete inputs.
--
-- State. In Txmngr an action takes the store of the queue, the lane of the batch, a tick and the trace
-- of outward effects, and returns a result or an error with the new state; what was written before an
-- error stays written. Each call of the clock, a node, the signer or a hook takes the next tick, and
-- the manager's fields answer it by a function of that tick: so a theorem about every manager is about
-- every sequence of answers. The functions for hashing a payload, rendering a hash and redacting a text
-- are fields too. A signed transaction is the record of what the code reads of it (hash, nonce, chain,
-- fees, signer). The trace notes with each transaction handed to a node who owned its hash in the queue
-- at that moment. The event indexer is one state: what the mutex guards, the goroutines with their
-- variables, and the channels; each call under the lock and each turn of a loop is a function of it,
-- and `Step` lets them interleave freely. The HTTP client and the backoff take what the environment
-- does in the i-th attempt as a function of i. A caller of `AddContract` is taken to add only channels
-- that the indexer has not closed. Keccak-256, the ABI encoder, the hexadecimal forms, the KMS, DER and
-- the recovery of a key are parameters.
--
-- Bounds. Nonces are uint64 with their wrap-around and attempt counters uint32; fees are natural numbers,
-- as no node reports a negative one; times are nanoseconds. Waits in
-- Backoff and HttpClient are int64 nanoseconds that wrap around. All loops recurse on their lists, or on
-- the number of rounds that the source gives (hash collisions, attempts), so every function is total.
--
-- What is not modelled. The rows of a Go map are read in one order, that of the association list, where
-- Go takes a random one; the decimals of utils/units are natural numbers, where Go's int ends at 2^63;
-- of the errors of the reader under a response body only the end of the input is modelled. The
-- goroutines of `processTxs` and of the notification pass run one after the other, and the lanes of
-- other processes show only through the lane locks. `Start`, `Stop`, `runLoop` and `WaitTxCompleted` of
-- evm/txmngr (goroutines, tickers, contexts) and its PostgreSQL provider (SQL) are left out, as are the
-- waits of the event indexer (`WaitGroup`, the `done` channels), the net/http client around the
-- transport and its request helpers, and the functions of utils/units on float64 and big.Rat. The other
-- packages of the repository (evm/confighooks, providers and the rest of utils) have no model.
pub mod Prelude
pub mod Txmngr
pub mod EventIndexer
pub mod Backoff
pub mod HttpClient
pub mod Units
pub mod Polymarket
pub mod Signer
