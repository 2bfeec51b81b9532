-- ===== src/EventIndexer.antt =====
-- The live contract subscriptions of evm/eventindexer/event_indexer.go. The state holds what the
-- mutex guards, the goroutines that run `processLogs` with their own variables, and the channels; an
-- operation under the lock, and a turn of a goroutine's loop, is one function of the state. Contexts,
-- channels and clients are the environment's: whether a client subscribes is an argument.
pub mod Registrations
pub mod Steps
pub mod Counts
pub mod Bookkeeping
pub mod Consistent
pub mod Safety
pub mod Adding
pub mod Draining
mod Tests
use superform_go_utils.Prelude.{
  ℕ, zero, suc, ◌+◌, ◌-◌, Bool, true, false, ◌&&◌, ◌||◌, not, List, [], ◌∷◌, ◌++◌, Option, none,
  some, Text, String, codes, text_eq, nat_eq, ◌==◌, Eq, leb, nat_beq, if◌then◌else◌, Assoc, lookup,
  insert, remove, contains, is_none, is_some, length, decimal, sprintf, map,
}
use superform_go_utils.Prelude.Int.{ℤ, pos, negsuc}

abbrev pub Address : Type 0
Address = ℕ

abbrev pub Hash : Type 0
Hash = ℕ

abbrev pub Channel : Type 0
Channel = ℕ

-- A registration and the variables of its goroutine: `cancelled` is its context, `retry` says that a
-- tick waits in the channel of capacity one, `subscribed` that `sub` is not nil.
pub record ContractInfo : Type 0 where
  pub chain_id : ℕ
  pub address : Address
  pub events : List Hash
  pub event_chan : Channel
  pub cancelled : Bool
  pub retry : Bool
  pub subscribed : Bool

-- The chain and the address of a log; its content is opaque.
pub record RawEvent : Type 0 where
  pub event_chain : ℕ
  pub event_address : Address
  pub raw : Text

-- An error given to `onError`.
pub record Report : Type 0 where
  pub operation : Text
  pub report_chain : ℕ
  pub report_address : Address
  pub cause : Text

-- `contracts` maps a key to a registration, which is named by a number; `running` holds those whose
-- goroutine has not ended, the newest first. `subscriptions` counts the subscriptions that were
-- opened and not given back, `delivered` the events sent, the newest first. `panicked` says that a
-- closed channel was sent to or closed again.
pub record Indexer : Type 0 where
  pub clients : List ℕ
  pub contracts : Assoc Text ℕ
  pub running : Assoc ℕ ContractInfo
  pub outputs : Assoc Channel ℤ
  pub closed : List Channel
  pub next_id : ℕ
  pub reconnect_interval : ℤ
  pub reports_errors : Bool
  pub context_cancelled : Bool
  pub started : Bool
  pub stopped : Bool
  pub subscriptions : ℕ
  pub delivered : List (Channel × RawEvent)
  pub reports : List Report
  pub panicked : Bool

unfoldable pub new_indexer : List ℕ → ℤ → Bool → Indexer
new_indexer clients reconnect_interval reports_errors = record {
  clients = clients;
  contracts = [];
  running = [];
  outputs = [];
  closed = [];
  next_id = 0;
  reconnect_interval = reconnect_interval;
  reports_errors = reports_errors;
  context_cancelled = false;
  started = false;
  stopped = false;
  subscriptions = 0;
  delivered = [];
  reports = [];
  panicked = false;
}

pub data IndexerError : Type 0 where
  is_stopped : IndexerError
  interval_not_positive : IndexerError
  no_client : ℕ → IndexerError
  already_watched : ℕ → IndexerError
  subscription_failed : ℕ → IndexerError

abbrev pub not_positive : ℤ → Bool
not_positive (pos n) = nat_beq n 0
not_positive (negsuc n) = true

unfoldable pub start : Indexer → Option IndexerError × Indexer
start s =
    if s.stopped
    then (some is_stopped, s)
    else if s.started
    then (none, s)
    else if not_positive s.reconnect_interval
    then (some interval_not_positive, s)
    else (none, record s { started = true })

abbrev pub cancel : ContractInfo → ContractInfo
cancel contract = record contract { cancelled = true }

-- One registration of the running ones changes.
unfoldable pub update :
    ℕ → (ContractInfo → ContractInfo) → Assoc ℕ ContractInfo → Assoc ℕ ContractInfo
update id f [] = []
update id f ((j, contract) ∷ rest) =
    let others = update id f rest in
    if nat_beq j id then (j, f contract) ∷ others else (j, contract) ∷ others

-- A loop over `i.contracts`: each of its registrations changes.
unfoldable pub update_each :
    (ContractInfo → ContractInfo) → Assoc Text ℕ → Assoc ℕ ContractInfo → Assoc ℕ ContractInfo
update_each f [] running = running
update_each f ((key, id) ∷ rest) running = update_each f rest (update id f running)

-- `shutdown` cancels the indexer's own context before it takes the lock, ...
unfoldable pub cancel_context : Indexer → Indexer
cancel_context s = record s { context_cancelled = true }

-- ... and does the rest under it.
unfoldable pub stop_contracts : Indexer → Indexer
stop_contracts s =
    if s.stopped
    then s
    else record s { stopped = true; running = update_each cancel s.contracts s.running }

unfoldable pub shutdown : Indexer → Indexer
shutdown s = stop_contracts (cancel_context s)

-- One turn of `watch` at a tick: a retry is left where none waits.
abbrev pub ask_retry : ContractInfo → ContractInfo
ask_retry contract = record contract { retry = true }

unfoldable pub tick : Indexer → Indexer
tick s = record s { running = update_each ask_retry s.contracts s.running }

-- A context that is done: the caller's, or the indexer's own.
unfoldable pub context_done : ℕ → Indexer → Indexer
context_done id s = record s { running = update id cancel s.running }

-- `close`
unfoldable pub close_channel : Channel → Indexer → Indexer
close_channel c s =
    if contains s.closed c then record s { panicked = true } else record s { closed = c ∷ s.closed }

-- `contract.eventChan <- event`
unfoldable pub send : Channel → RawEvent → Indexer → Indexer
send c event s =
    if contains s.closed c
    then record s { panicked = true }
    else record s { delivered = (c, event) ∷ s.delivered }

-- A missing key of a Go map reads as 0.
abbrev pub or_zero : Option ℤ → ℤ
or_zero none = pos 0
or_zero (some n) = n

unfoldable pub count_of : Channel → Assoc Channel ℤ → ℤ
count_of c outputs = or_zero (lookup c outputs)

abbrev pub increment : ℤ → ℤ
increment (pos n) = pos (suc n)
increment (negsuc zero) = pos 0
increment (negsuc (suc n)) = negsuc n

abbrev pub decrement : ℤ → ℤ
decrement (pos zero) = negsuc 0
decrement (pos (suc n)) = pos n
decrement (negsuc n) = negsuc (suc n)

abbrev pub is_zero : ℤ → Bool
is_zero (pos n) = nat_beq n 0
is_zero (negsuc n) = false

-- `i.outputs[c]--`, and the last registration closes the channel.
unfoldable pub release : Channel → Indexer → Indexer
release c s =
    let left = decrement (count_of c s.outputs) in
    let lowered = record s { outputs = insert c left s.outputs } in
    if is_zero left
    then (let shut = close_channel c lowered in record shut { outputs = remove c shut.outputs })
    else lowered

-- `reportError`; an error that is nil is a subscription that was closed.
abbrev pub cause_text : Option Text → Text
cause_text none = codes "subscription closed"
cause_text (some e) = e

unfoldable pub report_error : ContractInfo → String → Option Text → Indexer → Indexer
report_error contract operation e s =
    if s.reports_errors && not contract.cancelled
    then record s {
      reports =
          record {
            operation = codes operation;
            report_chain = contract.chain_id;
            report_address = contract.address;
            cause = cause_text e;
          }
          ∷ s.reports;
    }
    else s

abbrev pub unsubscribe : Bool → ℕ → ℕ
unsubscribe true n = n - 1
unsubscribe false n = n

-- What a turn of `processLogs` receives: a closed context or `stop`, a retry with the client's answer
-- to it, the end of the subscription, or a log with what the inner `select` does.
pub data LoopEvent : Type 0 where
  exit retry_accepted : LoopEvent
  retry_refused : Text → LoopEvent
  failed : Option Text → LoopEvent
  received dropped : Text → LoopEvent

abbrev pub done : ContractInfo → Indexer → Bool
done contract s = contract.cancelled || s.stopped

-- A tick is taken: a registration without a subscription dials again.
abbrev pub retried : ℕ → ContractInfo → Option Text → Indexer → Indexer
retried id contract none s = record s {
  subscriptions = suc s.subscriptions;
  running = update id (λ c. record c { retry = false; subscribed = true }) s.running;
}
retried id contract (some e) s =
    report_error contract "reconnecting subscription" (some e)
      (record s { running = update id (λ c. record c { retry = false }) s.running })

unfoldable pub take_retry : ℕ → ContractInfo → Option Text → Indexer → Indexer
take_retry id contract answer s =
    if not contract.retry
    then s
    else if contract.subscribed
    then record s { running = update id (λ c. record c { retry = false }) s.running }
    else retried id contract answer s

unfoldable pub lose_subscription : ℕ → ContractInfo → Option Text → Indexer → Indexer
lose_subscription id contract e s =
    if contract.subscribed
    then report_error contract "subscription failed" e (record s {
      subscriptions = s.subscriptions - 1;
      running = update id (λ c. record c { subscribed = false }) s.running;
    })
    else s

unfoldable pub forward : ContractInfo → Text → Indexer → Indexer
forward contract raw s =
    if contract.subscribed
    then send contract.event_chan
        (record { event_chain = contract.chain_id; event_address = contract.address; raw = raw }) s
    else s
