-- ===== src/EventIndexer/Registrations.antt =====
-- `AddContract`, `RemoveContract` and the goroutines of `processLogs` in
-- evm/eventindexer/event_indexer.go. The hexadecimal forms of an address and of a hash are parameters.
use superform_go_utils.Prelude.{
  ℕ, suc, ◌-◌, Bool, true, false, ◌&&◌, ◌||◌, not, List, [], ◌∷◌, ◌++◌, Option, none, some, Text,
  text_eq, nat_eq, ◌==◌, nat_beq, if◌then◌else◌, Assoc, lookup, insert, remove, contains, is_some,
  length, decimal, sprintf, map,
}
use superform_go_utils.EventIndexer.{
  Address, Hash, Channel, ContractInfo, Indexer, IndexerError, no_client, already_watched,
  subscription_failed, is_stopped, LoopEvent, exit, retry_accepted, retry_refused, failed, received,
  dropped, cancel, update, count_of, increment, release, unsubscribe, done, take_retry,
  lose_subscription, forward,
}

unfoldable pub join_commas : List Text → Text
join_commas [] = []
join_commas (t ∷ []) = t
join_commas (t ∷ u ∷ ts) = t ++ (b',' ∷ join_commas (u ∷ ts))

module _ (hex_address : Address → Text) (hex_hash : Hash → Text) where
  unfoldable pub get_contract_key : ℕ → Address → List Hash → Text
  get_contract_key chain_id address events =
      sprintf "%d_%s_%s"
        (decimal chain_id ∷ hex_address address ∷ join_commas (map hex_hash events) ∷ [])

  abbrev pub key_of : ContractInfo → Text
  key_of contract = get_contract_key contract.chain_id contract.address contract.events

  -- The first loop of `AddContract`.
  unfoldable pub check_addresses : Indexer → List Hash → Assoc ℕ Address → Option IndexerError
  check_addresses s events [] = none
  check_addresses s events ((chain_id, address) ∷ rest) =
      if not (contains s.clients chain_id)
      then some (no_client chain_id)
      else if is_some (lookup (get_contract_key chain_id address events) s.contracts)
      then some (already_watched chain_id)
      else check_addresses s events rest

  -- The second loop: each address is dialed; when one fails, the `opened` ones are given back.
  unfoldable pub dial_all :
      (ℕ → Bool) → ℕ → Assoc ℕ Address → Indexer → Option IndexerError × Indexer
  dial_all dials opened [] s = (none, s)
  dial_all dials opened ((chain_id, address) ∷ rest) s =
      let later =
        dial_all dials (suc opened) rest (record s { subscriptions = suc s.subscriptions }) in
      if dials chain_id then later else (
        some (subscription_failed chain_id),
        record s { subscriptions = s.subscriptions - opened },
      )

  -- The third loop, over what was dialed.
  unfoldable pub register : List Hash → Channel → ℕ → Address → Indexer → Indexer
  register events event_chan chain_id address s =
      let contract : ContractInfo = record {
        chain_id = chain_id;
        address = address;
        events = events;
        event_chan = event_chan;
        cancelled = false;
        retry = false;
        subscribed = true;
      } in
      record s {
        contracts = insert (get_contract_key chain_id address events) s.next_id s.contracts;
        outputs = insert event_chan (increment (count_of event_chan s.outputs)) s.outputs;
        running = (s.next_id, contract) ∷ s.running;
        next_id = suc s.next_id;
      }

  unfoldable pub register_all : List Hash → Channel → Assoc ℕ Address → Indexer → Indexer
  register_all events event_chan [] s = s
  register_all events event_chan ((chain_id, address) ∷ rest) s =
      register_all events event_chan rest (register events event_chan chain_id address s)

  abbrev pub registered :
      List Hash
      → Channel
      → Assoc ℕ Address
      → Option IndexerError × Indexer
      → Option IndexerError × Indexer
  registered events event_chan addresses (none, s) =
      (none, register_all events event_chan addresses s)
  registered events event_chan addresses (some e, s) = (some e, s)

  -- `addresses` and `again` are one map in the orders of its two loops; `dials` says for which chains
  -- the client subscribes.
  unfoldable pub add_contract :
      (ℕ → Bool)
      → Assoc ℕ Address
      → Assoc ℕ Address
      → List Hash
      → Channel
      → Indexer
      → Option IndexerError × Indexer
  unfolding dial_all
  add_contract dials addresses again events event_chan s =
      let checked = check_addresses s events addresses in
      if s.stopped then (some is_stopped, s) else elim checked [
        | some e ↦ (some e, s)
        | none ↦ registered events event_chan again (dial_all dials 0 again s)
      ]

  -- The condition of `RemoveContract`, negated.
  unfoldable pub to_remove : List ℕ → Text → Option ContractInfo → Bool
  to_remove chain_ids address none = false
  to_remove chain_ids address (some contract) =
      (hex_address contract.address == address)
      && (nat_beq (length chain_ids) 0 || contains chain_ids contract.chain_id)

  -- The loop over `i.contracts`, in the order of one iteration.
  unfoldable pub remove_each : List ℕ → Text → Assoc Text ℕ → List ℕ × Indexer → List ℕ × Indexer
  remove_each chain_ids address [] (removed, s) = (removed, s)
  remove_each chain_ids address ((key, id) ∷ rest) (removed, s) =
      let gone = record s {
        contracts = remove key s.contracts;
        running = update id cancel s.running;
      } in
      let with_it = remove_each chain_ids address rest (id ∷ removed, gone) in
      let without_it = remove_each chain_ids address rest (removed, s) in
      if to_remove chain_ids address (lookup id s.running) then with_it else without_it

  -- What `RemoveContract` does under the lock, and the registrations whose end it then waits for.
  unfoldable pub remove_contract : List ℕ → Text → Indexer → List ℕ × Indexer
  remove_contract chain_ids address s = remove_each chain_ids address s.contracts ([], s)

  -- `i.contracts[key] == contract`, and then `delete(i.contracts, key)`.
  abbrev pub forget : ℕ → Text → Assoc Text ℕ → Assoc Text ℕ
  forget id key contracts = elim (lookup key contracts) [
    | none ↦ contracts
    | some j ↦ if j == id then remove key contracts else contracts
  ]

  -- What a goroutine defers: it gives its subscription back, and its registration.
  unfoldable pub finish : ℕ → ContractInfo → Indexer → Indexer
  finish id contract s = release contract.event_chan (record s {
    subscriptions = unsubscribe contract.subscribed s.subscriptions;
    contracts = forget id (key_of contract) s.contracts;
    running = remove id s.running;
  })

  -- One turn of the loop of `processLogs`; an event that cannot happen changes nothing.
  unfoldable pub turn : ℕ → ContractInfo → LoopEvent → Indexer → Indexer
  turn id contract exit s = if done contract s then finish id contract s else s
  turn id contract retry_accepted s = take_retry id contract none s
  turn id contract (retry_refused e) s = take_retry id contract (some e) s
  turn id contract (failed e) s = lose_subscription id contract e s
  turn id contract (received raw) s = forward contract raw s
  turn id contract (dropped raw) s =
      if contract.subscribed && done contract s then finish id contract s else s

  abbrev turn_of : ℕ → Option ContractInfo → LoopEvent → Indexer → Indexer
  turn_of id none event s = s
  turn_of id (some contract) event s = turn id contract event s

  unfoldable pub process_logs : ℕ → LoopEvent → Indexer → Indexer
  process_logs id event s = turn_of id (lookup id s.running) event s
