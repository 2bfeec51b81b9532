-- ===== src/EventIndexer/Bookkeeping.antt =====
-- The bookkeeping of the event indexer, and the operations that leave its counts alone
-- (evm/eventindexer/event_indexer.go).
use superform_go_utils.Prelude.{
  if-preserves, ℕ, suc, ◌+◌, ◌-◌, Bool, true, false, ◌&&◌, not, List, [], ◌∷◌, Option, none, some,
  Text, String, Assoc, lookup, contains, ◌≡◌, refl, ap, sym, ◌∙◌, arith, Bool-cases, inl, inr,
  nat_eq,
}
use superform_go_utils.Prelude.Int.{ℤ, pos}
use superform_go_utils.EventIndexer.{
  Channel, ContractInfo, Indexer, update, update_each, count_of, new_indexer, start, cancel_context,
  stop_contracts, tick, context_done, cancel, ask_retry, send, report_error, take_retry,
  lose_subscription, forward, IndexerError, not_positive, retried,
}
use superform_go_utils.EventIndexer.Counts.{
  total, uses, holds, Fresh, update-Fresh, total-update, total-update_each, total-update_one,
  weight-total,
}

-- The count of a channel is the number of registrations that use it.
abbrev pub Counted : Assoc ℕ ContractInfo → Assoc Channel ℤ → Type 0
Counted running outputs = (c : Channel) → count_of c outputs ≡ pos (total (uses c) running)

-- No registration uses a closed channel.
abbrev pub Unused : Assoc ℕ ContractInfo → List Channel → Type 0
Unused running closed = (c : Channel) → contains closed c ≡ true → total (uses c) running ≡ 0

abbrev pub Consistent : Indexer → Type 0
Consistent s =
    Fresh s.next_id s.running
    × Counted s.running s.outputs
    × Unused s.running s.closed
    × (s.subscriptions ≡ total holds s.running)
    × (s.panicked ≡ false)

pub new_indexer-Consistent :
    (clients : List ℕ) (interval : ℤ) (reports_errors : Bool)
    → Consistent (new_indexer clients interval reports_errors)
unfolding new_indexer total count_of lookup
new_indexer-Consistent clients interval reports_errors =
    (tt, (λ c. refl), (λ c h. refl), refl, refl)

pub update_each-Fresh :
    (n : ℕ) (f : ContractInfo → ContractInfo) (contracts : Assoc Text ℕ) (r : Assoc ℕ ContractInfo)
    → Fresh n r
    → Fresh n (update_each f contracts r)
unfolding update_each
update_each-Fresh n f [] r h = h
update_each-Fresh n f ((key, id) ∷ rest) r h =
    update_each-Fresh n f rest (update id f r) (update-Fresh n id f r h)

-- A change of the running registrations that keeps what is counted.
pub Consistent-running :
    (s : Indexer) (r : Assoc ℕ ContractInfo)
    → Fresh s.next_id r
    → ((c : Channel) → total (uses c) r ≡ total (uses c) s.running)
    → total holds r ≡ total holds s.running
    → Consistent s
    → Consistent (record s { running = r })
Consistent-running s r fresh users held (h, counted, unused, subscribed, calm) = (
  fresh,
  (λ c. counted c ∙ ap pos (sym (users c))),
  (λ c shut. users c ∙ unused c shut),
  subscribed ∙ sym held,
  calm,
)

-- A flag of one registration changes, or of all those in the map.
pub Consistent-update :
    (s : Indexer) (id : ℕ) (f : ContractInfo → ContractInfo)
    → ((c : Channel) (contract : ContractInfo) → uses c (f contract) ≡ uses c contract)
    → ((contract : ContractInfo) → holds (f contract) ≡ holds contract)
    → Consistent s
    → Consistent (record s { running = update id f s.running })
Consistent-update s id f users held h =
    Consistent-running s (update id f s.running) (update-Fresh s.next_id id f s.running h.0)
      (λ c. total-update (uses c) id f s.running (users c)) (total-update holds id f s.running held)
      h

pub Consistent-update_each :
    (s : Indexer) (f : ContractInfo → ContractInfo)
    → ((c : Channel) (contract : ContractInfo) → uses c (f contract) ≡ uses c contract)
    → ((contract : ContractInfo) → holds (f contract) ≡ holds contract)
    → Consistent s
    → Consistent (record s { running = update_each f s.contracts s.running })
Consistent-update_each s f users held h =
    Consistent-running s (update_each f s.contracts s.running)
      (update_each-Fresh s.next_id f s.contracts s.running h.0)
      (λ c. total-update_each (uses c) f s.contracts s.running (users c))
      (total-update_each holds f s.contracts s.running held) h

-- One registration changes, and with it the subscriptions.
pub Consistent-update_one :
    (s : Indexer) (id : ℕ) (f : ContractInfo → ContractInfo) (contract : ContractInfo) (n : ℕ)
    → lookup id s.running ≡ some contract
    → ((c : Channel) (k : ContractInfo) → uses c (f k) ≡ uses c k)
    → n + holds contract ≡ s.subscriptions + holds (f contract)
    → Consistent s
    → Consistent (record s { subscriptions = n; running = update id f s.running })
Consistent-update_one s id f contract n found users balance (h, counted, unused, subscribed, calm) =
    let same = λ (c : Channel). total-update (uses c) id f s.running (users c) in
    (
      update-Fresh s.next_id id f s.running h,
      (λ c. counted c ∙ ap pos (sym (same c))),
      (λ c shut. same c ∙ unused c shut),
      omega (arith, total-update_one holds s.next_id id f contract s.running h found),
      calm,
    )

pub start-Consistent : (s : Indexer) → Consistent s → Consistent (start s).1
unfolding start
start-Consistent s h =
    let P = λ (r : Option IndexerError × Indexer). Consistent r.1 in
    if-preserves P s.stopped _ _ (λ e. h)
      (λ e.
        if-preserves P s.started _ _ (λ e. h)
          (λ e. if-preserves P (not_positive s.reconnect_interval) _ _ (λ e. h) (λ e. h)))

pub cancel_context-Consistent : (s : Indexer) → Consistent s → Consistent (cancel_context s)
unfolding cancel_context
cancel_context-Consistent s h = h

pub stop_contracts-Consistent : (s : Indexer) → Consistent s → Consistent (stop_contracts s)
unfolding stop_contracts uses holds
stop_contracts-Consistent s h = elim (Bool-cases s.stopped) [
  | inl already ↦ rw already h
  | inr running ↦ rw running (Consistent-update_each s cancel (λ c k. refl) (λ k. refl) h)
]

pub tick-Consistent : (s : Indexer) → Consistent s → Consistent (tick s)
unfolding tick uses holds
tick-Consistent s h = Consistent-update_each s ask_retry (λ c k. refl) (λ k. refl) h

pub context_done-Consistent : (id : ℕ) (s : Indexer) → Consistent s → Consistent (context_done id s)
unfolding context_done uses holds
context_done-Consistent id s h = Consistent-update s id cancel (λ c k. refl) (λ k. refl) h

pub report_error-Consistent :
    (contract : ContractInfo) (operation : String) (e : Option Text) (s : Indexer)
    → Consistent s
    → Consistent (report_error contract operation e s)
unfolding report_error
report_error-Consistent contract operation e s h =
    elim (Bool-cases (s.reports_errors && not contract.cancelled)) [
      | inl told ↦ rw told h
      | inr silent ↦ rw silent h
    ]

-- A registration that runs finds its channel open.
pub open_channel :
    (id : ℕ) (contract : ContractInfo) (s : Indexer)
    → lookup id s.running ≡ some contract
    → Consistent s
    → contains s.closed contract.event_chan ≡ false
unfolding uses
open_channel id contract s found (fresh, counted, unused, subscribed, calm) = ground (
  arith,
  unused contract.event_chan,
  weight-total (uses contract.event_chan) id contract s.running found,
)

pub forward-Consistent :
    (id : ℕ) (contract : ContractInfo) (raw : Text) (s : Indexer)
    → lookup id s.running ≡ some contract
    → Consistent s
    → Consistent (forward contract raw s)
unfolding forward send
forward-Consistent id contract raw s found h =
    let opened = open_channel id contract s found h in
    elim (Bool-cases contract.subscribed) [
      | inl subscribed ↦ rw (subscribed, opened) h
      | inr unsubscribed ↦ rw unsubscribed h
    ]

pub lose_subscription-Consistent :
    (id : ℕ) (contract : ContractInfo) (e : Option Text) (s : Indexer)
    → lookup id s.running ≡ some contract
    → Consistent s
    → Consistent (lose_subscription id contract e s)
unfolding lose_subscription uses holds
lose_subscription-Consistent id contract e s found (fresh, counted, unused, opened, calm) =
    let h : Consistent s = (fresh, counted, unused, opened, calm) in
    let counted_once = weight-total holds id contract s.running found in
    if-preserves Consistent contract.subscribed _ _
      (λ subscribed. report_error-Consistent contract "subscription failed" e _ (
        Consistent-update_one s id (λ c. record c { subscribed = false }) contract
          (s.subscriptions - 1) found (λ c k. refl) (ground (arith, counted_once)) h))
      (λ e. h)

retried-Consistent :
    (id : ℕ) (contract : ContractInfo) (answer : Option Text) (s : Indexer)
    → lookup id s.running ≡ some contract
    → contract.subscribed ≡ false
    → Consistent s
    → Consistent (retried id contract answer s)
unfolding uses holds
retried-Consistent id contract none s found unsubscribed h =
    Consistent-update_one s id (λ c. record c { retry = false; subscribed = true }) contract
      (suc s.subscriptions) found (λ c k. refl) (ground arith) h
retried-Consistent id contract (some e) s found unsubscribed h =
    report_error-Consistent contract "reconnecting subscription" (some e) _
      (Consistent-update s id (λ c. record c { retry = false }) (λ c k. refl) (λ k. refl) h)

pub take_retry-Consistent :
    (id : ℕ) (contract : ContractInfo) (answer : Option Text) (s : Indexer)
    → lookup id s.running ≡ some contract
    → Consistent s
    → Consistent (take_retry id contract answer s)
unfolding take_retry uses holds
take_retry-Consistent id contract answer s found h =
    if-preserves Consistent (not contract.retry) _ _ (λ e. h)
      (λ e.
        if-preserves Consistent contract.subscribed _ _
          (λ e.
            Consistent-update s id (λ c. record c { retry = false }) (λ c k. refl) (λ k. refl) h)
          (λ e. retried-Consistent id contract answer s found e h))
