-- ===== src/Txmngr/Mem/Query.antt =====
-- The query side of evm/txmngr/txmngr_provider/mem/tx.go and util.go: filters, orders and limits.
use Prim.Native.Nat.{Ordering}
use superform_go_utils.Prelude.{
  ℕ, Bool, true, false, ◌&&◌, ◌||◌, not, List, [], ◌∷◌, ◌++◌, Option, none, some, Text, text_eq,
  nat_eq, ◌==◌, ltb, if◌then◌else◌, Assoc, contains, is_none, compare, compare_text, length, take,
}
use superform_go_utils.Prelude.Sort.{sort_stable, then_by}
use superform_go_utils.Txmngr.Types.{
  Address, Time, Transaction, TxStatus, status_eq, is_completed, zero_address,
}

pub data TxOrder : Type 0 where
  order_none order_next_action order_lane_work order_next_notification : TxOrder

-- A limit of 0 is no limit.
pub record Query : Type 0 where
  pub filters : List (Transaction → Bool)
  pub order_by : TxOrder
  pub limit : ℕ

unfoldable pub new_query : Query
new_query = record { filters = []; order_by = order_none; limit = 0 }

-- `filter` of util.go: all filters pass.
unfoldable pub passes : List (Transaction → Bool) → Transaction → Bool
passes [] tx = true
passes (f ∷ fs) tx = f tx && passes fs tx

unfoldable pub with_filter : Query → (Transaction → Bool) → Query
with_filter q f = record q { filters = q.filters ++ f ∷ [] }

unfoldable pub filter_by_ids : List Text → Query → Query
unfolding with_filter
filter_by_ids ids q = with_filter q (λ tx. contains ids tx.id)

unfoldable pub filter_by_chain_ids : List ℕ → Query → Query
unfolding with_filter
filter_by_chain_ids chain_ids q = with_filter q (λ tx. contains chain_ids tx.chain_id)

unfoldable pub filter_by_sender_or_unset : Address → Query → Query
unfolding with_filter
filter_by_sender_or_unset sender q =
    with_filter q (λ tx. tx.sender == sender || tx.sender == zero_address)

unfoldable pub filter_by_statuses : List TxStatus → Query → Query
unfolding with_filter
filter_by_statuses statuses q = with_filter q (λ tx. contains statuses tx.status)

unfoldable pub filter_ready_before : Time → Query → Query
unfolding with_filter
filter_ready_before before q = with_filter q (λ tx. not (ltb before tx.next_action_at))

-- Whether a row waits for a notification: the intent is set and not the empty text.
abbrev pub has_intent : Option Text → Bool
has_intent none = false
has_intent (some []) = false
has_intent (some (c ∷ cs)) = true

unfoldable pub notification_ready : Time → Transaction → Bool
notification_ready before tx =
    is_completed tx
    && has_intent tx.intent_id
    && is_none tx.notified_at
    && not (ltb before tx.next_notification_at)

unfoldable pub filter_notification_ready_before : Time → Query → Query
unfolding with_filter notification_ready
filter_notification_ready_before before q = with_filter q (notification_ready before)

unfoldable pub order_by_next_action : Query → Query
order_by_next_action q = record q { order_by = order_next_action }

unfoldable pub order_by_lane_work : Query → Query
order_by_lane_work q = record q { order_by = order_lane_work }

unfoldable pub order_by_next_notification : Query → Query
order_by_next_notification q = record q { order_by = order_next_notification }

unfoldable pub limit_to : ℕ → Query → Query
limit_to n q = record q { limit = n }

unfoldable pub compare_schedule_order : Transaction → Transaction → Ordering
compare_schedule_order a b =
    then_by (compare a.next_action_at b.next_action_at)
      (then_by (compare a.created_at b.created_at) (compare_text a.id b.id))

unfoldable pub compare_assigned_nonce : Option ℕ → Option ℕ → Ordering
compare_assigned_nonce none none = Ordering.eq
compare_assigned_nonce none (some b) = Ordering.gt
compare_assigned_nonce (some a) none = Ordering.lt
compare_assigned_nonce (some a) (some b) = compare a b

unfoldable pub compare_lane_work : Transaction → Transaction → Ordering
unfolding compare_assigned_nonce compare_schedule_order
compare_lane_work a b =
    then_by (compare_assigned_nonce a.assigned_nonce b.assigned_nonce) (compare_schedule_order a b)

unfoldable pub compare_next_notification : Transaction → Transaction → Ordering
compare_next_notification a b =
    then_by (compare a.next_notification_at b.next_notification_at) (compare_text a.id b.id)

unfoldable pub sorted : TxOrder → List Transaction → List Transaction
unfolding compare_lane_work compare_schedule_order compare_next_notification
sorted order_none rows = rows
sorted order_next_action rows = sort_stable compare_schedule_order rows
sorted order_lane_work rows = sort_stable compare_lane_work rows
sorted order_next_notification rows = sort_stable compare_next_notification rows

unfoldable pub limited : ℕ → List Transaction → List Transaction
limited limit rows = if ltb 0 limit && ltb limit (length rows) then take limit rows else rows

-- The rows that pass the filters, in the order of the map.
unfoldable pub matching : List (Transaction → Bool) → Assoc Text Transaction → List Transaction
matching filters [] = []
matching filters ((id, tx) ∷ rest) =
    let others = matching filters rest in if passes filters tx then tx ∷ others else others

unfoldable pub select : Query → Assoc Text Transaction → List Transaction
unfolding matching sorted limited
select q txs = limited q.limit (sorted q.order_by (matching q.filters txs))

-- `none` stands for `sql.ErrNoRows`.
unfoldable pub get : Query → Assoc Text Transaction → Option Transaction
get q [] = none
get q ((id, tx) ∷ rest) = if passes q.filters tx then some tx else get q rest
