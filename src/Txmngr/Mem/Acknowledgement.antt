-- ===== src/Txmngr/Mem/Acknowledgement.antt =====
-- The acknowledgement of a notification: `UpdateNotification` of
-- evm/txmngr/txmngr_provider/mem/tx.go.
use superform_go_utils.Prelude.{
  ℕ, Bool, true, false, ◌||◌, not, Option, none, some, text_eq, nat_eq, lookup, insert,
  lookup-insert, ◌≡◌, refl, ap, sym, ◌∙◌, arith, Bool-cases, Option-cases, inl, inr, ==_refl,
  is_none,
}
use superform_go_utils.Txmngr.Types.{Transaction, is_completed}
use superform_go_utils.Txmngr.Errors.{Failure, stale_transaction, sentinel}
use superform_go_utils.Txmngr.Mem.{Store, update_notification, with_notification, lane_key_eq}

-- Whether the row takes no notification result.
abbrev closed : Transaction → Bool
closed current = not (is_completed current) || not (is_none current.notified_at)

update_notification-closed :
    (s : Store) (tx current : Transaction)
    → lookup tx.id s.txs ≡ some current
    → closed current ≡ true
    → update_notification s tx ≡ (some (sentinel stale_transaction), s)
unfolding update_notification
update_notification-closed s tx current found shut = rw (found, shut, update_notification) refl

update_notification-open :
    (s : Store) (tx current : Transaction)
    → lookup tx.id s.txs ≡ some current
    → closed current ≡ false
    → (update_notification s tx).1.txs ≡ insert tx.id (with_notification current tx) s.txs
unfolding update_notification
update_notification-open s tx current found free = rw (found, free, update_notification) refl

closed-with_notification :
    (current tx : Transaction) (time : ℕ)
    → tx.notified_at ≡ some time
    → closed (with_notification current tx) ≡ true
unfolding with_notification is_completed
closed-with_notification current tx time at = rw at (ground arith)

update_notification-absent :
    (s : Store) (tx : Transaction)
    → lookup tx.id s.txs ≡ none
    → update_notification s tx ≡ (some (sentinel stale_transaction), s)
unfolding update_notification
update_notification-absent s tx absent = rw (absent, update_notification) refl

some-none : {e : Failure} → ¬ (some e ≡ none)
some-none h = ground arith

stale-accepted :
    {x : Option Failure × Store} {s : Store}
    → x ≡ (some (sentinel stale_transaction), s)
    → ¬ (x.0 ≡ none)
stale-accepted e h = absurd (some-none (sym (ap (λ r. r.0) e) ∙ h))

-- A notification is acknowledged once: after a write that set the time of the delivery, every further
-- write for the row is refused as stale and changes nothing.
pub update_notification-once :
    (s : Store) (tx retry : Transaction) (time : ℕ)
    → (update_notification s tx).0 ≡ none
    → tx.notified_at ≡ some time
    → retry.id ≡ tx.id
    → update_notification (update_notification s tx).1 retry
      ≡ (some (sentinel stale_transaction), (update_notification s tx).1)
update_notification-once s tx retry time e at same = elim (Option-cases (lookup tx.id s.txs)) [
  | inl absent ↦ absurd (stale-accepted (update_notification-absent s tx absent) e)
  | inr (current, found) ↦ elim (Bool-cases (closed current)) [
    | inl shut ↦ absurd (stale-accepted (update_notification-closed s tx current found shut) e)
    | inr free ↦
        let row = with_notification current tx in
        let there : lookup retry.id (update_notification s tx).1.txs ≡ some row =
          rw
            (
              update_notification-open s tx current found free,
              same,
              lookup-insert tx.id tx.id row s.txs,
              ==_refl tx.id,
            )
            refl in
        update_notification-closed (update_notification s tx).1 retry row there
          (closed-with_notification current tx time at)
  ]
]
