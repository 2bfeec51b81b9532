-- ===== src/Txmngr/Submit/Once.antt =====
-- Repeated calls of `SendTxAsync` with one operation key (evm/txmngr/txmngr.go).
use superform_go_utils.Prelude.{
  suc, some, Text, true, false, ◌≡◌, refl, sym, ap, subst, ◌∙◌, arith, Bool-cases, inl, inr, ◌⊎◌,
}
use superform_go_utils.Txmngr.Types.{Transaction}
use superform_go_utils.Txmngr.Errors.{Failure}
use superform_go_utils.Txmngr.Mem.{Store, Stored, stored, conflict, insert_or_get}
use superform_go_utils.Txmngr.Mem.Operations.{insert_or_get-replays}
use superform_go_utils.Txmngr.Action.{
  Result-cases, State, ok, err, ◌>>=◌, ask, lift, wrapping, fail,
}
use superform_go_utils.Txmngr.Manager.{Manager, now, has_client}
use superform_go_utils.Txmngr.Submit.{
  Request, apply_options, payload_of, queued_row, store_row, send_tx_async,
}

Stored-cases :
    (x : Stored) → ((e : Failure) × (x ≡ conflict e)) ⊎ ((row : Transaction) × (x ≡ stored row))
Stored-cases (conflict e) = inl (e, refl)
Stored-cases (stored row) = inr (row, refl)

err-ok : {A : Type 0} {e : Failure} {a : A} → ¬ (err e ≡ ok a)
err-ok h = ground arith

store_row-stored :
    (tx row : Transaction) (s : State) (store : Store)
    → insert_or_get s.store tx ≡ (stored row, store)
    → store_row tx s ≡ (ok row.id, record s { store = store })
unfolding store_row
store_row-stored tx row s store e = rw (e, store_row) refl

store_row-conflict :
    (tx : Transaction) (s : State) (e : Failure) (id : Text)
    → (insert_or_get s.store tx).0 ≡ conflict e
    → ¬ ((store_row tx s).0 ≡ ok id)
unfolding store_row
store_row-conflict tx s e id p = rw (p, store_row) err-ok

-- A row that was stored is found again by a retry.
store_row-replays :
    (tx retry : Transaction) (s t : State) (key digest id : Text)
    → tx.operation_key ≡ some key
    → tx.payload_hash ≡ some digest
    → retry.operation_key ≡ some key
    → retry.payload_hash ≡ some digest
    → t.store ≡ (store_row tx s).1.store
    → (store_row tx s).0 ≡ ok id
    → ((store_row retry t).0 ≡ ok id) × ((store_row retry t).1.store ≡ t.store)
store_row-replays tx retry s t key digest id k d k' d' same e =
    elim (Stored-cases (insert_or_get s.store tx).0) [
      | inl (f, p) ↦ absurd (store_row-conflict tx s f id p e)
      | inr (row, p) ↦
          let first : insert_or_get s.store tx ≡ (stored row, (insert_or_get s.store tx).1) =
            ap (λ x. (x, (insert_or_get s.store tx).1)) p in
          let done = store_row-stored tx row s (insert_or_get s.store tx).1 first in
          let here : t.store ≡ (insert_or_get s.store tx).1 = same ∙ ap (λ x. x.1.store) done in
          let again : insert_or_get t.store retry ≡ (stored row, t.store) =
            subst (λ st. insert_or_get st retry ≡ (stored row, st)) (sym here)
              (insert_or_get-replays s.store tx retry row key digest k d k' d' p) in
          let second = store_row-stored retry row t t.store again in
          (ap (λ x. x.0) second ∙ (sym (ap (λ x. x.0) done) ∙ e), ap (λ x. x.1.store) second)
    ]

module _ (m : Manager) (r : Request) (s : State) where
  -- The row that a call queues.
  abbrev call_row : Text → Transaction
  call_row digest = queued_row m.sender r (m.new_uuid s.tick) digest (m.now_at (suc s.tick))

  abbrev after_calls : State
  after_calls = record s { tick = suc (suc s.tick) }

  send_tx_async-stores :
      (digest : Text)
      → has_client m r.chain_id ≡ true
      → m.payload_digest (payload_of r) ≡ ok digest
      → send_tx_async m r s ≡ store_row (call_row digest) after_calls
  unfolding send_tx_async ◌>>=◌ ask lift wrapping now
  send_tx_async-stores digest known hashed = rw (known, hashed) refl

  unknown_chain :
      {id : Text} → has_client m r.chain_id ≡ false → ¬ ((send_tx_async m r s).0 ≡ ok id)
  unfolding send_tx_async fail
  unknown_chain unknown = rw (unknown, send_tx_async) err-ok

  refused_digest :
      {id : Text} (f : Failure)
      → has_client m r.chain_id ≡ true
      → m.payload_digest (payload_of r) ≡ err f
      → ¬ ((send_tx_async m r s).0 ≡ ok id)
  unfolding send_tx_async ◌>>=◌ lift wrapping
  refused_digest f known hashed = rw (known, hashed, send_tx_async) err-ok

  send_tx_async-accepted :
      (id : Text)
      → (send_tx_async m r s).0 ≡ ok id
      → (has_client m r.chain_id ≡ true)
        × ((digest : Text) × (m.payload_digest (payload_of r) ≡ ok digest))
  send_tx_async-accepted id e = elim (Bool-cases (has_client m r.chain_id)) [
    | inl known ↦ elim (Result-cases (m.payload_digest (payload_of r))) [
      | inl (f, p) ↦ absurd (refused_digest f known p e)
      | inr hashed ↦ (known, hashed)
    ]
    | inr unknown ↦ absurd (unknown_chain unknown e)
  ]

-- The retry of a call with an operation key: if a call returned an id, then the same call made again,
-- right after it, at another time and with another fresh id, returns that id and stores nothing.
pub send_tx_async-once :
    (m : Manager) (r : Request) (s : State) (key id : Text)
    → (apply_options r.options).operation_key ≡ some key
    → (send_tx_async m r s).0 ≡ ok id
    → ((send_tx_async m r (send_tx_async m r s).1).0 ≡ ok id)
      × ((send_tx_async m r (send_tx_async m r s).1).1.store ≡ (send_tx_async m r s).1.store)
unfolding queued_row
send_tx_async-once m r s key id named e =
    let (known, there) = send_tx_async-accepted m r s id e in
    let (digest, hashed) = there in
    let t = (send_tx_async m r s).1 in
    let first = send_tx_async-stores m r s digest known hashed in
    let second = send_tx_async-stores m r t digest known hashed in
    let (same_id, same_store) =
      store_row-replays (call_row m r s digest) (call_row m r t digest) (after_calls m r s)
        (after_calls m r t) key digest id named refl named refl (ap (λ x. x.1.store) first)
        (sym (ap (λ x. x.0) first) ∙ e) in
    (ap (λ x. x.0) second ∙ same_id, ap (λ x. x.1.store) second ∙ same_store)
