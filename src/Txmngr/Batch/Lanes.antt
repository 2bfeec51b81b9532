-- ===== src/Txmngr/Batch/Lanes.antt =====
-- The lane that `processLaneBatch` of evm/txmngr/txmngr.go seeds from the queue.
use superform_go_utils.Prelude.{
  ℕ, ◌+◌, ◌^◌, ◌&&◌, [], ◌∷◌, Option, none, some, Text, ltb, ◌==◌, nat_eq, ==_refl, Assoc, All, ◌≡◌,
  refl, ◌≤◌, ◌<◌, arith, Bool-cases, Option-cases, inl, inr, ◌⊎◌, subst,
}
use superform_go_utils.Txmngr.Types.{Address, Transaction}
use superform_go_utils.Txmngr.Lane.{reserve}
use superform_go_utils.Txmngr.Mem.{Store, max_assigned_nonce, max_nonce_from, raise_max, higher}
use superform_go_utils.Txmngr.Batch.{lane_from}

-- The best nonce so far covers a bound.
abbrev Covers : ℕ → Option ℕ → Type 0
Covers n best = (b : ℕ) × (best ≡ some b) × (n ≤ b)

-- A nonce that can be followed by another uint64.
abbrev pub Fits : Option ℕ → Type 0
Fits none = Unit
Fits (some n) = n + 1 < 2 ^ 64

-- The row names a nonce of the lane.
abbrev pub Assigns : Address → ℕ → ℕ → Transaction → Type 0
Assigns sender chain_id n tx =
    (tx.sender ≡ sender) × (tx.chain_id ≡ chain_id) × (tx.assigned_nonce ≡ some n)

abbrev pub Holds : Address → ℕ → ℕ → Assoc Text Transaction → Type 0
Holds sender chain_id n [] = ⊥
Holds sender chain_id n ((id, tx) ∷ rest) =
    Assigns sender chain_id n tx ⊎ Holds sender chain_id n rest

higher-Covers : (best : Option ℕ) (n : ℕ) → Covers n (higher best n)
higher-Covers none n = (n, refl, ground arith)
higher-Covers (some b) n = elim (Bool-cases (ltb b n)) [
  | inl e ↦ (n, rw e refl, ground arith)
  | inr e ↦ (b, rw e refl, ground arith)
]

higher-keeps : (best : Option ℕ) (k n : ℕ) → Covers n best → Covers n (higher best k)
higher-keeps none k n (b, e, le) = absurd (ground arith)
higher-keeps (some a) k n (b, e, le) = elim (Bool-cases (ltb a k)) [
  | inl up ↦ (k, rw up refl, ground arith)
  | inr up ↦ (a, rw up refl, ground arith)
]

higher-Fits : (best : Option ℕ) (n : ℕ) → Fits best → Fits (some n) → Fits (higher best n)
higher-Fits none n h k = k
higher-Fits (some a) n h k = elim (Bool-cases (ltb a n)) [ inl up ↦ rw up k | inr up ↦ rw up h ]

module _ (sender : Address) (chain_id : ℕ) where
  raise_max-keeps :
      (tx : Transaction) (best : Option ℕ) (n : ℕ)
      → Covers n best
      → Covers n (raise_max sender chain_id tx best)
  unfolding raise_max
  raise_max-keeps tx best n h = elim (Option-cases tx.assigned_nonce) [
    | inl unset ↦ rw (unset, raise_max) h
    | inr (k, set) ↦ elim (Bool-cases (tx.sender == sender && tx.chain_id == chain_id)) [
      | inl mine ↦ rw (set, mine, raise_max) (higher-keeps best k n h)
      | inr other ↦ rw (set, other, raise_max) h
    ]
  ]

  raise_max-Covers :
      (tx : Transaction) (best : Option ℕ) (n : ℕ)
      → Assigns sender chain_id n tx
      → Covers n (raise_max sender chain_id tx best)
  unfolding raise_max
  raise_max-Covers tx best n (s, c, a) =
      rw (a, s, c, ==_refl sender, ==_refl chain_id, raise_max) (higher-Covers best n)

  raise_max-Fits :
      (tx : Transaction) (best : Option ℕ)
      → Fits tx.assigned_nonce
      → Fits best
      → Fits (raise_max sender chain_id tx best)
  unfolding raise_max
  raise_max-Fits tx best k h = elim (Option-cases tx.assigned_nonce) [
    | inl unset ↦ rw (unset, raise_max) h
    | inr (n, set) ↦
        let fits : Fits (some n) = subst Fits set k in
        elim (Bool-cases (tx.sender == sender && tx.chain_id == chain_id)) [
          | inl mine ↦ rw (set, mine, raise_max) (higher-Fits best n h fits)
          | inr other ↦ rw (set, other, raise_max) h
        ]
  ]

  max_nonce_from-keeps :
      (txs : Assoc Text Transaction) (best : Option ℕ) (n : ℕ)
      → Covers n best
      → Covers n (max_nonce_from sender chain_id txs best)
  unfolding max_nonce_from
  max_nonce_from-keeps [] best n h = h
  max_nonce_from-keeps ((id, tx) ∷ rest) best n h =
      max_nonce_from-keeps rest (raise_max sender chain_id tx best) n (raise_max-keeps tx best n h)

  max_nonce_from-Covers :
      (txs : Assoc Text Transaction) (best : Option ℕ) (n : ℕ)
      → Holds sender chain_id n txs
      → Covers n (max_nonce_from sender chain_id txs best)
  unfolding max_nonce_from
  max_nonce_from-Covers [] best n h = absurd h
  max_nonce_from-Covers ((id, tx) ∷ rest) best n (inl here) =
      max_nonce_from-keeps rest _ n (raise_max-Covers tx best n here)
  max_nonce_from-Covers ((id, tx) ∷ rest) best n (inr there) = max_nonce_from-Covers rest _ n there

  max_nonce_from-Fits :
      (txs : Assoc Text Transaction) (best : Option ℕ)
      → All (λ e. Fits e.1.assigned_nonce) txs
      → Fits best
      → Fits (max_nonce_from sender chain_id txs best)
  unfolding max_nonce_from
  max_nonce_from-Fits [] best k h = h
  max_nonce_from-Fits ((id, tx) ∷ rest) best k h =
      max_nonce_from-Fits rest _ k.1 (raise_max-Fits tx best k.0 h)

reserve-seeded :
    (b n rpc_nonce reserved : ℕ)
    → n ≤ b
    → b + 1 < 2 ^ 64
    → reserve (lane_from (some b)) rpc_nonce ≡ some reserved
    → n < reserved
unfolding reserve lane_from
reserve-seeded b n rpc_nonce reserved le fits e = grind arith

-- The lane that a batch seeds from the queue never gives a nonce that a row of the same sender and
-- chain, in whatever status, has been assigned, nor one below it, whatever the node's pending nonce
-- is, as long as the assigned nonces are below 2^64 - 1.
pub reserve-unassigned :
    (s : Store) (sender : Address) (chain_id n rpc_nonce reserved : ℕ)
    → All (λ e. Fits e.1.assigned_nonce) s.txs
    → Holds sender chain_id n s.txs
    → reserve (lane_from (max_assigned_nonce s sender chain_id)) rpc_nonce ≡ some reserved
    → n < reserved
unfolding max_assigned_nonce
reserve-unassigned s sender chain_id n rpc_nonce reserved fit held e =
    let (best, found, over) = max_nonce_from-Covers sender chain_id s.txs none n held in
    let fits = max_nonce_from-Fits sender chain_id s.txs none fit tt in
    reserve-seeded best n rpc_nonce reserved over (subst Fits found fits)
      (subst (λ o. reserve (lane_from o) rpc_nonce ≡ some reserved) found e)
