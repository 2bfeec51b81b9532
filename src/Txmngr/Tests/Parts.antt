-- ===== src/Txmngr/Tests/Parts.antt =====
-- The guarantees of the parts of the transaction manager (evm/txmngr) at concrete inputs.
use superform_go_utils.Prelude.{
  All, ℕ, ◌+◌, ◌*◌, ◌/◌, [], ◌∷◌, some, text_eq, nat_eq, true, ◌≡◌, ◌≤◌, ◌<◌, refl, codes, decimal,
  arith, inl, inr, length, get_elem?,
}
use superform_go_utils.Txmngr.Lane.{NonceLane, observe, reserve}
use superform_go_utils.Txmngr.Lane.Fresh.{reserve-observe_fresh}
use superform_go_utils.Txmngr.Fees.{GasFee, gas_price_from, eip1559_fee_from}
use superform_go_utils.Txmngr.Fees.Outbid.{gas_price_from-outbids, eip1559_fee_from-outbids}
use superform_go_utils.Txmngr.Message.{message_tail, append_reconciliation_error, starts_at}
use superform_go_utils.Txmngr.Message.Bounds.{append_reconciliation_error-bounded}
use superform_go_utils.Txmngr.Message.Boundaries.{message_tail-boundary}
use superform_go_utils.Txmngr.Types.{SignedTx, TransactionAttempt}
use superform_go_utils.Txmngr.Attempts.{
  validate_persisted_attempts, check_attempts, check_attempt, check_signed,
}
use superform_go_utils.Txmngr.Attempts.Validated.{IsSigned, validate_persisted_attempts_sound}
use superform_go_utils.Txmngr.Manager.{legacy_tx}
use superform_go_utils.Txmngr.Batch.{lane_from, sorted_ids}
use superform_go_utils.Txmngr.Batch.Lanes.{reserve-unassigned}
use superform_go_utils.Txmngr.Batch.Rounds.{selected_over, selected_over-round_robin}
use superform_go_utils.Txmngr.Mem.{max_assigned_nonce}
use superform_go_utils.Txmngr.Sample.{sign_with, sample_store}

abbrev fresh_lane : NonceLane
fresh_lane = record { next = 4; known = true }

reserve-observe_fresh_example : 6 < 9
unfolding reserve observe
reserve-observe_fresh_example = reserve-observe_fresh fresh_lane 6 9 9 refl refl

-- The finished row has nonce 4, so a node that still reports 5 gives 5.
reserve-unassigned_example : 4 < 5
unfolding reserve lane_from max_assigned_nonce
reserve-unassigned_example =
    reserve-unassigned sample_store 7 10 4 5 5 (tt, (ground arith, tt))
      (inr (inl (refl, refl, refl))) refl

-- Three passes of two chains each over three clients, from the second one on.
selected_over-round_robin_example :
    (length (selected_over 3 (10 ∷ 1 ∷ 8453 ∷ []) 2 1) ≡ 6)
    × (get_elem? (selected_over 3 (10 ∷ 1 ∷ 8453 ∷ []) 2 1) 4
        ≡ get_elem? (sorted_ids (10 ∷ 1 ∷ 8453 ∷ [])) 2)
selected_over-round_robin_example =
    selected_over-round_robin (10 ∷ 1 ∷ 8453 ∷ []) 2 3 1 4 (ground arith)

abbrev sample_fee : GasFee
sample_fee = record { gas_price = some 120; gas_tip_cap = some 2; gas_fee_cap = some 300 }

gas_price_from-outbids_example :
    (replacement : ℕ) × ((gas_price_from 100 (some sample_fee) 15).gas_price ≡ some replacement)
    × (120 < replacement)
    × (120 * (100 + 15) / 100 ≤ replacement)
    × (100 ≤ replacement)
gas_price_from-outbids_example = gas_price_from-outbids 100 120 15 sample_fee refl refl

eip1559_fee_from-outbids_example :
    (new_tip : ℕ) × (new_cap : ℕ) × ((eip1559_fee_from 50 1 (some sample_fee) 15).gas_tip_cap
      ≡ some new_tip)
    × ((eip1559_fee_from 50 1 (some sample_fee) 15).gas_fee_cap ≡ some new_cap)
    × (2 < new_tip)
    × (300 < new_cap)
    × (2 * (100 + 15) / 100 ≤ new_tip)
    × (300 * (100 + 15) / 100 ≤ new_cap)
    × (50 * 2 + new_tip ≤ new_cap)
eip1559_fee_from-outbids_example =
    eip1559_fee_from-outbids 50 1 2 300 15 sample_fee refl refl refl refl

append_reconciliation_error-bounded_example :
    length (append_reconciliation_error (codes "rejected") (some (codes "pending nonce"))) ≤ 512
append_reconciliation_error-bounded_example =
    append_reconciliation_error-bounded (codes "rejected") (some (codes "pending nonce"))

-- The cut falls inside the two bytes of the first rune, so that rune goes.
message_tail-boundary_example :
    starts_at (get_elem? (message_tail (0xC3 ∷ 0xA9 ∷ 0x61 ∷ []) 2) 0) ≡ true
message_tail-boundary_example = message_tail-boundary (0xC3 ∷ 0xA9 ∷ 0x61 ∷ []) 2

abbrev sample_signed : SignedTx
sample_signed = sign_with (legacy_tx 9 5 115 21000 [] 0)

abbrev signed_attempt : TransactionAttempt
signed_attempt = record {
  hash = 5115;
  transaction_id = codes "a";
  nonce = 5;
  tx = some sample_signed;
  created_at = 3;
}

validate_persisted_attempts_sound_example :
    ◌≡◌ {A = ℕ} 7 7 × All (IsSigned 5 7) (signed_attempt ∷ signed_attempt ∷ [])
unfolding validate_persisted_attempts check_attempts check_attempt check_signed
validate_persisted_attempts_sound_example =
    validate_persisted_attempts_sound decimal decimal signed_attempt (signed_attempt ∷ [])
      sample_signed 7 7 5 refl refl refl refl
