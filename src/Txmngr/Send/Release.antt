-- ===== src/Txmngr/Send/Release.antt =====
-- What the answer of a node leaves in a row: `handleBroadcastFailure` of evm/txmngr/txmngr.go.
use superform_go_utils.Prelude.{
  ◌+◌, none, some, Text, Bool, ◌&&◌, ◌||◌, leb, if◌then◌else◌, ◌≡◌, refl, arith,
}
use superform_go_utils.Txmngr.Types.{Hash, Time, Transaction, TransactionAttempt}
use superform_go_utils.Txmngr.Errors.{RpcError}
use superform_go_utils.Txmngr.Broadcast.{
  BroadcastErrorDisposition, ambiguous, already_known, nonce_consumed, fee_rejected,
  transaction_rejected_retryable, transaction_rejected_permanent, classify_broadcast_error,
  is_permanent_transaction_rejection_error,
}
use superform_go_utils.Txmngr.Manager.{Manager, recovered_attempt_rejection_grace}
use superform_go_utils.Txmngr.Message.{broadcast_attempt_reason}
use superform_go_utils.Txmngr.Summary.{rpc_error_summary}
use superform_go_utils.Txmngr.Send.{
  BroadcastPolicy, after_answer, answered_row, is_rejected, may_act,
}

after_answer-evidence :
    (d : BroadcastErrorDisposition) (may : Bool) (hash : Hash) (reason : Text) (time : Time)
    (tx : Transaction)
    → (after_answer d may hash reason time tx).rejected_attempt_hash
      ≡ (if is_rejected d && may then some hash else none)
unfolding after_answer
after_answer-evidence ambiguous may hash reason time tx = refl
after_answer-evidence already_known may hash reason time tx = refl
after_answer-evidence nonce_consumed may hash reason time tx = refl
after_answer-evidence fee_rejected may hash reason time tx = refl
after_answer-evidence transaction_rejected_retryable may hash reason time tx = refl
after_answer-evidence transaction_rejected_permanent may hash reason time tx = refl

is_rejected-classify_broadcast_error :
    (e : RpcError)
    → is_rejected (classify_broadcast_error e) ≡ is_permanent_transaction_rejection_error e
unfolding classify_broadcast_error is_permanent_transaction_rejection_error
is_rejected-classify_broadcast_error e = ground arith

-- After an answer of the node the row holds the newest attempt's hash as the evidence of a rejection
-- when the answer is a permanent rejection and either the pass signed this first attempt at a nonce
-- that can be given back or the grace since the attempt was created is over. In every other case it
-- holds no evidence, whatever evidence, of this attempt or another, it held before.
pub answered_row-evidence :
    (m : Manager) (tx : Transaction) (latest : TransactionAttempt) (e : RpcError)
    (policy : BroadcastPolicy) (time : Time)
    → (answered_row m tx latest e policy time).rejected_attempt_hash ≡ (
        if is_permanent_transaction_rejection_error e
          && ((policy.first_attempt_this_pass && policy.nonce_releasable)
              || leb (latest.created_at + recovered_attempt_rejection_grace) time)
        then some latest.hash
        else none)
unfolding answered_row may_act
answered_row-evidence m tx latest e policy time = ground (
  arith,
  after_answer-evidence (classify_broadcast_error e)
      (may_act policy time (latest.created_at + recovered_attempt_rejection_grace)) latest.hash
      (broadcast_attempt_reason (m.hash_hex latest.hash) (rpc_error_summary m e)) time tx,
  is_rejected-classify_broadcast_error e,
)
