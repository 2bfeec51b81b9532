-- ===== src/Txmngr/Summary.antt =====
-- The redacted texts of RPC errors: `redactedRPCError`, `rpcErrorSummary` and `redactRPCText` of
-- evm/txmngr/txmngr.go.
use superform_go_utils.Prelude.{
  List, [], ◌∷◌, none, some, Text, Bool, true, false, codes, sprintf, decimal, if◌then◌else◌, ◌||◌,
}
use superform_go_utils.Prelude.Int.{decimal_ℤ}
use superform_go_utils.Txmngr.Errors.{
  Failure, RpcError, Sentinel, context_canceled, context_deadline_exceeded, errorf,
}
use superform_go_utils.Txmngr.Manager.{Manager}

module _ (m : Manager) where
  unfoldable pub redact_rpc_text : Text → Text
  redact_rpc_text message = m.redact_jwts (m.redact_bearers (m.redact_urls message))

  -- The cases of `rpcErrorSummary` for an error that is neither a JSON-RPC response nor HTTP.
  unfoldable pub transport_summary : RpcError → Text
  transport_summary e =
      if e.deadline_exceeded
      then codes "rpc transport timeout"
      else if e.canceled
      then codes "rpc transport cancelled"
      else elim e.url_op [
        | some op ↦ sprintf "rpc transport %s failed" (op ∷ [])
        | none ↦
            if e.net_timeout
            then codes "rpc transport timeout"
            else sprintf "rpc transport error (%T)" (e.type_name ∷ [])
      ]

  unfoldable pub http_or_transport_summary : RpcError → Text
  unfolding transport_summary
  http_or_transport_summary e = elim e.http_status [
    | some status ↦ sprintf "rpc HTTP status %d" (decimal status ∷ [])
    | none ↦ transport_summary e
  ]

  unfoldable pub rpc_error_summary : RpcError → Text
  unfolding http_or_transport_summary redact_rpc_text
  rpc_error_summary e = elim e.code [
    | some code ↦ sprintf "rpc error %d: %s" (decimal_ℤ code ∷ redact_rpc_text e.response ∷ [])
    | none ↦ http_or_transport_summary e
  ]

  -- The context sentinels that stay in the chain of a re-wrapped error.
  abbrev context_sentinels : Bool → Bool → List Sentinel
  context_sentinels true true = context_canceled ∷ context_deadline_exceeded ∷ []
  context_sentinels true false = context_canceled ∷ []
  context_sentinels false true = context_deadline_exceeded ∷ []
  context_sentinels false false = []

  unfoldable pub redacted_rpc_error : Text → RpcError → Failure
  redacted_rpc_error operation e =
      if e.canceled || e.deadline_exceeded
      then errorf "%s: %w" (operation ∷ e.message ∷ [])
          (context_sentinels e.canceled e.deadline_exceeded)
      else errorf "%s: %s" (operation ∷ rpc_error_summary e ∷ []) []
