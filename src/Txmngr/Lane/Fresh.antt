-- ===== src/Txmngr/Lane/Fresh.antt =====
-- The nonces that a lane gives (`nonceLane` of evm/txmngr/txmngr.go).
use superform_go_utils.Prelude.{ℕ, ◌+◌, ◌^◌, true, some, ltb, ◌≡◌, ◌<◌, arith, nat_eq}
use superform_go_utils.Txmngr.Lane.{NonceLane, observe, reserve, is_tip}

-- After a nonce below 2^64 - 1 is observed, every nonce that the lane reserves is above it, whatever
-- the node says.
pub reserve-observe_fresh :
    (l : NonceLane) (nonce rpc_nonce reserved : ℕ)
    → ltb (nonce + 1) (2 ^ 64) ≡ true
    → reserve (observe l nonce) rpc_nonce ≡ some reserved
    → nonce < reserved
unfolding reserve observe
reserve-observe_fresh l nonce rpc_nonce reserved fits e = grind arith

-- Observing keeps what was observed before: a nonce that the lane was past stays out of reach.
pub reserve-observe_monotone :
    (l : NonceLane) (nonce rpc_nonce reserved : ℕ)
    → reserve (observe l nonce) rpc_nonce ≡ some reserved
    → reserve l rpc_nonce ≡ some reserved
unfolding reserve observe
reserve-observe_monotone l nonce rpc_nonce reserved e = ground arith

-- Right after a nonce that the lane would still have given is observed, it is the tip of the lane.
pub is_tip-observe :
    (l : NonceLane) (nonce : ℕ)
    → ltb (nonce + 1) (2 ^ 64) ≡ true
    → reserve l nonce ≡ some nonce
    → is_tip (observe l nonce) nonce ≡ true
unfolding reserve observe is_tip
is_tip-observe l nonce fits e = ground arith
