-- ===== src/Txmngr/Notify/Backoff.antt =====
-- The waits between the deliveries of a status notification: `notificationBackoff` of
-- evm/txmngr/txmngr.go.
use superform_go_utils.Prelude.{ℕ, suc, zero, ◌+◌, ◌*◌, ◌≤◌, arith}
use superform_go_utils.Txmngr.Notify.{notification_backoff}
use superform_go_utils.Txmngr.Manager.{second}

-- The wait is at least a second and at most a minute, one more attempt never shortens it, and from
-- the sixth attempt on it is a minute.
pub notification_backoff-bounds :
    (attempt : ℕ)
    → (second ≤ notification_backoff attempt)
      × (notification_backoff attempt ≤ 60 * second)
      × (notification_backoff attempt ≤ notification_backoff (attempt + 1))
unfolding notification_backoff
notification_backoff-bounds zero = ground arith
notification_backoff-bounds (suc zero) = ground arith
notification_backoff-bounds (suc (suc zero)) = ground arith
notification_backoff-bounds (suc (suc (suc zero))) = ground arith
notification_backoff-bounds (suc (suc (suc (suc zero)))) = ground arith
notification_backoff-bounds (suc (suc (suc (suc (suc zero))))) = ground arith
notification_backoff-bounds (suc (suc (suc (suc (suc (suc n)))))) = ground arith
