-- ===== src/Txmngr/Lane.antt =====
-- The nonce lane of one sender and chain: `nonceLane` of evm/txmngr/txmngr.go. Nonces are uint64.
pub mod Fresh
use superform_go_utils.Prelude.{
  ℕ, ◌+◌, ◌%◌, ◌^◌, Bool, true, ◌&&◌, ◌||◌, not, Option, none, some, ltb, ◌==◌, nat_eq,
  if◌then◌else◌,
}

abbrev pub u64 : ℕ → ℕ
u64 n = n % 2 ^ 64

pub record NonceLane : Type 0 where
  pub next : ℕ
  pub known : Bool

unfoldable pub observe : NonceLane → ℕ → NonceLane
observe l nonce =
    let next = u64 (nonce + 1) in
    if not l.known || ltb l.next next then record l { next = next; known = true } else l

-- `none` stands for the result `false`.
unfoldable pub reserve : NonceLane → ℕ → Option ℕ
reserve l rpc_nonce = if l.known && ltb rpc_nonce l.next then none else some rpc_nonce

unfoldable pub is_tip : NonceLane → ℕ → Bool
is_tip l nonce = l.known && l.next == u64 (nonce + 1)
