-- ===== src/Txmngr/Action.antt =====
-- Methods of the manager as actions: they read and change the queue, the lane that the batch holds
-- and the record of outward effects, and they may return an error. What was written before an
-- error stays written. `tick` numbers the calls of the environment (clock, node, signer, hooks).
use superform_go_utils.Prelude.{
  ◌≡◌, refl, ◌⊎◌, inl, inr, ℕ, suc, List, ◌∷◌, Option, none, some, Text, lookup, nat_eq,
}
use superform_go_utils.Txmngr.Types.{SignedTx}
use superform_go_utils.Txmngr.Errors.{Failure}
use superform_go_utils.Txmngr.Lane.{NonceLane}
use superform_go_utils.Txmngr.Mem.{Store}

pub data Result (A : Type 0) : Type 0 where
  ok : A → Result A
  err : Failure → Result A

pub Result-cases :
    {A : Type 0} (x : Result A) → ((e : Failure) × (x ≡ err e)) ⊎ ((a : A) × (x ≡ ok a))
Result-cases (err e) = inl (e, refl)
Result-cases (ok a) = inr (a, refl)

-- What leaves the manager: transactions handed to a node, and calls of the metrics observer. A `sent`
-- also notes who owned the hash in the queue at that moment.
pub data Effect : Type 0 where
  sent : ℕ → SignedTx → Option Text → Effect
  result_observed : ℕ → Text → Effect
  barrier_observed : ℕ → Text → Effect
  active_set : ℕ → ℕ → Effect

-- The newest effect stands first.
pub record State : Type 0 where
  pub store : Store
  pub lane : NonceLane
  pub tick : ℕ
  pub trace : List Effect

abbrev pub Action : Type 0 → Type 0
Action A = State → Result A × State

module _ {A : Type 0} where
  unfoldable pub pure : A → Action A
  pure a s = (ok a, s)

  unfoldable pub fail : Failure → Action A
  fail e s = (err e, s)

  -- One call of the environment.
  unfoldable pub ask : (ℕ → A) → Action A
  ask f s = (ok (f s.tick), record s { tick = suc s.tick })

  unfoldable pub gets : (State → A) → Action A
  gets f s = (ok (f s), s)

  -- A result that a call gave, taken up as the action's own.
  unfoldable pub lift : Result A → Action A
  lift r s = (r, s)

  -- The error as a value, for code that inspects it.
  abbrev caught : Result A × State → Result (Result A) × State
  caught (r, s) = (ok r, s)

  unfoldable pub try : Action A → Action (Result A)
  try m s = caught (m s)

  abbrev renamed : (Failure → Failure) → Result A × State → Result A × State
  renamed f (ok a, s) = (ok a, s)
  renamed f (err e, s) = (err (f e), s)

  -- `if err != nil { return f(err) }` behind a call.
  unfoldable pub wrapping : (Failure → Failure) → Action A → Action A
  wrapping f m s = renamed f (m s)

module _ {A B : Type 0} where
  abbrev continue : (A → Action B) → Result A × State → Result B × State
  continue f (ok a, s) = f a s
  continue f (err e, s) = (err e, s)

  infixl 10 ◌>>=◌ ◌>>◌
  unfoldable pub ◌>>=◌ : Action A → (A → Action B) → Action B
  ◌>>=◌ m f s = continue f (m s)

  abbrev pub ◌>>◌ : Action A → Action B → Action B
  m >> n = m >>= λ _. n

unfoldable pub emit : Effect → Action (Unit {0})
emit e s = (ok tt, record s { trace = e ∷ s.trace })

-- Handing a transaction to a node of a chain.
unfoldable pub record_send : ℕ → SignedTx → Action (Unit {0})
record_send chain_id signed s =
    (ok tt, record s { trace = sent chain_id signed (lookup signed.hash s.store.hashes) ∷ s.trace })

abbrev pub written : State → Option Failure × Store → Result (Unit {0}) × State
written s (none, store) = (ok tt, record s { store = store })
written s (some e, store) = (err e, record s { store = store })

-- A method of the queue that returns an error or nil.
unfoldable pub write : (Store → Option Failure × Store) → Action (Unit {0})
write f s = written s (f s.store)

unfoldable pub update_lane : (NonceLane → NonceLane) → Action (Unit {0})
update_lane f s = (ok tt, record s { lane = f s.lane })
