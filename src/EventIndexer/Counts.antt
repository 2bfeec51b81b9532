-- ===== src/EventIndexer/Counts.antt =====
-- Counting over the goroutines of evm/eventindexer/event_indexer.go.
use superform_go_utils.Prelude.{
  ℕ, ◌+◌, ◌≤◌, ◌<◌, [], ◌∷◌, some, nat_beq, if◌then◌else◌, Assoc, lookup, remove, ◌≡◌, refl, arith,
  Bool-cases, inl, inr, nat_eq, Text, ◌∙◌,
}
use superform_go_utils.EventIndexer.{Channel, ContractInfo, update, update_each}

unfoldable pub total : (ContractInfo → ℕ) → Assoc ℕ ContractInfo → ℕ
total weight [] = 0
total weight ((id, contract) ∷ rest) = weight contract + total weight rest

-- Whether a registration sends to a channel, and whether it holds a subscription.
unfoldable pub uses : Channel → ContractInfo → ℕ
uses c contract = if nat_beq contract.event_chan c then 1 else 0

unfoldable pub holds : ContractInfo → ℕ
holds contract = if contract.subscribed then 1 else 0

-- The names of the registrations fall, and are below a number.
abbrev pub Fresh : ℕ → Assoc ℕ ContractInfo → Type 0
Fresh n [] = Unit
Fresh n ((id, contract) ∷ rest) = (id < n) × Fresh id rest

pub Fresh-weaken : (m n : ℕ) (r : Assoc ℕ ContractInfo) → m ≤ n → Fresh m r → Fresh n r
Fresh-weaken m n [] h f = tt
Fresh-weaken m n ((id, contract) ∷ rest) h (below, f) = (omega arith, f)

pub update-Fresh :
    (n id : ℕ) (f : ContractInfo → ContractInfo) (r : Assoc ℕ ContractInfo)
    → Fresh n r
    → Fresh n (update id f r)
unfolding update
update-Fresh n id f [] h = tt
update-Fresh n id f ((j, contract) ∷ rest) (below, h) = elim (Bool-cases (nat_beq j id)) [
  | inl found ↦ rw found (below, update-Fresh j id f rest h)
  | inr other ↦ rw other (below, update-Fresh j id f rest h)
]

pub remove-Fresh : (n id : ℕ) (r : Assoc ℕ ContractInfo) → Fresh n r → Fresh n (remove id r)
unfolding remove
remove-Fresh n id [] h = tt
remove-Fresh n id ((j, contract) ∷ rest) (below, h) = elim (Bool-cases (nat_beq j id)) [
  | inl found ↦
      rw found (Fresh-weaken j n (remove id rest) (omega arith) (remove-Fresh j id rest h))
  | inr other ↦ rw other (below, remove-Fresh j id rest h)
]

module _ (weight : ContractInfo → ℕ) where
  -- A change that keeps the weight of each keeps the total.
  pub total-update :
      (id : ℕ) (f : ContractInfo → ContractInfo) (r : Assoc ℕ ContractInfo)
      → ((contract : ContractInfo) → weight (f contract) ≡ weight contract)
      → total weight (update id f r) ≡ total weight r
  unfolding total update
  total-update id f [] h = refl
  total-update id f ((j, contract) ∷ rest) h = ground (arith, h contract, total-update id f rest h)

  pub total-update_each :
      (f : ContractInfo → ContractInfo) (contracts : Assoc Text ℕ) (r : Assoc ℕ ContractInfo)
      → ((contract : ContractInfo) → weight (f contract) ≡ weight contract)
      → total weight (update_each f contracts r) ≡ total weight r
  unfolding update_each
  total-update_each f [] r h = refl
  total-update_each f ((key, id) ∷ rest) r h =
      total-update_each f rest (update id f r) h ∙ total-update id f r h

  update_absent :
      (n id : ℕ) (f : ContractInfo → ContractInfo) (r : Assoc ℕ ContractInfo)
      → Fresh n r
      → n ≤ id
      → total weight (update id f r) ≡ total weight r
  unfolding total update
  update_absent n id f [] h above = refl
  update_absent n id f ((j, contract) ∷ rest) (below, h) above =
      ground (arith, update_absent j id f rest h (omega arith))

  remove_absent :
      (n id : ℕ) (r : Assoc ℕ ContractInfo)
      → Fresh n r
      → n ≤ id
      → total weight (remove id r) ≡ total weight r
  unfolding total remove
  remove_absent n id [] h above = refl
  remove_absent n id ((j, contract) ∷ rest) (below, h) above =
      ground (arith, remove_absent j id rest h (omega arith))

  -- A change of one registration changes the total by what it changes of its weight.
  pub total-update_one :
      (n id : ℕ) (f : ContractInfo → ContractInfo) (contract : ContractInfo)
      (r : Assoc ℕ ContractInfo)
      → Fresh n r
      → lookup id r ≡ some contract
      → total weight (update id f r) + weight contract ≡ total weight r + weight (f contract)
  unfolding total update lookup
  total-update_one n id f contract [] h e = absurd (ground arith)
  total-update_one n id f contract ((j, k) ∷ rest) (below, h) e = elim (Bool-cases (nat_beq j id)) [
    | inl found ↦
        let same : k ≡ contract = ground arith in
        rw (found, same) (omega (arith, update_absent j id f rest h (ground arith)))
    | inr other ↦ rw other (omega (arith, total-update_one j id f contract rest h (ground arith)))
  ]

  pub total-remove :
      (n id : ℕ) (contract : ContractInfo) (r : Assoc ℕ ContractInfo)
      → Fresh n r
      → lookup id r ≡ some contract
      → total weight (remove id r) + weight contract ≡ total weight r
  unfolding total remove lookup
  total-remove n id contract [] h e = absurd (ground arith)
  total-remove n id contract ((j, k) ∷ rest) (below, h) e = elim (Bool-cases (nat_beq j id)) [
    | inl found ↦
        let same : k ≡ contract = ground arith in
        rw (found, same) (omega (arith, remove_absent j id rest h (ground arith)))
    | inr other ↦ rw other (omega (arith, total-remove j id contract rest h (ground arith)))
  ]

  -- A registration that runs is counted.
  pub weight-total :
      (id : ℕ) (contract : ContractInfo) (r : Assoc ℕ ContractInfo)
      → lookup id r ≡ some contract
      → weight contract ≤ total weight r
  unfolding total lookup
  weight-total id contract [] e = absurd (ground arith)
  weight-total id contract ((j, k) ∷ rest) e = elim (Bool-cases (nat_beq j id)) [
    | inl found ↦ let same : k ≡ contract = ground arith in rw same (omega arith)
    | inr other ↦ omega (arith, weight-total id contract rest (ground arith))
  ]
