-- ===== src/EventIndexer/Consistent/Registering.antt =====
-- Adding and removing registrations keeps the bookkeeping of the event indexer.
use superform_go_utils.Prelude.{
  if-preserves, ℕ, suc, ◌+◌, Bool, true, false, List, [], ◌∷◌, Option, none, some, Text, nat_beq,
  if◌then◌else◌, Assoc, lookup, contains, ◌≡◌, refl, ap, sym, ◌∙◌, arith, Bool-cases, inl, inr,
  nat_eq, subst, length, ◌⊎◌,
}
use superform_go_utils.Prelude.Int.{ℤ, pos}
use superform_go_utils.EventIndexer.{
  Address, Hash, Channel, Indexer, IndexerError, count_of, increment, cancel,
}
use superform_go_utils.EventIndexer.Registrations.{
  check_addresses, dial_all, register, register_all, registered, add_contract, to_remove,
  remove_each, remove_contract,
}
use superform_go_utils.EventIndexer.Counts.{total, uses, holds, Fresh}
use superform_go_utils.EventIndexer.Bookkeeping.{Consistent, Counted, Unused, Consistent-update}
use superform_go_utils.EventIndexer.Consistent.Releasing.{count-at, count_of-insert}

-- The bookkeeping, with subscriptions that no goroutine holds yet.
abbrev Surplus : ℕ → Indexer → Type 0
Surplus k s =
    Fresh s.next_id s.running
    × Counted s.running s.outputs
    × Unused s.running s.closed
    × (s.subscriptions ≡ k + total holds s.running)
    × (s.panicked ≡ false)

increment-count : (n : ℤ) (m : ℕ) → n ≡ pos m → increment n ≡ pos (1 + m)
increment-count n m e = ap increment e ∙ ap pos (omega arith)

module _ (hex_address : Address → Text) (hex_hash : Hash → Text) where
  register-Surplus :
      (events : List Hash) (c : Channel) (chain_id : ℕ) (address : Address) (k : ℕ) (s : Indexer)
      → contains s.closed c ≡ false
      → Surplus (suc k) s
      → Surplus k (register hex_address hex_hash events c chain_id address s)
  unfolding register total uses holds
  register-Surplus events c chain_id address k s opened (fresh, counted, unused, held, calm) =
      let new = increment (count_of c s.outputs) in
      let users = λ (d : Channel). (if nat_beq c d then 1 else 0) + total (uses d) s.running in
      let self : nat_beq c c ≡ true = ground arith in
      (
        (omega arith, fresh),
        (λ d.
            count_of-insert c d new s.outputs
            ∙ count-at c d new (count_of d s.outputs) users
                (increment-count (count_of c s.outputs) (total (uses c) s.running) (counted c)
                  ∙ rw self refl)
                (λ other. counted d ∙ rw other (ap pos (omega arith)))),
        (λ d shut. elim (Bool-cases (nat_beq c d)) [
          | inl found ↦
              let same : c ≡ d = ground arith in
              absurd (ground (arith, subst (λ e. contains s.closed e ≡ false) same opened))
          | inr other ↦ rw other (omega (arith, unused d shut))
        ]),
        omega (arith, held),
        calm,
      )

  register_all-Consistent :
      (events : List Hash) (c : Channel) (again : Assoc ℕ Address) (s : Indexer)
      → contains s.closed c ≡ false
      → Surplus (length again) s
      → Consistent (register_all hex_address hex_hash events c again s)
  unfolding register_all register
  register_all-Consistent events c [] s opened (fresh, counted, unused, held, calm) =
      (fresh, counted, unused, omega (arith, held), calm)
  register_all-Consistent events c ((chain_id, address) ∷ rest) s opened h =
      register_all-Consistent events c rest
        (register hex_address hex_hash events c chain_id address s) opened
        (register-Surplus events c chain_id address (length rest) s opened h)

  -- Dialing either gives back what it opened or has opened one subscription for each address.
  pub dial_all-cases :
      (dials : ℕ → Bool) (opened n : ℕ) (again : Assoc ℕ Address) (s : Indexer)
      → n ≡ opened + s.subscriptions
      → ((e : IndexerError) × (dial_all hex_address hex_hash dials opened again
              (record s { subscriptions = n })
            ≡ (some e, s)))
        ⊎ (dial_all hex_address hex_hash dials opened again (record s { subscriptions = n })
            ≡ (none, record s { subscriptions = length again + n }))
  unfolding dial_all
  dial_all-cases dials opened n [] s e =
      inr (ap (λ m. (none, record s { subscriptions = m })) (omega arith))
  dial_all-cases dials opened n ((chain_id, address) ∷ rest) s e =
      elim (Bool-cases (dials chain_id)) [
        | inl answered ↦ elim (dial_all-cases dials (suc opened) (suc n) rest s (omega arith)) [
          | inl (x, failed) ↦ inl (x, rw answered failed)
          | inr done ↦
              inr (
                rw answered (done ∙ ap (λ m. (none, record s { subscriptions = m })) (omega arith)))
        ]
        | inr refused ↦ inl (
          IndexerError.subscription_failed chain_id,
          rw refused (
              ap
                (λ m. (
                  some (IndexerError.subscription_failed chain_id),
                  record s { subscriptions = m },
                ))
                (omega arith)),
        )
      ]

  remove_each-Consistent :
      (chain_ids : List ℕ) (address : Text) (contracts : Assoc Text ℕ) (removed : List ℕ)
      (s : Indexer)
      → Consistent s
      → Consistent (remove_each hex_address hex_hash chain_ids address contracts (removed, s)).1
  unfolding remove_each uses holds
  remove_each-Consistent chain_ids address [] removed s h = h
  remove_each-Consistent chain_ids address ((key, id) ∷ rest) removed s h =
      let P = λ (r : List ℕ × Indexer). Consistent r.1 in
      if-preserves P (to_remove hex_address hex_hash chain_ids address (lookup id s.running)) _ _
        (λ e.
          remove_each-Consistent chain_ids address rest (id ∷ removed) _
            (Consistent-update s id cancel (λ c k. refl) (λ k. refl) h))
        (λ e. remove_each-Consistent chain_ids address rest removed s h)

  pub remove_contract-Consistent :
      (chain_ids : List ℕ) (address : Text) (s : Indexer)
      → Consistent s
      → Consistent (remove_contract hex_address hex_hash chain_ids address s).1
  unfolding remove_contract
  remove_contract-Consistent chain_ids address s h =
      remove_each-Consistent chain_ids address s.contracts [] s h

  -- The state with which `AddContract` returns no error.
  abbrev pub added : List Hash → Channel → Assoc ℕ Address → Indexer → Indexer
  added events c again s =
      register_all hex_address hex_hash events c again
        (record s { subscriptions = length again + s.subscriptions })

  after_check :
      (P : Option IndexerError × Indexer → Type 0) (checked : Option IndexerError) (s : Indexer)
      (dialed : Option IndexerError × Indexer)
      → ((e : IndexerError) → P (some e, s))
      → P dialed
      → P (elim checked [ some e ↦ (some e, s) | none ↦ dialed ])
  after_check P none s dialed refused passed = passed
  after_check P (some e) s dialed refused passed = refused e

  -- `AddContract` changes nothing or registers every address.
  pub add_contract-cases :
      (dials : ℕ → Bool) (addresses again : Assoc ℕ Address) (events : List Hash) (c : Channel)
      (s : Indexer)
      → ((e : IndexerError) × (add_contract hex_address hex_hash dials addresses again events c s
            ≡ (some e, s)))
        ⊎ (add_contract hex_address hex_hash dials addresses again events c s
            ≡ (none, added events c again s))
  unfolding add_contract
  add_contract-cases dials addresses again events c s =
      let P = λ (r : Option IndexerError × Indexer).
        ((e : IndexerError) × (r ≡ (some e, s))) ⊎ (r ≡ (none, added events c again s)) in
      let finish_with = registered hex_address hex_hash events c again in
      if-preserves P s.stopped _ _ (λ e. inl (_, refl))
        (λ live.
          after_check P (check_addresses hex_address hex_hash s events addresses) s _
            (λ e. inl (e, refl))
            (elim (dial_all-cases dials 0 s.subscriptions again s (omega arith)) [
              | inl (e, failed) ↦ inl (e, ap finish_with failed)
              | inr dialed ↦ inr (ap finish_with dialed)
            ]))

  pub add_contract-Consistent :
      (dials : ℕ → Bool) (addresses again : Assoc ℕ Address) (events : List Hash) (c : Channel)
      (s : Indexer)
      → contains s.closed c ≡ false
      → Consistent s
      → Consistent (add_contract hex_address hex_hash dials addresses again events c s).1
  add_contract-Consistent dials addresses again events c s opened
        (fresh, counted, unused, held, calm) =
      let keeps = λ (r : Option IndexerError × Indexer). Consistent r.1 in
      elim (add_contract-cases dials addresses again events c s) [
        | inl (e, failed) ↦ subst keeps (sym failed) (fresh, counted, unused, held, calm)
        | inr done ↦ subst keeps (sym done) (
            register_all-Consistent events c again _ opened
              (fresh, counted, unused, ap (λ m. length again + m) held, calm))
      ]
