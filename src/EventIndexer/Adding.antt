-- ===== src/EventIndexer/Adding.antt =====
-- What `AddContract` leaves behind (evm/eventindexer/event_indexer.go).
use superform_go_utils.Prelude.{
  ℕ, ◌+◌, Bool, true, List, [], ◌∷◌, none, some, Text, Assoc, lookup, insert, is_some, length, ◌≡◌,
  refl, ◌∙◌, arith, text_eq, nat_eq, ◌⊎◌, inl, inr, All, lookup-insert, ==_refl,
}
use superform_go_utils.EventIndexer.{Address, Hash, Channel, Indexer, IndexerError}
use superform_go_utils.EventIndexer.Registrations.{
  get_contract_key, register, register_all, add_contract,
}
use superform_go_utils.EventIndexer.Consistent.{add_contract-cases}

module _ (hex_address : Address → Text) (hex_hash : Hash → Text) where
  -- The address has an entry in `contracts`.
  abbrev pub Watched : List Hash → Indexer → ℕ × Address → Type 0
  Watched events s (chain_id, address) =
      is_some (lookup (get_contract_key hex_address hex_hash chain_id address events) s.contracts)
      ≡ true

  is_some-insert :
      (k j : Text) (id : ℕ) (contracts : Assoc Text ℕ)
      → is_some (lookup j contracts) ≡ true
      → is_some (lookup j (insert k id contracts)) ≡ true
  is_some-insert k j id contracts h = ground (arith, lookup-insert k j id contracts)

  register_all-keeps :
      (events : List Hash) (c : Channel) (again : Assoc ℕ Address) (s : Indexer) (key : Text)
      → is_some (lookup key s.contracts) ≡ true
      → is_some (lookup key (register_all hex_address hex_hash events c again s).contracts) ≡ true
  unfolding register_all register
  register_all-keeps events c [] s key h = h
  register_all-keeps events c ((chain_id, address) ∷ rest) s key h =
      register_all-keeps events c rest (register hex_address hex_hash events c chain_id address s)
        key
        (is_some-insert (get_contract_key hex_address hex_hash chain_id address events) key
          s.next_id s.contracts h)

  inserted :
      (k : Text) (id : ℕ) (contracts : Assoc Text ℕ)
      → is_some (lookup k (insert k id contracts)) ≡ true
  inserted k id contracts = ground (arith, lookup-insert k k id contracts, ==_refl k)

  register_all-Watched :
      (events : List Hash) (c : Channel) (again : Assoc ℕ Address) (s : Indexer)
      → All (Watched events (register_all hex_address hex_hash events c again s)) again
        × ((register_all hex_address hex_hash events c again s).next_id ≡ s.next_id + length again)
        × ((register_all hex_address hex_hash events c again s).subscriptions ≡ s.subscriptions)
  unfolding register_all register
  register_all-Watched events c [] s = (tt, omega arith, refl)
  register_all-Watched events c ((chain_id, address) ∷ rest) s =
      let t = register hex_address hex_hash events c chain_id address s in
      let key = get_contract_key hex_address hex_hash chain_id address events in
      let (watched, ids, held) = register_all-Watched events c rest t in
      (
        (register_all-keeps events c rest t key (inserted key s.next_id s.contracts), watched),
        omega (arith, ids),
        held,
      )

  -- `AddContract` is all or nothing: it returns an error and the indexer is as it was, with every
  -- subscription that it had opened given back; or it returns none, every address is watched,
  -- and one registration and one subscription are new for each.
  pub add_contract-atomic :
      (dials : ℕ → Bool) (addresses again : Assoc ℕ Address) (events : List Hash) (c : Channel)
      (s : Indexer)
      → ((e : IndexerError) × (add_contract hex_address hex_hash dials addresses again events c s
            ≡ (some e, s)))
        ⊎ ((t : Indexer) × (add_contract hex_address hex_hash dials addresses again events c s
              ≡ (none, t))
            × All (Watched events t) again
            × (t.next_id ≡ s.next_id + length again)
            × (t.subscriptions ≡ s.subscriptions + length again))
  add_contract-atomic dials addresses again events c s =
      elim (add_contract-cases hex_address hex_hash dials addresses again events c s) [
        | inl failed ↦ inl failed
        | inr done ↦
            let (watched, ids, held) =
              register_all-Watched events c again
                (record s { subscriptions = length again + s.subscriptions }) in
            inr (_, done, watched, ids, held ∙ omega arith)
      ]
