-- ===== src/Txmngr/Safety/Keeps.antt =====
-- Actions that extend the durable state and keep it valid, one rule for each way to build one.
use mathlib.Core.List.{append-nil, append_assoc}
use superform_go_utils.Prelude.{
  ℕ, List, [], ◌∷◌, ◌++◌, Bool, true, false, ◌≡◌, refl, sym, ◌∙◌, ap, All, if◌then◌else◌,
}
use superform_go_utils.Txmngr.Types.{TransactionAttempt}
use superform_go_utils.Txmngr.Errors.{Failure}
use superform_go_utils.Txmngr.Mem.{Store, attempts_of}
use superform_go_utils.Txmngr.Lane.{NonceLane}
use superform_go_utils.Txmngr.Action.{
  Action, State, Result, ok, err, Effect, sent, result_observed, barrier_observed, active_set, pure,
  fail, ask, gets, lift, try, wrapping, update_lane, ◌>>=◌,
}
use superform_go_utils.Txmngr.Safety.Durable.{IsDurable, EffectOwned, IsValid, Extends}

pub Extends-refl : (s : Store) → Extends s s
Extends-refl s = record {
  settled = λ id tx h c. h;
  kept = λ id tx h. (tx, h);
  owners = λ hash id h. h;
  appended = λ id. ([], sym (append-nil (attempts_of s id)));
  locks = refl;
}

pub Extends-trans : (s t u : Store) → Extends s t → Extends t u → Extends s u
Extends-trans s t u h k = record {
  settled = λ id tx found c. k.settled id tx (h.settled id tx found c) c;
  kept = λ id tx found. let (tx', e) = h.kept id tx found in k.kept id tx' e;
  owners = λ hash id e. k.owners hash id (h.owners hash id e);
  appended = λ id.
      let (more, e) = h.appended id in
      let (more', e') = k.appended id in
      (
        more ++ more',
        e'
            ∙ ap (λ (xs : List TransactionAttempt). xs ++ more') e
            ∙ append_assoc (attempts_of s id) more more',
      );
  locks = k.locks ∙ h.locks;
}

pub IsDurable-stable :
    (s t : Store) (a : TransactionAttempt) → Extends s t → IsDurable s a → IsDurable t a
IsDurable-stable s t a h d = record {
  owned = h.owners a.hash a.transaction_id d.owned;
  matches = d.matches;
}

pub All-IsDurable-stable :
    (s t : Store) (xs : List TransactionAttempt)
    → Extends s t
    → All (IsDurable s) xs
    → All (IsDurable t) xs
All-IsDurable-stable s t [] h d = tt
All-IsDurable-stable s t (a ∷ rest) h d =
    (IsDurable-stable s t a h d.0, All-IsDurable-stable s t rest h d.1)

EffectOwned-stable : (s t : Store) (e : Effect) → Extends s t → EffectOwned s e → EffectOwned t e
EffectOwned-stable s t (sent chain_id tx seen) h o = (o.0, o.1, h.owners tx.hash o.0 o.2)
EffectOwned-stable s t (result_observed chain_id status) h o = tt
EffectOwned-stable s t (barrier_observed chain_id reason) h o = tt
EffectOwned-stable s t (active_set chain_id count) h o = tt

pub All-owned-stable :
    (s t : Store) (es : List Effect) → Extends s t → All (EffectOwned s) es → All (EffectOwned t) es
All-owned-stable s t [] h o = tt
All-owned-stable s t (e ∷ es) h o = (EffectOwned-stable s t e h o.0, All-owned-stable s t es h o.1)

-- From a valid state with the attempts durable, the action extends the store, returning or failing.
pub record Keeps {A : Type 0} (xs : List TransactionAttempt) (m : Action A) : Type 0 where
  pub at :
      (s : State)
      → IsValid s
      → All (IsDurable s.store) xs
      → Extends s.store (m s).1.store × IsValid (m s).1

module _ {A : Type 0} (xs : List TransactionAttempt) where
  pub Keeps-pure : (a : A) → Keeps xs (pure a)
  unfolding pure
  Keeps-pure a = record { at = λ s v d. (Extends-refl s.store, v) }

  pub Keeps-fail : (e : Failure) → Keeps xs (fail {A = A} e)
  unfolding fail
  Keeps-fail e = record { at = λ s v d. (Extends-refl s.store, v) }

  pub Keeps-lift : (r : Result A) → Keeps xs (lift r)
  unfolding lift
  Keeps-lift r = record { at = λ s v d. (Extends-refl s.store, v) }

  pub Keeps-gets : (f : State → A) → Keeps xs (gets f)
  unfolding gets
  Keeps-gets f = record { at = λ s v d. (Extends-refl s.store, v) }

  pub Keeps-ask : (f : ℕ → A) → Keeps xs (ask f)
  unfolding ask
  Keeps-ask f = record {
    at = λ s v d. (Extends-refl s.store, record { stored = v.stored; broadcast = v.broadcast });
  }

  pub Keeps-try : (m : Action A) → Keeps xs m → Keeps xs (try m)
  unfolding try
  Keeps-try m k = record { at = k.at }

  renamed_keeps :
      (f : Failure → Failure) (s : State) (o : Result A × State)
      → Extends s.store o.1.store × IsValid o.1
      → Extends s.store (wrapping f (λ _. o) s).1.store × IsValid (wrapping f (λ _. o) s).1
  unfolding wrapping
  renamed_keeps f s (ok a, t) h = h
  renamed_keeps f s (err e, t) h = h

  pub Keeps-wrapping : (f : Failure → Failure) (m : Action A) → Keeps xs m → Keeps xs (wrapping f m)
  unfolding wrapping
  Keeps-wrapping f m k = record { at = λ s v d. renamed_keeps f s (m s) (k.at s v d) }

  pub Keeps-if :
      (b : Bool) (m n : Action A) → Keeps xs m → Keeps xs n → Keeps xs (if b then m else n)
  Keeps-if true m n km kn = km
  Keeps-if false m n km kn = kn

pub Keeps-update_lane :
    (xs : List TransactionAttempt) (f : NonceLane → NonceLane) → Keeps xs (update_lane f)
unfolding update_lane
Keeps-update_lane xs f = record {
  at = λ s v d. (Extends-refl s.store, record { stored = v.stored; broadcast = v.broadcast });
}

module _ {A B : Type 0} (xs : List TransactionAttempt) where
  continue_keeps :
      (f : A → Action B) (s : State) (o : Result A × State)
      → Extends s.store o.1.store × IsValid o.1
      → ((a : A) → o.0 ≡ ok a → Extends o.1.store (f a o.1).1.store × IsValid (f a o.1).1)
      → Extends s.store (◌>>=◌ (λ _. o) f s).1.store × IsValid (◌>>=◌ (λ _. o) f s).1
  unfolding ◌>>=◌
  continue_keeps f s (ok a, t) h k =
      (Extends-trans s.store t.store _ h.0 (k a refl).0, (k a refl).1)
  continue_keeps f s (err e, t) h k = h

  -- The rest of a block may use what its first action establishes of its result and state.
  pub Keeps-bind-known :
      (m : Action A) (f : A → Action B) (ys : A → List TransactionAttempt)
      → Keeps xs m
      → ((s : State) (a : A)
          → IsValid s
          → All (IsDurable s.store) xs
          → (m s).0 ≡ ok a
          → All (IsDurable (m s).1.store) (ys a))
      → ((a : A) → Keeps (ys a) (f a))
      → Keeps xs (m >>= f)
  unfolding ◌>>=◌
  Keeps-bind-known m f ys km known kf = record {
    at = λ s v d.
        let h = km.at s v d in
        continue_keeps f s (m s) h (λ a e. (kf a).at (m s).1 h.1 (known s a v d e));
  }

  pub Keeps-bind :
      (m : Action A) (f : A → Action B)
      → Keeps xs m
      → ((a : A) → Keeps xs (f a))
      → Keeps xs (m >>= f)
  unfolding ◌>>=◌
  Keeps-bind m f km kf = record {
    at = λ s v d.
        let h = km.at s v d in
        continue_keeps f s (m s) h
          (λ a e. (kf a).at (m s).1 h.1 (All-IsDurable-stable s.store (m s).1.store xs h.0 d));
  }
