-- ===== src/Customer/Announcements.antt =====
-- What the subscriber of completed transactions (packages/customer-service/src/subscribers/index.ts)
-- announces about a deposit or a withdrawal.
use mathlib.Core.Option.{some-injective}
use banking_platform.Base.{
  ℕ, ◌≡◌, refl, sym, ap, ◌∙◌, true, false, some, [], ◌∷◌, ◌++◌, find, Bool-cases, inl, inr,
}
use banking_platform.Base.Int.{ℤ, pos, ltb_ℤ}
use banking_platform.Shared.Errors.{Result, ok, err}
use banking_platform.Shared.Events.{
  Computed, sum, difference, deposit, TransactionCompletedPayload, DomainEvent,
}
use banking_platform.Shared.Database.{Session}
use banking_platform.Shared.Tracker.{member}
use banking_platform.Outbox.Repository.{new_message, has_message}
use banking_platform.Customer.Repository.{
  Bank, bank_processed, bank_outbox, Account, Operation, credit, debit, matches, change,
}
use banking_platform.Customer.Subscriber.{
  Env, balance_updated, balance_before, on_transaction_completed,
}
use banking_platform.Customer.Accounts.{updated}
use banking_platform.Customer.Ledger.{
  one_statement, settle, Handles, on_transaction_completed-Handles,
}

module _ (env : Env) (event : DomainEvent TransactionCompletedPayload) where
  -- The balance before, as JavaScript computes it from the balance after and the amount.
  abbrev pub computed_before : Operation → ℤ → ℤ → Computed
  computed_before credit after amount = difference after amount
  computed_before debit after amount = sum after amount

  -- The tables after an update of the row `a`, which is announced.
  abbrev pub told : Operation → ℕ → ℤ → Account → Bank → Bank
  told op id amount a db = record db {
    accounts = updated op id amount db.accounts;
    outbox =
        db.outbox
        ++ (new_message env.message_id
              (balance_updated id (computed_before op (change op amount a).balance amount)
                (change op amount a).balance event.payload.transaction_id)
              event.correlation_id env.now
            ∷ []);
    processed = event.id ∷ db.processed;
  }

  pub balance_before-change :
      (op : Operation) (amount : ℤ) (a : Account)
      → balance_before env event op amount (some (change op amount a))
        ≡ computed_before op (change op amount a).balance amount
  balance_before-change credit amount a = refl
  balance_before-change debit amount a = refl

  one_statement-told :
      (op : Operation) (id : ℕ) (amount : ℤ) (a : Account) (db db' : Bank)
      → find (matches op id amount) db.accounts ≡ some a
      → member event.id db.processed ≡ false
      → one_statement env event op id amount db ≡ some (tt, db')
      → db' ≡ told op id amount a db
  one_statement-told op id amount a db db' found new h =
      elim (Bool-cases (ltb_ℤ (change op amount a).balance (pos 0))) [
        | inl short ↦ let h' = rw (found, short) at h in cc
        | inr enough ↦ elim (Bool-cases (has_message env.message_id db.outbox)) [
          | inl taken ↦ let h' = rw (found, enough, taken) at h in cc
          | inr fresh ↦
              let h' = rw (found, enough, fresh, new, balance_before-change op amount a) at h in
              ap (λ p. p.1) (sym (some-injective _ _ h'))
        ]
      ]

  -- The account and the direction of a deposit and of a withdrawal.
  settled-told :
      (op : Operation) (id : ℕ) (a : Account) (s : Session Bank)
      → settle env event s.db ≡ one_statement env event op id event.payload.amount s.db
      → find (matches op id event.payload.amount) s.db.accounts ≡ some a
      → member event.id s.db.processed ≡ false
      → (on_transaction_completed env event s).0 ≡ ok tt
      → (on_transaction_completed env event s).1.db ≡ told op id event.payload.amount a s.db
  settled-told op id a s same found new returned =
      go (on_transaction_completed env event s) (on_transaction_completed-Handles env event s)
        returned
    where
      go :
          (p : Result (Unit {0}) × Session Bank)
          → Handles env event s.db p
          → p.0 ≡ ok tt
          → p.1.db ≡ told op id event.payload.amount a s.db
      go (err e, s') h r = cc
      go (ok tt, s') (inl (seen, _)) r = (let clash : true ≡ false = sym seen ∙ new in cc)
      go (ok tt, s') (inr (_, ran)) r =
          one_statement-told op id event.payload.amount a s.db s'.db found new (sym same ∙ ran)

  -- If the subscriber returns for a new deposit to an active account, whatever statements may have
  -- failed, the committed tables are those before with the amount added to it, the mark of the
  -- event, and one message more, which announces the balance that the account has and, as the one
  -- before, the number that JavaScript computes as that balance less the amount.
  on_transaction_completed-deposit-told :
      (target : ℕ) (a : Account) (s : Session Bank)
      → event.payload.type ≡ deposit
      → event.payload.target_account_id ≡ some target
      → find (matches credit target event.payload.amount) s.db.accounts ≡ some a
      → member event.id s.db.processed ≡ false
      → (on_transaction_completed env event s).0 ≡ ok tt
      → (on_transaction_completed env event s).1.db ≡ told credit target event.payload.amount a s.db
  unfolding settle
  on_transaction_completed-deposit-told target a s is_deposit is_to found new returned =
      settled-told credit target a s (rw (is_deposit, is_to) refl) found new returned
