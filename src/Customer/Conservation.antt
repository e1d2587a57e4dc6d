-- ===== src/Customer/Conservation.antt =====
-- The subscriber of completed transactions (packages/customer-service/src/subscribers/index.ts): the
-- soundness of the accounts and the total of their balances.
use banking_platform.Base.{
  ℕ, ◌≡◌, refl, sym, ap, ◌∙◌, subst, Option, none, some, List, inl, inr, ◌⊎◌,
}
use banking_platform.Base.Int.{ℤ, ◌+ℤ◌, ◌-ℤ◌, int_laws, cancel_right, sub_add}
use banking_platform.Shared.Errors.{Result, ok, err}
use banking_platform.Shared.Events.{
  TransactionType, deposit, withdrawal, transfer, TransactionCompletedPayload, DomainEvent,
}
use banking_platform.Shared.Database.{Session}
use banking_platform.Customer.Repository.{Bank, Account, Operation, credit, debit, change}
use banking_platform.Customer.Subscriber.{Env, on_transaction_completed}
use banking_platform.Customer.Ledger.{
  move_statement, settle, Handles, on_transaction_completed-Handles,
}
use banking_platform.Customer.Accounts.{total, IsSound, total-updated, updated-IsSound}
use banking_platform.Customer.Money.{Moved, one-accounts, two-accounts, finish-KeepsAccounts}

module _ {id : ℕ} {amount : ℤ} {accounts accounts' : List Account} where
  Moved-total :
      {op : Operation} (sound : IsSound accounts) (m : Moved op id amount accounts accounts')
      → total accounts' +ℤ m.before.balance ≡ total accounts +ℤ (change op amount m.before).balance
  Moved-total {op} sound m =
      ap (λ rows. total rows +ℤ m.before.balance) m.rows
      ∙ total-updated op id amount accounts m.before sound m.found

  credit-total :
      IsSound accounts
      → Moved credit id amount accounts accounts'
      → total accounts' ≡ total accounts +ℤ amount
  credit-total sound m =
      cancel_right (total accounts') (total accounts +ℤ amount) m.before.balance
        (Moved-total sound m ∙ omega int_laws)

  debit-total :
      IsSound accounts
      → Moved debit id amount accounts accounts'
      → total accounts' ≡ total accounts -ℤ amount
  debit-total sound m =
      cancel_right (total accounts') (total accounts -ℤ amount) m.before.balance
        (Moved-total sound m ∙ omega int_laws)

  Moved-IsSound :
      {op : Operation}
      → IsSound accounts
      → Moved op id amount accounts accounts'
      → IsSound accounts'
  Moved-IsSound {op} sound m =
      subst IsSound (sym m.rows)
        (updated-IsSound op id amount accounts m.before sound m.found m.covered)

-- What an event of a type may do to the total of the accounts.
abbrev pub TotalMoves : TransactionType → ℤ → ℤ → ℤ → Type 0
TotalMoves deposit amount old new = (new ≡ old) ⊎ (new ≡ old +ℤ amount)
TotalMoves withdrawal amount old new = (new ≡ old) ⊎ (new ≡ old -ℤ amount)
TotalMoves transfer amount old new = new ≡ old

-- Soundness stays, and the total moves as the type says.
abbrev pub Accounted : TransactionType → ℤ → List Account → List Account → Type 0
Accounted type amount accounts accounts' =
    IsSound accounts' × TotalMoves type amount (total accounts) (total accounts')

TotalMoves-refl : (type : TransactionType) (amount old : ℤ) → TotalMoves type amount old old
TotalMoves-refl deposit amount old = inl refl
TotalMoves-refl withdrawal amount old = inl refl
TotalMoves-refl transfer amount old = refl

same-Accounted :
    (type : TransactionType) (amount : ℤ) {accounts accounts' : List Account}
    → IsSound accounts
    → accounts' ≡ accounts
    → Accounted type amount accounts accounts'
same-Accounted type amount {accounts} sound e =
    subst (Accounted type amount accounts) (sym e)
      (sound, TotalMoves-refl type amount (total accounts))

module _ (env : Env) (event : DomainEvent TransactionCompletedPayload) where
  move-Accounted :
      (type : TransactionType) (source target : Option ℕ) (amount : ℤ) (db db' : Bank)
      → IsSound db.accounts
      → move_statement env event type source target amount db ≡ some (tt, db')
      → Accounted type amount db.accounts db'.accounts
  move-Accounted deposit source (some target) amount db db' sound h =
      elim (one-accounts env event credit target amount db db' h) [
        | inl (missing, same) ↦ same-Accounted deposit amount sound same
        | inr m ↦ (Moved-IsSound sound m, inr (credit-total sound m))
      ]
  move-Accounted deposit source none amount db db' sound h =
      same-Accounted deposit amount sound (finish-KeepsAccounts env event db db' tt h)
  move-Accounted withdrawal (some source) target amount db db' sound h =
      elim (one-accounts env event debit source amount db db' h) [
        | inl (missing, same) ↦ same-Accounted withdrawal amount sound same
        | inr m ↦ (Moved-IsSound sound m, inr (debit-total sound m))
      ]
  move-Accounted withdrawal none target amount db db' sound h =
      same-Accounted withdrawal amount sound (finish-KeepsAccounts env event db db' tt h)
  move-Accounted transfer (some source) (some target) amount db db' sound h =
      let (rows, out, into) = two-accounts env event source target amount db db' h in
      let sound' = Moved-IsSound sound out in
      (
        Moved-IsSound sound' into,
        credit-total sound' into
            ∙ ap (λ (x : ℤ). x +ℤ amount) (debit-total sound out)
            ∙ sub_add (total db.accounts) amount,
      )
  move-Accounted transfer (some source) none amount db db' sound h =
      same-Accounted transfer amount sound (finish-KeepsAccounts env event db db' tt h)
  move-Accounted transfer none target amount db db' sound h =
      same-Accounted transfer amount sound (finish-KeepsAccounts env event db db' tt h)

  -- On sound accounts (one row for each identifier, no negative balance) the subscriber leaves sound
  -- accounts, whatever the event and whatever statements fail, and the total moves only as the type
  -- of the transaction says: by the amount or not at all for a deposit and a withdrawal, and not at
  -- all for a transfer.
  pub on_transaction_completed-Accounted :
      (s : Session Bank)
      → IsSound s.db.accounts
      → Accounted event.payload.type event.payload.amount s.db.accounts
          (on_transaction_completed env event s).1.db.accounts
  unfolding settle
  on_transaction_completed-Accounted s sound =
      go (on_transaction_completed env event s) (on_transaction_completed-Handles env event s)
    where
      go :
          (p : Result (Unit {0}) × Session Bank)
          → Handles env event s.db p
          → Accounted event.payload.type event.payload.amount s.db.accounts p.1.db.accounts
      go (err e, s') h =
          same-Accounted event.payload.type event.payload.amount sound
            (ap (λ (x : Bank). x.accounts) h)
      go (ok tt, s') (inl (seen, same)) =
          same-Accounted event.payload.type event.payload.amount sound
            (ap (λ (x : Bank). x.accounts) same)
      go (ok tt, s') (inr (new, ran)) =
          move-Accounted event.payload.type event.payload.source_account_id
            event.payload.target_account_id event.payload.amount s.db s'.db sound ran
