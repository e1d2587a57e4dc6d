-- ===== src/Customer/Effects.antt =====
-- The effect of one event on the single accounts (packages/customer-service/src/subscribers/
-- index.ts).
use banking_platform.Base.{
  ℕ, ◌≡◌, ◌≢◌, sym, ap, ◌∙◌, subst, true, false, Option, none, some, List, find, arith, inl, inr,
}
use banking_platform.Base.Int.{ℤ, ◌+ℤ◌, ◌-ℤ◌, ◌≤ℤ◌, int_laws}
use banking_platform.Shared.Errors.{Result, ok, err}
use banking_platform.Shared.Events.{
  TransactionType, withdrawal, transfer, TransactionCompletedPayload, DomainEvent,
}
use banking_platform.Shared.Database.{Session}
use banking_platform.Shared.Tracker.{member, add_id}
use banking_platform.Customer.Repository.{
  bank_outbox, Bank, bank_processed, Account, credit, debit, matches,
}
use banking_platform.Customer.Subscriber.{Env, on_transaction_completed}
use banking_platform.Customer.Ledger.{
  two_statement, move_statement, settle, Handles, on_transaction_completed-Handles,
}
use banking_platform.Customer.Accounts.{
  IsSound, account_of, updated-IsSound, account_of-updated, account_of-updated_ne,
}
use banking_platform.Customer.Money.{Moved, two-accounts}
use banking_platform.Customer.Progress.{on_transaction_completed-returns}
use banking_platform.Shared.Database.Progress.{calm}

-- A transfer of `amount` from one account to another has taken place, covered by the source's
-- balance; every other account is as before.
abbrev MovesBetween : ℕ → ℕ → ℤ → List Account → List Account → Type 0
MovesBetween source target amount accounts accounts' =
    (a b : Account) × (account_of source accounts ≡ some a)
    × (account_of target accounts ≡ some b)
    × (amount ≤ℤ a.balance)
    × (account_of source accounts' ≡ some (record a { balance = a.balance -ℤ amount }))
    × (account_of target accounts' ≡ some (record b { balance = b.balance +ℤ amount }))
    × ((i : ℕ) → i ≢ source → i ≢ target → account_of i accounts' ≡ account_of i accounts)

-- The same, of one other account.
abbrev pub Transferred : ℕ → ℕ → ℕ → ℤ → List Account → List Account → Type 0
Transferred source target other amount accounts accounts' =
    (a b : Account) × (account_of source accounts ≡ some a)
    × (account_of target accounts ≡ some b)
    × (amount ≤ℤ a.balance)
    × (account_of source accounts' ≡ some (record a { balance = a.balance -ℤ amount }))
    × (account_of target accounts' ≡ some (record b { balance = b.balance +ℤ amount }))
    × (account_of other accounts' ≡ account_of other accounts)

-- A transfer between two accounts, as it changes the rows.
transfer-rows :
    (source target : ℕ) (amount : ℤ) (accounts rows accounts' : List Account)
    → IsSound accounts
    → source ≢ target
    → Moved debit source amount accounts rows
    → Moved credit target amount rows accounts'
    → MovesBetween source target amount accounts accounts'
transfer-rows source target amount accounts rows accounts' sound ne out into =
    let sound' : IsSound rows =
      subst IsSound (sym out.rows)
        (updated-IsSound debit source amount accounts out.before sound out.found out.covered) in
    let (had, has) = account_of-updated debit source amount accounts out.before sound out.found in
    let (had', has') = account_of-updated credit target amount rows into.before sound' into.found in
    (
      out.before,
      into.before,
      had,
      sym (account_of-updated_ne debit source amount target accounts (λ e. ne (sym e)))
          ∙ ap (account_of target) (sym out.rows)
          ∙ had',
      (let c = out.covered in omega int_laws),
      ap (account_of source) into.rows
          ∙ account_of-updated_ne credit target amount source rows ne
          ∙ ap (account_of source) out.rows
          ∙ has,
      ap (account_of target) into.rows ∙ has',
      λ i ns nt.
          ap (account_of i) into.rows
          ∙ account_of-updated_ne credit target amount i rows nt
          ∙ ap (account_of i) out.rows
          ∙ account_of-updated_ne debit source amount i accounts ns,
    )

module _ (env : Env) (event : DomainEvent TransactionCompletedPayload) where
  transfer-MovesBetween :
      (type : TransactionType) (from to : Option ℕ) (amount : ℤ) (source target : ℕ) (db db' : Bank)
      → type ≡ transfer
      → from ≡ some source
      → to ≡ some target
      → source ≢ target
      → IsSound db.accounts
      → move_statement env event type from to amount db ≡ some (tt, db')
      → MovesBetween source target amount db.accounts db'.accounts
  transfer-MovesBetween type from to amount source target db db' is_transfer is_from is_to ne sound
        ran =
      let ran' : two_statement env event source target amount db ≡ some (tt, db') =
        ap (λ t. move_statement env event t (some source) (some target) amount db) (sym is_transfer)
        ∙ ap (λ f. move_statement env event type f (some target) amount db) (sym is_from)
        ∙ ap (λ u. move_statement env event type from u amount db) (sym is_to)
        ∙ ran in
      let (rows, out, into) = two-accounts env event source target amount db db' ran' in
      transfer-rows source target amount db.accounts rows db'.accounts sound ne out into

  on_transaction_completed-MovesBetween :
      (s : Session Bank) (source target : ℕ)
      → event.payload.type ≡ transfer
      → event.payload.source_account_id ≡ some source
      → event.payload.target_account_id ≡ some target
      → source ≢ target
      → IsSound s.db.accounts
      → member event.id s.db.processed ≡ false
      → (on_transaction_completed env event s).0 ≡ ok tt
      → MovesBetween source target event.payload.amount s.db.accounts
          (on_transaction_completed env event s).1.db.accounts
  unfolding settle
  on_transaction_completed-MovesBetween s source target is_transfer is_from is_to ne sound new
        returned =
      go (on_transaction_completed env event s) (on_transaction_completed-Handles env event s)
        returned
    where
      go :
          (p : Result (Unit {0}) × Session Bank)
          → Handles env event s.db p
          → p.0 ≡ ok tt
          → MovesBetween source target event.payload.amount s.db.accounts p.1.db.accounts
      go (err e, s') h r = cc
      go (ok tt, s') (inl (seen, same)) r = (let clash : true ≡ false = sym seen ∙ new in cc)
      go (ok tt, s') (inr (_, ran)) r =
          transfer-MovesBetween event.payload.type event.payload.source_account_id
            event.payload.target_account_id event.payload.amount source target s.db s'.db
            is_transfer is_from is_to ne sound ran

  -- If the subscriber returns for a transfer between two different accounts that was not processed
  -- before, the source has lost the amount, which it had, the target has gained it, and any other
  -- account is as before; the accounts were sound, and any statement may have failed.
  pub on_transaction_completed-Transferred :
      (s : Session Bank) (source target other : ℕ)
      → event.payload.type ≡ transfer
      → event.payload.source_account_id ≡ some source
      → event.payload.target_account_id ≡ some target
      → source ≢ target
      → other ≢ source
      → other ≢ target
      → IsSound s.db.accounts
      → member event.id s.db.processed ≡ false
      → (on_transaction_completed env event s).0 ≡ ok tt
      → Transferred source target other event.payload.amount s.db.accounts
          (on_transaction_completed env event s).1.db.accounts
  on_transaction_completed-Transferred s source target other is_transfer is_from is_to ne not_source
        not_target sound new returned =
      let (a, b, from, to, enough, debited, credited, others) =
        on_transaction_completed-MovesBetween s source target is_transfer is_from is_to ne sound new
          returned in
      (a, b, from, to, enough, debited, credited, others other not_source not_target)

  settle_dropped :
      (db : Bank) (source : ℕ)
      → event.payload.type ≡ withdrawal
      → event.payload.source_account_id ≡ some source
      → find (matches debit source event.payload.amount) db.accounts ≡ none
      → settle env event db ≡ some (tt, record db { processed = add_id event.id db.processed })
  unfolding settle
  settle_dropped db source is_withdrawal is_from missing =
      ap
        (λ t.
          move_statement env event t event.payload.source_account_id event.payload.target_account_id
            event.payload.amount db)
        is_withdrawal
      ∙ ap
          (λ f.
            move_statement env event withdrawal f event.payload.target_account_id
              event.payload.amount db)
          is_from
      ∙ ground arith

  -- A completed withdrawal that finds no active account with enough money under its identifier is
  -- dropped: where no statement fails, the subscriber returns, having marked the event as processed
  -- and changed nothing else; no money moves and no message is queued.
  pub on_transaction_completed_dropped :
      (db view : Bank) (source : ℕ)
      → event.payload.type ≡ withdrawal
      → event.payload.source_account_id ≡ some source
      → find (matches debit source event.payload.amount) db.accounts ≡ none
      → member event.id db.processed ≡ false
      → on_transaction_completed env event (calm db view) ≡ (
        ok tt,
        calm
            (record db { processed = add_id event.id db.processed })
            (record db { processed = add_id event.id db.processed }),
      )
  on_transaction_completed_dropped db view source is_withdrawal is_from missing new =
      on_transaction_completed-returns env event db view
        (record db { processed = add_id event.id db.processed }) new
        (settle_dropped db source is_withdrawal is_from missing)
