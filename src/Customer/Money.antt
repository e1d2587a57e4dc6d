-- ===== src/Customer/Money.antt =====
-- The accounts when the subscriber settles an event (packages/customer-service/src/subscribers/
-- index.ts): the rows that its change of the tables touches, and the total of the balances.
use banking_platform.Base.{
  ℕ, ◌≡◌, refl, sym, ap, ◌∙◌, subst, Option, none, some, List, find, arith, inl, inr, ◌⊎◌,
}
use banking_platform.Base.Int.{ℤ, pos, ◌≤ℤ◌}
use banking_platform.Shared.Events.{
  Computed, sum, difference, TransactionCompletedPayload, DomainEvent, Payload,
}
use banking_platform.Shared.Database.{Statement}
use banking_platform.Shared.Database.Atomicity.{chain, chain-eq-some}
use banking_platform.Outbox.Queue.{queue}
use banking_platform.Customer.Repository.{
  Bank, Account, bank_processed, bank_outbox, Operation, credit, debit, matches, change,
  apply_update, update_statement,
}
use banking_platform.Customer.Subscriber.{Env, balance_before, balance_updated}
use banking_platform.Customer.Ledger.{
  finish_statement, report_statement, one_statement, credited_statement, debited_statement,
  two_statement,
}
use banking_platform.Customer.Accounts.{updated}

-- One row changed by `updateBalance`.
pub record Updated (op : Operation) (id : ℕ) (amount : ℤ) (db db' : Bank) (a' : Account)
    : Type 0 where
  pub before : Account
  pub found : find (matches op id amount) db.accounts ≡ some before
  pub after : a' ≡ change op amount before
  pub covered : pos 0 ≤ℤ a'.balance
  pub tables : db' ≡ record db { accounts = updated op id amount db.accounts }

update_statement-Updated :
    (op : Operation) (id : ℕ) (amount : ℤ) (db db' : Bank) (a' : Account)
    → update_statement id amount op db ≡ some (some a', db')
    → Updated op id amount db db' a'
update_statement-Updated op id amount db db' a' h =
    go (find (matches op id amount) db.accounts) refl h
  where
    go :
        (o : Option Account)
        → find (matches op id amount) db.accounts ≡ o
        → apply_update op id amount o db ≡ some (some a', db')
        → Updated op id amount db db' a'
    go none e k = cc
    go (some a) e k = record {
      before = a;
      found = e;
      after = ground arith;
      covered = ground arith;
      tables = ground arith;
    }

update_statement-none :
    (op : Operation) (id : ℕ) (amount : ℤ) (db db' : Bank)
    → update_statement id amount op db ≡ some (none, db')
    → (find (matches op id amount) db.accounts ≡ none) × (db' ≡ db)
update_statement-none op id amount db db' h = go (find (matches op id amount) db.accounts) refl h
  where
    go :
        (o : Option Account)
        → find (matches op id amount) db.accounts ≡ o
        → apply_update op id amount o db ≡ some (none, db')
        → (find (matches op id amount) db.accounts ≡ none) × (db' ≡ db)
    go none e k = (e, cc)
    go (some a) e k = ground arith

-- Queueing messages and marking the event leave the accounts alone.
abbrev pub KeepsAccounts : {A : Type 0} → Statement Bank A → Type 0
KeepsAccounts {A} f = (db db' : Bank) (a : A) → f db ≡ some (a, db') → db'.accounts ≡ db.accounts

chain-KeepsAccounts :
    {A B : Type 0} (f : Statement Bank A) (g : A → Statement Bank B)
    → KeepsAccounts f
    → ((a : A) → KeepsAccounts (g a))
    → KeepsAccounts (chain f g)
chain-KeepsAccounts f g hf hg db db' b h =
    let (a, db₁, ran, rest) = chain-eq-some f g db h in hg a db₁ db' b rest ∙ hf db db₁ a ran

queue-KeepsAccounts :
    (id now : ℕ) (payload : Payload) (correlation_id : Option ℕ)
    → KeepsAccounts (queue id now payload correlation_id)
queue-KeepsAccounts id now payload correlation_id db db' b h = ground arith

pub finish-KeepsAccounts :
    (env : Env) (event : DomainEvent TransactionCompletedPayload)
    → KeepsAccounts (finish_statement env event)
finish-KeepsAccounts env event db db' b h = ground arith

-- One row of the accounts, if any, as an update leaves them.
pub record Moved (op : Operation) (id : ℕ) (amount : ℤ) (accounts accounts' : List Account)
    : Type 0 where
  pub before : Account
  pub found : find (matches op id amount) accounts ≡ some before
  pub covered : pos 0 ≤ℤ (change op amount before).balance
  pub rows : accounts' ≡ updated op id amount accounts

Updated-Moved :
    {op : Operation} {id : ℕ} {amount : ℤ} {db db' : Bank} {a' : Account}
    → Updated op id amount db db' a'
    → Moved op id amount db.accounts db'.accounts
Updated-Moved u = record {
  before = u.before;
  found = u.found;
  covered = subst (λ (x : Account). pos 0 ≤ℤ x.balance) u.after u.covered;
  rows = ap (λ (x : Bank). x.accounts) u.tables;
}

module _ (env : Env) (event : DomainEvent TransactionCompletedPayload) where
  report-KeepsAccounts :
      (id : ℕ) (previous : Computed) (u : Option Account)
      → KeepsAccounts (report_statement env event id previous u)
  report-KeepsAccounts id previous none = finish-KeepsAccounts env event
  report-KeepsAccounts id previous (some a) =
      chain-KeepsAccounts
        (queue env.message_id env.now
          (balance_updated id previous a.balance event.payload.transaction_id) event.correlation_id)
        (λ _. finish_statement env event)
        (queue-KeepsAccounts env.message_id env.now
          (balance_updated id previous a.balance event.payload.transaction_id) event.correlation_id)
        (λ _. finish-KeepsAccounts env event)

  credited-KeepsAccounts :
      (source target : ℕ) (amount : ℤ) (debited credited : Account)
      → KeepsAccounts (credited_statement env event source target amount debited (some credited))
  credited-KeepsAccounts source target amount debited credited =
      let first =
        balance_updated source (sum debited.balance amount) debited.balance
          event.payload.transaction_id in
      let second =
        balance_updated target (difference credited.balance amount) credited.balance
          event.payload.transaction_id in
      chain-KeepsAccounts (queue env.message_id env.now first event.correlation_id)
        (λ _.
          chain (queue env.second_message_id env.now second event.correlation_id)
            (λ _. finish_statement env event))
        (queue-KeepsAccounts env.message_id env.now first event.correlation_id)
        (λ _.
          chain-KeepsAccounts (queue env.second_message_id env.now second event.correlation_id)
            (λ _. finish_statement env event)
            (queue-KeepsAccounts env.second_message_id env.now second event.correlation_id)
            (λ _. finish-KeepsAccounts env event))

  -- A deposit or a withdrawal changes one row, or finds none.
  pub one-accounts :
      (op : Operation) (id : ℕ) (amount : ℤ) (db db' : Bank)
      → one_statement env event op id amount db ≡ some (tt, db')
      → ((find (matches op id amount) db.accounts ≡ none) × (db'.accounts ≡ db.accounts))
        ⊎ Moved op id amount db.accounts db'.accounts
  one-accounts op id amount db db' h =
      let (u, db₁, ran, reported) =
        chain-eq-some (update_statement id amount op)
          (λ (v : Option Account).
            report_statement env event id (balance_before env event op amount v) v)
          db h in
      go u db₁ ran reported
    where
      go :
          (u : Option Account) (db₁ : Bank)
          → update_statement id amount op db ≡ some (u, db₁)
          → report_statement env event id (balance_before env event op amount u) u db₁
            ≡ some (tt, db')
          → ((find (matches op id amount) db.accounts ≡ none) × (db'.accounts ≡ db.accounts))
            ⊎ Moved op id amount db.accounts db'.accounts
      go none db₁ ran reported =
          let (missing, same) = update_statement-none op id amount db db₁ ran in
          inl (
            missing,
            report-KeepsAccounts id (balance_before env event op amount none) none db₁ db' tt
                  reported
                ∙ ap (λ (x : Bank). x.accounts) same,
          )
      go (some a) db₁ ran reported = inr (
          subst (λ rows. Moved op id amount db.accounts rows)
            (sym (
              report-KeepsAccounts id (balance_before env event op amount (some a)) (some a) db₁ db'
                tt reported))
            (Updated-Moved (update_statement-Updated op id amount db db₁ a ran)))

  -- A transfer changes the row of the source, and then the row of the target.
  pub two-accounts :
      (source target : ℕ) (amount : ℤ) (db db' : Bank)
      → two_statement env event source target amount db ≡ some (tt, db')
      → (rows : List Account) × Moved debit source amount db.accounts rows
        × Moved credit target amount rows db'.accounts
  two-accounts source target amount db db' h =
      let (u, db₁, ran, rest) =
        chain-eq-some (update_statement source amount debit)
          (debited_statement env event source target amount) db h in
      go u db₁ ran rest
    where
      credited :
          (debited : Account) (u : Option Account) (db₁ db₂ : Bank)
          → update_statement target amount credit db₁ ≡ some (u, db₂)
          → credited_statement env event source target amount debited u db₂ ≡ some (tt, db')
          → Moved credit target amount db₁.accounts db'.accounts
      credited debited none db₁ db₂ ran rest = cc
      credited debited (some b) db₁ db₂ ran rest =
          subst (λ rows. Moved credit target amount db₁.accounts rows)
            (sym (credited-KeepsAccounts source target amount debited b db₂ db' tt rest))
            (Updated-Moved (update_statement-Updated credit target amount db₁ db₂ b ran))

      go :
          (u : Option Account) (db₁ : Bank)
          → update_statement source amount debit db ≡ some (u, db₁)
          → debited_statement env event source target amount u db₁ ≡ some (tt, db')
          → (rows : List Account) × Moved debit source amount db.accounts rows
            × Moved credit target amount rows db'.accounts
      go none db₁ ran rest = cc
      go (some a) db₁ ran rest =
          let (u, db₂, ran₂, rest₂) =
            chain-eq-some (update_statement target amount credit)
              (credited_statement env event source target amount a) db₁ rest in
          (
            db₁.accounts,
            Updated-Moved (update_statement-Updated debit source amount db db₁ a ran),
            credited a u db₁ db₂ ran₂ rest₂,
          )
