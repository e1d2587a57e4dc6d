-- ===== src/Customer/PrismaBalances.antt =====
-- The two implementations of `updateBalance` of packages/customer-service/src/repositories: the SQL
-- of index.ts and prisma.repository.ts.
use banking_platform.Base.{
  ℕ, ◌==◌, ◌≡◌, refl, sym, ap, ◌∙◌, true, false, not, none, some, List, [], ◌∷◌, find, update_where,
  arith, Bool-cases, ==_iff, inl, inr,
}
use banking_platform.Base.Int.{ℤ, pos, ◌≤ℤ◌, ltb_ℤ, +ℤ_parts, -ℤ_parts}
use mathlib.Core.Option.{some-injective}
use banking_platform.Shared.Database.{pool, on_pool}
use banking_platform.Shared.Database.Progress.{calm}
use banking_platform.Customer.Repository.{
  Bank, Account, active, Operation, credit, debit, matches, change, update_balance,
}
use banking_platform.Customer.Accounts.{has_account, IsSound, account_of, updated, updated-absent}
use banking_platform.Customer.Prisma as Prisma

module _ (op : Operation) (id : ℕ) (amount : ℤ) where
  pub by_key : List Account → List Account
  by_key accounts = update_where (λ b. b.id == id) (change op amount) accounts

  by_key-absent :
      (accounts : List Account) → has_account id accounts ≡ false → by_key accounts ≡ accounts
  unfolding by_key
  by_key-absent [] h = refl
  by_key-absent (b ∷ rest) h = elim (Bool-cases (b.id == id)) [
    | inl hit ↦ absurd (ground arith)
    | inr miss ↦ rw (miss) (ap (λ xs. b ∷ xs) (by_key-absent rest (ground arith)))
  ]

  other_key : (b : Account) → b.id == id ≡ false → matches op id amount b ≡ false
  other_key b miss = go op
    where
      go : (o : Operation) → matches o id amount b ≡ false
      go credit = rw (miss) refl
      go debit = rw (miss) refl

  find-absent :
      (accounts : List Account)
      → has_account id accounts ≡ false
      → find (matches op id amount) accounts ≡ none
  find-absent [] h = refl
  find-absent (b ∷ rest) h = elim (Bool-cases (b.id == id)) [
    | inl hit ↦ absurd (ground arith)
    | inr miss ↦ rw (other_key b miss) (find-absent rest (ground arith))
  ]

  -- If the row of the key may be changed, both ways of naming it find and change it.
  pub named_lem :
      (accounts : List Account) (a : Account)
      → IsSound accounts
      → account_of id accounts ≡ some a
      → matches op id amount a ≡ true
      → (find (matches op id amount) accounts ≡ some a)
        × (updated op id amount accounts ≡ by_key accounts)
  unfolding by_key
  named_lem [] a sound found fits = cc
  named_lem (b ∷ rest) a sound found fits = elim (Bool-cases (b.id == id)) [
    | inl hit ↦
        let same : some b ≡ some a = rw (hit) at found in
        let is_a = some-injective b a same in
        let fits_b : matches op id amount b ≡ true = rw (is_a) fits in
        let key = (==_iff b.id id).0 hit in
        let gone : has_account id rest ≡ false = rw (key) at sound.1 in
        (
          rw (fits_b) same,
          rw (fits_b, hit)
              (ap (λ xs. change op amount b ∷ xs)
                (updated-absent op id amount rest gone ∙ sym (by_key-absent rest gone))),
        )
    | inr miss ↦
        let there : account_of id rest ≡ some a = rw (miss) at found in
        let ih = named_lem rest a sound.2 there fits in
        (rw (other_key b miss) ih.0, rw (other_key b miss, miss) (ap (λ xs. b ∷ xs) ih.1))
  ]

  -- If it may not, the `WHERE` names no row.
  unnamed_lem :
      (accounts : List Account) (a : Account)
      → IsSound accounts
      → account_of id accounts ≡ some a
      → matches op id amount a ≡ false
      → find (matches op id amount) accounts ≡ none
  unnamed_lem [] a sound found misfit = cc
  unnamed_lem (b ∷ rest) a sound found misfit = elim (Bool-cases (b.id == id)) [
    | inl hit ↦
        let same : some b ≡ some a = rw (hit) at found in
        let misfit_b : matches op id amount b ≡ false = rw (some-injective b a same) misfit in
        let key = (==_iff b.id id).0 hit in
        let gone : has_account id rest ≡ false = rw (key) at sound.1 in
        rw (misfit_b) (find-absent rest gone)
    | inr miss ↦
        let there : account_of id rest ≡ some a = rw (miss) at found in
        rw (other_key b miss) (unnamed_lem rest a sound.2 there misfit)
  ]

  -- A change that the table admits is the same in both, and one that it refuses is no change in SQL
  -- if its `WHERE` names no row.
  agrees_lem :
      (db : Bank) (a : Account)
      → IsSound db.accounts
      → account_of id db.accounts ≡ some a
      → matches op id amount a ≡ not (ltb_ℤ (change op amount a).balance (pos 0))
      → Prisma.update_balance id amount op (calm db db)
        ≡ update_balance id amount op pool (calm db db)
  unfolding Prisma.update_balance update_balance on_pool by_key
  agrees_lem db a sound found decided =
      elim (Bool-cases (ltb_ℤ (change op amount a).balance (pos 0))) [
        | inl negative ↦
            let misfit : matches op id amount a ≡ false = rw (negative) at decided in
            rw (found, negative, unnamed_lem db.accounts a sound found misfit) refl
        | inr positive ↦
            let fits : matches op id amount a ≡ true = rw (positive) at decided in
            let named = named_lem db.accounts a sound found fits in
            rw (found, positive, named.0, positive, named.1) refl
      ]

pub account_of-id :
    (id : ℕ) (accounts : List Account) (a : Account)
    → account_of id accounts ≡ some a
    → a.id == id ≡ true
account_of-id id [] a found = cc
account_of-id id (b ∷ rest) a found = elim (Bool-cases (b.id == id)) [
  | inl hit ↦ let same : some b ≡ some a = rw (hit) at found in rw (← some-injective b a same) hit
  | inr miss ↦ account_of-id id rest a (rw (miss) at found)
]

account_of-balance :
    (id : ℕ) (accounts : List Account) (a : Account)
    → IsSound accounts
    → account_of id accounts ≡ some a
    → pos 0 ≤ℤ a.balance
account_of-balance id [] a sound found = cc
account_of-balance id (b ∷ rest) a sound found = elim (Bool-cases (b.id == id)) [
  | inl hit ↦
      let same : some b ≡ some a = rw (hit) at found in rw (← some-injective b a same) sound.0
  | inr miss ↦ account_of-balance id rest a sound.2 (rw (miss) at found)
]

-- For an active account and an amount that is not negative, the two implementations of
-- `updateBalance` answer the same and leave the same tables, a debit that the balance does not cover
-- included.
pub update_balance-agrees :
    (op : Operation) (id : ℕ) (amount : ℤ) (db : Bank) (a : Account)
    → IsSound db.accounts
    → account_of id db.accounts ≡ some a
    → a.status ≡ active
    → pos 0 ≤ℤ amount
    → Prisma.update_balance id amount op (calm db db)
      ≡ update_balance id amount op pool (calm db db)
update_balance-agrees credit id amount db a sound found is_active amount_nonneg =
    agrees_lem credit id amount db a sound found (
      rw (account_of-id id db.accounts a found, is_active)
        (let held = account_of-balance id db.accounts a sound found in
          ground (arith, +ℤ_parts a.balance amount)))
update_balance-agrees debit id amount db a sound found is_active amount_nonneg =
    agrees_lem debit id amount db a sound found (
      rw (account_of-id id db.accounts a found, is_active)
        (ground (arith, -ℤ_parts a.balance amount)))
