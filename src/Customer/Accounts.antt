-- ===== src/Customer/Accounts.antt =====
-- The accounts table under `updateBalance` (packages/customer-service/src/repositories/index.ts):
-- the money in it, its primary key, and the balance of each account.
use banking_platform.Base.{
  ℕ, ◌==◌, ◌≡◌, ◌≢◌, refl, sym, ap, ◌∙◌, Bool, true, false, ◌||◌, Option, some, List, [], ◌∷◌, find,
  update_where, arith, Bool-cases, ==_iff, inl, inr,
}
use banking_platform.Base.Int.{ℤ, pos, ◌+ℤ◌, ◌≤ℤ◌, int_laws, add_front}
use mathlib.Core.Option.{some-injective}
use banking_platform.Customer.Repository.{Account, Operation, credit, debit, matches, change}

-- All the money in the accounts.
abbrev pub total : List Account → ℤ
total [] = pos 0
total (a ∷ rest) = a.balance +ℤ total rest

abbrev pub has_account : ℕ → List Account → Bool
has_account id [] = false
has_account id (a ∷ rest) = a.id == id || has_account id rest

-- The primary key, and `CHECK (balance >= 0)`.
abbrev pub IsSound : List Account → Type 0
IsSound [] = Unit {0}
IsSound (a ∷ rest) = (pos 0 ≤ℤ a.balance) × (has_account a.id rest ≡ false) × IsSound rest

-- The account that a primary key names.
abbrev pub account_of : ℕ → List Account → Option Account
account_of id accounts = find (λ a. a.id == id) accounts

module _ (op : Operation) (id : ℕ) (amount : ℤ) where
  abbrev pub updated : List Account → List Account
  updated accounts = update_where (matches op id amount) (change op amount) accounts

  pub matches-id : (a : Account) → matches op id amount a ≡ true → a.id ≡ id
  matches-id a h = go op h
    where
      go : (o : Operation) → matches o id amount a ≡ true → a.id ≡ id
      go credit k = ground arith
      go debit k = ground arith

  change-id : (a : Account) → (change op amount a).id ≡ a.id
  change-id a = go op
    where
      go : (o : Operation) → (change o amount a).id ≡ a.id
      go credit = refl
      go debit = refl

  -- Without the account nothing is changed.
  pub updated-absent :
      (accounts : List Account) → has_account id accounts ≡ false → updated accounts ≡ accounts
  updated-absent [] h = refl
  updated-absent (a ∷ rest) h = elim (Bool-cases (matches op id amount a)) [
    | inl hit ↦ absurd (let e = matches-id a hit in ground arith)
    | inr miss ↦ rw miss (ap (λ xs. a ∷ xs) (updated-absent rest (ground arith)))
  ]

  -- The identifiers stay.
  has_account-updated :
      (i : ℕ) (accounts : List Account) → has_account i (updated accounts) ≡ has_account i accounts
  has_account-updated i [] = refl
  has_account-updated i (a ∷ rest) = elim (Bool-cases (matches op id amount a)) [
    | inl hit ↦ rw (hit, change-id a, has_account-updated i rest)
    | inr miss ↦ rw (miss, has_account-updated i rest)
  ]

  -- The one row that is changed moves the total by its own change.
  pub total-updated :
      (accounts : List Account) (a : Account)
      → IsSound accounts
      → find (matches op id amount) accounts ≡ some a
      → total (updated accounts) +ℤ a.balance ≡ total accounts +ℤ (change op amount a).balance
  total-updated [] a h e = cc
  total-updated (b ∷ rest) a h e = elim (Bool-cases (matches op id amount b)) [
    | inl hit ↦
        let found : some b ≡ some a = rw hit at e in
        let same = some-injective b a found in
        let key = matches-id b hit in
        let gone : has_account id rest ≡ false = rw key at h.1 in
        rw (hit, updated-absent rest gone, ← same) (omega int_laws)
    | inr miss ↦
        let found : find (matches op id amount) rest ≡ some a = rw miss at e in
        rw miss (add_front b.balance _ _ _ _ (total-updated rest a h.2 found))
  ]

  -- Soundness, if the changed balance is at least 0.
  pub updated-IsSound :
      (accounts : List Account) (a : Account)
      → IsSound accounts
      → find (matches op id amount) accounts ≡ some a
      → pos 0 ≤ℤ (change op amount a).balance
      → IsSound (updated accounts)
  updated-IsSound [] a h e p = tt
  updated-IsSound (b ∷ rest) a h e p = elim (Bool-cases (matches op id amount b)) [
    | inl hit ↦
        let found : some b ≡ some a = rw hit at e in
        let same = some-injective b a found in
        let key = matches-id b hit in
        let gone : has_account id rest ≡ false = rw key at h.1 in
        rw (hit, updated-absent rest gone, change-id b, same) (p, (rw same at h.1), h.2)
    | inr miss ↦
        let found : find (matches op id amount) rest ≡ some a = rw miss at e in
        rw (miss, has_account-updated b.id rest) (h.0, h.1, updated-IsSound rest a h.2 found p)
  ]

  -- The account of another key stays as it is.
  pub account_of-updated_ne :
      (i : ℕ) (accounts : List Account)
      → i ≢ id
      → account_of i (updated accounts) ≡ account_of i accounts
  account_of-updated_ne i [] ne = refl
  account_of-updated_ne i (b ∷ rest) ne = elim (Bool-cases (matches op id amount b)) [
    | inl hit ↦
        let key = matches-id b hit in
        rw (hit, change-id b) (ground (arith, account_of-updated_ne i rest ne))
    | inr miss ↦ rw miss (ground (arith, account_of-updated_ne i rest ne))
  ]

  find-has_account :
      (accounts : List Account) (a : Account)
      → find (matches op id amount) accounts ≡ some a
      → has_account id accounts ≡ true
  find-has_account [] a e = cc
  find-has_account (b ∷ rest) a e = elim (Bool-cases (matches op id amount b)) [
    | inl hit ↦ let key = matches-id b hit in ground arith
    | inr miss ↦
        let found : find (matches op id amount) rest ≡ some a = rw miss at e in
        ground (arith, find-has_account rest a found)
  ]

  -- The account of the key itself is the changed one.
  pub account_of-updated :
      (accounts : List Account) (a : Account)
      → IsSound accounts
      → find (matches op id amount) accounts ≡ some a
      → (account_of id accounts ≡ some a)
        × (account_of id (updated accounts) ≡ some (change op amount a))
  account_of-updated [] a h e = cc
  account_of-updated (b ∷ rest) a h e = elim (Bool-cases (matches op id amount b)) [
    | inl hit ↦
        let found : some b ≡ some a = rw hit at e in
        let key : (b.id == id) ≡ true = (let k = matches-id b hit in ground arith) in
        rw (hit, change-id b, key)
          (found, ap (λ (x : Account). some (change op amount x)) (some-injective b a found))
    | inr miss ↦
        let found : find (matches op id amount) rest ≡ some a = rw miss at e in
        let other : (b.id == id) ≡ false =
          (let there = find-has_account rest a found in
            let gone = h.1 in
            elim (Bool-cases (b.id == id)) [
              | inl same ↦
                  let k : b.id ≡ id = (==_iff b.id id).0 same in
                  let no_more : has_account id rest ≡ false = rw k at gone in
                  let clash : true ≡ false = sym there ∙ no_more in cc
              | inr differs ↦ differs
            ]) in
        rw (miss, other) (account_of-updated rest a h.2 found)
  ]
