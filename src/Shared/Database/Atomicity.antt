-- ===== src/Shared/Database/Atomicity.antt =====
-- Database transactions with failing statements: what a sequence of statements on one client may do
-- to a session, by the statement that it amounts to.
use banking_platform.Base.{Bool, true, false, ◌≡◌, refl, sym, ap, ◌∙◌, Option, none, some, List}
use banking_platform.Shared.Errors.{Error, Result, ok, err}
use banking_platform.Shared.Database.{
  Session, Statement, Action, pure, throw, and_then, or_catch, ◌>>=◌, ◌>>◌, next_fault, run_client,
  step_client, on_client, step_begin, begin, step_commit, commit, step_rollback, rollback,
  step_connect, connect, try_catch, in_transaction,
}

-- Statements in sequence.
abbrev pub continue : {Db A B : Type 0} → Option (A × Db) → (A → Statement Db B) → Option (B × Db)
continue none g = none
continue (some (a, db)) g = g a db

abbrev pub chain : {Db A B : Type 0} → Statement Db A → (A → Statement Db B) → Statement Db B
chain f g db = continue (f db) g

-- A sequence that goes through, taken apart.
pub chain-eq-some :
    {Db A B : Type 0} (f : Statement Db A) (g : A → Statement Db B) (db : Db) {b : B} {db' : Db}
    → chain f g db ≡ some (b, db')
    → (a : A) × (db₁ : Db) × (f db ≡ some (a, db₁)) × (g a db₁ ≡ some (b, db'))
chain-eq-some {Db} {A} f g db {b} {db'} h = go (f db) refl h
  where
    go :
        (o : Option (A × Db))
        → f db ≡ o
        → continue o g ≡ some (b, db')
        → (a : A) × (db₁ : Db) × (f db ≡ some (a, db₁)) × (g a db₁ ≡ some (b, db'))
    go none e k = cc
    go (some (a, db₁)) e k = (a, db₁, e, k)

-- The change that a body amounts to where it always throws.
abbrev pub refuse : {Db A : Type 0} → Statement Db A
refuse db = none

module _ {Db : Type 0} where
  -- Statements on the client: the committed tables stay, and what the client sees afterwards, unless
  -- the transaction was aborted, is what `f` makes of what it saw before.
  abbrev pub Follows : {A : Type 0} → Session Db → Statement Db A → Result A × Session Db → Type 0
  Follows s f (err e, s') = s'.db ≡ s.db
  Follows s f (ok a, s') =
      (s'.db ≡ s.db) × (s'.aborted ≡ false → (s.aborted ≡ false) × (f s.view ≡ some (a, s'.view)))

  -- A body that ends with `COMMIT`: it throws and has committed nothing, or it has committed what
  -- `f` makes of what the client saw.
  abbrev pub Ends : {A : Type 0} → Session Db → Statement Db A → Result A × Session Db → Type 0
  Ends s f (err e, s') = s'.db ≡ s.db
  Ends s f (ok a, s') = (s.aborted ≡ false) × (f s.view ≡ some (a, s'.db))

  abbrev pub IsClient : {A : Type 0} → Action Db A → Statement Db A → Type 0
  IsClient m f = (s : Session Db) → Follows s f (m s)

  abbrev pub IsBody : {A : Type 0} → Action Db A → Statement Db A → Type 0
  IsBody m f = (s : Session Db) → Ends s f (m s)

  step_client-Follows :
      {A : Type 0} (aborted : Bool) (next : Bool × List Bool) (f : Statement Db A) (s : Session Db)
      → s.aborted ≡ aborted
      → Follows s f (step_client aborted next f s)
  step_client-Follows true (b, rest) f s h = refl
  step_client-Follows false (true, rest) f s h = refl
  step_client-Follows false (false, rest) f s h = go (f s.view) refl
    where
      go :
          (o : Option (_ × Db))
          → f s.view ≡ o
          → Follows s f (run_client o (record s { faults = rest }))
      go none e = refl
      go (some (a, v)) e = (refl, λ k. (h, e))

  pub on_client-IsClient : {A : Type 0} (f : Statement Db A) → IsClient (on_client f) f
  unfolding on_client
  on_client-IsClient f s = step_client-Follows s.aborted (next_fault s.faults) f s refl

  pub pure-IsClient : {A : Type 0} (a : A) → IsClient (pure a) (λ db. some (a, db))
  pure-IsClient a s = (refl, λ k. (k, refl))

  pub throw-IsBody : {A : Type 0} (e : Error) (f : Statement Db A) → IsBody (throw e) f
  throw-IsBody e f s = refl

  and_then-Follows :
      {A B : Type 0} (s : Session Db) (f : Statement Db A) (k : A → Action Db B)
      (g : A → Statement Db B) (p : Result A × Session Db)
      → Follows s f p
      → ((a : A) → IsClient (k a) (g a))
      → Follows s (chain f g) (and_then p k)
  and_then-Follows s f k g (err e, s') h rest = h
  and_then-Follows s f k g (ok a, s') h rest = go (k a s') (rest a s')
    where
      go : (q : Result _ × Session Db) → Follows s' (g a) q → Follows s (chain f g) q
      go (err e, s'') r = r ∙ h.0
      go (ok b, s'') r = (
        r.0 ∙ h.0,
        λ calm.
            let (calm', ran) = r.1 calm in
            let (calm'', ran') = h.1 calm' in (calm'', ap (λ o. continue o g) ran' ∙ ran),
      )

  pub >>=-IsClient :
      {A B : Type 0} (m : Action Db A) (f : Statement Db A) (k : A → Action Db B)
      (g : A → Statement Db B)
      → IsClient m f
      → ((a : A) → IsClient (k a) (g a))
      → IsClient (m >>= k) (chain f g)
  >>=-IsClient m f k g h rest s = and_then-Follows s f k g (m s) (h s) rest

  and_then-Ends :
      {A B : Type 0} (s : Session Db) (f : Statement Db A) (k : A → Action Db B)
      (g : A → Statement Db B) (p : Result A × Session Db)
      → Follows s f p
      → ((a : A) → IsBody (k a) (g a))
      → Ends s (chain f g) (and_then p k)
  and_then-Ends s f k g (err e, s') h rest = h
  and_then-Ends s f k g (ok a, s') h rest = go (k a s') (rest a s')
    where
      go : (q : Result _ × Session Db) → Ends s' (g a) q → Ends s (chain f g) q
      go (err e, s'') r = r ∙ h.0
      go (ok b, s'') r = let (calm, ran) = h.1 r.0 in (calm, ap (λ o. continue o g) ran ∙ r.1)

  -- What follows a statement on the client decides whether it is committed.
  pub >>=-IsBody :
      {A B : Type 0} (m : Action Db A) (f : Statement Db A) (k : A → Action Db B)
      (g : A → Statement Db B)
      → IsClient m f
      → ((a : A) → IsBody (k a) (g a))
      → IsBody (m >>= k) (chain f g)
  >>=-IsBody m f k g h rest s = and_then-Ends s f k g (m s) (h s) rest

  -- Statements whose failures are caught and that change nothing, such as `NOTIFY`.
  or_catch-Follows :
      {A : Type 0} (s : Session Db) (f : Statement Db A) (a : A) (p : Result A × Session Db)
      → Follows s f p
      → ((e : Error) (s' : Session Db) → p ≡ (err e, s') → s'.aborted ≡ true)
      → Follows s f (or_catch p (λ _. pure a))
  or_catch-Follows s f a (ok b, s') h k = h
  or_catch-Follows s f a (err e, s') h k =
      (h, λ calm. absurd (let e2 : true ≡ false = sym (k e s' refl) ∙ calm in cc))

  step_client-aborts :
      {A : Type 0} (aborted : Bool) (next : Bool × List Bool) (f : Statement Db A) (s : Session Db)
      (e : Error) (s' : Session Db)
      → s.aborted ≡ aborted
      → step_client aborted next f s ≡ (err e, s')
      → s'.aborted ≡ true
  step_client-aborts true (b, rest) f s e s' h k =
      sym (ap (λ (p : Result _ × Session Db). p.1.aborted) k) ∙ h
  step_client-aborts false (true, rest) f s e s' h k =
      sym (ap (λ (p : Result _ × Session Db). p.1.aborted) k)
  step_client-aborts {A} false (false, rest) f s e s' h k = go (f s.view) k
    where
      go :
          (o : Option (A × Db))
          → run_client o (record s { faults = rest }) ≡ (err e, s')
          → s'.aborted ≡ true
      go none j = sym (ap (λ (p : Result _ × Session Db). p.1.aborted) j)
      go (some (a, v)) j = cc

  pub caught-IsClient :
      {A : Type 0} (f : Statement Db A) (a : A) → IsClient (try_catch (on_client f) (λ _. pure a)) f
  unfolding on_client
  caught-IsClient f a s =
      or_catch-Follows s f a (on_client f s) (on_client-IsClient f s)
        (λ e s' k. step_client-aborts s.aborted (next_fault s.faults) f s e s' refl k)

  -- A successful statement on the client shows that the transaction is not aborted.
  on_client-calm :
      {A : Type 0} (f : Statement Db A) (s : Session Db) (a : A) (s' : Session Db)
      → on_client f s ≡ (ok a, s')
      → s'.aborted ≡ false
  unfolding on_client
  on_client-calm f s a s' h = go s.aborted (next_fault s.faults) refl h
    where
      go :
          (aborted : Bool) (next : Bool × List Bool)
          → s.aborted ≡ aborted
          → step_client aborted next f s ≡ (ok a, s')
          → s'.aborted ≡ false
      go true (b, rest) k j = cc
      go false (true, rest) k j = cc
      go false (false, rest) k j = ran (f s.view) j
        where
          ran :
              (o : Option (_ × Db))
              → run_client o (record s { faults = rest }) ≡ (ok a, s')
              → s'.aborted ≡ false
          ran none i = cc
          ran (some (b, v)) i = cc

  step_commit-Ends :
      (s : Session Db) (f : Statement Db (Unit {0})) (s' : Session Db) (next : Bool × List Bool)
      (aborted : Bool)
      → s'.aborted ≡ false
      → s'.aborted ≡ aborted
      → Follows s f (ok tt, s')
      → Ends s f (step_commit aborted next s')
  step_commit-Ends s f s' (true, rest) aborted calm same h = h.0
  step_commit-Ends s f s' (false, rest) true calm same h = cc
  step_commit-Ends s f s' (false, rest) false calm same h = h.1 calm

  -- A statement and `COMMIT`.
  pub on_client-commit-IsBody : (f : Statement Db (Unit {0})) → IsBody (do on_client f; commit) f
  unfolding commit
  on_client-commit-IsBody f s = go (on_client f s) refl (on_client-IsClient f s)
    where
      go :
          (p : Result (Unit {0}) × Session Db)
          → on_client f s ≡ p
          → Follows s f p
          → Ends s f (and_then p (λ _. commit))
      go (err e, s') h k = k
      go (ok tt, s') h k =
          step_commit-Ends s f s' (next_fault s'.faults) s'.aborted (on_client-calm f s tt s' h)
            refl k

  -- How a transaction ends: it throws and has changed nothing, or it has done `f` as a whole.
  abbrev pub Commits : {A : Type 0} → Db → Statement Db A → Result A × Session Db → Type 0
  Commits db f (err e, s') = s'.db ≡ db
  Commits db f (ok a, s') = f db ≡ some (a, s'.db)

  step_rollback-db : (next : Bool × List Bool) (s : Session Db) → (step_rollback next s).1.db ≡ s.db
  step_rollback-db (true, rest) s = refl
  step_rollback-db (false, rest) s = refl

  rethrow-Commits :
      {A : Type 0} (db : Db) (f : Statement Db A) (e : Error) (p : Result (Unit {0}) × Session Db)
      → p.1.db ≡ db
      → Commits db f (and_then p (λ _. throw e))
  rethrow-Commits db f e (ok tt, s) h = h
  rethrow-Commits db f e (err e', s) h = h

  or_catch-Commits :
      {A : Type 0} (db : Db) (f : Statement Db A) (p : Result A × Session Db)
      → Commits db f p
      → Commits db f (or_catch p (λ e. do rollback; throw e))
  unfolding rollback
  or_catch-Commits db f (ok a, s) h = h
  or_catch-Commits db f (err e, s) h =
      rethrow-Commits db f e (step_rollback (next_fault s.faults) s)
        (step_rollback-db (next_fault s.faults) s ∙ h)

  begun-Commits :
      {A : Type 0} (m : Action Db A) (f : Statement Db A) (next : Bool × List Bool) (s : Session Db)
      → IsBody m f
      → Commits s.db f (and_then (step_begin next s) (λ _. m))
  begun-Commits m f (true, rest) s h = refl
  begun-Commits m f (false, rest) s h =
      let s' = record s { view = s.db; aborted = false; faults = rest } in go (m s') (h s')
    where
      go :
          (p : Result _ × Session Db)
          → Ends (record s { view = s.db; aborted = false; faults = rest }) f p
          → Commits s.db f p
      go (err e, s'') k = k
      go (ok a, s'') k = k.1

  -- Whatever statements fail, a transaction around a body commits all of it or nothing.
  pub in_transaction-Commits :
      {A : Type 0} (m : Action Db A) (f : Statement Db A) (s : Session Db)
      → IsBody m f
      → Commits s.db f (in_transaction m s)
  unfolding in_transaction connect begin
  in_transaction-Commits m f s h = go (next_fault s.faults)
    where
      go :
          (next : Bool × List Bool)
          → Commits s.db f (
              and_then
                (step_connect next s)
                (λ _. try_catch (do begin; m) (λ e. do rollback; throw e)))
      go (true, rest) = refl
      go (false, rest) =
          let s' = record s { faults = rest } in
          or_catch-Commits s.db f (and_then (step_begin (next_fault rest) s') (λ _. m))
            (begun-Commits m f (next_fault rest) s' h)
