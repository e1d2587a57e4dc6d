-- ===== src/Shared/Database/Progress.antt =====
-- Database transactions on a session in which no statement fails: the statement that they amount to.
use banking_platform.Base.{false, ◌≡◌, refl, ap, ◌∙◌, some, [], arith}
use banking_platform.Shared.Errors.{ok}
use banking_platform.Shared.Database.{
  Session, Statement, Action, pure, and_then, or_catch, ◌>>=◌, ◌>>◌, run_client, on_client,
  run_pool, on_pool, begin, commit, connect, try_catch, in_transaction, rollback, throw,
}
use banking_platform.Shared.Database.Atomicity.{chain, chain-eq-some}

module _ {Db : Type 0} where
  -- A session that no fault awaits, with what the client sees.
  abbrev pub calm : Db → Db → Session Db
  calm db view = record { db = db; view = view; aborted = false; faults = [] }

  abbrev pub IsCalm : Session Db → Type 0
  IsCalm s = s ≡ calm s.db s.view

  -- On such a session `m` does on the view what `f` does.
  abbrev pub Runs : {A : Type 0} → Action Db A → Statement Db A → Type 0
  Runs {A} m f =
      (s : Session Db) (v : Db) (a : A)
      → IsCalm s
      → f s.view ≡ some (a, v)
      → m s ≡ (ok a, calm s.db v)

  -- And commits it.
  abbrev pub Concludes : {A : Type 0} → Action Db A → Statement Db A → Type 0
  Concludes {A} m f =
      (s : Session Db) (v : Db) (a : A) → IsCalm s → f s.view ≡ some (a, v) → m s ≡ (ok a, calm v v)

  pub on_client-Runs : {A : Type 0} (f : Statement Db A) → Runs (on_client f) f
  unfolding on_client
  on_client-Runs f s v a c h = ap (on_client f) c ∙ ap (λ o. run_client o (calm s.db s.view)) h

  pub pure-Runs : {A : Type 0} (a : A) → Runs (pure a) (λ db. some (a, db))
  pure-Runs a s v b c h = ground arith

  pub caught-Runs :
      {A : Type 0} (f : Statement Db A) (a : A) → Runs (try_catch (on_client f) (λ _. pure a)) f
  caught-Runs f a s v b c h = ap (λ p. or_catch p (λ _. pure a)) (on_client-Runs f s v b c h)

  pub >>=-Runs :
      {A B : Type 0} (m : Action Db A) (f : Statement Db A) (k : A → Action Db B)
      (g : A → Statement Db B)
      → Runs m f
      → ((a : A) → Runs (k a) (g a))
      → Runs (m >>= k) (chain f g)
  >>=-Runs m f k g hm hk s v b c h =
      let (a, v₁, ran, rest) = chain-eq-some f g s.view h in
      ap (λ p. and_then p k) (hm s v₁ a c ran) ∙ hk a (calm s.db v₁) v b refl rest

  pub >>=-Concludes :
      {A B : Type 0} (m : Action Db A) (f : Statement Db A) (k : A → Action Db B)
      (g : A → Statement Db B)
      → Runs m f
      → ((a : A) → Concludes (k a) (g a))
      → Concludes (m >>= k) (chain f g)
  >>=-Concludes m f k g hm hk s v b c h =
      let (a, v₁, ran, rest) = chain-eq-some f g s.view h in
      ap (λ p. and_then p k) (hm s v₁ a c ran) ∙ hk a (calm s.db v₁) v b refl rest

  pub on_client-commit-Concludes :
      (f : Statement Db (Unit {0})) → Concludes (do on_client f; commit) f
  unfolding commit
  on_client-commit-Concludes f s v a c h =
      ap (λ p. and_then p (λ _. commit)) (on_client-Runs f s v a c h)

  -- The whole transaction.
  pub in_transaction-Concludes :
      {A : Type 0} (m : Action Db A) (f : Statement Db A) (db v db' : Db) (a : A)
      → Concludes m f
      → f db ≡ some (a, db')
      → in_transaction m (calm db v) ≡ (ok a, calm db' db')
  unfolding in_transaction connect begin
  in_transaction-Concludes m f db v db' a hm h =
      ap (λ p. or_catch p (λ e. do rollback; throw e)) (hm (calm db db) db' a refl h)

  -- A transaction that begins with a statement on the pool.
  pub pool_first-Concludes :
      {A B : Type 0} (f : Statement Db A) (k : A → Action Db B) (g : Statement Db B)
      (db view v w : Db) (a : A) (b : B)
      → f db ≡ some (a, v)
      → Concludes (k a) g
      → g v ≡ some (b, w)
      → in_transaction (on_pool f >>= k) (calm db view) ≡ (ok b, calm w w)
  unfolding in_transaction connect begin on_pool
  pool_first-Concludes f k g db view v w a b ran hk rest =
      ap (λ p. or_catch (and_then p k) (λ e. do rollback; throw e))
        (ap (λ o. run_pool o o (calm db db)) ran)
      ∙ ap (λ p. or_catch p (λ e. do rollback; throw e)) (hk (calm v v) w b refl rest)
