-- ===== src/Repository/Executor.antt =====
-- internal/repository/repository.go, and `StartTransaction` of internal/database/db.go: the statements of
-- a context that carries a transaction run in it. The connection and its transactions are the library's.
use estrys.Common.{Option, none, some, ◌≡◌, sym, ap, ap₂, ◌∙◌}
use estrys.Outcome.{ok, Action, pure, ◌>>=◌}
use estrys.Outcome.Inversion.{bind_done, pure_ok}

-- `boil.ContextExecutor`
pub data Executor (Connection Transaction : Type 0) : Type 0 where
  on_transaction : Transaction → Executor Connection Transaction
  on_connection : Connection → Executor Connection Transaction

-- The value of `ContextTransaction` in a context
abbrev pub Context : Type 0 → Type 0
Context Transaction = Option Transaction

unfoldable pub get_executor :
    {Connection Transaction : Type 0}
    → Context Transaction
    → Connection
    → Executor Connection Transaction
get_executor (some tx) db = on_transaction tx
get_executor none db = on_connection db

-- `begin` is `sql.DB.BeginTx`.
unfoldable pub start_transaction :
    {W Transaction : Type 0} → Action W Transaction → Action W (Transaction × Context Transaction)
start_transaction begin = do tx ← begin; pure (tx, some tx)

-- The context that `StartTransaction` gives leads the repositories to its transaction.
get_executor-start_transaction :
    {W Connection Transaction : Type 0} (begin : Action W Transaction) (db : Connection)
    (tx : Transaction) (ctx : Context Transaction) (w u : W)
    → start_transaction begin w ≡ (ok (tx, ctx), u)
    → (begin w ≡ (ok tx, u)) × (get_executor ctx db ≡ on_transaction tx)
unfolding start_transaction get_executor
get_executor-start_transaction begin db tx ctx w u h =
    let (found, v, began, rest) = bind_done begin _ w h in
    let (same, stays) = pure_ok (found, some found) (tx, ctx) v rest in
    let is_tx : found ≡ tx = ap (λ p. p.0) same in
    (
      began ∙ ap₂ (λ a b. (ok a, b)) is_tx stays,
      sym (ap (λ p. get_executor p.1 db) same) ∙ ap on_transaction is_tx,
    )
