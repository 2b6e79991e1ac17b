-- ===== src/AsyncClient/History.antt =====
-- The two histories that the client gives, against the history that its server has.
use mwck_rs.Prelude.{ℕ, ◌+◌, ◌*◌, ◌≤◌, ◌≡◌, ◌∙◌, ap, some, none, List, length, select, All}
use mwck_rs.HashMap.{lookup}
use mwck_rs.Esplora.{ScriptBuf, Tx, IsWellDated}
use mwck_rs.Api.{Http, Hashes, ok}
use mwck_rs.Api.Server.{Serves}
use mwck_rs.Tracker.{State}
use mwck_rs.Tracker.Order.{sort_by_time}
use mwck_rs.Tracker.Sorting.{HaveOwnTxids}
use mwck_rs.Tracker.Confirmed.{select-sort_by_time}
use mwck_rs.Wallet.Sync.{is_confirmed}
use mwck_rs.Wallet.Sync.Fresh.{IsFetchFrom}
use mwck_rs.Wallet.{Wallet, Api, get_and_watch}
use mwck_rs.Wallet.Store.{IsSound}
use mwck_rs.Wallet.Served.{get_and_watch-Shows}
use mwck_rs.AsyncClient.{map_state, mwck_scripthash_txs, mwck_confirmed_scripthash_txs}

confirmed-answer :
    {E : Type 0} (api : Api E) (script : ScriptBuf) (history : List Tx) (w : Wallet) (state : State)
    → (get_and_watch api script w).1 ≡ some (ok state)
    → state.transactions ≡ sort_by_time history
    → All IsWellDated history
    → (mwck_confirmed_scripthash_txs api script w).1
      ≡ some (ok (sort_by_time (select is_confirmed history)))
unfolding mwck_confirmed_scripthash_txs map_state
confirmed-answer api script history w state e t d =
    ap (map_state (λ s. select is_confirmed s.transactions)) e
    ∙ ap (λ l. some (ok (select is_confirmed l))) t
    ∙ ap (λ l. some (ok l)) (select-sort_by_time is_confirmed history d)

-- Take a client whose wallet is sound and does not watch a script, and a server that holds a history of
-- it, each transaction once and well dated, from which the wallet fetches with fuel for all its
-- pages. Then `mwck_scripthash_txs` returns the whole history of the server, oldest first, and
-- `mwck_confirmed_scripthash_txs`, called instead or after it, the confirmed transactions of that
-- history, oldest first.
pub mwck-histories :
    {E : Type 0} (api : Api E) (http : Http E) (hashes : Hashes) (script : ScriptBuf)
    (history : List Tx) (fuel : ℕ) (w : Wallet)
    → IsSound w
    → lookup script w.addresses ≡ none
    → Serves http hashes script history
    → length history + 100 ≤ 50 * fuel
    → IsFetchFrom http hashes script fuel (api script)
    → HaveOwnTxids history
    → All IsWellDated history
    → (w' : Wallet) × (mwck_scripthash_txs api script w ≡ (w', some (ok (sort_by_time history))))
      × ((mwck_confirmed_scripthash_txs api script w').1
          ≡ some (ok (sort_by_time (select is_confirmed history))))
      × ((mwck_confirmed_scripthash_txs api script w).1
          ≡ some (ok (sort_by_time (select is_confirmed history))))
unfolding mwck_scripthash_txs map_state
mwck-histories api http hashes script history fuel w s absent served enough run own dated =
    let (w', state, e, shown, _, again) =
      get_and_watch-Shows api http hashes script history fuel w s absent served enough run own
        dated in
    (
      w',
      ap (λ p. (p.0, map_state (λ s. s.transactions) p.1)) e
          ∙ ap (λ l. (w', some (ok l))) shown.transactions,
      confirmed-answer api script history w' state again shown.transactions dated,
      confirmed-answer api script history w state (ap (λ p. p.1) e) shown.transactions dated,
    )
