-- ===== src/Wallet/Steps.antt =====
-- The tasks of a wallet as interleaved steps, each under the locks that the code takes for it.
use mwck_rs.Prelude.{ℕ, List, [], ◌∷◌, ◌++◌, true}
use mwck_rs.Esplora.{ScriptBuf}
use mwck_rs.Event.{AddressEvent, disconnected}
use mwck_rs.Wallet.{
  Wallet, Api, new_wallet, track_scriptpubkeys, sync_address_history, handle_address_event,
  insert_new, unwatch,
}
use mwck_rs.Wallet.Store.{
  IsSound, new_wallet-IsSound, sync_address_history-IsSound, handle_address_event-IsSound,
  insert_new-IsSound, unwatch-IsSound,
}

-- `watch` is `tracks`, `inserts` and a `syncs` for each new address, with steps of other tasks in
-- between; `init_addresses` is `tracks` and a `syncs` for each address. A sync may hold a tracker
-- that was unwatched meanwhile. The server may answer otherwise at each step.
pub data Step (E : Type 0) (w : Wallet) : Wallet → Type 0 where
  tracks : (spks : List ScriptBuf) → Step E w (track_scriptpubkeys spks w)
  inserts : (spks : List ScriptBuf) → Step E w (insert_new spks [] w).0
  syncs : (api : Api E) (spk : ScriptBuf) (ref : ℕ) → Step E w (sync_address_history api spk ref w)
  handles : (e : AddressEvent) → Step E w (handle_address_event e true w)
  unwatches : (spks : List ScriptBuf) → Step E w (unwatch spks w)
  disconnects : Step E w (record w { sent = w.sent ++ disconnected ∷ [] })

pub data Reach (E : Type 0) (w : Wallet) : Wallet → Type 0 where
  here : Reach E w w
  next : {u v : Wallet} → Reach E w u → Step E u v → Reach E w v

Step-IsSound : {E : Type 0} {w v : Wallet} → Step E w v → IsSound w → IsSound v
Step-IsSound (tracks spks) s = record {
  owned = s.owned;
  unique = s.unique;
  fresh = s.fresh;
  balanced = s.balanced;
}
Step-IsSound {w = w} (inserts spks) s = insert_new-IsSound spks [] w s
Step-IsSound {w = w} (syncs api spk ref) s = sync_address_history-IsSound api spk ref w s
Step-IsSound {w = w} (handles e) s = handle_address_event-IsSound e true w s
Step-IsSound {w = w} (unwatches spks) s = unwatch-IsSound spks w s
Step-IsSound disconnects s = record {
  owned = s.owned;
  unique = s.unique;
  fresh = s.fresh;
  balanced = s.balanced;
}

Reach-IsSound : {E : Type 0} {w v : Wallet} → Reach E w v → IsSound w → IsSound v
Reach-IsSound here s = s
Reach-IsSound (next r st) s = Step-IsSound st (Reach-IsSound r s)

-- However the tasks interleave, every watched address has a tracker of its own script, no two
-- addresses share one, and every tracker is balanced.
pub Reach-new-IsSound : (E : Type 0) (w : Wallet) → Reach E new_wallet w → IsSound w
Reach-new-IsSound E w r = Reach-IsSound r new_wallet-IsSound
