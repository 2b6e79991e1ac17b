-- ===== src/Wallet/Sync/Events.antt =====
-- A sync as a list of events.
use mwck_rs.Prelude.{
  ◌≡◌, refl, ◌∙◌, ap, Bool, true, false, not, inl, inr, List, [], ◌∷◌, ◌++◌, map, reverse,
  if◌then◌else◌, select, take_while, Bool-cases,
}
use mwck_rs.Esplora.{ScriptBuf, Tx}
use mwck_rs.Event.{AddressEvent, address_ready}
use mwck_rs.Api.{Result, ok, err}
use mwck_rs.Tracker.{
  State, Tracker, Sends, get_state, apply_event, process_event, set_loading, and_then,
}
use mwck_rs.Tracker.Queue.{
  with_queue, with_loading, apply_all, apply_all-append, apply_all-with, finish_loading,
  set_then_apply, process_event-now, set_loading-true,
}
use mwck_rs.Wallet.Sync.{
  Error, esplora_error, Fetch, is_unsettled, is_fetched, last_confirmed, last_txid, last_height,
  remove_stale, process_fetched, sync_fetched, after_fetch, sync_tracker,
}

abbrev pub removal : ScriptBuf → Tx → AddressEvent
removal spk tx = AddressEvent.removed spk tx

abbrev pub arrival : ScriptBuf → Tx → AddressEvent
arrival spk tx =
    if tx.status.confirmed then AddressEvent.confirmed spk tx else AddressEvent.mempool spk tx

-- The held transactions that a sync removes.
abbrev pub stale : State → List Tx → List Tx
stale initial fetched =
    select (λ tx. not (is_fetched fetched tx.txid))
      (take_while (is_unsettled (last_height (last_confirmed initial)))
        (reverse initial.transactions))

-- The events of a sync that fetched these transactions.
abbrev pub sync_events : ScriptBuf → State → List Tx → List AddressEvent
sync_events spk initial fetched =
    map (removal spk) (stale initial fetched) ++ map (arrival spk) fetched

remove_stale-apply_all :
    (spk : ScriptBuf) (fetched txs : List Tx) (t : Tracker)
    → remove_stale spk fetched txs t
      ≡ apply_all (map (removal spk) (select (λ tx. not (is_fetched fetched tx.txid)) txs)) t
unfolding remove_stale apply_all
remove_stale-apply_all spk fetched [] t = refl
remove_stale-apply_all spk fetched (tx ∷ txs) t = elim (Bool-cases (is_fetched fetched tx.txid)) [
  | inl e ↦ rw (e, remove_stale-apply_all spk fetched txs t)
  | inr e ↦
      rw (e, process_event-now (AddressEvent.removed spk tx) t)
        (rw
          (remove_stale-apply_all spk fetched txs (apply_event (AddressEvent.removed spk tx) t).0))
]

process_either :
    (c : Bool) (a b : AddressEvent) (t : Tracker)
    → (if c then process_event a false t else process_event b false t)
      ≡ apply_event (if c then a else b) t
process_either true a b t = process_event-now a t
process_either false a b t = process_event-now b t

process_fetched-apply_all :
    (spk : ScriptBuf) (txs : List Tx) (t : Tracker)
    → process_fetched spk txs t ≡ apply_all (map (arrival spk) txs) t
unfolding process_fetched apply_all
process_fetched-apply_all spk [] t = refl
process_fetched-apply_all spk (tx ∷ txs) t = rw (
  process_either tx.status.confirmed (AddressEvent.confirmed spk tx) (AddressEvent.mempool spk tx)
      t,
  process_fetched-apply_all spk txs (apply_event (arrival spk tx) t).0,
)

loops-apply_all :
    (spk : ScriptBuf) (initial : State) (fetched : List Tx) (t : Tracker)
    → and_then
        (remove_stale spk fetched
          (take_while
            (is_unsettled (last_height (last_confirmed initial)))
            (reverse initial.transactions))
          t)
        (process_fetched spk fetched)
      ≡ apply_all (sync_events spk initial fetched) t
loops-apply_all spk initial fetched t = rw (
  remove_stale-apply_all spk fetched _ t,
  process_fetched-apply_all spk fetched _,
  apply_all-append (map (removal spk) (stale initial fetched)) (map (arrival spk) fetched) t,
)

then_finish :
    (es : List AddressEvent) (t : Tracker)
    → and_then (apply_all es (with_loading true t)) (set_loading false)
      ≡ set_then_apply (es ++ t.queue) t
then_finish es t = rw (
  apply_all-with es t.queue true t,
  finish_loading (with_queue t.queue (apply_all es t).0),
  apply_all-with t.queue t.queue (apply_all es t).0.loading (apply_all es t).0,
  apply_all-append es t.queue t,
)

-- After a fetch, a sync of a loading tracker applies its own events, then the events that were
-- queued, leaves nothing queued and the tracker loaded, and reports the address ready.
sync_fetched-apply_all :
    (spk : ScriptBuf) (initial : State) (fetched : List Tx) (t : Tracker)
    → sync_fetched spk initial fetched (with_loading true t) ≡ (
        let (t', sent) = set_then_apply (sync_events spk initial fetched ++ t.queue) t in
        (t', sent ++ address_ready spk ∷ []))
unfolding sync_fetched
sync_fetched-apply_all spk initial fetched t =
    ap (λ (s : Sends). (s.0, s.1 ++ address_ready spk ∷ []))
      (ap (λ s. and_then s (set_loading false))
          (loops-apply_all spk initial fetched (with_loading true t))
        ∙ then_finish (sync_events spk initial fetched) t)

-- What a sync does when its fetch ends with this outcome.
abbrev pub synced :
    {E : Type 0} → ScriptBuf → Tracker → Result E (List Tx) → Sends × Result (Error E) State
synced spk t (err e) = ((with_loading true t, []), err (esplora_error e))
synced spk t (ok fetched) =
    let (t', sent) = set_then_apply (sync_events spk (get_state t) fetched ++ t.queue) t in
    ((t', sent ++ address_ready spk ∷ []), ok (get_state t'))

get_state-with_loading : (l : Bool) (t : Tracker) → get_state (with_loading l t) ≡ get_state t
unfolding get_state
get_state-with_loading l t = refl

after_fetch-synced :
    {E : Type 0} (spk : ScriptBuf) (t : Tracker) (o : Result E (List Tx))
    → after_fetch spk (get_state t) (with_loading true t, []) o ≡ synced spk t o
unfolding after_fetch
after_fetch-synced spk t (err e) = refl
after_fetch-synced spk t (ok fetched) = rw (sync_fetched-apply_all spk (get_state t) fetched t)

-- A sync asks for the history down to the newest confirmed transaction that it holds. If the fetch
-- fails, the tracker stays loading, with what it held and queued, and nothing is sent. If it
-- succeeds, the tracker applies the removals, the fetched transactions and the queued events, in
-- that order, has nothing queued, is loaded, and is reported ready.
pub sync_tracker-synced :
    {E : Type 0} (fetch : Fetch E) (spk : ScriptBuf) (t : Tracker)
    → let last = last_confirmed (get_state t) in
      sync_tracker fetch spk t ≡ synced spk t (fetch (last_txid last) (last_height last))
unfolding sync_tracker
sync_tracker-synced fetch spk t =
    rw (set_loading-true t, get_state-with_loading true t) (after_fetch-synced spk t _)
