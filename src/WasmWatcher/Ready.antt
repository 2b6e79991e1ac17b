-- ===== src/WasmWatcher/Ready.antt =====
-- For which addresses the watcher shows states, and what it shows.
use mwck_rs.Prelude.{
  ◌≡◌, refl, sym, ◌∙◌, ap, Bool, false, ◌||◌, Option, none, some, List, [], ◌∷◌, ◌++◌, append_assoc,
  append-nil, ◌==◌, arith, if◌then◌else◌, Bool-cases, inl, inr,
}
use mwck_rs.Text.{Str}
use mwck_rs.Esplora.{ScriptBuf}
use mwck_rs.Event.{WalletEvent, initializing, disconnected, address_ready, address_event, event_spk}
use mwck_rs.Tracker.{State}
use mwck_rs.Wallet.{Wallet, get_address_state}
use mwck_rs.WasmWatcher.{
  Network, Shown, Watcher, Addresses, is_ready, show_state, show, on_event, run, start,
}

-- The states that the wallets at the events have, as they are shown: of an address that is reported
-- ready, or has an event while it is. `ready` tells which were reported since the last disconnect.
unfoldable pub expected :
    (ScriptBuf → Str) → List (Option WalletEvent × Wallet) → (ScriptBuf → Bool) → List Shown
expected name [] ready = []
expected name ((none, w) ∷ events) ready = expected name events ready
expected name ((some initializing, w) ∷ events) ready = expected name events ready
expected name ((some disconnected, w) ∷ events) ready = expected name events (λ k. false)
expected name ((some (address_ready spk), w) ∷ events) ready =
    (show_state (name spk) (get_address_state spk w) start).shown
    ++ expected name events (λ k. spk == k || ready k)
expected name ((some (address_event e), w) ∷ events) ready =
    let rest = expected name events ready in
    if ready (event_spk e)
    then (show_state (name (event_spk e)) (get_address_state (event_spk e) w) start).shown ++ rest
    else rest

show_state-shown :
    (address : Str) (o : Option State) (s : Watcher)
    → (show_state address o s).shown ≡ s.shown ++ (show_state address o start).shown
unfolding start
show_state-shown address none s = sym (append-nil s.shown)
show_state-shown address (some state) s = refl

show_state-ready :
    (address : Str) (o : Option State) (s : Watcher)
    → (show_state address o s).ready_addresses ≡ s.ready_addresses
show_state-ready address none s = refl
show_state-ready address (some state) s = refl

module _ (addresses : Addresses) (network : Network) (name : ScriptBuf → Str)
    (named : (spk : ScriptBuf) → addresses network spk ≡ some (name spk)) where
  abbrev IsShown : List (Option WalletEvent × Wallet) → Watcher → (ScriptBuf → Bool) → Type 0
  IsShown events s ready =
      (s' : Watcher) × (run addresses network events s ≡ some s')
      × (s'.shown ≡ s.shown ++ expected name events ready)

  show-some :
      (spk : ScriptBuf) (w : Wallet) (s : Watcher)
      → show addresses network spk w s ≡ some (show_state (name spk) (get_address_state spk w) s)
  unfolding show
  show-some spk w s = rw (named spk, show) refl

  -- A step that goes on, and what it has shown.
  from_step :
      (event : Option WalletEvent) (w : Wallet) (events : List (Option WalletEvent × Wallet))
      (s s1 : Watcher) (ready : ScriptBuf → Bool) (more : List Shown)
      → on_event addresses network event w s ≡ some s1
      → s1.shown ≡ s.shown ++ more
      → IsShown events s1 ready
      → (s' : Watcher) × (run addresses network ((event, w) ∷ events) s ≡ some s')
        × (s'.shown ≡ s.shown ++ (more ++ expected name events ready))
  unfolding run
  from_step event w events s s1 ready more e g (s', r, h) = (
    s',
    rw (e, run) r,
    h
        ∙ ap (λ l. l ++ expected name events ready) g
        ∙ append_assoc s.shown more (expected name events ready),
  )

  run-IsShown :
      (events : List (Option WalletEvent × Wallet)) (s : Watcher) (ready : ScriptBuf → Bool)
      → ((k : ScriptBuf) → is_ready k s.ready_addresses ≡ ready k)
      → IsShown events s ready
  unfolding run expected on_event
  run-IsShown [] s ready h = (s, refl, sym (append-nil s.shown))
  run-IsShown ((none, w) ∷ events) s ready h = run-IsShown events s ready h
  run-IsShown ((some initializing, w) ∷ events) s ready h = run-IsShown events s ready h
  run-IsShown ((some disconnected, w) ∷ events) s ready h =
      run-IsShown events (record s { ready_addresses = [] }) (λ k. false) (λ k. refl)
  run-IsShown ((some (address_ready spk), w) ∷ events) s ready h =
      let s0 = record s {
        ready_addresses =
            if is_ready spk s.ready_addresses then s.ready_addresses else spk ∷ s.ready_addresses;
      } in
      let o = get_address_state spk w in
      from_step (some (address_ready spk)) w events s (show_state (name spk) o s0) _ _
        (show-some spk w s0) (show_state-shown (name spk) o s0)
        (run-IsShown events (show_state (name spk) o s0) (λ k. spk == k || ready k)
          (λ k. ap (is_ready k) (show_state-ready (name spk) o s0) ∙ ground (arith, h k)))
  run-IsShown ((some (address_event e), w) ∷ events) s ready h =
      let spk = event_spk e in
      let o = get_address_state spk w in
      elim (Bool-cases (ready spk)) [
        | inl known ↦ rw known (
            from_step (some (address_event e)) w events s (show_state (name spk) o s) ready _
              (rw (h spk ∙ known) (show-some spk w s)) (show_state-shown (name spk) o s)
              (run-IsShown events (show_state (name spk) o s) ready
                (λ k. ap (is_ready k) (show_state-ready (name spk) o s) ∙ h k)))
        | inr other ↦ rw other (
            from_step (some (address_event e)) w events s s ready [] (rw (h spk ∙ other) refl)
              (sym (append-nil s.shown)) (run-IsShown events s ready h))
      ]

  -- Where every script has an address, the watcher never panics, and what it shows, in order, are the
  -- states that the wallet has at the events: of each address that is reported ready, and of each
  -- that has an event after it was reported ready with no disconnect in between.
  pub run-start-expected :
      (events : List (Option WalletEvent × Wallet))
      → (s : Watcher) × (run addresses network events start ≡ some s)
        × (s.shown ≡ expected name events (λ k. false))
  unfolding start
  run-start-expected events = run-IsShown events start (λ k. false) (λ k. refl)
