-- ===== src/Socket/Ping/Silence.antt =====
-- How often the ping loop pings, and what it does with a server that stays silent.
use mwck_rs.Prelude.{
  ℕ, ◌+◌, ◌-◌, ◌≤◌, ◌<◌, ◌≡◌, refl, ◌∙◌, ap, Bool, true, false, not, ◌&&◌, Option, none, some, List,
  [], ◌∷◌, map, any, arith, ltb, leb, if◌then◌else◌, Bool-cases, inl, inr,
}
use mwck_rs.Socket.Ping.{from_secs, Pinger, start, Tick, check, check_response, step, run}

-- The time since the last response, where the round can read it.
abbrev pub has_response : Option ℕ → ℕ → Bool
has_response none now = false
has_response (some t) now = leb (now - t) (from_secs 30)

-- The rounds that find a response of the last 30 seconds.
unfoldable pub responses : List Tick → ℕ
responses [] = 0
responses (t ∷ ts) = (if has_response t.last_response t.now then 1 else 0) + responses ts

abbrev credit : Pinger → ℕ
credit m = if m.waiting_for_pong then 0 else 1

check_response-credit :
    (o : Option ℕ) (now : ℕ) (m : Pinger)
    → (check_response o now m).pings + credit (check_response o now m)
      ≤ m.pings + credit m + (if has_response o now then 1 else 0)
unfolding check_response check
check_response-credit none now m = omega arith
check_response-credit (some t) now m = ground arith

step-credit :
    (t : Tick) (m : Pinger)
    → (step t m).pings + credit (step t m)
      ≤ m.pings + credit m + (if has_response t.last_response t.now then 1 else 0)
unfolding step
step-credit t m = ground (arith, check_response-credit t.last_response t.now m)

run-credit :
    (ts : List Tick) (m : Pinger)
    → (run ts m).pings + credit (run ts m) ≤ m.pings + credit m + responses ts
unfolding run responses
run-credit [] m = omega arith
run-credit (t ∷ ts) m = ground (arith, step-credit t m, run-credit ts (step t m))

-- In every run of the ping loop, whatever the clock and the locks do, there is at most one ping
-- more than rounds that find a response of the last 30 seconds.
pub run-pings : (ts : List Tick) → (run ts start).pings ≤ 1 + responses ts
unfolding start
run-pings ts = omega (arith, run-credit ts start)

-- Rounds at these times with no signal, where the last response stays that of `since`.
abbrev pub silent : ℕ → List ℕ → List Tick
silent since ts =
    map (λ now. record { is_disconnected = false; last_response = some since; now = now }) ts

abbrev pub IsMonotone : ℕ → List ℕ → Type 0
IsMonotone t [] = Unit
IsMonotone t (u ∷ us) = (t ≤ u) × IsMonotone u us

abbrev pub one_if : Bool → ℕ
one_if b = if b then 1 else 0

abbrev pub is_late : ℕ → ℕ → Bool
is_late since now = ltb (from_secs 60) (now - since)

abbrev pub is_quiet : ℕ → ℕ → Bool
is_quiet since now = ltb (from_secs 30) (now - since) && not (is_late since now)

run-stopped : (ts : List Tick) (m : Pinger) → m.is_running ≡ false → run ts m ≡ m
unfolding run
run-stopped [] m h = refl
run-stopped (t ∷ ts) m h = rw h refl

run-running :
    (t : Tick) (ts : List Tick) (m : Pinger)
    → m.is_running ≡ true
    → run (t ∷ ts) m ≡ run ts (step t m)
unfolding run
run-running t ts m r = ap (λ b. if b then run ts (step t m) else m) r

abbrev given_up : Pinger → Pinger
given_up m = record m { disconnects = m.disconnects + 1; is_running = false }

abbrev pinged : Pinger → Pinger
pinged m = record m { pings = m.pings + 1; waiting_for_pong = true }

check-late : (silence : ℕ) (m : Pinger) → from_secs 60 < silence → check silence m ≡ given_up m
unfolding check
check-late silence m h = ground arith

check-quiet :
    (silence : ℕ) (m : Pinger)
    → from_secs 30 < silence
    → silence ≤ from_secs 60
    → check silence m ≡ (if m.waiting_for_pong then m else pinged m)
unfolding check
check-quiet silence m g h = ground arith

check-fresh :
    (silence : ℕ) (m : Pinger)
    → silence ≤ from_secs 30
    → m.waiting_for_pong ≡ false
    → check silence m ≡ m
unfolding check
check-fresh silence m h w = ground arith

run-given_up :
    (since now : ℕ) (ts : List ℕ) (m : Pinger)
    → m.is_running ≡ true
    → from_secs 60 < now - since
    → run (silent since (now ∷ ts)) m ≡ given_up m
unfolding step check_response
run-given_up since now ts m r h =
    run-running _ (silent since ts) m r
    ∙ ap (run (silent since ts)) (check-late (now - since) m h)
    ∙ run-stopped (silent since ts) (given_up m) refl

run-silent_tick :
    (since now : ℕ) (ts : List ℕ) (m m' : Pinger)
    → m.is_running ≡ true
    → check (now - since) m ≡ m'
    → run (silent since (now ∷ ts)) m ≡ run (silent since ts) m'
unfolding step check_response
run-silent_tick since now ts m m' r h =
    run-running _ (silent since ts) m r ∙ ap (run (silent since ts)) h

-- After the first ping of a silence comes no other, only the disconnect.
run-waiting :
    (since t : ℕ) (ts : List ℕ) (m : Pinger)
    → IsMonotone t ts
    → from_secs 30 + since < t
    → m.is_running ≡ true
    → m.waiting_for_pong ≡ true
    → ((run (silent since ts) m).pings ≡ m.pings)
      × ((run (silent since ts) m).disconnects ≡ m.disconnects + one_if (any (is_late since) ts))
unfolding run
run-waiting since t [] m o h r w = (refl, omega arith)
run-waiting since t (now ∷ ts) m o h r w = elim (Bool-cases (is_late since now)) [
  | inl late ↦
      let e = run-given_up since now ts m r (ground arith) in
      (ap (λ p. p.pings) e, ap (λ p. p.disconnects) e ∙ rw late refl)
  | inr early ↦
      let e =
        run-silent_tick since now ts m m r
          (check-quiet (now - since) m (ground arith) (ground arith) ∙ rw w refl) in
      let (i, j) = run-waiting since now ts m o.1 (ground arith) r w in
      (ap (λ p. p.pings) e ∙ i, ap (λ p. p.disconnects) e ∙ j ∙ rw early refl)
]

late-monotone :
    (since now : ℕ) (ts : List ℕ)
    → IsMonotone now ts
    → from_secs 60 < now - since
    → any (is_quiet since) ts ≡ false
late-monotone since now [] o h = refl
late-monotone since now (t ∷ ts) o h = ground (arith, late-monotone since t ts o.1)

-- While the last response stays the same, over rounds in the order of time with no signal, the
-- loop pings once if a round comes later than 30 and no later than 60 seconds after that response,
-- else not at all, and disconnects once if one comes later than 60, else not at all.
pub run-silent :
    (since t : ℕ) (ts : List ℕ)
    → IsMonotone t ts
    → ((run (silent since ts) start).pings ≡ one_if (any (is_quiet since) ts))
      × ((run (silent since ts) start).disconnects ≡ one_if (any (is_late since) ts))
unfolding run start
run-silent since t [] o = (refl, refl)
run-silent since t (now ∷ ts) o = elim (Bool-cases (is_late since now)) [
  | inl late ↦
      let e = run-given_up since now ts start refl (ground arith) in
      (
        ap (λ p. p.pings) e ∙ ground (arith, late-monotone since now ts o.1 (ground arith)),
        ap (λ p. p.disconnects) e ∙ rw late refl,
      )
  | inr early ↦ elim (Bool-cases (is_quiet since now)) [
    | inl quiet ↦
        let e =
          run-silent_tick since now ts start (pinged start) refl
            (check-quiet (now - since) start (ground arith) (ground arith)) in
        let (i, j) = run-waiting since now ts (pinged start) o.1 (ground arith) refl refl in
        (
          ap (λ p. p.pings) e ∙ i ∙ rw quiet refl,
          ap (λ p. p.disconnects) e ∙ j ∙ rw early (omega arith),
        )
    | inr near ↦
        let e =
          run-silent_tick since now ts start start refl
            (check-fresh (now - since) start (ground arith) refl) in
        let (i, j) = run-silent since now ts o.1 in
        (ap (λ p. p.pings) e ∙ i ∙ rw near refl, ap (λ p. p.disconnects) e ∙ j ∙ rw early refl)
  ]
]
