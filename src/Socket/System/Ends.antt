-- ===== src/Socket/System/Ends.antt =====
-- The steps in which the loops of a connection end.
use mwck_rs.Prelude.{
  ℕ, suc, zero, ◌≡◌, refl, ◌∙◌, ap, subst, true, false, arith, ltb, none, Bool-cases, inl, inr,
}
use mwck_rs.Socket.Control
use mwck_rs.Socket.Message
use mwck_rs.Socket.Ping
use mwck_rs.Socket.Connection.{Connection}
use mwck_rs.Socket.System.{
  System, broadcast_if, after_try_recv, pinger_with, pinger_round, is_connected, control_stops,
  reader_stops, ticks, Reach, here, next, opened,
}
use mwck_rs.Socket.System.Told.{is_told, Reach-opened-is_told}

Reach-trans : {s t u : System} → Reach s t → Reach t u → Reach s u
Reach-trans r here = r
Reach-trans r (next q st) = next (Reach-trans r q) st

control_ends :
    (s : System)
    → is_told s ≡ true
    → (u : System) × Reach s u × (u.control.is_running ≡ false) × (is_told u ≡ true)
unfolding Control.step
control_ends s t = elim (Bool-cases s.control.is_running) [
  | inr over ↦ (s, here, over, t)
  | inl runs ↦ (_, next here (control_stops runs (ground arith)), refl, ground (arith, t))
]

reader_ends :
    (s : System)
    → is_told s ≡ true
    → (u : System) × Reach s u
      × (u.reader.is_running ≡ false)
      × (u.control ≡ s.control)
      × (is_told u ≡ true)
unfolding Message.step
reader_ends s t = elim (Bool-cases s.reader.is_running) [
  | inr over ↦ (s, here, over, refl, t)
  | inl runs ↦
      (_, next here (reader_stops (λ _. none) runs (ground arith)), refl, refl, ground (arith, t))
]

irrefl : (n : ℕ) → ltb n n ≡ false
irrefl n = ground arith

broadcast_if-same : (n : ℕ) (s : System) → broadcast_if (ltb n n) s ≡ s
unfolding broadcast_if
broadcast_if-same n s = ap (λ b. broadcast_if b s) (irrefl n)

tick_stops :
    (s : System)
    → s.to_pinger ≡ 1
    → pinger_round none 0 s
      ≡ record s { pinger = record s.pinger { is_running = false }; to_pinger = 0 }
unfolding pinger_round pinger_with after_try_recv Ping.step
tick_stops s e =
    ap (λ n. pinger_with (after_try_recv n) none 0 s) e ∙ broadcast_if-same s.pinger.disconnects _

tick_behind :
    (n : ℕ) (s : System)
    → s.to_pinger ≡ suc (suc n)
    → pinger_round none 0 s ≡ record s { to_pinger = 1 }
unfolding pinger_round pinger_with after_try_recv Ping.step Ping.check_response
tick_behind n s e =
    ap (λ k. pinger_with (after_try_recv k) none 0 s) e ∙ broadcast_if-same s.pinger.disconnects _

-- The last signal ends the loop; one that is behind finds it in its second round.
last_tick :
    (s : System)
    → s.pinger.is_running ≡ true
    → s.to_pinger ≡ 1
    → (u : System) × Reach s u
      × (u.pinger.is_running ≡ false)
      × (u.control ≡ s.control)
      × (u.reader ≡ s.reader)
last_tick s runs e =
    (_, subst (Reach s) (tick_stops s e) (next here (ticks none 0 runs)), refl, refl, refl)

pinger_ends_at :
    (n : ℕ) (s : System)
    → s.to_pinger ≡ n
    → s.pinger.is_running ≡ true
    → is_told s ≡ true
    → (u : System) × Reach s u
      × (u.pinger.is_running ≡ false)
      × (u.control ≡ s.control)
      × (u.reader ≡ s.reader)
pinger_ends_at zero s e runs t = absurd (ground arith)
pinger_ends_at (suc zero) s e runs t = last_tick s runs e
pinger_ends_at (suc (suc n)) s e runs t =
    let (u, r, over, same_control, same_reader) =
      last_tick (record s { to_pinger = 1 }) runs refl in
    (
      u,
      Reach-trans (subst (Reach s) (tick_behind n s e) (next here (ticks none 0 runs))) r,
      over,
      same_control,
      same_reader,
    )

pinger_ends :
    (s : System)
    → is_told s ≡ true
    → (u : System) × Reach s u
      × (u.pinger.is_running ≡ false)
      × (u.control ≡ s.control)
      × (u.reader ≡ s.reader)
pinger_ends s t = elim (Bool-cases s.pinger.is_running) [
  | inr over ↦ (s, here, over, refl, refl)
  | inl runs ↦ pinger_ends_at s.to_pinger s refl runs t
]

-- From a connection whose loops have subscribed, in every order of the steps of its tasks: once the
-- manager is no longer connected there are steps of the loops after which all three have ended, so
-- that the manager need not wait for one of them for ever.
pub loops_end :
    (now : ℕ) (m : Connection) (s : System)
    → Reach (opened now m) s
    → is_connected s.manager.status ≡ false
    → (u : System) × Reach s u
      × (u.control.is_running ≡ false)
      × (u.reader.is_running ≡ false)
      × (u.pinger.is_running ≡ false)
loops_end now m s r c =
    let (s1, r1, a1, t1) = control_ends s (Reach-opened-is_told now m s r c) in
    let (s2, r2, b2, c2, t2) = reader_ends s1 t1 in
    let (s3, r3, p3, c3, b3) = pinger_ends s2 t2 in
    (
      s3,
      Reach-trans (Reach-trans r1 r2) r3,
      ap (λ m. m.is_running) (c3 ∙ c2) ∙ a1,
      ap (λ m. m.is_running) b3 ∙ b2,
      p3,
    )
