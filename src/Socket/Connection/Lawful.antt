-- ===== src/Socket/Connection/Lawful.antt =====
-- The documented edges of the connection's state machine, and its rate of connection attempts.
use mwck_rs.Prelude.{
  ℕ, ◌+◌, ◌≡◌, refl, ◌∙◌, ap, Bool, true, false, ◌&&◌, List, [], ◌∷◌, ◌++◌, ◌==◌, arith,
  if◌then◌else◌,
}
use mwck_rs.Socket.Connection.{Status, Effect, status_sent, notified, slept, joined, signalled_exit}

-- The edges that the comments of `start` name.
unfoldable pub is_edge : Status → Status → Bool
is_edge Status.ready Status.connecting = true
is_edge Status.connecting Status.connected = true
is_edge Status.connecting Status.disconnected = true
is_edge Status.disconnected Status.ready = true
is_edge Status.connected Status.disconnected = true
is_edge Status.connected Status.offline = true
is_edge s t = false

-- The status after these effects.
unfoldable pub after : Status → List Effect → Status
after s [] = s
after s (status_sent t ∷ es) = after t es
after s (notified e ∷ es) = after s es
after s (slept n ∷ es) = after s es
after s (joined ∷ es) = after s es
after s (signalled_exit ∷ es) = after s es

-- The statuses sent follow the edges.
unfoldable pub is_path : Status → List Effect → Bool
is_path s [] = true
is_path s (status_sent t ∷ es) = is_edge s t && is_path t es
is_path s (notified e ∷ es) = is_path s es
is_path s (slept n ∷ es) = is_path s es
is_path s (joined ∷ es) = is_path s es
is_path s (signalled_exit ∷ es) = is_path s es

-- How often a connection was attempted, and how often it waited 30 seconds.
unfoldable pub dials : List Effect → ℕ
dials [] = 0
dials (status_sent Status.connecting ∷ es) = 1 + dials es
dials (e ∷ es) = dials es

unfoldable pub rests : List Effect → ℕ
rests [] = 0
rests (slept n ∷ es) = (if n == 30_000 then 1 else 0) + rests es
rests (e ∷ es) = rests es

-- One where an attempt was made since the last rest.
unfoldable pub is_dialled : Status → ℕ
is_dialled Status.ready = 0
is_dialled Status.connected = 1
is_dialled Status.connecting = 1
is_dialled Status.disconnected = 1
is_dialled Status.offline = 1

pub after-append : (s : Status) (es fs : List Effect) → after s (es ++ fs) ≡ after (after s es) fs
unfolding after
after-append s [] fs = refl
after-append s (status_sent t ∷ es) fs = after-append t es fs
after-append s (notified e ∷ es) fs = after-append s es fs
after-append s (slept n ∷ es) fs = after-append s es fs
after-append s (joined ∷ es) fs = after-append s es fs
after-append s (signalled_exit ∷ es) fs = after-append s es fs

is_path-append :
    (s : Status) (es fs : List Effect)
    → is_path s (es ++ fs) ≡ (is_path s es && is_path (after s es) fs)
unfolding after is_path
is_path-append s [] fs = refl
is_path-append s (status_sent t ∷ es) fs = ground (arith, is_path-append t es fs)
is_path-append s (notified e ∷ es) fs = is_path-append s es fs
is_path-append s (slept n ∷ es) fs = is_path-append s es fs
is_path-append s (joined ∷ es) fs = is_path-append s es fs
is_path-append s (signalled_exit ∷ es) fs = is_path-append s es fs

dials-append : (es fs : List Effect) → dials (es ++ fs) ≡ dials es + dials fs
unfolding dials
dials-append [] fs = omega arith
dials-append (status_sent Status.connecting ∷ es) fs = omega (arith, dials-append es fs)
dials-append (status_sent Status.ready ∷ es) fs = dials-append es fs
dials-append (status_sent Status.connected ∷ es) fs = dials-append es fs
dials-append (status_sent Status.disconnected ∷ es) fs = dials-append es fs
dials-append (status_sent Status.offline ∷ es) fs = dials-append es fs
dials-append (notified e ∷ es) fs = dials-append es fs
dials-append (slept n ∷ es) fs = dials-append es fs
dials-append (joined ∷ es) fs = dials-append es fs
dials-append (signalled_exit ∷ es) fs = dials-append es fs

rests-append : (es fs : List Effect) → rests (es ++ fs) ≡ rests es + rests fs
unfolding rests
rests-append [] fs = omega arith
rests-append (status_sent t ∷ es) fs = rests-append es fs
rests-append (notified e ∷ es) fs = rests-append es fs
rests-append (slept n ∷ es) fs = omega (arith, rests-append es fs)
rests-append (joined ∷ es) fs = rests-append es fs
rests-append (signalled_exit ∷ es) fs = rests-append es fs

-- The statuses sent lead along the edges to this one, and there is a rest between two attempts.
pub record IsPath (es : List Effect) (s : Status) : Type 0 where
  pub path : is_path Status.ready es ≡ true
  pub at : after Status.ready es ≡ s
  pub rate : dials es ≡ rests es + is_dialled s

-- The effects of a round keep the law where they do so from its status.
pub append-IsPath :
    (es fs : List Effect) (s t : Status)
    → IsPath es s
    → is_path s fs ≡ true
    → after s fs ≡ t
    → dials fs + is_dialled s ≡ rests fs + is_dialled t
    → IsPath (es ++ fs) t
append-IsPath es fs s t l p a r = record {
  path = is_path-append Status.ready es fs ∙ ground (arith, l.path, ap (λ u. is_path u fs) l.at, p);
  at = after-append Status.ready es fs ∙ ap (λ u. after u fs) l.at ∙ a;
  rate = omega (arith, dials-append es fs, rests-append es fs, l.rate, r);
}
