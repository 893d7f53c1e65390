-- ===== src/Companion/Answered.antt =====
-- loader/src/api/companion.cpp: a module whose helper can be reached gets a connection.
use zygisk_next_next.Base.{
  ℕ, ◌+◌, ◌-◌, ◌<◌, ◌≡◌, refl, ◌⊎◌, inl, inr, Bool, true, false, not, List, [], ◌∷◌, le→leb,
  if◌then◌else◌, Option, none, some, Bool-cases, arith,
}
use zygisk_next_next.Companion.Channel.{
  Sent, send_interrupted, send_failed, took, send_token, ConnectAnswers, connect_companion_channel,
}
use zygisk_next_next.Companion.Connect.{
  ModuleHandle, Answers, is_set, check_channel, check_listener, take_channel, hand_over, or_direct,
  connect_over, connect_steps, connect_companion,
}

-- The rounds of a socket that takes what is left, `need` bytes: each is interrupted or takes one byte or
-- more, until all is taken.
abbrev pub Takes : (need : ℕ) → List Sent → Type 0
Takes need [] = need ≡ 0
Takes need (send_interrupted ∷ rounds) = Takes need rounds
Takes need (send_failed ∷ rounds) = need ≡ 0
Takes need (took n ∷ rounds) = (need ≡ 0) ⊎ ((0 < n) × Takes (need - n) rounds)

send_token-Takes :
    (off : ℕ) (rounds : List Sent) → Takes (16 - off) rounds → send_token off rounds ≡ true
unfolding send_token
send_token-Takes off [] h = le→leb 16 off (omega (arith, h))
send_token-Takes off (send_interrupted ∷ rounds) h = ground (arith, send_token-Takes off rounds h)
send_token-Takes off (send_failed ∷ rounds) h = le→leb 16 off (omega (arith, h))
send_token-Takes off (took n ∷ rounds) (inl h) = rw (le→leb 16 off (omega (arith, h))) refl
send_token-Takes off (took n ∷ rounds) (inr (pos, h)) =
    let left : 16 - off - n ≡ 16 - (off + n) = omega arith in
    let rest = send_token-Takes (off + n) rounds (rw (← left) h) in ground (arith, rest, pos)

-- A direct connection that is made and takes the token.
abbrev pub IsReachable : ConnectAnswers → Type 0
IsReachable a = ((fd : ℕ) × (a.socket ≡ some fd)) × (a.connected ≡ true) × Takes 16 a.sends

abbrev pub IsSome : Option ℕ → Type 0
IsSome o = (fd : ℕ) × (o ≡ some fd)

direct-IsSome : (a : ConnectAnswers) → IsReachable a → IsSome (connect_companion_channel true a).0
unfolding connect_companion_channel
direct-IsSome a ((fd, s), c, t) = (fd, rw (s, c, send_token-Takes 0 a.sends t) refl)

or_direct-IsSome :
    (a : Answers) (h : ModuleHandle) (o : Option ℕ)
    → IsReachable a.direct
    → IsSome (or_direct a h o).0
unfolding or_direct
or_direct-IsSome a h none r = direct-IsSome a.direct r
or_direct-IsSome a h (some fd) r = (fd, refl)

connect_over-IsSome :
    (a : Answers) (h : ModuleHandle) → IsReachable a.direct → IsSome (connect_over a h).0
unfolding connect_over
connect_over-IsSome a h r = elim (Bool-cases (is_set h.companion_channel)) [
  | inl e ↦ rw e (or_direct-IsSome a h (hand_over a.sends a.pair).0 r)
  | inr e ↦ rw e (direct-IsSome a.direct r)
]

-- A module with a companion whose helper can be reached directly gets a connection from
-- `connectCompanion`, whatever became of its channel and its listener: the socket connects and, as often
-- as it is interrupted, takes at least a byte in each other round until it has the 16 bytes of the token.
pub connect_companion-answered :
    (a : Answers) (h : ModuleHandle)
    → h.has_companion ≡ true
    → IsReachable a.direct
    → (fd : ℕ) × ((connect_companion a h).0 ≡ some fd)
unfolding connect_companion connect_steps
connect_companion-answered a h companion r = go h.has_companion companion
  where
    go :
        (b : Bool)
        → b ≡ true
        → (fd : ℕ) × ((if not b then (none, h, []) else connect_steps a h).0 ≡ some fd)
    go false e = cc e
    go true e =
        connect_over-IsSome a (take_channel a (check_listener a (check_channel a h).0).0).0 r
