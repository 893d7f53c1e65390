-- ===== src/Companion/Balance.antt =====
-- loader/src/api/companion.cpp and loader/src/ipc/channel.cpp: no descriptor is leaked or closed twice.
use zygisk_next_next.Base.{
  ℕ, ◌+◌, ◌≡◌, ap, refl, ◌⊎◌, inl, inr, Bool, true, false, not, List, [], ◌∷◌, ◌++◌, Bytes,
  same_iff, ◌==◌, if◌then◌else◌, Option, none, some, Bool-cases, arith,
}
use zygisk_next_next.Boot.Plan.Encode.{u32_bytes}
use zygisk_next_next.Companion.Channel.{
  Effect, opened, closed, is_root_peer, wait_readable, Sent, ConnectAnswers,
  connect_companion_channel, AcceptAnswers, read_proof, is_proof, check_peer, accepted_channel,
  accept_channel,
}
use zygisk_next_next.Companion.Channel.{
  Received, receive_interrupted, receive_failed, frame, received_fd, open_fd, close_fd, recv_frame,
}
use zygisk_next_next.Companion.Connect.{
  ModuleHandle, Answers, close_of, is_set, drop_channel, check_channel, check_listener,
  take_channel, hand_over, or_direct, connect_over, connect_steps, connect_companion,
}

-- How often the descriptor is opened, and closed.
abbrev pub opens : ℕ → List Effect → ℕ
opens q [] = 0
opens q (opened fd ∷ es) = (if q == fd then 1 else 0) + opens q es
opens q (closed fd ∷ es) = opens q es

abbrev pub closes : ℕ → List Effect → ℕ
closes q [] = 0
closes q (opened fd ∷ es) = closes q es
closes q (closed fd ∷ es) = (if q == fd then 1 else 0) + closes q es

pub opens-append : (q : ℕ) (a b : List Effect) → opens q (a ++ b) ≡ opens q a + opens q b
opens-append q [] b = omega arith
opens-append q (opened fd ∷ a) b = omega (arith, opens-append q a b)
opens-append q (closed fd ∷ a) b = opens-append q a b

pub closes-append : (q : ℕ) (a b : List Effect) → closes q (a ++ b) ≡ closes q a + closes q b
closes-append q [] b = omega arith
closes-append q (opened fd ∷ a) b = closes-append q a b
closes-append q (closed fd ∷ a) b = omega (arith, closes-append q a b)

-- How often a variable holds the descriptor.
abbrev pub holds : ℕ → Option ℕ → ℕ
holds q none = 0
holds q (some fd) = if q == fd then 1 else 0

abbrev pub held : ℕ → ModuleHandle → ℕ
held q h = holds q h.companion_listen_fd + holds q h.companion_channel

connect-Balanced :
    (t : Bool) (a : ConnectAnswers) (q : ℕ)
    → let (fd, es) = connect_companion_channel t a in opens q es ≡ closes q es + holds q fd
unfolding connect_companion_channel
connect-Balanced t a q = ground arith

accept-Balanced :
    (l : Option ℕ) (nonce : ℕ) (a : AcceptAnswers) (q : ℕ)
    → let (fd, es) = accept_channel l nonce a in opens q es ≡ closes q es + holds q fd
unfolding accept_channel accepted_channel check_peer
accept-Balanced l nonce a q = ground arith

check_channel-Balanced :
    (a : Answers) (h : ModuleHandle) (q : ℕ)
    → let (h', es) = check_channel a h in held q h + opens q es ≡ closes q es + held q h'
unfolding check_channel drop_channel
check_channel-Balanced a h q = ground arith

check_listener-Balanced :
    (a : Answers) (h : ModuleHandle) (q : ℕ)
    → let (h', es) = check_listener a h in held q h + opens q es ≡ closes q es + held q h'
unfolding check_listener
check_listener-Balanced a h q = ground arith

hand_over-Balanced :
    (sends : List Sent) (p : Option (ℕ × ℕ)) (q : ℕ)
    → let (fd, es) = hand_over sends p in opens q es ≡ closes q es + holds q fd
unfolding hand_over
hand_over-Balanced sends p q = ground arith

close_of-Balanced :
    (o : Option ℕ) (q : ℕ) → (opens q (close_of o) ≡ 0) × (closes q (close_of o) ≡ holds q o)
close_of-Balanced none q = (refl, refl)
close_of-Balanced (some fd) q = ground arith

take_channel-Balanced :
    (a : Answers) (h : ModuleHandle) (q : ℕ)
    → let (h', es) = take_channel a h in held q h + opens q es ≡ closes q es + held q h'
unfolding take_channel
take_channel-Balanced a h q =
    let (fd, es) = accept_channel h.companion_listen_fd h.companion_nonce a.accepting in
    let b = accept-Balanced h.companion_listen_fd h.companion_nonce a.accepting q in
    let o = opens-append q es (close_of h.companion_listen_fd) in
    let c = closes-append q es (close_of h.companion_listen_fd) in
    let d = close_of-Balanced h.companion_listen_fd q in ground (arith, b, o, c, d)

or_direct-Balanced :
    (a : Answers) (h : ModuleHandle) (o : Option ℕ) (q : ℕ)
    → let (fd, h', es) = or_direct a h o in
      holds q o + held q h + opens q es ≡ closes q es + held q h' + holds q fd
unfolding or_direct drop_channel
or_direct-Balanced a h (some fd) q = omega arith
or_direct-Balanced a h none q =
    let (fd, es) = connect_companion_channel true a.direct in
    omega (
      arith,
      connect-Balanced true a.direct q,
      opens-append q (close_of h.companion_channel) es,
      closes-append q (close_of h.companion_channel) es,
      close_of-Balanced h.companion_channel q,
    )

connect_over-Balanced :
    (a : Answers) (h : ModuleHandle) (q : ℕ)
    → let (fd, h', es) = connect_over a h in
      held q h + opens q es ≡ closes q es + held q h' + holds q fd
unfolding connect_over
connect_over-Balanced a h q =
    let (handed, e1) = hand_over a.sends a.pair in
    let (fd, h', e2) = or_direct a h handed in
    let b = hand_over-Balanced a.sends a.pair q in
    let c = or_direct-Balanced a h handed q in
    let d = connect-Balanced true a.direct q in
    elim (Bool-cases (is_set h.companion_channel)) [
      | inl e ↦ rw e (omega (arith, b, c, opens-append q e1 e2, closes-append q e1 e2))
      | inr e ↦ rw e (omega (arith, d))
    ]

connect_steps-Balanced :
    (a : Answers) (h : ModuleHandle) (q : ℕ)
    → let (fd, h', es) = connect_steps a h in
      held q h + opens q es ≡ closes q es + held q h' + holds q fd
unfolding connect_steps
connect_steps-Balanced a h q =
    let (h1, e1) = check_channel a h in
    let (h2, e2) = check_listener a h1 in
    let (h3, e3) = take_channel a h2 in
    let (fd, h4, e4) = connect_over a h3 in
    omega (
      arith,
      check_channel-Balanced a h q,
      check_listener-Balanced a h1 q,
      take_channel-Balanced a h2 q,
      connect_over-Balanced a h3 q,
      opens-append q e1 (e2 ++ (e3 ++ e4)),
      closes-append q e1 (e2 ++ (e3 ++ e4)),
      opens-append q e2 (e3 ++ e4),
      closes-append q e2 (e3 ++ e4),
      opens-append q e3 e4,
      closes-append q e3 e4,
    )

-- `connectCompanion` leaks no descriptor and closes none twice: whatever the system calls answer, each
-- descriptor that the handle held or that was opened is closed, is held by the handle, or is the
-- result, exactly as often as it was held or opened.
pub connect_companion-Balanced :
    (a : Answers) (h : ModuleHandle) (q : ℕ)
    → let (fd, h', es) = connect_companion a h in
      held q h + opens q es ≡ closes q es + held q h' + holds q fd
unfolding connect_companion
connect_companion-Balanced a h q = go h.has_companion
  where
    go :
        (b : Bool)
        → let (fd, h', es) = (if not b then (none, h, []) else connect_steps a h) in
          held q h + opens q es ≡ closes q es + held q h' + holds q fd
    go false = omega arith
    go true = connect_steps-Balanced a h q

-- A channel that is returned belongs to the accepted peer, who is root and sent the nonce, and stays
-- open; where none is returned, what was opened is closed.
abbrev pub IsProven : ℕ → AcceptAnswers → Option ℕ × List Effect → Type 0
IsProven nonce a (some f, es) =
    (a.accepted ≡ some f)
    × (is_root_peer a.peer ≡ true)
    × (read_proof [] a.reads ≡ some (u32_bytes nonce))
    × (es ≡ opened f ∷ [])
IsProven nonce a (none, es) = (es ≡ []) ⊎ ((f : ℕ) × (es ≡ opened f ∷ closed f ∷ []))

proof-nonce : (nonce : ℕ) (o : Option Bytes) → is_proof nonce o ≡ true → o ≡ some (u32_bytes nonce)
proof-nonce nonce none h = cc h
proof-nonce nonce (some proof) h =
    ap (λ (s : Bytes). some s) ((same_iff proof (u32_bytes nonce)).0 h)

check_peer-IsProven :
    (fd nonce : ℕ) (a : AcceptAnswers)
    → a.accepted ≡ some fd
    → IsProven nonce a (check_peer fd nonce a)
unfolding check_peer
check_peer-IsProven fd nonce a h = elim (Bool-cases (is_root_peer a.peer)) [
  | inr e ↦ rw e (inr (fd, refl))
  | inl e ↦ elim (Bool-cases (is_proof nonce (read_proof [] a.reads))) [
    | inr p ↦ rw (e, p) (inr (fd, refl))
    | inl p ↦ rw (e, p) (h, e, proof-nonce nonce (read_proof [] a.reads) p, refl)
  ]
]

-- `acceptChannel` returns a channel only to a peer whose user is root and who sent the four bytes of
-- the nonce, and keeps it open; in every other case the descriptor that it opened, if any, is closed.
pub accept_channel-IsProven :
    (l : Option ℕ) (nonce : ℕ) (a : AcceptAnswers) → IsProven nonce a (accept_channel l nonce a)
unfolding accept_channel accepted_channel
accept_channel-IsProven none nonce a = inl refl
accept_channel-IsProven (some l) nonce a = elim (Bool-cases (wait_readable a.polls)) [
  | inr e ↦ rw e (inl refl)
  | inl e ↦ rw e (go a.accepted refl)
]
  where
    go : (o : Option ℕ) → a.accepted ≡ o → IsProven nonce a (accepted_channel o nonce a)
    go none h = inl refl
    go (some fd) h = check_peer-IsProven fd nonce a h

abbrev pub handed_out : Option (ℕ × Option ℕ) → Option ℕ
handed_out none = none
handed_out (some (command, fd)) = fd

-- What `recvFrame` receives it hands out or closes.
pub recv_frame-Balanced :
    (wants_fd : Bool) (rounds : List Received) (q : ℕ)
    → let (r, es) = recv_frame wants_fd rounds in opens q es ≡ closes q es + holds q (handed_out r)
unfolding recv_frame
recv_frame-Balanced wants_fd [] q = refl
recv_frame-Balanced wants_fd (receive_interrupted ∷ rounds) q =
    recv_frame-Balanced wants_fd rounds q
recv_frame-Balanced wants_fd (receive_failed ∷ rounds) q = refl
recv_frame-Balanced true (frame command messages ∷ rounds) q = go (received_fd messages)
  where
    go : (o : Option ℕ) → opens q (open_fd o) ≡ closes q (open_fd o) + holds q o
    go none = omega arith
    go (some fd) = omega arith
recv_frame-Balanced false (frame command messages ∷ rounds) q = go (received_fd messages)
  where
    go : (o : Option ℕ) → opens q (open_fd o ++ close_fd o) ≡ closes q (open_fd o ++ close_fd o) + 0
    go none = omega arith
    go (some fd) = omega arith
