-- ===== src/Companion/Connect.antt =====
-- loader/src/api/companion.cpp: `connectCompanion`.
use zygisk_next_next.Base.{
  ℕ, Bool, true, false, not, ◌&&◌, List, [], ◌∷◌, ◌++◌, Bytes, if◌then◌else◌, Option, none, some,
}
use zygisk_next_next.Companion.Channel.{
  Effect, opened, closed, SocketInfo, channel_usable, listener_usable, Sent, send_frame,
  ConnectAnswers, connect_companion_channel, AcceptAnswers, accept_channel,
}

-- `ModuleHandle`
pub record ModuleHandle : Type 0 where
  pub lib_path : Bytes
  pub has_companion : Bool
  pub companion_nonce : ℕ
  pub companion_index : ℕ
  pub companion_token : Bytes
  pub companion_listen_fd : Option ℕ
  pub companion_channel : Option ℕ

-- What the system calls answer in one call of `connectCompanion`.
pub record Answers : Type 0 where
  pub channel : SocketInfo
  pub listener : SocketInfo
  pub accepting : AcceptAnswers
  pub pair : Option (ℕ × ℕ)
  pub sends : List Sent
  pub direct : ConnectAnswers

abbrev pub close_of : Option ℕ → List Effect
close_of none = []
close_of (some fd) = closed fd ∷ []

abbrev pub is_set : Option ℕ → Bool
is_set none = false
is_set (some fd) = true

-- `dropChannel`
unfoldable pub drop_channel : ModuleHandle → ModuleHandle × List Effect
drop_channel h = (record h { companion_channel = none }, close_of h.companion_channel)

-- The first `if`: a channel that is gone is dropped.
unfoldable pub check_channel : Answers → ModuleHandle → ModuleHandle × List Effect
check_channel a h =
    if is_set h.companion_channel && not (channel_usable h.companion_channel a.channel)
    then drop_channel h
    else (h, [])

-- The second `if`: a listener that is gone is closed.
unfoldable pub check_listener : Answers → ModuleHandle → ModuleHandle × List Effect
check_listener a h =
    if is_set h.companion_listen_fd && not (listener_usable h.companion_listen_fd a.listener)
    then (record h { companion_listen_fd = none }, close_of h.companion_listen_fd)
    else (h, [])

-- The third `if`: without a channel the listener, used once, may give one.
unfoldable pub take_channel : Answers → ModuleHandle → ModuleHandle × List Effect
take_channel a h =
    let (fd, effects) = accept_channel h.companion_listen_fd h.companion_nonce a.accepting in
    if not (is_set h.companion_channel) && is_set h.companion_listen_fd
    then (
      record h { companion_channel = fd; companion_listen_fd = none },
      effects ++ close_of h.companion_listen_fd,
    )
    else (h, [])

-- `makePeerPair` and `sendFrame` over the channel: the module's end, or none with both ends closed.
unfoldable pub hand_over : List Sent → Option (ℕ × ℕ) → Option ℕ × List Effect
hand_over sends none = (none, [])
hand_over sends (some (module_fd, helper_fd)) =
    if send_frame sends
    then (some module_fd, opened module_fd ∷ opened helper_fd ∷ closed helper_fd ∷ [])
    else (none, opened module_fd ∷ opened helper_fd ∷ closed module_fd ∷ closed helper_fd ∷ [])

-- The rest of `connectCompanion`, behind the attempt to hand over a peer.
unfoldable pub or_direct : Answers → ModuleHandle → Option ℕ → Option ℕ × ModuleHandle × List Effect
or_direct a h (some fd) = (some fd, h, [])
or_direct a h none =
    let (h', dropped) = drop_channel h in
    let (fd, effects) = connect_companion_channel true a.direct in (fd, h', dropped ++ effects)

-- The last part of `connectCompanion`: over the channel, or directly.
unfoldable pub connect_over : Answers → ModuleHandle → Option ℕ × ModuleHandle × List Effect
connect_over a h =
    let (handed, e1) = hand_over a.sends a.pair in
    let (fd, h', e2) = or_direct a h handed in
    let (direct_fd, e3) = connect_companion_channel true a.direct in
    if is_set h.companion_channel then (fd, h', e1 ++ e2) else (direct_fd, h, e3)

-- `connectCompanion` behind its first line.
unfoldable pub connect_steps : Answers → ModuleHandle → Option ℕ × ModuleHandle × List Effect
connect_steps a h =
    let (h1, e1) = check_channel a h in
    let (h2, e2) = check_listener a h1 in
    let (h3, e3) = take_channel a h2 in
    let (fd, h4, e4) = connect_over a h3 in (fd, h4, e1 ++ (e2 ++ (e3 ++ e4)))

-- `connectCompanion` of a handle that is not null: the descriptor for the module, the handle behind it
-- and what was opened and closed.
unfoldable pub connect_companion : Answers → ModuleHandle → Option ℕ × ModuleHandle × List Effect
connect_companion a h = if not h.has_companion then (none, h, []) else connect_steps a h
