-- ===== src/Companion/Channel.antt =====
-- loader/src/ipc/channel.cpp: the sockets between the loader and its helper. What the system calls
-- answer is an argument: for a loop the list of its rounds' answers, behind which nothing comes before
-- the deadline. A descriptor that is negative is none.
use zygisk_next_next.Kpm.Format.Digits.{decimal}
use zygisk_next_next.Base.{
  zero, suc, codes, ◌/◌, ◌%◌, ℕ, ◌+◌, ◌-◌, Bool, true, false, not, ◌&&◌, List, [], ◌∷◌, ◌++◌, Bytes,
  length, take, same, ltb, leb, ◌==◌, if◌then◌else◌, Option, none, some,
}
use zygisk_next_next.Boot.Plan.Encode.{u32_bytes}

-- Descriptors that a function opens and closes, in order.
pub data Effect : Type 0 where
  opened closed : ℕ → Effect

-- What one `poll` answers: more than 0, EINTR, or no event or another error.
pub data Poll : Type 0 where
  readable interrupted timed_out : Poll

-- `waitReadable`
unfoldable pub wait_readable : List Poll → Bool
wait_readable [] = false
wait_readable (readable ∷ polls) = true
wait_readable (interrupted ∷ polls) = wait_readable polls
wait_readable (timed_out ∷ polls) = false

-- What `fcntl` and `getsockopt` answer about a descriptor, none for an error.
pub record SocketInfo : Type 0 where
  pub is_open : Bool
  pub so_type : Option ℕ
  pub accepting : Option ℕ
  pub peer_uid : Option ℕ

-- SOCK_STREAM
abbrev pub sock_stream : ℕ
sock_stream = 1

abbrev pub answers : Option ℕ → (ℕ → Bool) → Bool
answers none test = false
answers (some n) test = test n

-- `isRootPeer`
unfoldable pub is_root_peer : SocketInfo → Bool
is_root_peer i = answers i.peer_uid (λ uid. uid == 0)

-- `channelUsable`
unfoldable pub channel_usable : Option ℕ → SocketInfo → Bool
channel_usable none i = false
channel_usable (some fd) i =
    i.is_open
    && (answers i.so_type (λ t. t == sock_stream)
        && (answers i.accepting (λ a. a == 0) && answers i.peer_uid (λ uid. uid == 0)))

-- `listenerUsable`
unfoldable pub listener_usable : Option ℕ → SocketInfo → Bool
listener_usable none i = false
listener_usable (some fd) i =
    i.is_open
    && (answers i.so_type (λ t. t == sock_stream) && answers i.accepting (λ a. not (a == 0)))

-- What `send` and `sendmsg` answer: EINTR, another error or 0, or the bytes that they took.
pub data Sent : Type 0 where
  send_interrupted send_failed : Sent
  took : ℕ → Sent

-- The loop of `connectCompanionChannel` from the offset `off` on; kCompanionTokenBytes is 16.
unfoldable pub send_token : (off : ℕ) → List Sent → Bool
send_token off [] = leb 16 off
send_token off (send_interrupted ∷ rounds) =
    let rest = send_token off rounds in if leb 16 off then true else rest
send_token off (send_failed ∷ rounds) = leb 16 off
send_token off (took n ∷ rounds) =
    let rest = send_token (off + n) rounds in
    if leb 16 off then true else if n == 0 then false else rest

-- The answers to `connectCompanionChannel`.
pub record ConnectAnswers : Type 0 where
  pub socket : Option ℕ
  pub connected : Bool
  pub sends : List Sent

-- `connectCompanionChannel`; `with_token` says whether `token` is not null.
unfoldable pub connect_companion_channel :
    (with_token : Bool) → ConnectAnswers → Option ℕ × List Effect
connect_companion_channel with_token a = elim a.socket [
  | none ↦ (none, [])
  | some fd ↦
      if not a.connected
      then (none, opened fd ∷ closed fd ∷ [])
      else if with_token && not (send_token 0 a.sends)
      then (none, opened fd ∷ closed fd ∷ [])
      else (some fd, opened fd ∷ [])
]

-- `bindChannel` with the answers of `socket`, `bind` and `listen`
unfoldable pub bind_channel : Option ℕ → (bound listening : Bool) → Option ℕ × List Effect
bind_channel none bound listening = (none, [])
bind_channel (some fd) bound listening =
    if not bound
    then (none, opened fd ∷ closed fd ∷ [])
    else if not listening
    then (none, opened fd ∷ closed fd ∷ [])
    else (some fd, opened fd ∷ [])

-- A round of the loop of `acceptChannel`: what `waitReadable` answers, and what `read` does then.
pub data ReadRound : Type 0 where
  not_ready read_interrupted read_failed : ReadRound
  got : Bytes → ReadRound

-- The loop of `acceptChannel` with the bytes of the proof that are read; `read` gives no more than it
-- is asked for.
unfoldable pub read_proof : Bytes → List ReadRound → Option Bytes
read_proof proof [] = if leb 4 (length proof) then some proof else none
read_proof proof (not_ready ∷ rounds) = if leb 4 (length proof) then some proof else none
read_proof proof (read_failed ∷ rounds) = if leb 4 (length proof) then some proof else none
read_proof proof (read_interrupted ∷ rounds) =
    let rest = read_proof proof rounds in if leb 4 (length proof) then some proof else rest
read_proof proof (got bytes ∷ rounds) =
    let rest = read_proof (proof ++ take (4 - length proof) bytes) rounds in
    if leb 4 (length proof) then some proof else if length bytes == 0 then none else rest

-- The answers to `acceptChannel`.
pub record AcceptAnswers : Type 0 where
  pub polls : List Poll
  pub accepted : Option ℕ
  pub peer : SocketInfo
  pub reads : List ReadRound

abbrev pub is_proof : ℕ → Option Bytes → Bool
is_proof nonce none = false
is_proof nonce (some proof) = same proof (u32_bytes nonce)

-- The part of `acceptChannel` behind `accept4`.
unfoldable pub check_peer : ℕ → (nonce : ℕ) → AcceptAnswers → Option ℕ × List Effect
check_peer fd nonce a =
    if not (is_root_peer a.peer)
    then (none, opened fd ∷ closed fd ∷ [])
    else if is_proof nonce (read_proof [] a.reads)
    then (some fd, opened fd ∷ [])
    else (none, opened fd ∷ closed fd ∷ [])

unfoldable pub accepted_channel : Option ℕ → (nonce : ℕ) → AcceptAnswers → Option ℕ × List Effect
accepted_channel none nonce a = (none, [])
accepted_channel (some fd) nonce a = check_peer fd nonce a

-- `acceptChannel`
unfoldable pub accept_channel : Option ℕ → (nonce : ℕ) → AcceptAnswers → Option ℕ × List Effect
accept_channel none nonce a = (none, [])
accept_channel (some listen_fd) nonce a =
    if not (wait_readable a.polls) then (none, []) else accepted_channel a.accepted nonce a

-- The loop of `sendFrame`
unfoldable pub send_frame : List Sent → Bool
send_frame [] = false
send_frame (send_interrupted ∷ rounds) = send_frame rounds
send_frame (send_failed ∷ rounds) = false
send_frame (took n ∷ rounds) = ltb 0 n

-- A control message: whether it carries SCM_RIGHTS, whether it is long enough, and its descriptor.
pub record ControlMessage : Type 0 where
  pub is_rights : Bool
  pub is_long : Bool
  pub fd : Option ℕ

-- What `recvmsg` answers: EINTR, another error or the end, or the command with the control messages.
pub data Received : Type 0 where
  receive_interrupted receive_failed : Received
  frame : (command : ℕ) → List ControlMessage → Received

-- The loop over the control messages.
unfoldable pub received_fd : List ControlMessage → Option ℕ
received_fd [] = none
received_fd (c ∷ messages) =
    let rest = received_fd messages in
    if not c.is_rights then rest else if not c.is_long then rest else c.fd

abbrev pub close_fd : Option ℕ → List Effect
close_fd none = []
close_fd (some fd) = closed fd ∷ []

abbrev pub open_fd : Option ℕ → List Effect
open_fd none = []
open_fd (some fd) = opened fd ∷ []

-- `recvFrame`: the command and what `*out_fd` holds, none for false. `wants_fd` says whether `out_fd` is
-- not null; the descriptor that arrives counts as opened.
unfoldable pub recv_frame : (wants_fd : Bool) → List Received → Option (ℕ × Option ℕ) × List Effect
recv_frame wants_fd [] = (none, [])
recv_frame wants_fd (receive_interrupted ∷ rounds) = recv_frame wants_fd rounds
recv_frame wants_fd (receive_failed ∷ rounds) = (none, [])
recv_frame wants_fd (frame command messages ∷ rounds) =
    let fd = received_fd messages in
    if wants_fd
    then (some (command, fd), open_fd fd)
    else (some (command, none), open_fd fd ++ close_fd fd)

-- `%08x` for a 32-bit number
abbrev pub hex_digit : ℕ → ℕ
hex_digit d = if ltb d 10 then b'0' + d else b'a' + (d - 10)

unfoldable pub hex_digits : (places : ℕ) → ℕ → Bytes → Bytes
hex_digits zero v ds = ds
hex_digits (suc places) v ds = hex_digits places (v / 16) (hex_digit (v % 16) ∷ ds)

-- `channelName`: the bytes of the name with its leading NUL. The longest, 1 + 4 + 8 + 1 + 10 bytes, has
-- room in kChannelNameMax.
unfoldable pub channel_name : (nonce index : ℕ) → Bytes
channel_name nonce index =
    0 ∷ (codes "znn." ++ (hex_digits 8 nonce [] ++ (codes "." ++ decimal index)))

-- `directChannelName`
unfoldable pub direct_channel_name : (nonce index : ℕ) → Bytes
direct_channel_name nonce index =
    0 ∷ (codes "znn.c." ++ (hex_digits 8 nonce [] ++ (codes "." ++ decimal index)))
