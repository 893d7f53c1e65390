-- ===== src/Companion/Tests.antt =====
-- loader/src/api/companion.cpp: the theorems at work.
use zygisk_next_next.Base.{
  inl, ℕ, refl, inr, arith, ◌+◌, ◌≡◌, codes, replicate, true, [], ◌∷◌, none, some,
}
use zygisk_next_next.Companion.Names.{channel_name-injective}
use zygisk_next_next.Companion.Channel.{
  SocketInfo, Poll, Sent, ReadRound, AcceptAnswers, accept_channel,
}
use zygisk_next_next.Companion.Connect.{ModuleHandle, Answers, connect_companion}
use zygisk_next_next.Companion.Answered.{connect_companion-answered}
use zygisk_next_next.Companion.Balance.{
  opens, closes, holds, held, connect_companion-Balanced, IsProven, accept_channel-IsProven,
}

abbrev info : SocketInfo
info = record { is_open = true; so_type = some 1; accepting = some 0; peer_uid = some 0 }

-- A peer that sends its nonce, 7, in two parts, and a channel that breaks then.
abbrev peer_answers : AcceptAnswers
peer_answers = record {
  polls = Poll.interrupted ∷ Poll.readable ∷ [];
  accepted = some 21;
  peer = info;
  reads = ReadRound.got (7 ∷ 0 ∷ []) ∷ ReadRound.read_interrupted ∷ ReadRound.got (0 ∷ 0 ∷ []) ∷ [];
}

abbrev broken : Answers
broken = record {
  channel = info;
  listener = record info { accepting = some 1 };
  accepting = peer_answers;
  pair = some (30, 31);
  sends = Sent.send_interrupted ∷ Sent.send_failed ∷ [];
  direct = record { socket = some 40; connected = true; sends = Sent.took 16 ∷ [] };
}

abbrev handle : ModuleHandle
handle = record {
  lib_path = codes "/m/a.so";
  has_companion = true;
  companion_nonce = 7;
  companion_index = 0;
  companion_token = replicate 16 5;
  companion_listen_fd = some 20;
  companion_channel = none;
}

connect_companion-Balanced_example :
    let (fd, h, es) = connect_companion broken handle in
    held 21 handle + opens 21 es ≡ closes 21 es + held 21 h + holds 21 fd
connect_companion-Balanced_example = connect_companion-Balanced broken handle 21

accept_channel-IsProven_example : IsProven 7 peer_answers (accept_channel (some 20) 7 peer_answers)
accept_channel-IsProven_example = accept_channel-IsProven (some 20) 7 peer_answers

-- The channel is broken, and the direct connection is interrupted once.
abbrev slow : Answers
slow = record broken {
  direct = record {
    socket = some 40;
    connected = true;
    sends = Sent.took 10 ∷ Sent.send_interrupted ∷ Sent.took 6 ∷ [];
  };
}

connect_companion-answered_example : (fd : ℕ) × ((connect_companion slow handle).0 ≡ some fd)
connect_companion-answered_example =
    connect_companion-answered slow handle refl
      ((40, refl), refl, (inr (omega arith, inr (omega arith, refl))))

channel_name-injective_example : (◌≡◌ {A = ℕ} 77 77) × (◌≡◌ {A = ℕ} 3 3)
channel_name-injective_example =
    channel_name-injective 77 77 3 3 (omega arith) (omega arith) (omega arith) (omega arith)
      (inl refl)
