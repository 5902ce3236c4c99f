-- ===== src/Fixtures/Queue.antt =====
-- A queue of packets, for the tests.
use moergo_rmk.Prelude.{
  ℕ, ◌-◌, List, [], ◌∷◌, ◌++◌, none, some, length, ltb, ltb_of_lt, length-append, refl, arith,
  if◌then◌else◌,
}
use moergo_rmk.Replica.Walk.{Channel}
use moergo_rmk.Replica.Sender.{ChannelLaws}

-- A queue of at most 128 packets.
abbrev pub list_channel : Channel (List ℕ)
list_channel = record {
  Queue = List (List ℕ);
  queued = λ q. q;
  free_capacity = λ q. 128 - length q;
  try_send = λ d q. if ltb (length q) 128 then some (q ++ (d ∷ [])) else none;
}

pub list_channel-ChannelLaws : ChannelLaws list_channel
list_channel-ChannelLaws = record {
  try_send_room = λ d q h. (
    q ++ (d ∷ []),
    rw (ltb_of_lt (length q) 128 (omega arith)),
    refl,
    omega (arith, length-append q (d ∷ [])),
  );
  try_send_full = λ d q h. ground arith;
}
