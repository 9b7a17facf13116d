-- ===== src/Upr/Feed/FlowControl.antt =====
-- The flow control of client/upr_feed.go: which bytes are acknowledged, and when.
use gomemcached.Prelude.{
  ℕ, ◌+◌, ◌%◌, ◌^◌, ◌≤◌, ◌<◌, ◌≡◌, Bool, true, false, List, [], ◌∷◌, arith, if◌then◌else◌,
  Bool-cases, ltb, ltb→lt, inl, inr,
}
use gomemcached.Upr.Feed.{UprFeed, send_buffer_ack}

-- SendBufferAck after each packet of some: the feed, and the sizes of the acknowledgments.
abbrev pub acks : UprFeed → List (Bool × ℕ) → UprFeed × List ℕ
acks feed [] = (feed, [])
acks feed ((send_ack, n) ∷ packets) =
    let (feed', need_to_send, send_size) = send_buffer_ack feed send_ack n in
    let (last, sizes) = acks feed' packets in
    (last, if need_to_send then send_size ∷ sizes else sizes)

abbrev pub sum : List ℕ → ℕ
sum [] = 0
sum (n ∷ ns) = n + sum ns

-- The bytes that are to be acknowledged.
abbrev pub ack_bytes : List (Bool × ℕ) → ℕ
ack_bytes [] = 0
ack_bytes ((send_ack, n) ∷ packets) = (if send_ack then n else 0) + ack_bytes packets

-- Every packet leaves the sum below 2 ^ 32.
abbrev pub AllSmall : ℕ → List (Bool × ℕ) → Type 0
AllSmall limit [] = Unit
AllSmall limit ((send_ack, n) ∷ packets) = (limit + n < 2 ^ 32) × AllSmall limit packets

abbrev pub AllAbove : ℕ → List ℕ → Type 0
AllAbove limit [] = Unit
AllAbove limit (n ∷ ns) = (limit < n) × AllAbove limit ns

-- No byte is acknowledged twice or lost: for a feed that keeps no more than its threshold, over any
-- packets that with the threshold stay below 2 ^ 32 bytes each, the bytes acknowledged and the bytes
-- kept for the next acknowledgment are together those that the feed kept before and those of the
-- packets. No more than the threshold is ever kept, and every acknowledgment is above it.
pub acks_account :
    (packets : List (Bool × ℕ)) (feed : UprFeed)
    → feed.to_ack_bytes ≤ feed.max_ack_bytes
    → AllSmall feed.max_ack_bytes packets
    → (sum (acks feed packets).1 + (acks feed packets).0.to_ack_bytes
        ≡ feed.to_ack_bytes + ack_bytes packets)
      × ((acks feed packets).0.to_ack_bytes ≤ feed.max_ack_bytes)
      × AllAbove feed.max_ack_bytes (acks feed packets).1
unfolding send_buffer_ack
acks_account [] feed k s = (omega arith, k, tt)
acks_account ((true, n) ∷ packets) feed k (s, ss) =
    let wraps : (feed.to_ack_bytes + n) % 2 ^ 32 ≡ feed.to_ack_bytes + n = omega arith in
    elim (Bool-cases (ltb feed.max_ack_bytes (feed.to_ack_bytes + n))) [
      | inl above ↦
          let (a, b, c) =
            acks_account packets (record feed { to_ack_bytes = 0 }) (omega arith) ss in
          rw (wraps, above)
            (omega (arith, a), b, (ltb→lt feed.max_ack_bytes (feed.to_ack_bytes + n) above, c))
      | inr below ↦
          let kept : feed.to_ack_bytes + n ≤ feed.max_ack_bytes = ground (arith, below) in
          let (a, b, c) =
            acks_account packets (record feed { to_ack_bytes = feed.to_ack_bytes + n }) kept ss in
          rw (wraps, below) (omega (arith, a), b, c)
    ]
acks_account ((false, n) ∷ packets) feed k (s, ss) =
    let (a, b, c) = acks_account packets feed k ss in (omega (arith, a), b, c)
