-- ===== src/Portal/Drain.antt =====
-- src/CPortal.cpp: the loops send the messages in order, and lose none.
use concentrator.Common.{
  ℕ, ◌+◌, ◌-◌, ◌≤◌, ◌<◌, ◌≡◌, refl, ap, ◌⊎◌, inl, inr, Bool, true, false, not, ◌||◌, Option, some,
  List, [], ◌∷◌, ◌++◌, length, length-append, All, All-append, ltb, u16, if◌then◌else◌, ◌%◌, arith,
  Bool-cases,
}
use mathlib.Core.Path.{subst}
use concentrator.Utils.Crc.{generate_crc}
use concentrator.Common.File.{le32}
use concentrator.Logqueue.{Logqueue, lqempty, lqfront, lqdequeue}
use concentrator.Logqueue.Contents.{Holds}
use concentrator.Logqueue.Fifo.{lqempty-Holds, lqfront-Holds, lqdequeue-Holds}
use concentrator.Utils.Xor.{generate_crc-total}
use concentrator.Portal.{
  le16, Kind, create_packet_header, inc_serial_index, fill_packet, create_packet, Turn, send_data,
}

-- A message of bytes that leaves room for the rest of a packet.
abbrev pub IsSendable : List ℕ → Type 0
IsSendable m = All (λ b. b < 256) m × (length m ≤ 1004)

fill_packet-IsSendable :
    (k : Kind) (m : List ℕ) (t : ℕ)
    → IsSendable m
    → All (λ b. b < 256) (fill_packet k m t) × (length (fill_packet k m t) ≤ 1022)
unfolding fill_packet create_packet_header le32
fill_packet-IsSendable k m t h = elim (Bool-cases k.counted) [
  | inl with_count ↦ rw with_count (ground (arith, tail, tail_length))
  | inr plain ↦ rw plain (ground (arith, tail, tail_length))
]
  where
    tail : All (λ b. b < 256) (m ++ le32 t)
    tail =
        All-append (λ b. b < 256) m (le32 t) h.0
          (omega arith, (omega arith, (omega arith, (omega arith, tt))))

    tail_length : length (m ++ le32 t) ≤ 1008
    tail_length = omega (arith, length-append m (le32 t), h.1)

-- The bytes of a packet but for the checksum: two marks, the number of bytes behind them, the identity, the function
-- code and the serial index, the count of one in packets that have it, the message and the time.
unfoldable pub framed :
    (id fun_code : ℕ) (counted : Bool) (serial : ℕ) (message : List ℕ) (time : ℕ) → List ℕ
framed id fun_code counted serial message time =
    let count = if counted then 1 ∷ 0 ∷ [] else [] in
    240
    ∷ 240
    ∷ (le16 (14 + length count + length message)
        ++ (le32 id ++ (le16 fun_code ++ (le16 serial ++ (count ++ (message ++ le32 time))))))

fill_packet-framed :
    (k : Kind) (m : List ℕ) (t : ℕ)
    → length m ≤ 1004
    → fill_packet k m t ≡ framed k.id k.fun_code k.counted k.serial_index m t
unfolding fill_packet create_packet_header le32 framed
fill_packet-framed k m t short = elim (Bool-cases k.counted) [
  | inl with_count ↦
      let size : u16
            (length (0 ∷ 0 ∷ 0 ∷ 0 ∷ 0 ∷ 0 ∷ 0 ∷ 0 ∷ 0 ∷ 0 ∷ 0 ∷ 0 ∷ 0 ∷ 0 ∷ (m ++ le32 t)) - 2)
          ≡ 14 + 2 + length m =
        omega (arith, length-append m (le32 t), short) in
      rw (with_count, size) refl
  | inr plain ↦
      let size : u16 (length (0 ∷ 0 ∷ 0 ∷ 0 ∷ 0 ∷ 0 ∷ 0 ∷ 0 ∷ 0 ∷ 0 ∷ 0 ∷ 0 ∷ (m ++ le32 t)) - 2)
          ≡ 14 + 0 + length m =
        omega (arith, length-append m (le32 t), short) in
      rw (plain, size) refl
]

create_packet-total :
    (k : Kind) (m : List ℕ) (t : ℕ)
    → IsSendable m
    → (p : List ℕ) × (crc : ℕ) × (create_packet k m t ≡ some p)
      × (generate_crc (framed k.id k.fun_code k.counted k.serial_index m t) ≡ some crc)
      × (p ≡ framed k.id k.fun_code k.counted k.serial_index m t ++ le16 crc)
unfolding create_packet
create_packet-total k m t h =
    let (all, short) = fill_packet-IsSendable k m t h in
    let (crc, e) = generate_crc-total (fill_packet k m t) all in
    let fits : ltb 1024 (length (fill_packet k m t) + 2) ≡ false = ground arith in
    let bytes = fill_packet-framed k m t h.1 in
    (
      fill_packet k m t ++ le16 crc,
      crc,
      rw (fits, e) refl,
      rw (← bytes) e,
      ap (λ l. l ++ le16 crc) bytes,
    )

-- The packets of some messages, each with the time of its turn and a checksum; the serial indices are consecutive from
-- the first one on, and begin again behind 19999.
abbrev pub Carry :
    (id fun_code : ℕ) (counted : Bool) (serial : ℕ)
    → List Turn
    → List (List ℕ)
    → List (List ℕ)
    → Type 0
Carry id fun_code counted serial turns [] [] = Unit
Carry id fun_code counted serial (turn ∷ turns) (m ∷ ms) (p ∷ ps) =
    ((crc : ℕ) × (generate_crc (framed id fun_code counted serial m turn.utc_time) ≡ some crc)
      × (p ≡ framed id fun_code counted serial m turn.utc_time ++ le16 crc))
    × Carry id fun_code counted ((serial + 1) % 20000) turns ms ps
Carry id fun_code counted serial _ _ _ = ⊥

next_serial_index :
    (k : Kind)
    → k.serial_index < 20000
    → (inc_serial_index k).serial_index ≡ (k.serial_index + 1) % 20000
unfolding inc_serial_index
next_serial_index k small = ground (arith, small)

-- Some turn's sending fails.
abbrev pub any_unsent : List Turn → Bool
any_unsent [] = false
any_unsent (turn ∷ turns) = not turn.sent || any_unsent turns

-- The outcome of a loop on a queue: the packets of its first messages were sent, in order, and it holds
-- the rest; and it ended because the queue was empty, a sending failed, or the turns ended.
pub record Drained (k : Kind) (turns : List Turn) (ms : List (List ℕ))
    (o : Option (Logqueue × List (List ℕ))) : Type 0 where
  pub queue : Logqueue
  pub packets : List (List ℕ)
  pub delivered : List (List ℕ)
  pub rest : List (List ℕ)
  pub returns : o ≡ some (queue, packets)
  pub all : ms ≡ delivered ++ rest
  pub carried : Carry k.id k.fun_code k.counted k.serial_index turns delivered packets
  pub holds : Holds queue rest
  pub ended : (rest ≡ []) ⊎ (any_unsent turns ≡ true) ⊎ (length delivered ≡ length turns)

not_empty : {m : List ℕ} {ms : List (List ℕ)} {b : Bool} → (b ≡ true → m ∷ ms ≡ []) → b ≡ false
not_empty {b = true} f = absurd (omega (arith, ap length (f refl)))
not_empty {b = false} f = refl

-- When the messages fit in packets, the disk takes the pointer and the serial index is below 20000, a loop sends the
-- packets of the first messages in order, each message once, byte for byte with the time of its turn, with consecutive
-- serial indices that begin again at 20000, and with a checksum; and the queue holds the others. The loop does not end
-- before the queue is empty, a sending has failed, or the turns are used up.
pub send_data-Drained :
    (k : Kind) (turns : List Turn) (q : Logqueue) (ms : List (List ℕ))
    → Holds q ms
    → All IsSendable ms
    → All (λ (turn : Turn). 4 ≤ turn.room) turns
    → k.serial_index < 20000
    → Drained k turns ms (send_data k turns q)
unfolding send_data inc_serial_index
send_data-Drained k [] q ms h fit rooms small = record {
  queue = q;
  packets = [];
  delivered = [];
  rest = ms;
  returns = refl;
  all = refl;
  carried = tt;
  holds = h;
  ended = inr (inr refl);
}
send_data-Drained k (turn ∷ turns) q [] h fit rooms small =
    let (flag, h₁) = lqempty-Holds q [] h in
    record {
      queue = (lqempty q).0;
      packets = [];
      delivered = [];
      rest = [];
      returns = rw (flag.1 refl, send_data) refl;
      all = refl;
      carried = tt;
      holds = h₁;
      ended = inl refl;
    }
send_data-Drained k (turn ∷ turns) q (m ∷ ms) h fit rooms small =
    let (flag, h₁) = lqempty-Holds q (m ∷ ms) h in
    let (front, h₂) = lqfront-Holds (lqempty q).0 m ms h₁ in
    let (gone, h₃) = lqdequeue-Holds (lqfront (lqempty q).0).0 m ms turn.room h₂ rooms.0 in
    let (p, crc, made, summed, bytes) = create_packet-total k m turn.utc_time fit.0 in
    let next =
      send_data-Drained (inc_serial_index k) turns (lqdequeue (lqfront (lqempty q).0).0 turn.room).0
        ms h₃ fit.1 rooms.1 (rw (next_serial_index k small) (omega arith)) in
    let some_left : (lqempty q).1 ≡ false = not_empty flag.0 in
    elim (Bool-cases turn.sent) [
      | inl sent ↦ record {
        queue = next.queue;
        packets = p ∷ next.packets;
        delivered = m ∷ next.delivered;
        rest = next.rest;
        returns = rw (some_left, send_data, front, made, sent, next.returns) refl;
        all = ap (λ l. m ∷ l) next.all;
        carried = (
          (crc, summed, bytes),
          subst (λ (s : ℕ). Carry k.id k.fun_code k.counted s turns next.delivered next.packets)
              (next_serial_index k small) next.carried,
        );
        holds = next.holds;
        ended = elim next.ended [
          | inl done ↦ inl done
          | inr (inl failed) ↦ inr (inl (rw (sent, failed) refl))
          | inr (inr used) ↦ inr (inr (omega (arith, used)))
        ];
      }
      | inr failed ↦ record {
        queue = (lqfront (lqempty q).0).0;
        packets = [];
        delivered = [];
        rest = m ∷ ms;
        returns = rw (some_left, send_data, front, made, failed) refl;
        all = refl;
        carried = tt;
        holds = h₂;
        ended = inr (inl (rw failed refl));
      }
    ]
