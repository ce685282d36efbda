-- ===== src/Portal/Taken.antt =====
-- src/CPortal.cpp: which answers `GPRS_Send` takes as the acknowledgement, and which it stores, by their bytes.
use concentrator.Common.{
  ℕ, ◌+◌, ◌*◌, ◌<◌, ◌≡◌, refl, true, false, some, List, ◌==◌, length, get_or, Bool-cases,
  Option-cases, inl, inr, arith,
}
use concentrator.Portal.Exchange.{
  Answer, stored, acknowledged, take_packet_as, take_answer_as, packet_id, packet_fun_code,
  packet_serial,
}

-- Two and four bytes of a packet as a number, low byte first.
abbrev pub short_at : List ℕ → (i : ℕ) → ℕ
short_at p i = get_or p i 0 + 256 * get_or p (i + 1) 0

abbrev pub word_at : List ℕ → (i : ℕ) → ℕ
word_at p i = short_at p i + 65536 * short_at p (i + 2)

-- A packet with the identity of the sent one, the next function code and the same serial index.
abbrev pub Acknowledges : (sent : List ℕ) → Answer → Type 0
Acknowledges sent a =
    (p : List ℕ) × (a.packet ≡ some p)
    × (0 < length p)
    × (word_at p 4 ≡ word_at sent 4)
    × (short_at p 8 ≡ short_at sent 8 + 1)
    × (short_at p 10 ≡ short_at sent 10)

-- A packet with the identity of the sent one and any other function code.
abbrev pub IsOther : (sent : List ℕ) → Answer → Type 0
IsOther sent a =
    (p : List ℕ) × (a.packet ≡ some p)
    × (0 < length p)
    × (word_at p 4 ≡ word_at sent 4)
    × ((short_at p 8 == short_at sent 8 + 1) ≡ false)

-- The same of a packet that has come.
AcknowledgesBy : (sent p : List ℕ) → Type 0
AcknowledgesBy sent p =
    (0 < length p)
    × (word_at p 4 ≡ word_at sent 4)
    × (short_at p 8 ≡ short_at sent 8 + 1)
    × (short_at p 10 ≡ short_at sent 10)

take_packet_as-Acknowledges :
    (sent p : List ℕ) → take_packet_as sent p ≡ acknowledged → AcknowledgesBy sent p
unfolding take_packet_as AcknowledgesBy
take_packet_as-Acknowledges sent p e = elim (Bool-cases (length p == 0)) [
  | inl empty ↦ cc (rw empty at e)
  | inr long ↦ elim (Bool-cases (packet_id sent == packet_id p)) [
    | inr strange ↦ cc (rw (long, strange) at e)
    | inl same_id ↦ elim (Bool-cases (packet_fun_code sent + 1 == packet_fun_code p)) [
      | inr other ↦ cc (rw (long, same_id, other) at e)
      | inl next ↦ elim (Bool-cases (packet_serial sent == packet_serial p)) [
        | inr late ↦ cc (rw (long, same_id, next, late) at e)
        | inl same ↦ (
          ground (arith, long),
          ground (arith, same_id),
          ground (arith, next),
          ground (arith, same),
        )
      ]
    ]
  ]
]

pub take_answer_as-Acknowledges :
    (sent : List ℕ) (a : Answer) → take_answer_as sent a ≡ acknowledged → Acknowledges sent a
unfolding take_answer_as AcknowledgesBy
take_answer_as-Acknowledges sent a e = elim (Option-cases a.packet) [
  | inl missing ↦ cc (rw missing at e)
  | inr (p, came) ↦
      let (long, id, code, serial) = take_packet_as-Acknowledges sent p (rw came at e) in
      (p, came, long, id, code, serial)
]

pub Acknowledges-acknowledged :
    (sent : List ℕ) (a : Answer) → Acknowledges sent a → take_answer_as sent a ≡ acknowledged
unfolding take_answer_as take_packet_as
Acknowledges-acknowledged sent a (p, came, some_bytes, id, code, serial) =
    let long : (length p == 0) ≡ false = ground (arith, some_bytes) in
    let same_id : (packet_id sent == packet_id p) ≡ true = ground (arith, id) in
    let next : (packet_fun_code sent + 1 == packet_fun_code p) ≡ true = ground (arith, code) in
    let same : (packet_serial sent == packet_serial p) ≡ true = ground (arith, serial) in
    rw (came, long, same_id, next, same) refl

pub IsOther-stored : (sent : List ℕ) (a : Answer) → IsOther sent a → take_answer_as sent a ≡ stored
unfolding take_answer_as take_packet_as
IsOther-stored sent a (p, came, some_bytes, id, code) =
    let long : (length p == 0) ≡ false = ground (arith, some_bytes) in
    let same_id : (packet_id sent == packet_id p) ≡ true = ground (arith, id) in
    let other : (packet_fun_code sent + 1 == packet_fun_code p) ≡ false = ground (arith, code) in
    rw (came, long, same_id, other) refl
