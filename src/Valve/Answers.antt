-- ===== src/Valve/Answers.antt =====
-- src/CValveMonitor.cpp: the answers of a valve to the terminal's commands reach the terminal.
use mathlib.Core.Path.{subst}
use concentrator.Common.{
  ℕ, ◌+◌, ◌-◌, ◌%◌, ◌^◌, ◌≤◌, ◌<◌, ◌≡◌, refl, ap, ◌∙◌, false, Bool-cases, inl, inr, Option, some,
  none, if◌then◌else◌, [], List, ◌∷◌, ◌++◌, ◌==◌, ==_refl, ltb, u16, length, length-append, take,
  take-append, get_or, All, arith,
}
use concentrator.Common.File.{le32, of_le32-le32}
use concentrator.Common.Table.{lookup}
use concentrator.Common.Parts.{get_or-append}
use concentrator.Utils.Crc.{generate_crc}
use concentrator.Cardhost.Answer.{CardHost, be16, copy_of, ack_query_user, ack_recharge}
use concentrator.Cardhost.Queued.{IsReady, Queued}
use concentrator.Cardhost.Acks.{IsUid, copy_of-all, ack_query_user-Queued, ack_recharge-Queued}
use concentrator.Valve.{
  Valves, dispatched, find_uid, forget_expiry, parse_ack, parse_query_user, parse_recharge,
  answer_terminal,
}

-- An answer of a valve but for its checksum, with its port and random byte.
abbrev pub answer_body : (mac port rand code : ℕ) (data' : List ℕ) → List ℕ
answer_body mac port rand code data' = le32 mac ++ (port ∷ rand ∷ (1 + length data') ∷ code ∷ data')

abbrev pub answer_frame : (mac port rand code : ℕ) (data' : List ℕ) (crc : ℕ) → List ℕ
answer_frame mac port rand code data' crc = answer_body mac port rand code data' ++ be16 crc

module _ (mac port rand code : ℕ) (data' : List ℕ) (crc : ℕ)
    (made : generate_crc (answer_body mac port rand code data') ≡ some crc)
    (short : length data' ≤ 243) (small : mac < 2 ^ 32) where
  abbrev frame : List ℕ
  frame = answer_frame mac port rand code data' crc

  body_length : length frame - 2 ≡ length (answer_body mac port rand code data')
  body_length = omega (arith, length-append (answer_body mac port rand code data') (be16 crc))

  last_byte : get_or frame (length frame - 1) 0 ≡ crc % 256
  last_byte =
      ap (λ i. get_or frame i 0) {y = length (answer_body mac port rand code data') + 1}
        (omega (arith, length-append (answer_body mac port rand code data') (be16 crc)))
      ∙ get_or-append (answer_body mac port rand code data') (be16 crc) 1 0

  parse_ack-answer :
      parse_ack frame (length frame) ≡ dispatched mac code (data' ++ be16 crc) (length data')
  unfolding parse_ack le32
  parse_ack-answer =
      let one : (1 + length data' == 255) ≡ false = ground arith in
      let dlen : u16 (1 + length data' + 65535) ≡ length data' = omega arith in
      let body : generate_crc (take (length frame - 2) frame) ≡ some crc =
        ap (λ n. generate_crc (take n frame)) body_length
        ∙ ap generate_crc (take-append (answer_body mac port rand code data') (be16 crc))
        ∙ made in
      rw (parse_ack, body, last_byte, ==_refl (crc % 256), one, dlen)
        (ap (λ v. dispatched v code (data' ++ be16 crc) (length data'))
          (of_le32-le32 mac (port ∷ rand ∷ (1 + length data') ∷ code ∷ (data' ++ be16 crc)) small))

-- The checksum behind the data does not get into the answer.
copy_of-front : (data' rest : List ℕ) → copy_of (some (data' ++ rest)) (length data') ≡ some data'
copy_of-front data' rest =
    let fits : ltb (length (data' ++ rest)) (length data') ≡ false =
      ground (arith, length-append data' rest) in
    rw (fits, take-append data' rest) refl

ack_query_user-front :
    (host : CardHost) (uid data' rest : List ℕ)
    → ack_query_user host uid (some (data' ++ rest)) (length data')
      ≡ ack_query_user host uid (some data') (length data')
unfolding ack_query_user
ack_query_user-front host uid data' rest = rw (copy_of-front data' rest, copy_of-all data') refl

ack_recharge-front :
    (host : CardHost) (uid data' rest : List ℕ)
    → ack_recharge host uid (some (data' ++ rest)) (length data')
      ≡ ack_recharge host uid (some data') (length data')
unfolding ack_recharge
ack_recharge-front host uid data' rest = rw (copy_of-front data' rest, copy_of-all data') refl

-- The time of one valve is taken away.
lookup-forget_expiry :
    (expires : List (ℕ × ℕ)) (mac k : ℕ)
    → lookup (forget_expiry expires mac) k ≡ (if k == mac then none else lookup expires k)
unfolding lookup forget_expiry
lookup-forget_expiry [] mac k = ground arith
lookup-forget_expiry (e ∷ expires) mac k =
    let rest = lookup-forget_expiry expires mac k in
    elim (Bool-cases (e.0 == mac)) [
      | inl gone ↦ elim (Bool-cases (k == mac)) [
        | inl at ↦ rw (gone, at) (rw at at rest)
        | inr off ↦
            let other : (e.0 == k) ≡ false = ground (arith, gone, off) in
            rw (gone, off, other) (rw off at rest)
      ]
      | inr kept ↦ elim (Bool-cases (e.0 == k)) [
        | inl found ↦
            let off : (k == mac) ≡ false = ground (arith, kept, found) in rw (kept, found, off) refl
        | inr other ↦ rw (kept, other) rest
      ]
    ]

-- The terminal's host has queued a response for an answer of a valve.
pub record Delivered (host : CardHost) (status : ℕ) (payload : List ℕ) (m : Valves)
    (o : Option (Valves × CardHost)) : Type 0 where
  pub after : CardHost
  pub returns : o ≡ some (m, after)
  pub queued : Queued host status payload (some after)

delivered :
    {host : CardHost} {status : ℕ} {payload : List ℕ} {o : Option CardHost}
    (q : Queued host status payload o)
    → Queued host status payload (some q.after)
delivered {host} {status} {payload} q = subst (λ r. Queued host status payload r) q.returns q

-- An answer of a user's valve, with the right checksum and one to 243 bytes of data: for a query (24) it is queued for
-- the terminal with status 1, for a recharge (25) with status 2, and then of the times at which recharges expire, that of this valve is gone
-- and those of the others are as they were; each time as a
-- frame with the right checksum that has the user's number and the valve's data, or not at all when the ring is
-- full.
pub answer_terminal-Delivered :
    (m : Valves) (host : CardHost) (mac port rand : ℕ) (uid data' : List ℕ) (crc₁ crc₂ : ℕ)
    → find_uid m.users mac ≡ some uid
    → IsReady host
    → IsUid uid
    → All (λ b. b < 256) data'
    → length data' ≤ 243
    → 0 < length data'
    → mac < 2 ^ 32
    → generate_crc (answer_body mac port rand 24 data') ≡ some crc₁
    → generate_crc (answer_body mac port rand 25 data') ≡ some crc₂
    → Delivered host 1 (uid ++ data') m (
        answer_terminal m host
          (answer_frame mac port rand 24 data' crc₁)
          (length (answer_frame mac port rand 24 data' crc₁)))
      × (expires : List (ℕ × ℕ)) × Delivered host 2
          (uid ++ data')
          (record m { expires = expires })
          (answer_terminal m host
            (answer_frame mac port rand 25 data' crc₂)
            (length (answer_frame mac port rand 25 data' crc₂)))
      × ((k : ℕ) → lookup expires k ≡ (if k == mac then none else lookup m.expires k))
unfolding answer_terminal parse_query_user parse_recharge
answer_terminal-Delivered m host mac port rand uid data' crc₁ crc₂ known ready ok ok' short
      some_data small made₁ made₂ =
    let q = ack_query_user-Queued host uid data' ready ok ok' short some_data in
    let r = ack_recharge-Queued host uid data' ready ok ok' short some_data in
    (
      record {
        after = q.after;
        returns =
            rw
              (
                answer_terminal,
                parse_ack-answer mac port rand 24 data' crc₁ made₁ short small,
                parse_query_user,
                known,
                ack_query_user-front host uid data' (be16 crc₁),
                q.returns,
              )
              refl;
        queued = delivered q;
      },
      forget_expiry m.expires mac,
      record {
        after = r.after;
        returns =
            rw
              (
                answer_terminal,
                parse_ack-answer mac port rand 25 data' crc₂ made₂ short small,
                parse_recharge,
                known,
                ack_recharge-front host uid data' (be16 crc₂),
                r.returns,
              )
              refl;
        queued = delivered r;
      },
      λ k. lookup-forget_expiry m.expires mac k,
    )
