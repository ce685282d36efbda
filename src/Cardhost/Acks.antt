-- ===== src/Cardhost/Acks.antt =====
-- src/CCardHost.cpp: `AckQueryUser`, `AckRecharge` and `AckTimeOrRemove`.
use concentrator.Common.{
  ℕ, ◌+◌, ◌<◌, ◌≤◌, ◌≡◌, refl, append-nil, false, Option, some, none, List, [], ◌++◌, if◌then◌else◌,
  ◌==◌, length, length-append, All, All-append, arith, u16, ltb,
}
use mathlib.Core.Path.{subst}
use concentrator.Common.File.{le32, length-le32, take_enough}
use concentrator.Cardhost.Answer.{
  CardHost, copy_of, create_ack, ack_query_user, ack_recharge, ack_time_or_remove,
}
use concentrator.Cardhost.Response.{Response, create_ack-Response}
use concentrator.Cardhost.Queued.{IsReady, Queued, put_ack-Queued}

-- A user's number.
abbrev pub IsUid : List ℕ → Type 0
IsUid uid = (length uid ≡ 8) × All (λ b. b < 256) uid

pub copy_of-all : (data' : List ℕ) → copy_of (some data') (length data') ≡ some data'
copy_of-all data' =
    let fits : ltb (length data') (length data') ≡ false = ground arith in
    rw (fits, take_enough data' (length data') (omega arith)) refl

-- The frames with a user's number in front of the data.
user-Response :
    (uid data' : List ℕ) (status : ℕ)
    → IsUid uid
    → All (λ b. b < 256) data'
    → length data' ≤ 243
    → status < 256
    → Response status
        (uid ++ data')
        (create_ack (length data') (u16 (11 + length data')) status (uid ++ data'))
user-Response uid data' status ok ok' short small =
    let cmdlen : u16 (11 + length data') ≡ 11 + length data' = omega arith in
    rw cmdlen (
      create_ack-Response (length data') (11 + length data') status (uid ++ data') (omega arith)
        (omega arith) (omega (arith, length-append uid data', ok.0)) small
        (All-append (λ b. b < 256) uid data' ok.1 ok'))

module _ (host : CardHost) (uid data' : List ℕ) (ready : IsReady host) (ok : IsUid uid)
    (ok' : All (λ b. b < 256) data') (short : length data' ≤ 243)
    (some_data : 0 < length data') where
  short_payload : length (uid ++ data') ≤ 252
  short_payload = omega (arith, length-append uid data', ok.0)

  pub ack_query_user-Queued :
      Queued host 1 (uid ++ data') (ack_query_user host uid (some data') (length data'))
  unfolding ack_query_user
  ack_query_user-Queued = rw (copy_of-all data') (
      put_ack-Queued host 1 (uid ++ data')
        (create_ack (length data') (u16 (11 + length data')) 1 (uid ++ data')) ready short_payload
        (user-Response uid data' 1 ok ok' short (omega arith)))

  pub ack_recharge-Queued :
      Queued host 2 (uid ++ data') (ack_recharge host uid (some data') (length data'))
  unfolding ack_recharge
  ack_recharge-Queued =
      let known : (length data' == 0) ≡ false = ground arith in
      rw (copy_of-all data', known)
        (put_ack-Queued host 2 (uid ++ data')
          (create_ack (length data') (u16 (11 + length data')) 2 (uid ++ data')) ready short_payload
          (user-Response uid data' 2 ok ok' short (omega arith)))

  ack_time_or_remove-Queued :
      (now : Option ℕ)
      → Queued host 133 data' (ack_time_or_remove host now (some data') (length data'))
  unfolding ack_time_or_remove
  ack_time_or_remove-Queued now =
      let removed : (length data' == 0) ≡ false = ground arith in
      let cmdlen : u16 (3 + length data') ≡ 3 + length data' = omega arith in
      rw (removed, copy_of-all data', cmdlen)
        (put_ack-Queued host 133 data' (create_ack (length data') (3 + length data') 133 data')
          ready (omega arith)
          (create_ack-Response (length data') (3 + length data') 133 data' (omega arith)
            (omega arith) (omega arith) (omega arith) ok'))

-- The answers without data: an unknown user, and the time.
nobody-Queued :
    (host : CardHost) (uid : List ℕ) (ready : IsReady host) (ok : IsUid uid)
    → Queued host 129 uid (ack_query_user host uid none 0)
      × Queued host 130 uid (ack_recharge host uid none 0)
unfolding ack_query_user ack_recharge
nobody-Queued host uid ready ok =
    let small : length (uid ++ []) ≤ 252 = omega (arith, length-append uid [], ok.0) in
    (
      subst (λ p. Queued host 129 p (ack_query_user host uid none 0)) (append-nil uid)
          (put_ack-Queued host 129 (uid ++ []) (create_ack 0 11 129 (uid ++ [])) ready small
            (user-Response uid [] 129 ok tt (omega arith) (omega arith))),
      subst (λ p. Queued host 130 p (ack_recharge host uid none 0)) (append-nil uid)
          (put_ack-Queued host 130 (uid ++ []) (create_ack 0 11 130 (uid ++ [])) ready small
            (user-Response uid [] 130 ok tt (omega arith) (omega arith))),
    )

le32-bytes : (n : ℕ) → All (λ b. b < 256) (le32 n)
unfolding le32
le32-bytes n = (omega arith, (omega arith, (omega arith, (omega arith, tt))))

pub time-Queued :
    (host : CardHost) (time : ℕ) (ready : IsReady host)
    → Queued host
        (if length host.info == 0 then 245 else 5)
        (le32 time)
        (ack_time_or_remove host (some time) none 0)
unfolding ack_time_or_remove
time-Queued host time ready =
    put_ack-Queued host (if length host.info == 0 then 245 else 5) (le32 time)
      (create_ack 0 7 (if length host.info == 0 then 245 else 5) (le32 time)) ready
      (omega (arith, length-le32 time))
      (create_ack-Response 0 7 (if length host.info == 0 then 245 else 5) (le32 time) (omega arith)
        (omega arith) (omega (arith, length-le32 time)) (ground arith) (le32-bytes time))

-- On a valid ring of cells of 512 bytes, for a user's number and one to 243 bytes of data, each acknowledgement
-- pushes one frame with a one-byte length on the ring, or nothing when it is full: the status, the number
-- and the data of the call with the right checksum. The statuses are 129 and 130 for an unknown user, 1
-- and 2 with data, 133 with data and no user, and for the time 245 when the terminal has sent no addresses and
-- 5 otherwise.
pub acks-Queued :
    (host : CardHost) (uid data' : List ℕ) (now : Option ℕ) (time : ℕ)
    → IsReady host
    → IsUid uid
    → All (λ b. b < 256) data'
    → length data' ≤ 243
    → 0 < length data'
    → Queued host 129 uid (ack_query_user host uid none 0)
      × Queued host 1 (uid ++ data') (ack_query_user host uid (some data') (length data'))
      × Queued host 130 uid (ack_recharge host uid none 0)
      × Queued host 2 (uid ++ data') (ack_recharge host uid (some data') (length data'))
      × Queued host
          (if length host.info == 0 then 245 else 5)
          (le32 time)
          (ack_time_or_remove host (some time) none 0)
      × Queued host 133 data' (ack_time_or_remove host now (some data') (length data'))
acks-Queued host uid data' now time ready ok ok' short some_data = (
  (nobody-Queued host uid ready ok).0,
  ack_query_user-Queued host uid data' ready ok ok' short some_data,
  (nobody-Queued host uid ready ok).1,
  ack_recharge-Queued host uid data' ready ok ok' short some_data,
  time-Queued host time ready,
  ack_time_or_remove-Queued host uid data' ready ok ok' short some_data now,
)
