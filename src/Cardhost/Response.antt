-- ===== src/Cardhost/Response.antt =====
-- src/CCardHost.cpp: the frames of the acknowledgements.
use concentrator.Common.{
  ℕ, ◌+◌, ◌<◌, ◌≡◌, refl, true, false, Option, some, List, ◌∷◌, ◌++◌, ltb, length, All, arith,
}
use concentrator.Utils.Crc.{generate_crc}
use concentrator.Utils.Xor.{generate_crc-total}
use concentrator.Cardhost.{pktlen}
use concentrator.Cardhost.Answer.{be16, fill_ack, create_ack}

-- A response to the terminal but for its checksum: from the address of ones to the one of zeros.
abbrev pub response_body : (status : ℕ) (payload : List ℕ) → List ℕ
response_body status payload =
    170
    ∷ (3 + length payload)
    ∷ 255
    ∷ 255
    ∷ 255
    ∷ 255
    ∷ 255
    ∷ 255
    ∷ 0
    ∷ 0
    ∷ 0
    ∷ 0
    ∷ 0
    ∷ 0
    ∷ status
    ∷ payload

-- The whole of it, whose checksum is that of the bytes before.
pub record Response (status : ℕ) (payload : List ℕ) (made : Option (List ℕ)) : Type 0 where
  pub crc : ℕ
  pub sums : generate_crc (response_body status payload) ≡ some crc
  pub frame : made ≡ some (response_body status payload ++ be16 crc)

fill_ack-response :
    (len cmdlen status : ℕ) (payload : List ℕ)
    → cmdlen < 255
    → len < 255
    → cmdlen ≡ 3 + length payload
    → fill_ack len cmdlen status payload ≡ response_body status payload
unfolding fill_ack
fill_ack-response len cmdlen status payload short shorter e =
    let one : ltb cmdlen 255 ≡ true = ground arith in
    let room : ltb len 255 ≡ true = ground arith in rw (one, room, e) refl

pub create_ack-Response :
    (len cmdlen status : ℕ) (payload : List ℕ)
    → cmdlen < 255
    → len < 255
    → cmdlen ≡ 3 + length payload
    → status < 256
    → All (λ b. b < 256) payload
    → Response status payload (create_ack len cmdlen status payload)
unfolding create_ack
create_ack-Response len cmdlen status payload short shorter e small bytes =
    let filled = fill_ack-response len cmdlen status payload short shorter e in
    let (crc, sums) = generate_crc-total (response_body status payload) (ground (arith, bytes)) in
    let fits : ltb pktlen (length (response_body status payload) + 2) ≡ false = ground arith in
    record { crc = crc; sums = sums; frame = rw (filled, fits, sums) refl }
