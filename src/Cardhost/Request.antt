-- ===== src/Cardhost/Request.antt =====
-- src/CCardHost.cpp: `ParseAndExecute` executes the terminal's requests, and nothing else.
use concentrator.Common.{
  ℕ, ◌+◌, ◌-◌, ◌/◌, ◌%◌, ◌≤◌, ◌≡◌, refl, ap, ◌∙◌, false, some, List, ◌∷◌, ◌++◌, append_assoc,
  length, length-append, take-append, get_or, replicate, ltb, u16, ◌==◌, ==_refl, arith,
}
use concentrator.Common.Parts.{get_or-append}
use concentrator.Utils.Crc.{generate_crc}
use concentrator.Cardhost.{pktlen}
use concentrator.Cardhost.Answer.{be16}
use concentrator.Cardhost.Command.{
  Verdict, accepted, buffer_of, check_crc, parse_body, parse_command,
}

-- A request of the terminal but for its checksum: from the address of zeros to the one of ones.
abbrev pub request_body : (code : ℕ) (data' : List ℕ) → List ℕ
request_body code data' =
    85
    ∷ (3 + length data')
    ∷ 0
    ∷ 0
    ∷ 0
    ∷ 0
    ∷ 0
    ∷ 0
    ∷ 255
    ∷ 255
    ∷ 255
    ∷ 255
    ∷ 255
    ∷ 255
    ∷ code
    ∷ data'

abbrev pub request : (code : ℕ) (data' : List ℕ) (crc : ℕ) → List ℕ
request code data' crc = request_body code data' ++ be16 crc

-- The rest of the buffer behind the data of a request.
abbrev pub behind : (data' : List ℕ) (crc : ℕ) → List ℕ
behind data' crc = be16 crc ++ replicate (pktlen - (17 + length data')) 0

check_crc-request :
    (code : ℕ) (data' : List ℕ) (crc : ℕ) (ok : Verdict)
    → generate_crc (request_body code data') ≡ some crc
    → length data' ≤ 251
    → check_crc (request_body code data' ++ behind data' crc) (length (request_body code data')) ok
      ≡ ok
unfolding check_crc
check_crc-request code data' crc ok made short =
    rw
      (
        fits,
        take-append (request_body code data') (behind data' crc),
        made,
        first,
        second,
        ==_refl (crc / 256 % 256),
        ==_refl (crc % 256),
      )
      refl
  where
    fits :
        ltb
          (length (request_body code data' ++ behind data' crc))
          (length (request_body code data') + 2)
        ≡ false
    fits = ground (arith, length-append (request_body code data') (behind data' crc))

    first :
        get_or (request_body code data' ++ behind data' crc) (length (request_body code data')) 0
        ≡ crc / 256 % 256
    first =
        ap (λ i. get_or (data' ++ behind data' crc) i 0) (omega arith)
        ∙ get_or-append data' (behind data' crc) 0 0

    second :
        get_or
          (request_body code data' ++ behind data' crc)
          (length (request_body code data') + 1)
          0
        ≡ crc % 256
    second = get_or-append (request_body code data') (behind data' crc) 1 0

buffer_of-request :
    (code : ℕ) (data' : List ℕ) (crc : ℕ)
    → buffer_of (request code data' crc) ≡ request_body code data' ++ behind data' crc
buffer_of-request code data' crc =
    append_assoc (request_body code data') (be16 crc)
      (replicate (pktlen - length (request code data' crc)) 0)
    ∙ ap (λ k. request_body code data' ++ (be16 crc ++ replicate k 0))
        (omega (arith, length-append (request_body code data') (be16 crc)))

-- A request with up to 251 bytes of data passes the checks of `ParseAndExecute`: the `switch` gets its code,
-- and the command a pointer to its data with their length.
pub parse_command-request :
    (code : ℕ) (data' : List ℕ) (crc : ℕ)
    → generate_crc (request_body code data') ≡ some crc
    → length data' ≤ 251
    → parse_command (buffer_of (request code data' crc))
      ≡ accepted code (data' ++ behind data' crc) (length data')
unfolding parse_command parse_body
parse_command-request code data' crc made short =
    ap parse_command (buffer_of-request code data' crc)
    ∙ rw (one_byte, end, len)
        (check_crc-request code data' crc (accepted code (data' ++ behind data' crc) (length data'))
          made short)
  where
    one_byte : (3 + length data' == 255) ≡ false
    one_byte = ground arith

    end : u16 (15 + (3 + length data') + 65533) ≡ length (request_body code data')
    end = omega arith

    len : u16 (length (request_body code data') + 65536 - 15) ≡ length data'
    len = omega arith
