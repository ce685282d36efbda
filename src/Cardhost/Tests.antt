-- ===== src/Cardhost/Tests.antt =====
-- Runs of the line to the card terminal, and applications of the theorems.
use mathlib.Core.List.{flatten}
use concentrator.Common.{
  ◌+◌, ◌≡◌, ℕ, refl, false, none, some, List, [], ◌∷◌, ◌++◌, replicate, arith, length, map,
}
use concentrator.Common.File.{le32}
use concentrator.Utils.Crc.{generate_crc, crc_loop}
use concentrator.Cbuffer.{Cbuffer}
use concentrator.Cbuffer.Queue.{IsValid, contents}
use concentrator.Cardhost.{Receiver, receive, read_turn, set_rlen, long_length}
use concentrator.Cardhost.Answer.{CardHost, Sender, transmit, fill_ack}
use concentrator.Cardhost.Command.{
  accepted, buffer_of, parse_command, handle_info, parse_and_execute, info_bytes, read_addresses,
  refused, check_crc, parse_body,
}
use concentrator.Cardhost.Received.{Received}
use concentrator.Cardhost.Receive.{receive-Received}
use concentrator.Cardhost.Request.{request, request_body, behind, parse_command-request}
use concentrator.Cardhost.Only.{IsRequest, parse_command-only}
use concentrator.Cardhost.Write.{frame_of}
use concentrator.Cardhost.Transmit.{transmit-every}
use concentrator.Cardhost.EndToEnd.{Answered, get_time-Answered}

-- The request for the time of the comment at the head of the source.
abbrev time_request : List ℕ
time_request = request 5 [] 22592

abbrev fresh : Receiver
fresh = record { cmd = []; rlen = 0 }

two_parts :
    receive fresh (1 ∷ 3 ∷ 100 ∷ []) time_request
    ≡ some (record { cmd = []; rlen = 17 }, [], time_request ∷ [])
unfolding receive read_turn set_rlen
two_parts = refl

-- A length in two bytes: after 255, 1 and 2 the receiver waits for 17 * 1024 bytes.
long_request :
    receive fresh (4 ∷ []) (85 ∷ 255 ∷ 1 ∷ 2 ∷ [])
    ≡ some (record { cmd = 85 ∷ 255 ∷ 1 ∷ 2 ∷ []; rlen = 17408 }, [], [])
unfolding receive read_turn set_rlen long_length
long_request = refl

receive-Received_example :
    Received
      (1 ∷ 3 ∷ 100 ∷ [])
      (time_request ∷ time_request ∷ [])
      (flatten (time_request ∷ time_request ∷ []))
      (receive fresh (1 ∷ 3 ∷ 100 ∷ []) (flatten (time_request ∷ time_request ∷ [])))
receive-Received_example =
    receive-Received (1 ∷ 3 ∷ 100 ∷ []) (time_request ∷ time_request ∷ []) 0
      ((omega arith, refl), ((omega arith, refl), tt))

time_crc : generate_crc (request_body 5 []) ≡ some 22592
unfolding generate_crc crc_loop
time_crc = refl

abbrev user : List ℕ
user = 17 ∷ 34 ∷ 51 ∷ 68 ∷ 85 ∷ 102 ∷ 119 ∷ 136 ∷ []

user_crc : generate_crc (request_body 1 user) ≡ some 8051
unfolding generate_crc crc_loop
user_crc = refl

parse_command-request_example :
    parse_command (buffer_of (request 1 user 8051)) ≡ accepted 1 (user ++ behind user 8051) 8
parse_command-request_example = parse_command-request 1 user 8051 user_crc (omega arith)

parse_command-only_example :
    IsRequest (request 1 user 8051) 1 user × (length (request 1 user 8051) ≡ 17 + 8)
parse_command-only_example =
    parse_command-only (request 1 user 8051) 1 (user ++ behind user 8051) 8 (omega arith, refl)
      (parse_command-request 1 user 8051 user_crc (omega arith)) refl

-- A wrong checksum is refused.
wrong_crc : parse_command (buffer_of (request 1 user 8052)) ≡ refused
unfolding parse_command parse_body check_crc generate_crc crc_loop
wrong_crc = refl

-- A host after its constructor, but for the size of the ring.
abbrev new_ring : Cbuffer
new_ring = record { start = λ _. 0; w = 0; r = 0; mask = 1; cellsize = 512 }

abbrev new_host : CardHost
new_host = record { cmdbuf = new_ring; info = []; info_gotten = false }

new_ring-IsValid : IsValid new_ring
new_ring-IsValid = record {
  bits = 1;
  narrow = omega arith;
  cells = refl;
  w_fits = omega arith;
  r_fits = omega arith;
  filled = omega arith;
}

-- 245 bytes for a known user: the length field takes the first two bytes of the address behind it.
long_ack :
    fill_ack 245 256 1 []
    ≡ 170 ∷ 255 ∷ 1 ∷ 0 ∷ 255 ∷ 255 ∷ 255 ∷ 255 ∷ 0 ∷ 0 ∷ 0 ∷ 0 ∷ 0 ∷ 0 ∷ 1 ∷ []
unfolding fill_ack
long_ack = refl

-- A ring of two cells of 16 bytes with one frame of 15.
abbrev one_cell : Cbuffer
one_cell = record { start = λ i. i; w = 1; r = 0; mask = 1; cellsize = 16 }

abbrev cell : List ℕ
cell = 0 ∷ 1 ∷ 2 ∷ 3 ∷ 4 ∷ 5 ∷ 6 ∷ 7 ∷ 8 ∷ 9 ∷ 10 ∷ 11 ∷ 12 ∷ 13 ∷ 14 ∷ 15 ∷ []

one_cell-IsValid : IsValid one_cell
one_cell-IsValid = record {
  bits = 1;
  narrow = omega arith;
  cells = refl;
  w_fits = omega arith;
  r_fits = omega arith;
  filled = omega arith;
}

transmit-every_example :
    (buf' : Cbuffer) × (s : Sender) × (transmit one_cell
        (record { wrote = 0; wlen = 0 })
        (replicate 15 2)
      ≡ some (buf', s, flatten (map frame_of (cell ∷ []))))
    × (contents buf' ≡ [])
unfolding flatten
transmit-every_example =
    transmit-every (replicate 15 2) one_cell (cell ∷ []) 0 one_cell-IsValid refl
      ((omega arith, omega arith), tt) refl (omega arith)

-- A message of addresses without any data reads behind the buffer.
no_data : handle_info new_host (88 ∷ 4 ∷ []) 0 ≡ none
unfolding handle_info info_bytes read_addresses
no_data = refl

get_time-Answered_example :
    Answered 245 (le32 99) (replicate 21 1) 0 (parse_and_execute new_host (some 99) [] time_request)
get_time-Answered_example =
    get_time-Answered new_host 99 [] [] 22592 (replicate 21 1) 0 (new_ring-IsValid, refl) refl
      time_crc (omega arith) refl (omega arith)
