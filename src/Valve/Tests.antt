-- ===== src/Valve/Tests.antt =====
-- Runs of the ways between the terminal and the valves.
use concentrator.Common.{
  ℕ, zero, suc, ◌+◌, ◌<◌, ◌==◌, get_or, drop, replicate, ◌≡◌, refl, List, [], ◌∷◌, ◌++◌, some, none,
  false, length, arith,
}
use concentrator.Utils.Crc.{generate_crc, crc_loop}
use concentrator.Common.{if◌then◌else◌}
use concentrator.Common.Table.{lookup}
use concentrator.Common.File.{le32, of_le32}
use concentrator.Cbuffer.{Cbuffer, cbuffer_write, cbuffer_count}
use concentrator.Cbuffer.Queue.{IsValid}
use concentrator.Cardhost.Answer.{CardHost}
use concentrator.Valve.{
  Valves, command_packet, find_valve, find_uid, answer_terminal, parse_ack, dispatched,
}
use concentrator.Valve.Register.{parse_broadcast, broadcast_clear_sid}
use concentrator.Valve.Registered.{Registered, parse_broadcast-Registered}
use concentrator.Valve.Answers.{answer_body, answer_frame, Delivered, answer_terminal-Delivered}
use mathlib.Core.List.{flatten}
use concentrator.Valve.Reading.{
  Reader, started, skip_wrong, recover, announced, again, reading_turn, reading_turns, Event,
  brought, timed_out, poll_timed_out, stalled, adjust_read_packet, cut_acks,
}
use concentrator.Valve.Reassembled.{reading_turns-every}
use concentrator.Valve.Recovered.{nothing_read, reading_turn-recovers}
use concentrator.Valve.Stuck.{holding, reading_turns-stuck}

abbrev ring : (w : ℕ) → Cbuffer
ring w = record { start = λ _. 0; w = w; r = 0; mask = 1; cellsize = 512 }

ring-IsValid : IsValid (ring 0)
ring-IsValid = record {
  bits = 1;
  narrow = omega arith;
  cells = refl;
  w_fits = omega arith;
  r_fits = omega arith;
  filled = omega arith;
}

abbrev user : List ℕ
user = 17 ∷ 34 ∷ 51 ∷ 68 ∷ 85 ∷ 102 ∷ 119 ∷ 136 ∷ []

-- One valve has a user, and the ring of commands has taken so many.
abbrev valves : (taken : ℕ) → Valves
valves taken = record {
  users = (1, user) ∷ [];
  tx = ring taken;
  tx_locked = false;
  htx = ring 0;
  htx_locked = false;
  expires = (1, 50) ∷ [];
  rx = record { start = λ _. 0; w = 0; r = 0; mask = 1; cellsize = 4 };
  sid = 9;
  sync_users = false;
  unregistered_counter = 0;
}

user-found : find_valve ((1, user) ∷ []) user ≡ some 1
unfolding find_valve
user-found = refl

uid-found : find_uid ((1, user) ∷ []) 1 ≡ some user
unfolding find_uid
uid-found = refl

ring-full : cbuffer_write (ring 2) ≡ none
unfolding cbuffer_write cbuffer_count
ring-full = refl

abbrev host : CardHost
host = record { cmdbuf = ring 0; info = []; info_gotten = false }

query_crc : generate_crc (answer_body 1 15 251 24 (7 ∷ [])) ≡ some 34887
unfolding generate_crc crc_loop le32
query_crc = refl

recharge_crc : generate_crc (answer_body 1 15 251 25 (7 ∷ [])) ≡ some 35287
unfolding generate_crc crc_loop le32
recharge_crc = refl

answer_terminal-Delivered_example :
    Delivered host 1 (user ++ 7 ∷ []) (valves 0) (
      answer_terminal
        (valves 0)
        host
        (answer_frame 1 15 251 24 (7 ∷ []) 34887)
        (length (answer_frame 1 15 251 24 (7 ∷ []) 34887)))
    × (expires : List (ℕ × ℕ)) × Delivered host 2
        (user ++ 7 ∷ [])
        (record (valves 0) { expires = expires })
        (answer_terminal
          (valves 0)
          host
          (answer_frame 1 15 251 25 (7 ∷ []) 35287)
          (length (answer_frame 1 15 251 25 (7 ∷ []) 35287)))
    × ((k : ℕ) → lookup expires k ≡ (if k == 1 then none else lookup ((1, 50) ∷ []) k))
answer_terminal-Delivered_example =
    answer_terminal-Delivered (valves 0) host 1 15 251 user (7 ∷ []) 34887 35287 uid-found
      (ring-IsValid, refl) (refl, ground arith) (omega arith, tt) (omega arith) (omega arith)
      (omega arith) query_crc recharge_crc

-- A checksum with one wrong byte is taken.
half_wrong_crc :
    parse_ack (answer_body 1 15 251 24 (7 ∷ []) ++ (136 ∷ 0 ∷ [])) 11
    ≡ dispatched 1 24 (7 ∷ 136 ∷ 0 ∷ []) 1
unfolding parse_ack generate_crc crc_loop le32 of_le32
half_wrong_crc = refl

parse_broadcast-Registered_example :
    Registered (valves 0) 3 user 8 (parse_broadcast (valves 0) 3 user 8)
parse_broadcast-Registered_example =
    parse_broadcast-Registered (valves 0) 3 user 8 refl (omega arith)

-- The frame that clears the sessions ends in its checksum.
clear_sid_frame :
    broadcast_clear_sid ≡ some (255 ∷ 255 ∷ 255 ∷ 255 ∷ 15 ∷ 251 ∷ 1 ∷ 240 ∷ 115 ∷ 42 ∷ [])
unfolding broadcast_clear_sid command_packet generate_crc crc_loop le32
clear_sid_frame = refl

-- An answer, and the turns in which the port brings it twice, with two pauses.
abbrev answer : List ℕ
answer = 1 ∷ 0 ∷ 0 ∷ 0 ∷ 15 ∷ 251 ∷ 2 ∷ 24 ∷ 9 ∷ 200 ∷ 100 ∷ []

abbrev turns : List Event
turns =
    brought (1 ∷ 0 ∷ 0 ∷ [])
    ∷ timed_out
    ∷ brought (0 ∷ 15 ∷ 251 ∷ 2 ∷ 24 ∷ 9 ∷ 200 ∷ 100 ∷ 1 ∷ 0 ∷ [])
    ∷ timed_out
    ∷ brought (drop 2 answer)
    ∷ []

reading_turns-every_example :
    (after : Reader) × (reading_turns started turns ≡ some (after, answer ∷ answer ∷ []))
    × (after.ack ≡ [])
unfolding flatten
reading_turns-every_example =
    reading_turns-every (answer ∷ answer ∷ []) turns
      ((refl, omega arith, refl), ((refl, omega arith, refl), tt))
      ((omega arith, omega arith), ((omega arith, omega arith), ((omega arith, omega arith), tt)))
      (omega arith) refl

-- Seven pauses inside an answer drop what has come of it.
part_dropped :
    reading_turns started (brought (1 ∷ 0 ∷ []) ∷ replicate 7 timed_out)
    ≡ some (record started { last_readed = 2 }, [])
unfolding reading_turns reading_turn stalled adjust_read_packet recover skip_wrong cut_acks
    announced poll_timed_out
part_dropped = refl

abbrev wrong_bytes : List ℕ
wrong_bytes = 7 ∷ 8 ∷ 9 ∷ []

wrong_bytes-pass : (k : ℕ) → k < 3 → (get_or (wrong_bytes ++ answer) (k + 4) 0 == 15) ≡ false
wrong_bytes-pass zero h = refl
wrong_bytes-pass (suc zero) h = refl
wrong_bytes-pass (suc (suc zero)) h = refl
wrong_bytes-pass (suc (suc (suc k))) h = absurd (omega arith)

reading_turn-recovers_example :
    (after : Reader) × (reading_turn (nothing_read 0 3 5 5) (wrong_bytes ++ answer) again
      ≡ some (after, answer ∷ []))
    × (after.ack ≡ [])
reading_turn-recovers_example =
    reading_turn-recovers wrong_bytes answer 0 3 5 5 (omega arith) (refl, omega arith, refl)
      (omega arith) wrong_bytes-pass

-- After 256 wrong bytes the search begins again at the first of them, and the answer is lost.
answer_lost : recover (replicate 256 7 ++ answer) ≡ replicate 5 7
unfolding recover skip_wrong
answer_lost = refl

-- An answer with a length of two bytes, and bytes up to the end of the buffer.
abbrev long_answer : List ℕ
long_answer = 1 ∷ 0 ∷ 0 ∷ 0 ∷ 15 ∷ 251 ∷ 255 ∷ 1 ∷ 0 ∷ replicate 503 0

reading_turns-stuck_example :
    (after : Reader) × (reading_turns (holding long_answer 512 5 5 10240 0) turns
      ≡ some (after, []))
    × (after.ack ≡ long_answer)
    × (after.retry ≡ 2)
unfolding announced
reading_turns-stuck_example =
    reading_turns-stuck long_answer 10240 512 5 5 (refl, refl, refl, refl) 10240 0 turns
      (omega arith)
