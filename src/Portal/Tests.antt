-- ===== src/Portal/Tests.antt =====
-- Runs of the loops of src/CPortal.cpp.
use concentrator.Common.{
  ℕ, ◌≤◌, ◌≡◌, inl, Option, none, some, false, refl, true, List, [], ◌∷◌, All, arith,
}
use concentrator.Common.File.{le32}
use concentrator.Logqueue.{Logqueue}
use concentrator.Logqueue.Contents.{Holds, pointer}
use concentrator.Utils.Crc.{generate_crc, crc_loop}
use concentrator.Portal.{Kind, Turn, send_data, create_packet, fill_packet, create_packet_header}
use concentrator.Portal.Exchange.{
  Portal, Answer, take_answer_as, take_packet_as, store_answer, insert_received, find_packet,
  await_ack,
}
use concentrator.Portal.Control.{create_ctrl_packet, register}
use concentrator.Portal.Registering.{SignedOn, register-acknowledged}
use concentrator.Portal.Commands.{Reply, sends_within, gprs_receive, gprs_receive-commands}
use concentrator.Portal.Drain.{IsSendable, Drained, send_data-Drained}

abbrev valve_data : Kind
valve_data = record { id = 287454020; fun_code = 5; serial_index = 1; counted = true }

-- One message waits, and the second turn finds the queue empty.
abbrev queue : Logqueue
queue = record {
  dfd = record { bytes = 1 ∷ 2 ∷ 3 ∷ []; pos = 0 };
  ifd = record { bytes = 0 ∷ 0 ∷ 0 ∷ 0 ∷ 3 ∷ 0 ∷ 0 ∷ 0 ∷ []; pos = 0 };
  pfd = record { bytes = []; pos = 0 };
}

queue-Holds : Holds queue ((1 ∷ 2 ∷ 3 ∷ []) ∷ [])
unfolding pointer le32
queue-Holds = record {
  used = [];
  pending = queue.ifd.bytes;
  index = refl;
  points = refl;
  listed = (0, [], omega arith, omega arith, refl, refl, refl);
  index_small = omega arith;
  data_small = omega arith;
}

abbrev turns : List Turn
turns =
    record { utc_time = 1330473600; sent = true; room = 4 }
    ∷ record { utc_time = 1330473660; sent = true; room = 4 }
    ∷ []

messages-All : All IsSendable ((1 ∷ 2 ∷ 3 ∷ []) ∷ [])
messages-All = (((omega arith, (omega arith, (omega arith, tt))), omega arith), tt)

turns-All : All (λ (turn : Turn). 4 ≤ turn.room) turns
turns-All = (omega arith, (omega arith, tt))

send_data-Drained_example :
    Drained valve_data turns ((1 ∷ 2 ∷ 3 ∷ []) ∷ []) (send_data valve_data turns queue)
send_data-Drained_example =
    send_data-Drained valve_data turns queue ((1 ∷ 2 ∷ 3 ∷ []) ∷ []) queue-Holds messages-All
      turns-All (omega arith)

-- A registration without the time, the server's acknowledgement, and a command that comes before it.
abbrev registering : List ℕ
registering = 240 ∷ 240 ∷ 14 ∷ 0 ∷ 1 ∷ 0 ∷ 0 ∷ 0 ∷ 1 ∷ 0 ∷ 5 ∷ 0 ∷ 0 ∷ 0 ∷ 0 ∷ 0 ∷ 100 ∷ 57 ∷ []

abbrev switching : List ℕ
switching = 240 ∷ 240 ∷ 15 ∷ 0 ∷ 1 ∷ 0 ∷ 0 ∷ 0 ∷ 97 ∷ 0 ∷ 9 ∷ 0 ∷ 7 ∷ 1 ∷ 2 ∷ 3 ∷ 4 ∷ []

abbrev answer : Option (List ℕ) → Answer
answer packet = record { packet = packet; clock = 0; set_works = true }

abbrev acknowledgement : Answer
acknowledgement = answer (some (240 ∷ 240 ∷ 14 ∷ 0 ∷ 1 ∷ 0 ∷ 0 ∷ 0 ∷ 2 ∷ 0 ∷ 5 ∷ 0 ∷ []))

abbrev portal : Portal
portal = record { is_registered = false; serial_index = 5; time_ready = false; received = [] }

registering-made : create_ctrl_packet 1 1 5 [] none ≡ some registering
unfolding create_ctrl_packet create_packet fill_packet create_packet_header le32 generate_crc
    crc_loop
registering-made = refl

register-acknowledged_example :
    SignedOn portal
      (answer (some switching) ∷ [])
      (register true 1 none (true ∷ []) (answer (some switching) ∷ acknowledgement ∷ []) portal)
register-acknowledged_example =
    register-acknowledged 1 none registering [] (answer (some switching) ∷ []) acknowledgement []
      portal refl (omega arith) registering-made ((switching, refl, omega arith, refl, refl), tt)
      (240 ∷ 240 ∷ 14 ∷ 0 ∷ 1 ∷ 0 ∷ 0 ∷ 0 ∷ 2 ∷ 0 ∷ 5 ∷ 0 ∷ [], refl, omega arith, refl, refl, refl)

-- A packet that answers, but with another function code, comes again and again.
stored_again :
    await_ack registering 3
      (answer (some switching) ∷ answer (some switching) ∷ answer none ∷ answer none ∷ [])
      portal
    ≡ some (false, [], store_answer portal (answer (some switching)))
unfolding await_ack take_answer_as take_packet_as store_answer insert_received find_packet
stored_again = refl

abbrev registered : Portal
registered = record { is_registered = true; serial_index = 6; time_ready = false; received = [] }

abbrev reply : List ℕ
reply = 240 ∷ 240 ∷ 15 ∷ 0 ∷ 1 ∷ 0 ∷ 0 ∷ 0 ∷ 98 ∷ 0 ∷ 9 ∷ 0 ∷ 1 ∷ 99 ∷ 0 ∷ 0 ∷ 0 ∷ 100 ∷ 54 ∷ []

abbrev environment : Reply
environment = record { answer = 1; now = some 99; sends = false ∷ true ∷ [] }

reply-made : create_ctrl_packet 1 98 9 (1 ∷ []) (some 99) ≡ some reply
unfolding create_ctrl_packet create_packet fill_packet create_packet_header le32 generate_crc
    crc_loop
reply-made = refl

reply-sends : sends_within 3 (false ∷ true ∷ []) ≡ true
unfolding sends_within
reply-sends = refl

gprs_receive-commands_example : gprs_receive 1 (some switching) (λ code. environment) registered ≡ (
  registered,
  record { fun_code = 97; data' = 7 ∷ 1 ∷ 2 ∷ 3 ∷ 4 ∷ []; len = 3 } ∷ [],
  reply ∷ [],
)
gprs_receive-commands_example =
    gprs_receive-commands 1 switching reply (λ code. environment) registered refl refl refl refl
      reply-made reply-sends (inl refl)
