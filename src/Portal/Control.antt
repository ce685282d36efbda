-- ===== src/Portal/Control.antt =====
-- src/CPortal.cpp: the packets without queued data: the registration, the heart beat, and the commands of
-- the server with their replies.
use concentrator.Common.{
  ℕ, ◌+◌, Bool, true, false, not, ◌&&◌, Option, none, some, List, [], if◌then◌else◌, ◌==◌, ltb,
  length,
}
use concentrator.Common.Maybe.{◌>>=◌}
use concentrator.Portal.{Kind, create_packet}
use concentrator.Portal.Exchange.{Portal, Answer, gprs_send}

-- `CreateCtrlPacket` in a buffer of 1024 bytes; `none` is the result -1. `now` is the answer of
-- `GetLocalTimeStamp`, `none` its failure, which only a registration survives.
unfoldable pub create_ctrl_packet :
    (id fun_code serial_index : ℕ) (data' : List ℕ) (now : Option ℕ) → Option (List ℕ)
create_ctrl_packet id fun_code serial_index data' now =
    let kind : Kind = record {
      id = id;
      fun_code = fun_code;
      serial_index = serial_index;
      counted = false;
    } in
    if ltb 1024 (12 + length data' + 4 + 2) then none else elim now [
      | none ↦ if fun_code == 1 then create_packet kind data' 0 else none
      | some time ↦ create_packet kind data' time
    ]

-- `IsRegistered`: its result, and the portal behind it.
unfoldable pub register :
    (connected : Bool) (id : ℕ) (now : Option ℕ) (sends : List Bool)
    → List Answer
    → Portal
    → Option (Bool × Portal)
register connected id now sends answers portal =
    if connected && not portal.is_registered
    then elim (create_ctrl_packet id 1 portal.serial_index [] now) [
      | none ↦ some (false, portal)
      | some packet ↦ (do
        (ret, portal') ← gprs_send true packet sends answers portal
        some (ret, record portal' { is_registered = ret }))
    ]
    else some (portal.is_registered, portal)

-- `SendHeartBeat`.
unfoldable pub send_heart_beat :
    (id : ℕ) (now : Option ℕ) (sends : List Bool) → List Answer → Portal → Option Portal
send_heart_beat id now sends answers portal = elim now [
  | none ↦ some portal
  | some time ↦ (do
    packet ←
        create_packet
          (record { id = id; fun_code = 3; serial_index = portal.serial_index; counted = false }) []
          time
    (ret, portal') ← gprs_send true packet sends answers portal
    some portal')
]
