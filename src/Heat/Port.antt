-- ===== src/Heat/Port.antt =====
-- src/CHeatMonitor.cpp: `SendCommand` and `WaitCmdAck`. The set of descriptors is filled before the loop
-- only, and `select` empties it when it times out.
use concentrator.Common.{
  ℕ, zero, suc, ◌-◌, Bool, true, false, List, [], ◌∷◌, ◌++◌, if◌then◌else◌, ◌==◌, min, length, take,
  drop,
}

-- What the port does in a turn: it moves so many bytes at most, the call returns -1, or `select` times out.
pub data PortTurn : Type 0 where
  ready : ℕ → PortTurn
  failed : PortTurn
  quiet : PortTurn

-- The bytes that the port has taken, and whether these are all.
pub record Wrote : Type 0 where
  pub bytes : List ℕ
  pub complete : Bool

abbrev pub behind : List ℕ → Wrote → Wrote
behind bytes w = record w { bytes = bytes ++ w.bytes }

-- The loop of `SendCommand`, on the turns left, the set of descriptors, and the bytes left. Behind the last turn of
-- the port it is quiet.
unfoldable pub send_loop : (retry : ℕ) (set : Bool) → List PortTurn → (left : List ℕ) → Wrote
send_loop zero set turns left = record { bytes = []; complete = false }
send_loop (suc retry) set [] left = record { bytes = []; complete = false }
send_loop (suc retry) false (turn ∷ turns) left = send_loop retry false turns left
send_loop (suc retry) true (quiet ∷ turns) left = send_loop retry false turns left
send_loop (suc retry) true (failed ∷ turns) left = send_loop retry true turns left
send_loop (suc retry) true (ready n ∷ turns) left =
    let rest = send_loop retry true turns (drop n left) in
    if length (drop n left) == 0
    then record { bytes = take n left; complete = true }
    else behind (take n left) rest

unfoldable pub send_command : List PortTurn → (data' : List ℕ) → Wrote
send_command turns data' = send_loop 3 true turns data'

-- The bytes that have been read, those that still wait in the port, and whether the first are all.
pub record Got : Type 0 where
  pub ack : List ℕ
  pub waiting : List ℕ
  pub complete : Bool

-- The loop of `WaitCmdAck`.
unfoldable pub wait_loop :
    (retry : ℕ) (set : Bool) → List PortTurn → (rlen : ℕ) (ack waiting : List ℕ) → Got
wait_loop zero set turns rlen ack waiting = record {
  ack = ack;
  waiting = waiting;
  complete = false;
}
wait_loop (suc retry) set [] rlen ack waiting = record {
  ack = ack;
  waiting = waiting;
  complete = false;
}
wait_loop (suc retry) false (turn ∷ turns) rlen ack waiting =
    wait_loop retry false turns rlen ack waiting
wait_loop (suc retry) true (quiet ∷ turns) rlen ack waiting =
    wait_loop retry false turns rlen ack waiting
wait_loop (suc retry) true (failed ∷ turns) rlen ack waiting =
    wait_loop retry true turns rlen ack waiting
wait_loop (suc retry) true (ready n ∷ turns) rlen ack waiting =
    let r = min n (rlen - length ack) in
    let ack' = ack ++ take r waiting in
    let rest = wait_loop retry true turns rlen ack' (drop r waiting) in
    if length ack' == rlen
    then record { ack = ack'; waiting = drop r waiting; complete = true }
    else rest

unfoldable pub wait_cmd_ack : List PortTurn → (rlen : ℕ) (waiting : List ℕ) → Got
wait_cmd_ack turns rlen waiting = wait_loop 3 true turns rlen [] waiting
