-- ===== src/Heat/Exchanges.antt =====
-- src/CHeatMonitor.cpp: what `SendCommand` and `WaitCmdAck` do when the port is ready in three turns, and when it
-- is not.
use concentrator.Common.{
  ℕ, zero, suc, ◌+◌, ◌-◌, ◌≤◌, ◌<◌, ◌≡◌, refl, ap, ◌∙◌, inl, inr, true, false, List, [], ◌∷◌, ◌++◌,
  map, append_assoc, ◌==◌, min, length, length-take, length-drop, length-append, take, drop, arith,
  Bool-cases,
}
use concentrator.Common.File.{take_enough}
use concentrator.Common.Parts.{take-drop, take_of_append, drop_of_append, drop_all_of}
use concentrator.Heat.Port.{PortTurn, ready, quiet, send_loop, wait_loop, wait_cmd_ack}

abbrev pub total : List ℕ → ℕ
total [] = 0
total (n ∷ rooms) = n + total rooms

-- Enough ready turns carry all bytes to the port.
pub send_loop-ready :
    (rooms : List ℕ) (retry : ℕ) (left : List ℕ)
    → length rooms ≤ retry
    → length left ≤ total rooms
    → 0 < length left
    → send_loop retry true (map ready rooms) left ≡ record { bytes = left; complete = true }
unfolding send_loop
send_loop-ready [] retry left few enough some_left = absurd (omega arith)
send_loop-ready (n ∷ rooms) zero left few enough some_left = absurd (omega arith)
send_loop-ready (n ∷ rooms) (suc retry) left few enough some_left =
    elim (Bool-cases (length (drop n left) == 0)) [
      | inl last ↦
          let all : length left ≤ n = ground (arith, last, length-drop n left) in
          rw (last, take_enough left n all) refl
      | inr more ↦
          let ih : send_loop retry true (map ready rooms) (drop n left)
              ≡ record { bytes = drop n left; complete = true } =
            send_loop-ready rooms retry (drop n left) (omega arith)
              (omega (arith, length-drop n left)) (ground (arith, more)) in
          rw (more, ih, take-drop n left) refl
    ]

-- Enough ready turns bring all bytes of an answer, and leave what is behind it.
pub wait_loop-ready :
    (rooms : List ℕ) (retry rlen : ℕ) (ack body rest : List ℕ)
    → length rooms ≤ retry
    → length ack + length body ≡ rlen
    → length body ≤ total rooms
    → 0 < length body
    → wait_loop retry true (map ready rooms) rlen ack (body ++ rest)
      ≡ record { ack = ack ++ body; waiting = rest; complete = true }
unfolding wait_loop
wait_loop-ready [] retry rlen ack body rest few size enough some_left = absurd (omega arith)
wait_loop-ready (n ∷ rooms) zero rlen ack body rest few size enough some_left = absurd (omega arith)
wait_loop-ready (n ∷ rooms) (suc retry) rlen ack body rest few size enough some_left =
    let r = min n (rlen - length ack) in
    let e : rlen - length ack ≡ length body = omega arith in
    let bound : r ≤ length body = omega arith in
    let taken : take r (body ++ rest) ≡ take r body = take_of_append r body rest bound in
    let dropped : drop r (body ++ rest) ≡ drop r body ++ rest = drop_of_append r body rest bound in
    let size' : length (ack ++ take r body) ≡ length ack + r =
      omega (arith, length-append {0} ack (take r body), length-take r body) in
    elim (Bool-cases (length (ack ++ take r body) == rlen)) [
      | inl last ↦
          let all : length body ≤ r = ground (arith, last, size', size) in
          let nothing : drop r body ≡ [] = drop_all_of r body all in
          rw (taken, last, dropped, nothing, take_enough body r all) refl
      | inr more ↦
          rw (taken, more, dropped)
            (wait_loop-ready rooms retry rlen (ack ++ take r body) (drop r body) rest (omega arith)
                (omega (arith, size', length-drop r body))
                (ground (arith, more, size', length-drop r body, size))
                (ground (arith, more, size', length-drop r body, size))
              ∙ ap (λ (l : List ℕ). record { ack = l; waiting = rest; complete = true })
                  (append_assoc ack (take r body) (drop r body)
                    ∙ ap (λ (l : List ℕ). ack ++ l) (take-drop r body)))
    ]

-- With the set of descriptors empty nothing is read.
pub wait_loop-unset :
    (turns : List PortTurn) (retry rlen : ℕ) (ack waiting : List ℕ)
    → wait_loop retry false turns rlen ack waiting
      ≡ record { ack = ack; waiting = waiting; complete = false }
unfolding wait_loop
wait_loop-unset turns zero rlen ack waiting = refl
wait_loop-unset [] (suc retry) rlen ack waiting = refl
wait_loop-unset (turn ∷ turns) (suc retry) rlen ack waiting =
    wait_loop-unset turns retry rlen ack waiting

wait_loop-quiet :
    (rooms : List ℕ) (later : List PortTurn) (retry rlen : ℕ) (ack waiting : List ℕ)
    → length ack + total rooms < rlen
    → (wait_loop retry true (map ready rooms ++ quiet ∷ later) rlen ack waiting).complete ≡ false
unfolding wait_loop
wait_loop-quiet rooms later zero rlen ack waiting short = refl
wait_loop-quiet [] later (suc retry) rlen ack waiting short =
    rw (wait_loop-unset later retry rlen ack waiting) refl
wait_loop-quiet (n ∷ rooms) later (suc retry) rlen ack waiting short =
    let r = min n (rlen - length ack) in
    let size : length (ack ++ take r waiting) ≤ length ack + n =
      omega (arith, length-append {0} ack (take r waiting), length-take r waiting) in
    let more : (length (ack ++ take r waiting) == rlen) ≡ false = ground (arith, size, short) in
    rw more (
      wait_loop-quiet rooms later retry rlen (ack ++ take r waiting) (drop r waiting)
        (omega (arith, size)))

-- When `select` times out once before the whole answer has been read, the answer is lost, whatever arrives in
-- the turns that are left.
pub wait_cmd_ack-quiet :
    (rooms : List ℕ) (later : List PortTurn) (rlen : ℕ) (waiting : List ℕ)
    → total rooms < rlen
    → (wait_cmd_ack (map ready rooms ++ quiet ∷ later) rlen waiting).complete ≡ false
unfolding wait_cmd_ack
wait_cmd_ack-quiet rooms later rlen waiting short =
    wait_loop-quiet rooms later 3 rlen [] waiting (omega arith)
