-- ===== src/Portal/Commands.antt =====
-- src/CPortal.cpp: `GPRS_Receive` and the commands of the server.
use concentrator.Common.{
  ℕ, zero, suc, ◌+◌, ◌-◌, ◌*◌, ◌^◌, ◌%◌, Bool, true, false, not, ◌||◌, Option, none, some, List, [],
  ◌∷◌, ◌++◌, if◌then◌else◌, ◌==◌, ◌≡◌, ◌⊎◌, ==_refl, refl, length, get_or, drop, arith, inl, inr,
}
use mathlib.Core.Path.{subst}
use concentrator.Portal.Exchange.{
  Portal, find_packet, insert_received, packet_id, packet_fun_code, packet_serial,
}
use concentrator.Portal.Control.{create_ctrl_packet}

-- A call of `ConfigValve`: the function code, the packet from `PACKET_CTRL_POS` on, and the length, a `uint16`.
pub record ValveCommand : Type 0 where
  pub fun_code : ℕ
  pub data' : List ℕ
  pub len : ℕ

-- What the environment does at a command: the answer of `ConfigValve`, as the byte that is sent, the time, and
-- the answers of `SendData`, which fails when the list ends.
pub record Reply : Type 0 where
  pub answer : ℕ
  pub now : Option ℕ
  pub sends : List Bool

-- `erase` of the map.
unfoldable pub erase_packet : List (ℕ × List ℕ) → (code : ℕ) → List (ℕ × List ℕ)
erase_packet [] code = []
erase_packet (entry ∷ entries) code =
    let rest = erase_packet entries code in if entry.0 == code then entries else entry ∷ rest

unfoldable pub sends_within : (tries : ℕ) → List Bool → Bool
sends_within zero sends = false
sends_within (suc tries) [] = false
sends_within (suc tries) (works ∷ sends) = works || sends_within tries sends

-- The body of the loop: the portal, the calls of `ConfigValve` and the packets sent.
unfoldable pub execute_command :
    (id code : ℕ) → Reply → Portal → Portal × List ValveCommand × List (List ℕ)
execute_command id code env portal = elim (find_packet portal.received code) [
  | none ↦ (portal, [], [])
  | some packet ↦
      let command : ValveCommand = record {
        fun_code = code;
        data' = drop 12 packet;
        len = (get_or packet 2 0 + 256 * get_or packet 3 0 + 2 ^ 16 - 12) % 2 ^ 16;
      } in
      elim (create_ctrl_packet id (code + 1) (packet_serial packet) (env.answer ∷ []) env.now) [
        | none ↦ (portal, command ∷ [], [])
        | some reply ↦
            if sends_within 3 env.sends
            then (
              record portal { received = erase_packet portal.received code },
              command ∷ [],
              reply ∷ [],
            )
            else (portal, command ∷ [], [])
      ]
]

-- `FunList`, and the loop over it, whose counter goes up by two.
abbrev pub fun_list : List ℕ
fun_list = 97 ∷ 103 ∷ 105 ∷ []

unfoldable pub execute_commands :
    (id : ℕ) (codes : List ℕ) (env : ℕ → Reply)
    → Portal
    → Portal × List ValveCommand × List (List ℕ)
execute_commands id [] env portal = (portal, [], [])
execute_commands id (code ∷ []) env portal = execute_command id code (env code) portal
execute_commands id (code ∷ skipped ∷ codes) env portal =
    let (portal₁, commands₁, replies₁) = execute_command id code (env code) portal in
    let (portal₂, commands₂, replies₂) = execute_commands id codes env portal₁ in
    (portal₂, commands₁ ++ commands₂, replies₁ ++ replies₂)

-- `packet` is the answer of `ReceiveData`; `env` has the environment's part by the function code.
unfoldable pub gprs_receive :
    (id : ℕ) (packet : Option (List ℕ)) (env : ℕ → Reply)
    → Portal
    → Portal × List ValveCommand × List (List ℕ)
gprs_receive id packet env portal = elim packet [
  | none ↦ (portal, [], [])
  | some bytes ↦
      let portal' =
        if packet_id bytes == id
        then record portal {
          received = insert_received portal.received (packet_fun_code bytes) bytes;
        }
        else portal in
      if not portal.is_registered || (length bytes == 0)
      then (portal, [], [])
      else execute_commands id fun_list env portal'
]

command_of : (code : ℕ) (bytes : List ℕ) → ValveCommand
command_of code bytes = record {
  fun_code = code;
  data' = drop 12 bytes;
  len = (get_or bytes 2 0 + 256 * get_or bytes 3 0 + 2 ^ 16 - 12) % 2 ^ 16;
}

execute-own :
    (id code : ℕ) (bytes reply : List ℕ) (env : Reply) (portal : Portal)
    → create_ctrl_packet id (code + 1) (packet_serial bytes) (env.answer ∷ []) env.now ≡ some reply
    → sends_within 3 env.sends ≡ true
    → execute_command id code env (record portal { received = (code, bytes) ∷ [] })
      ≡ (record portal { received = [] }, command_of code bytes ∷ [], reply ∷ [])
unfolding execute_command find_packet erase_packet command_of
execute-own id code bytes reply env portal made works =
    let erased : erase_packet ((code, bytes) ∷ []) code ≡ [] =
      rw (erase_packet, ==_refl code) refl in
    rw (execute_command, ==_refl code, made, works, erased) refl

execute-other :
    (id code other : ℕ) (bytes : List ℕ) (env : Reply) (portal : Portal)
    → (other == code) ≡ false
    → execute_command id code env (record portal { received = (other, bytes) ∷ [] })
      ≡ (record portal { received = (other, bytes) ∷ [] }, [], [])
unfolding execute_command find_packet
execute-other id code other bytes env portal differ = rw (execute_command, differ) refl

execute-nothing :
    (id code : ℕ) (env : Reply) (portal : Portal)
    → execute_command id code env (record portal { received = [] })
      ≡ (record portal { received = [] }, [], [])
unfolding execute_command find_packet
execute-nothing id code env portal = refl

-- The loop on a map with one packet, by its code.
module _ (id : ℕ) (bytes reply : List ℕ) (env : ℕ → Reply) (portal : Portal) where
  abbrev alone : ℕ → Portal × List ValveCommand × List (List ℕ)
  alone code = execute_commands id fun_list env (record portal { received = (code, bytes) ∷ [] })

  abbrev CanReply : ℕ → Type 0
  CanReply code =
      (create_ctrl_packet id (code + 1) (packet_serial bytes) ((env code).answer ∷ [])
          (env code).now
        ≡ some reply)
      × (sends_within 3 (env code).sends ≡ true)

  abbrev executed : ℕ → Portal × List ValveCommand × List (List ℕ)
  executed code = (record portal { received = [] }, command_of code bytes ∷ [], reply ∷ [])

  alone-switch : CanReply 97 → alone 97 ≡ executed 97
  unfolding execute_commands
  alone-switch can =
      rw
        (
          execute-own id 97 bytes reply (env 97) portal can.0 can.1,
          execute-nothing id 105 (env 105) portal,
        )
        refl

  alone-config : CanReply 105 → alone 105 ≡ executed 105
  unfolding execute_commands
  alone-config can =
      rw
        (
          execute-other id 97 105 bytes (env 97) portal refl,
          execute-own id 105 bytes reply (env 105) portal can.0 can.1,
        )
        refl

  alone-heat_time : alone 103 ≡ (record portal { received = (103, bytes) ∷ [] }, [], [])
  unfolding execute_commands
  alone-heat_time =
      rw
        (
          execute-other id 97 103 bytes (env 97) portal refl,
          execute-other id 105 103 bytes (env 105) portal refl,
        )
        refl

-- On a registered portal that holds no packets, for a packet of the server whose reply can be made and goes out in
-- one of three sends: a command of the valves (97) or of their configuration (105) is passed on once, with the
-- bytes and the length of the packet, the reply is sent with the next function code and the packet's serial
-- index, and the packet is removed; a command of the heat time (103) is not passed on, not answered, and kept.
pub gprs_receive-commands :
    (id : ℕ) (bytes reply : List ℕ) (env : ℕ → Reply) (portal : Portal)
    → portal.is_registered ≡ true
    → portal.received ≡ []
    → (length bytes == 0) ≡ false
    → (packet_id bytes == id) ≡ true
    → create_ctrl_packet id
        (packet_fun_code bytes + 1)
        (packet_serial bytes)
        ((env (packet_fun_code bytes)).answer ∷ [])
        (env (packet_fun_code bytes)).now
      ≡ some reply
    → sends_within 3 (env (packet_fun_code bytes)).sends ≡ true
    → (packet_fun_code bytes ≡ 97) ⊎ (packet_fun_code bytes ≡ 105) ⊎ (packet_fun_code bytes ≡ 103)
    → gprs_receive id (some bytes) env portal ≡ (
        if packet_fun_code bytes == 103
        then (record portal { received = (packet_fun_code bytes, bytes) ∷ [] }, [], [])
        else (
          record portal { received = [] },
          record {
            fun_code = packet_fun_code bytes;
            data' = drop 12 bytes;
            len = (get_or bytes 2 0 + 256 * get_or bytes 3 0 + 2 ^ 16 - 12) % 2 ^ 16;
          }
              ∷ [],
          reply ∷ [],
        ))
unfolding gprs_receive find_packet insert_received command_of
gprs_receive-commands id bytes reply env portal registered empty some_bytes ours made works code =
    rw (guard, ours, empty)
      (elim code [
        | inl switch ↦ rw switch (alone-switch id bytes reply env portal (can 97 switch))
        | inr (inl config) ↦ rw config (alone-config id bytes reply env portal (can 105 config))
        | inr (inr heat) ↦ rw heat (alone-heat_time id bytes reply env portal)
      ])
  where
    guard : (not portal.is_registered || (length bytes == 0)) ≡ false
    guard = ground (arith, registered, some_bytes)

    can :
        (c : ℕ)
        → packet_fun_code bytes ≡ c
        → (create_ctrl_packet id (c + 1) (packet_serial bytes) ((env c).answer ∷ []) (env c).now
            ≡ some reply)
          × (sends_within 3 (env c).sends ≡ true)
    can c e = (
      subst
          (λ k.
            create_ctrl_packet id (k + 1) (packet_serial bytes) ((env k).answer ∷ []) (env k).now
            ≡ some reply)
          e made,
      subst (λ k. sends_within 3 (env k).sends ≡ true) e works,
    )
