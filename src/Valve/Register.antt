-- ===== src/Valve/Register.antt =====
-- src/CValveMonitor.cpp: the broadcasts, and the registration of the valves that answer one.
use concentrator.Common.{
  ℕ, ◌+◌, ◌-◌, ◌/◌, ◌%◌, ◌^◌, Bool, true, Option, none, some, List, [], ◌∷◌, ◌++◌, map,
  if◌then◌else◌, ◌==◌, ltb, length, take, replicate,
}
use concentrator.Common.File.{le32}
use concentrator.Utils.Crc.{generate_crc}
use concentrator.Cbuffer.{cbuffer_write, insert_packet}
use concentrator.Cardhost.Command.{buffer_of}
use concentrator.Valve.{Valves, Call, returned, waits, outside, find_uid, command_packet}

-- `users[vmac] = user`, for a valve that is not in the map.
unfoldable pub insert_user : List (ℕ × List ℕ) → (mac : ℕ) (uid : List ℕ) → List (ℕ × List ℕ)
insert_user [] mac uid = (mac, uid) ∷ []
insert_user (user ∷ users) mac uid =
    let rest = insert_user users mac uid in
    if ltb mac user.0 then (mac, uid) ∷ user ∷ users else user ∷ rest

-- The answer to a valve with a user: its address for later, or else the command itself, or nothing.
unfoldable pub respond : Valves → (mac : ℕ) → Valves
respond m mac = elim (cbuffer_write m.rx) [
  | some cell ↦ record m { rx = (insert_packet m.rx (le32 mac)).0 }
  | none ↦ elim (cbuffer_write m.tx) [
    | some cell ↦ record m {
      tx = (insert_packet m.tx (buffer_of (le32 mac ++ (15 ∷ 251 ∷ 6 ∷ 255 ∷ 172 ∷ le32 m.sid)))).0;
    }
    | none ↦ m
  ]
]

-- A valve with a user: eight bytes.
unfoldable pub register_user : Valves → (mac : ℕ) (uid : List ℕ) → Valves
register_user m mac uid = elim (find_uid m.users mac) [
  | some old ↦ respond m mac
  | none ↦ respond (record m { users = insert_user m.users mac uid; sync_users = true }) mac
]

-- A valve without a user: one byte. It is asked for its data when there is room, over what the cell held.
unfoldable pub register_valve : Valves → (mac : ℕ) → Call Valves
register_valve m mac =
    let counted = record m { unregistered_counter = m.unregistered_counter + 1 } in
    elim (find_uid m.users mac) [
      | some old ↦ returned counted
      | none ↦
          if m.tx_locked
          then waits
          else returned (record counted {
            users = insert_user m.users mac (replicate 8 0);
            tx = (insert_packet m.tx (command_packet mac 23 [])).0;
          })
    ]

-- `ParseBroadcast`.
unfoldable pub parse_broadcast : Valves → (mac : ℕ) (data' : List ℕ) (len : ℕ) → Call Valves
parse_broadcast m mac data' len =
    if len == 8
    then if ltb (length data') 8 then outside else returned (register_user m mac (take 8 data'))
    else if len == 1
    then register_valve m mac
    else returned m

-- `Broadcast` and `BroadcastQuery`: to every address, the pass or 0xCC, and the session.
unfoldable pub broadcast : Valves → (counter : ℕ) → Call Valves
broadcast m counter =
    if m.tx_locked
    then waits
    else returned (record m {
      tx = (insert_packet m.tx (command_packet (2 ^ 32 - 1) 255 (counter ∷ le32 m.sid))).0;
    })

unfoldable pub broadcast_query : Valves → Call Valves
broadcast_query m =
    if m.tx_locked
    then waits
    else returned (record m {
      tx = (insert_packet m.tx (command_packet (2 ^ 32 - 1) 255 (204 ∷ le32 m.sid))).0;
    })

-- `BroadcastClearSID`: the bytes that go to the port at once.
unfoldable pub broadcast_clear_sid : Option (List ℕ)
broadcast_clear_sid =
    let buf = command_packet (2 ^ 32 - 1) 240 [] in
    elim (generate_crc buf) [
      | none ↦ none
      | some crc ↦ some (buf ++ (crc / 256 % 256 ∷ crc % 256 ∷ []))
    ]

-- `GetUserList`, when the lock is free.
unfoldable pub get_users : Valves → (free : Bool) → Option (List (List ℕ))
get_users m free = if free then some (map (λ user. user.1) m.users) else none
