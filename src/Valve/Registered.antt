-- ===== src/Valve/Registered.antt =====
-- src/CValveMonitor.cpp: the numbers of the valves after the answer to a broadcast.
use concentrator.Common.{
  ℕ, ◌+◌, ◌≤◌, ◌≡◌, refl, ◌∙◌, true, false, Option, Option-cases, none, some, List, [], ◌∷◌,
  if◌then◌else◌, ◌==◌, ltb, length, take, replicate, arith, Bool-cases, inl, inr,
}
use mathlib.Core.Path.{subst}
use concentrator.Cbuffer.{cbuffer_write, insert_packet}
use concentrator.Valve.{Valves, Call, returned, find_uid, command_packet}
use concentrator.Valve.Register.{
  insert_user, respond, register_user, register_valve, parse_broadcast,
}

-- A map after an insertion of an absent valve.
find_uid-insert :
    (users : List (ℕ × List ℕ)) (mac k : ℕ) (uid : List ℕ)
    → find_uid users mac ≡ none
    → find_uid (insert_user users mac uid) k ≡ (if mac == k then some uid else find_uid users k)
unfolding find_uid insert_user
find_uid-insert [] mac k uid absent = refl
find_uid-insert (user ∷ users) mac k uid absent = elim (Bool-cases (user.0 == mac)) [
  | inl same ↦ cc (rw same at absent)
  | inr other ↦ elim (Bool-cases (ltb mac user.0)) [
    | inl first ↦ rw first refl
    | inr later ↦
        let ih : find_uid (insert_user users mac uid) k
            ≡ (if mac == k then some uid else find_uid users k) =
          find_uid-insert users mac k uid (rw other at absent) in
        elim (Bool-cases (user.0 == k)) [
          | inl here ↦
              let apart : (mac == k) ≡ false = ground (arith, other, here) in
              rw (later, here, apart) refl
          | inr there ↦ rw (later, there) ih
        ]
  ]
]

-- The answer to a valve leaves the users alone.
respond-users : (m : Valves) (mac : ℕ) → (respond m mac).users ≡ m.users
unfolding respond
respond-users m mac = elim (Option-cases (cbuffer_write m.rx)) [
  | inr (cell, room) ↦ rw (room, respond) refl
  | inl full ↦ elim (Option-cases (cbuffer_write m.tx)) [
    | inr (cell, room) ↦ rw (full, room, respond) refl
    | inl none_left ↦ rw (full, none_left, respond) refl
  ]
]

-- The number that a broadcast gives a valve.
unfoldable pub announced : (data' : List ℕ) (len : ℕ) → Option (List ℕ)
announced data' len =
    if len == 8 then some (take 8 data') else if len == 1 then some (replicate 8 0) else none

-- The number of a valve after a broadcast: the one it had, or for the valve of the broadcast the announced one.
unfoldable pub number_after : Valves → (mac : ℕ) (data' : List ℕ) (len k : ℕ) → Option (List ℕ)
number_after m mac data' len k = elim (find_uid m.users k) [
  | some old ↦ some old
  | none ↦ if mac == k then announced data' len else none
]

-- A valve that is known keeps its number, whatever is announced.
number_after-known :
    (m : Valves) (mac : ℕ) (data' old : List ℕ) (len k : ℕ)
    → find_uid m.users mac ≡ some old
    → find_uid m.users k ≡ number_after m mac data' len k
unfolding number_after
number_after-known m mac data' old len k known = elim (Option-cases (find_uid m.users k)) [
  | inr (number, at) ↦ rw (at, number_after) refl
  | inl absent ↦ elim (Bool-cases (mac == k)) [
    | inr other ↦ rw (absent, number_after, other) refl
    | inl same ↦ let e : mac ≡ k = ground (arith, same) in cc (rw e at known, absent)
  ]
]

-- An insertion makes the map that is announced.
number_after-insert :
    (m : Valves) (mac : ℕ) (data' uid : List ℕ) (len k : ℕ)
    → find_uid m.users mac ≡ none
    → announced data' len ≡ some uid
    → find_uid (insert_user m.users mac uid) k ≡ number_after m mac data' len k
unfolding number_after
number_after-insert m mac data' uid len k absent said =
    find_uid-insert m.users mac k uid absent ∙ elim (Bool-cases (mac == k)) [
      | inl same ↦
          let e : mac ≡ k = ground (arith, same) in
          let unknown : find_uid m.users k ≡ none = rw e at absent in
          rw (same, number_after, unknown, same, said) refl
      | inr other ↦ elim (Option-cases (find_uid m.users k)) [
        | inl nothing ↦ rw (other, number_after, nothing, other) refl
        | inr (number, at) ↦ rw (other, number_after, at) refl
      ]
    ]

-- A broadcast of another length announces nothing.
number_after-other :
    (m : Valves) (mac : ℕ) (data' : List ℕ) (len k : ℕ)
    → (len == 8) ≡ false
    → (len == 1) ≡ false
    → find_uid m.users k ≡ number_after m mac data' len k
unfolding number_after announced
number_after-other m mac data' len k not_eight not_one = elim (Option-cases (find_uid m.users k)) [
  | inr (number, at) ↦ rw (at, number_after) refl
  | inl nothing ↦
      rw (nothing, number_after, not_eight, not_one)
        (elim (Bool-cases (mac == k)) [ inl same ↦ rw same refl | inr other ↦ rw other refl ])
]

-- The number of each valve after a call that has returned.
abbrev pub Registered : Valves → (mac : ℕ) (data' : List ℕ) (len : ℕ) → Call Valves → Type 0
Registered m mac data' len result =
    (after : Valves) × (result ≡ returned after)
    × ((k : ℕ) → find_uid after.users k ≡ number_after m mac data' len k)

-- A valve with a user.
register_user-Registered :
    (m : Valves) (mac : ℕ) (data' : List ℕ)
    → Registered m mac data' 8 (returned (register_user m mac (take 8 data')))
unfolding register_user announced
register_user-Registered m mac data' = elim (Option-cases (find_uid m.users mac)) [
  | inr (old, known) ↦ (
    respond m mac,
    rw (known, register_user) refl,
    λ k. rw (respond-users m mac) (number_after-known m mac data' old 8 k known),
  )
  | inl absent ↦
      let users' = insert_user m.users mac (take 8 data') in
      let m' : Valves = record m { users = users'; sync_users = true } in
      (
        respond m' mac,
        rw (absent, register_user) refl,
        λ k.
            rw (respond-users m' mac)
              (number_after-insert m mac data' (take 8 data') 8 k absent refl),
      )
]

-- A valve without a user.
register_valve-Registered :
    (m : Valves) (mac : ℕ) (data' : List ℕ)
    → m.tx_locked ≡ false
    → Registered m mac data' 1 (register_valve m mac)
unfolding register_valve announced
register_valve-Registered m mac data' free = elim (Option-cases (find_uid m.users mac)) [
  | inr (old, known) ↦ (
    record m { unregistered_counter = m.unregistered_counter + 1 },
    rw (known, register_valve) refl,
    λ k. number_after-known m mac data' old 1 k known,
  )
  | inl absent ↦ (
    record m {
      unregistered_counter = m.unregistered_counter + 1;
      users = insert_user m.users mac (replicate 8 0);
      tx = (insert_packet m.tx (command_packet mac 23 [])).0;
    },
    rw (absent, free, register_valve) refl,
    λ k. number_after-insert m mac data' (replicate 8 0) 1 k absent refl,
  )
]

-- A broadcast that is as long as it says, with the lock of the commands free, returns. After it a valve that had a
-- number has the same, the valve of the broadcast has the announced one if it had none (eight zeros for a
-- valve without a user), and no other valve has one.
pub parse_broadcast-Registered :
    (m : Valves) (mac : ℕ) (data' : List ℕ) (len : ℕ)
    → m.tx_locked ≡ false
    → len ≤ length data'
    → Registered m mac data' len (parse_broadcast m mac data' len)
unfolding parse_broadcast
parse_broadcast-Registered m mac data' len free long = elim (Bool-cases (len == 8)) [
  | inl eight ↦
      let e : 8 ≡ len = ground (arith, eight) in
      let enough : ltb (length data') 8 ≡ false = ground (arith, long, e) in
      rw (eight, enough)
        (subst (λ n. Registered m mac data' n (returned (register_user m mac (take 8 data')))) e
          (register_user-Registered m mac data'))
  | inr not_eight ↦ elim (Bool-cases (len == 1)) [
    | inl one ↦
        let e : 1 ≡ len = ground (arith, one) in
        rw (not_eight, one)
          (subst (λ n. Registered m mac data' n (register_valve m mac)) e
            (register_valve-Registered m mac data' free))
    | inr other ↦
        rw (not_eight, other) (m, refl, λ k. number_after-other m mac data' len k not_eight other)
  ]
]
