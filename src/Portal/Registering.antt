-- ===== src/Portal/Registering.antt =====
-- src/CPortal.cpp: an acknowledged packet is a packet sent, and an acknowledged registration registers.
use concentrator.Common.{
  ℕ, suc, ◌+◌, ◌%◌, ◌<◌, ap, if◌then◌else◌, Bool-cases, ◌≡◌, refl, sym, ◌∙◌, Bool, true, false, not,
  ◌&&◌, ◌||◌, Option, some, none, List, [], ◌∷◌, ◌++◌, ◌==◌, length, All, arith, Option-cases, inl,
  inr,
}
use concentrator.Common.File.{le32}
use concentrator.Portal.{Kind, create_packet, fill_packet, create_packet_header, le16}
use mathlib.Core.Path.{subst}
use concentrator.Utils.Crc.{generate_crc}
use concentrator.Portal.Exchange.{
  Portal, Answer, stored, acknowledged, take_answer_as, store_answer, parse_data, packet_of,
  packet_fun_code, await_ack, try_send, gprs_send, next_serial,
}
use concentrator.Portal.Exchange.{find_packet, insert_received}
use concentrator.Portal.Taken.{
  short_at, Acknowledges, IsOther, Acknowledges-acknowledged, IsOther-stored,
}
use concentrator.Portal.Control.{create_ctrl_packet, register}

-- The portal after some packets of the server were stored, first answer first.
abbrev pub store_answers : Portal → List Answer → Portal
store_answers portal [] = portal
store_answers portal (a ∷ answers) = store_answers (store_answer portal a) answers

await_ack-acknowledged :
    (sent : List ℕ) (left : ℕ) (strays : List Answer) (a : Answer) (rest : List Answer)
    (portal : Portal)
    → All (λ stray. take_answer_as sent stray ≡ stored) strays
    → take_answer_as sent a ≡ acknowledged
    → await_ack sent (suc left) (strays ++ a ∷ rest) portal
      ≡ some
          (true, rest, parse_data (store_answers portal strays) (packet_of a) a.clock a.set_works)
unfolding await_ack
await_ack-acknowledged sent left [] a rest portal all ack = rw (await_ack, ack) refl
await_ack-acknowledged sent left (stray ∷ strays) a rest portal all ack =
    rw (await_ack, all.0)
      (await_ack-acknowledged sent 1 strays a rest (store_answer portal stray) all.1 ack)

-- When the packet may be sent, and a first send works and is answered by any number of other packets of the server
-- and then the acknowledgement, `GPRS_Send` returns true with the other packets stored and the next
-- serial index.
pub gprs_send-acknowledged :
    (sent : List ℕ) (sends : List Bool) (strays : List Answer) (a : Answer) (rest : List Answer)
    (portal : Portal)
    → (portal.is_registered || (packet_fun_code sent == 1)) ≡ true
    → (length sent == 0) ≡ false
    → All (λ stray. take_answer_as sent stray ≡ stored) strays
    → take_answer_as sent a ≡ acknowledged
    → gprs_send true sent (true ∷ sends) (strays ++ a ∷ rest) portal
      ≡ some (
        true,
        next_serial (parse_data (store_answers portal strays) (packet_of a) a.clock a.set_works),
      )
unfolding gprs_send try_send
gprs_send-acknowledged sent sends strays a rest portal allowed some_sent all ack =
    let may : (not portal.is_registered && not (packet_fun_code sent == 1)) ≡ false =
      ground (arith, allowed) in
    rw (may, some_sent, await_ack-acknowledged sent 2 strays a rest portal all ack) refl

-- The packet of a registration can be sent before it.
IsRegistration : List ℕ → Type 0
IsRegistration packet = ((packet_fun_code packet == 1) ≡ true) × ((length packet == 0) ≡ false)

some_value : {a b : List ℕ} → some a ≡ some b → a ≡ b
some_value e = cc

abbrev registration : (id serial_index : ℕ) → Kind
registration id serial_index = record {
  id = id;
  fun_code = 1;
  serial_index = serial_index;
  counted = false;
}

create_packet-IsRegistration :
    (id serial_index time : ℕ) (packet : List ℕ)
    → create_packet (registration id serial_index) [] time ≡ some packet
    → IsRegistration packet
unfolding create_packet fill_packet create_packet_header le32 IsRegistration
create_packet-IsRegistration id serial_index time packet e =
    let filled = fill_packet (registration id serial_index) [] time in
    elim (Option-cases (generate_crc filled)) [
      | inl nothing ↦
          let stopped : create_packet (registration id serial_index) [] time ≡ none =
            rw nothing refl in
          absurd (cc (stopped, e))
      | inr (crc, made) ↦
          let whole : create_packet (registration id serial_index) [] time
              ≡ some (filled ++ le16 crc) =
            rw made refl in
          subst IsRegistration (some_value (sym whole ∙ e)) (refl, refl)
    ]

create_ctrl_packet-IsRegistration :
    (id serial_index : ℕ) (now : Option ℕ) (packet : List ℕ)
    → create_ctrl_packet id 1 serial_index [] now ≡ some packet
    → IsRegistration packet
unfolding create_ctrl_packet
create_ctrl_packet-IsRegistration id serial_index none packet e =
    create_packet-IsRegistration id serial_index 0 packet e
create_ctrl_packet-IsRegistration id serial_index (some time) packet e =
    create_packet-IsRegistration id serial_index time packet e

-- The packet for a code that was there first, or else the first of some answers with it.
abbrev pub first_of : List Answer → (code : ℕ) → Option (List ℕ)
first_of [] code = none
first_of (a ∷ answers) code =
    if short_at (packet_of a) 8 == code then some (packet_of a) else first_of answers code

abbrev pub or_first_of : Option (List ℕ) → List Answer → (code : ℕ) → Option (List ℕ)
or_first_of (some packet) answers code = some packet
or_first_of none answers code = first_of answers code

find_packet-insert :
    (entries : List (ℕ × List ℕ)) (new : ℕ) (packet : List ℕ) (code : ℕ)
    → find_packet (insert_received entries new packet) code ≡ elim (find_packet entries code) [
      | some old ↦ some old
      | none ↦ if new == code then some packet else none
    ]
unfolding find_packet insert_received
find_packet-insert entries new packet code = elim (Option-cases (find_packet entries new)) [
  | inl fresh ↦ elim (Bool-cases (new == code)) [
    | inl same ↦
        let e : new ≡ code = ground (arith, same) in
        let absent : find_packet entries code ≡ none = rw (← e) fresh in
        rw (fresh, insert_received, same, absent, same) refl
    | inr other ↦
        rw (fresh, insert_received, other) (either (find_packet entries code) (new == code) other)
  ]
  | inr (old, there) ↦ elim (Bool-cases (new == code)) [
    | inl same ↦
        let e : new ≡ code = ground (arith, same) in
        let present : find_packet entries code ≡ some old = rw (← e) there in
        rw (there, insert_received, present) refl
    | inr other ↦
        rw (there, insert_received) (either (find_packet entries code) (new == code) other)
  ]
]
  where
    either :
        (o : Option (List ℕ)) (b : Bool)
        → b ≡ false
        → o ≡ elim o [ some old ↦ some old | none ↦ if b then some packet else none ]
    either none b e = rw e refl
    either (some p) b e = refl

find_packet-store_answers :
    (portal : Portal) (strays : List Answer) (code : ℕ)
    → find_packet (store_answers portal strays).received code
      ≡ or_first_of (find_packet portal.received code) strays code
unfolding store_answer
find_packet-store_answers portal [] code = nothing_more (find_packet portal.received code)
  where
    nothing_more : (o : Option (List ℕ)) → o ≡ or_first_of o [] code
    nothing_more none = refl
    nothing_more (some p) = refl
find_packet-store_answers portal (a ∷ strays) code =
    find_packet-store_answers (store_answer portal a) strays code
    ∙ rw (find_packet-insert portal.received (packet_fun_code (packet_of a)) (packet_of a) code)
        (joined (find_packet portal.received code))
  where
    joined :
        (o : Option (List ℕ))
        → or_first_of
            (elim o [
              | some old ↦ some old
              | none ↦ if packet_fun_code (packet_of a) == code then some (packet_of a) else none
            ])
            strays
            code
          ≡ or_first_of o (a ∷ strays) code
    joined (some p) = refl
    joined none = elim (Bool-cases (packet_fun_code (packet_of a) == code)) [
      | inl same ↦ rw same refl
      | inr other ↦ rw other refl
    ]

serial-store_answers :
    (portal : Portal) (strays : List Answer)
    → (store_answers portal strays).serial_index ≡ portal.serial_index
unfolding store_answer
serial-store_answers portal [] = refl
serial-store_answers portal (a ∷ strays) = serial-store_answers (store_answer portal a) strays

parse_data-keeps :
    (portal : Portal) (packet : List ℕ) (clock : ℕ) (set_works : Bool)
    → ((parse_data portal packet clock set_works).received ≡ portal.received)
      × ((parse_data portal packet clock set_works).serial_index ≡ portal.serial_index)
unfolding parse_data
parse_data-keeps portal packet clock set_works = ground arith

serial-next :
    (portal : Portal) (n : ℕ)
    → portal.serial_index ≡ n
    → n < 20000
    → (next_serial portal).serial_index ≡ (n + 1) % 20000
unfolding next_serial
serial-next portal n e small = ground (arith, e, small)

All-stored :
    (sent : List ℕ) (strays : List Answer)
    → All (IsOther sent) strays
    → All (λ stray. take_answer_as sent stray ≡ stored) strays
All-stored sent [] all = tt
All-stored sent (a ∷ strays) all = (IsOther-stored sent a all.0, All-stored sent strays all.1)

-- The portal after a registration.
pub record SignedOn (portal : Portal) (strays : List Answer) (o : Option (Bool × Portal))
    : Type 0 where
  pub after : Portal
  pub returns : o ≡ some (true, after)
  pub registered : after.is_registered ≡ true
  pub serial : after.serial_index ≡ (portal.serial_index + 1) % 20000
  pub received :
      (code : ℕ)
      → find_packet after.received code ≡ or_first_of (find_packet portal.received code) strays code

-- On a connected modem, a portal that is not registered, with a serial index below 20000, sends a registration; when
-- the send works and the answers are any number of packets with its identity and other function codes and
-- then one with its identity, the next function code and its serial index, the portal is registered, the serial index
-- is the next of 20000, and for each function code the portal has the packet that it had, or else the first that came.
pub register-acknowledged :
    (id : ℕ) (now : Option ℕ) (packet : List ℕ) (sends : List Bool) (strays : List Answer)
    (a : Answer) (rest : List Answer) (portal : Portal)
    → portal.is_registered ≡ false
    → portal.serial_index < 20000
    → create_ctrl_packet id 1 portal.serial_index [] now ≡ some packet
    → All (IsOther packet) strays
    → Acknowledges packet a
    → SignedOn portal strays (register true id now (true ∷ sends) (strays ++ a ∷ rest) portal)
unfolding register IsRegistration next_serial
register-acknowledged id now packet sends strays a rest portal unregistered small made all ack =
    let (fun_code, some_sent) =
      create_ctrl_packet-IsRegistration id portal.serial_index now packet made in
    let due : (true && not portal.is_registered) ≡ true = ground (arith, unregistered) in
    let stored' = store_answers portal strays in
    let parsed = parse_data stored' (packet_of a) a.clock a.set_works in
    let (received, serial) = parse_data-keeps stored' (packet_of a) a.clock a.set_works in
    record {
      after = record (next_serial parsed) { is_registered = true };
      returns =
          rw
            (
              due,
              made,
              register,
              gprs_send-acknowledged packet sends strays a rest portal (ground (arith, fun_code))
                  some_sent (All-stored packet strays all) (Acknowledges-acknowledged packet a ack),
            )
            refl;
      registered = refl;
      serial =
          serial-next parsed portal.serial_index (serial ∙ serial-store_answers portal strays)
            small;
      received = λ code.
          ap (λ l. find_packet l code) received ∙ find_packet-store_answers portal strays code;
    }
