-- ===== src/Valve/Commands.antt =====
-- src/CValveMonitor.cpp: a query for a known user is queued once; without room it locks the ring for good.
use concentrator.Common.{
  ℕ, ◌+◌, ◌-◌, ◌≤◌, ◌≡◌, refl, sym, ap, ◌∙◌, Bool, true, false, not, Option-cases, none, some, List,
  ◌∷◌, ltb, length, length-append, length-replicate, replicate, inl, inr, arith,
}
use concentrator.Common.File.{le32, length-le32}
use concentrator.Cbuffer.{Cbuffer, cbuffer_write, insert_packet}
use concentrator.Cbuffer.Fifo
use concentrator.Cbuffer.Queue.{IsValid, contents, insert_packet_refines}
use concentrator.Cbuffer.Run.{whole_cell}
use concentrator.Cardhost.{pktlen}
use concentrator.Cardhost.Command.{buffer_of}
use concentrator.Cardhost.Acks.{copy_of-all}
use concentrator.Valve.{Valves, Call, returned, find_valve, command_packet, put_command, query_user}

command_size :
    (mac code : ℕ) (data' : List ℕ)
    → length data' ≤ 253
    → length (command_packet mac code data') ≡ 8 + length data'
unfolding command_packet
command_size mac code data' short =
    let one : ltb (1 + length data') 255 ≡ true = ground arith in
    rw one (
      omega (
        arith,
        length-append (le32 mac) (15 ∷ 251 ∷ (1 + length data') ∷ code ∷ data'),
        length-le32 mac,
      ))

-- What becomes of a query: the command, filled up with zeros, was pushed on the ring's bounded queue; the ring's lock
-- is free again if there was room, and held otherwise.
pub record Queried (m : Valves) (mac : ℕ) (data' : List ℕ) (o : Call Valves) : Type 0 where
  pub after : Valves
  pub returns : o ≡ returned after
  pub valid : IsValid after.tx
  pub pushed :
      (contents after.tx, not after.tx_locked)
      ≡ Fifo.push (m.tx.mask + 1) (contents m.tx) (buffer_of (command_packet mac 24 data'))
  pub kept : after.users ≡ m.users

full_size :
    (mac code : ℕ) (data' : List ℕ)
    → length data' ≤ 253
    → length (buffer_of (command_packet mac code data')) ≡ pktlen
full_size mac code data' short = omega (
  arith,
  length-append (command_packet mac code data')
      (replicate (pktlen - length (command_packet mac code data')) 0),
  length-replicate {A = ℕ} (pktlen - length (command_packet mac code data')) 0,
  command_size mac code data' short,
)

insert-full :
    (buf : Cbuffer) (packet : List ℕ)
    → cbuffer_write buf ≡ none
    → insert_packet buf packet ≡ (buf, false)
unfolding insert_packet
insert-full buf packet e = rw (insert_packet, e) refl

insert-room :
    (buf : Cbuffer) (packet : List ℕ) (cell : ℕ)
    → cbuffer_write buf ≡ some cell
    → (insert_packet buf packet).1 ≡ true
unfolding insert_packet
insert-room buf packet cell e = rw (insert_packet, e) refl

-- The ring after the use, and its flag, are those of an insertion.
put_command-insert :
    (buf : Cbuffer) (mac code : ℕ) (data' : List ℕ)
    → length data' ≤ 253
    → put_command buf mac code data' (length data')
      ≡ some (insert_packet buf (buffer_of (command_packet mac code data')))
unfolding put_command
put_command-insert buf mac code data' short = elim (Option-cases (cbuffer_write buf)) [
  | inl full ↦
      let e : put_command buf mac code data' (length data') ≡ some (buf, false) =
        rw (full, put_command) refl in
      e ∙ ap some (sym (insert-full buf (buffer_of (command_packet mac code data')) full))
  | inr (cell, room) ↦
      let packet = buffer_of (command_packet mac code data') in
      let fits : ltb pktlen (length (command_packet mac code data')) ≡ false =
        ground (arith, command_size mac code data' short) in
      let e : put_command buf mac code data' (length data')
          ≡ some ((insert_packet buf packet).0, true) =
        rw (room, put_command, copy_of-all data', fits) refl in
      e
      ∙ ap (λ flag. some ((insert_packet buf packet).0, flag))
          (sym (insert-room buf packet cell room))
]

-- A query with up to 253 bytes for a known user, when the lock is free, pushes one command for the user's valve on the
-- ring of commands, or nothing when it is full; and only then the lock stays held.
pub query_user-Queried :
    (m : Valves) (uid data' : List ℕ) (mac : ℕ)
    → find_valve m.users uid ≡ some mac
    → m.tx_locked ≡ false
    → IsValid m.tx
    → m.tx.cellsize ≡ pktlen
    → length data' ≤ 253
    → Queried m mac data' (query_user m uid data' (length data'))
unfolding query_user
query_user-Queried m uid data' mac known free v size short =
    let packet = buffer_of (command_packet mac 24 data') in
    let full = full_size mac 24 data' short in
    let (valid, pushed) = insert_packet_refines m.tx packet v (omega (arith, full, size)) in
    record {
      after = record m {
        tx = (insert_packet m.tx packet).0;
        tx_locked = not (insert_packet m.tx packet).1;
      };
      returns = rw (query_user, known, free, put_command-insert m.tx mac 24 data' short) refl;
      valid = valid;
      pushed =
          ap (λ flag. (contents (insert_packet m.tx packet).0, flag))
            (not_not (insert_packet m.tx packet).1)
          ∙ pushed
          ∙ ap (Fifo.push (m.tx.mask + 1) (contents m.tx))
              (whole_cell m.tx packet (full ∙ sym size));
      kept = refl;
    }
  where
    not_not : (b : Bool) → not (not b) ≡ b
    not_not true = refl
    not_not false = refl
