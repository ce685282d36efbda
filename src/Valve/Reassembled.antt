-- ===== src/Valve/Reassembled.antt =====
-- src/CValveMonitor.cpp: however the port splits the answers of the valves, `Run` passes them on whole.
use concentrator.Common.{
  ℕ, ◌+◌, ◌-◌, ◌≤◌, ◌<◌, ◌≡◌, refl, sym, ap, ◌∙◌, ◌⊎◌, inl, false, Option, some, List, [], ◌∷◌,
  ◌++◌, append_assoc, length, length-append, ltb, leb, ◌==◌, suc, if-false, if◌then◌else◌, arith,
  take, All,
}
use mathlib.Core.List.{flatten}
use mathlib.Core.Path.{subst}
use concentrator.Common.File.{take_enough}
use concentrator.Valve.Reading.{
  Reader, started, again, counted, adjust_read_packet, stalled, reading_turn, reading_turns, Event,
  brought, timed_out, poll_timed_out, bytes_brought, time_outs,
}
use concentrator.Valve.Cutting.{
  IsAck, no_bytes, recover-aligned, aligned, IsPart, IsPart-nothing, IsPart-first, cut_acks-Cut,
}

-- The reader between two turns, with a part of the first of the answers that are still to come, and before so many
-- turns whose time is over.
record Ready (s : Reader) (fs : List (List ℕ)) (rest : List ℕ) (pauses : ℕ) : Type 0 where
  comes : s.ack ++ rest ≡ flatten fs
  acks : All IsAck fs
  part : IsPart s.ack fs
  idle : (s.rlen ≡ 0) ⊎ (6 < length s.ack)
  patient : s.retry + pauses ≤ 6
  last : s.last_readed ≡ length s.ack

IsPart-small :
    (b rest : List ℕ) (fs : List (List ℕ))
    → All IsAck fs
    → b ++ rest ≡ flatten fs
    → IsPart b fs
    → length b ≤ 262
unfolding flatten
IsPart-small b rest [] all e part = omega (arith, ap length (no_bytes b rest e))
IsPart-small b rest (f ∷ fs) all e part = omega (arith, all.0, part f fs refl)

-- After the loop the reader is ready for the rest.
counted-Ready :
    (s : Reader) (fs : List (List ℕ)) (rest left : List ℕ) (rlen : ℕ) (frames later : List (List ℕ))
    (pauses : ℕ)
    → s.ack ++ rest ≡ flatten fs
    → s.retry + pauses ≤ 6
    → s.last_readed ≡ length s.ack
    → fs ≡ frames ++ later
    → left ++ rest ≡ flatten later
    → All IsAck later
    → IsPart left later
    → (rlen ≡ 0) ⊎ (6 < length left)
    → Ready (counted s left rlen frames) later rest pauses
counted-Ready s fs rest left rlen [] later pauses e patient last order kept acks part idle =
    let sizes : length (s.ack ++ rest) ≡ length (left ++ rest) =
      ap length e ∙ ap (λ l. length (flatten l)) order ∙ sym (ap length kept) in
    record {
      comes = kept;
      acks = acks;
      part = part;
      idle = idle;
      patient = patient;
      last = omega (arith, last, sizes, length-append s.ack rest, length-append left rest);
    }
counted-Ready s fs rest left rlen (f ∷ frames) later pauses e patient last order kept acks part
      idle =
    record {
      comes = kept;
      acks = acks;
      part = part;
      idle = idle;
      patient = omega arith;
      last = refl;
    }

-- What a turn comes to.
record Turned (fs : List (List ℕ)) (rest : List ℕ) (pauses : ℕ)
    (o : Option (Reader × List (List ℕ))) : Type 0 where
  after : Reader
  frames : List (List ℕ)
  later : List (List ℕ)
  returns : o ≡ some (after, frames)
  in_order : fs ≡ frames ++ later
  ready : Ready after later rest pauses

adjust_read_packet-Turned :
    (s : Reader) (fs : List (List ℕ)) (rest : List ℕ) (pauses : ℕ)
    → s.ack ++ rest ≡ flatten fs
    → All IsAck fs
    → (s.rlen ≡ 0) ⊎ (6 < length s.ack)
    → s.retry + pauses ≤ 6
    → s.last_readed ≡ length s.ack
    → Turned fs rest pauses (adjust_read_packet s)
unfolding adjust_read_packet
adjust_read_packet-Turned s fs rest pauses e all idle patient last =
    let c = cut_acks-Cut (length s.ack) s.ack rest fs s.rlen (omega arith) all e idle in
    record {
      after = counted s c.left c.rlen c.frames;
      frames = c.frames;
      later = c.later;
      returns = rw c.returns refl;
      in_order = c.in_order;
      ready =
          counted-Ready s fs rest c.left c.rlen c.frames c.later pauses e patient last c.in_order
            c.kept c.acks c.part c.idle;
    }

-- A turn that brings some bytes.
reading_turn-Turned :
    (s : Reader) (fs : List (List ℕ)) (piece rest : List ℕ) (pauses : ℕ)
    → Ready s fs (piece ++ rest) pauses
    → 0 < length piece
    → length piece ≤ 249
    → Turned fs rest pauses (reading_turn s piece again)
unfolding reading_turn stalled
reading_turn-Turned s fs piece rest pauses ready pos small =
    let few = IsPart-small s.ack (piece ++ rest) fs ready.acks ready.comes ready.part in
    let size : length (s.ack ++ piece) ≡ length s.ack + length piece = length-append s.ack piece in
    let got : take (512 - length s.ack) piece ≡ piece =
      take_enough piece (512 - length s.ack) (omega (arith, few)) in
    let room : leb (512 - length s.ack) (length piece) ≡ false = ground (arith, few) in
    let waits : ltb 10 s.retry ≡ false = ground (arith, ready.patient) in
    let more : (length (s.ack ++ piece) == s.last_readed) ≡ false =
      ground (arith, size, ready.last) in
    let some_bytes : (length (s.ack ++ piece) == 0) ≡ false = ground (arith, size) in
    let comes : (s.ack ++ piece) ++ rest ≡ flatten fs =
      append_assoc s.ack piece rest ∙ ready.comes in
    let kept =
      recover-aligned (s.ack ++ piece) (aligned (s.ack ++ piece) rest fs ready.acks comes) in
    let rlen = if length s.ack == 0 then 0 else s.rlen in
    let idle : (rlen ≡ 0) ⊎ (6 < length (s.ack ++ piece)) = ground (arith, size, ready.idle) in
    let s' : Reader = record s {
      ack = s.ack ++ piece;
      rlen = rlen;
      last_readed = length (s.ack ++ piece);
    } in
    let turned =
      adjust_read_packet-Turned s' fs rest pauses comes ready.acks idle ready.patient refl in
    rw (got, room, waits, more, some_bytes, kept) turned

-- A turn whose time is over, when few enough come.
timed_out-Ready :
    (s : Reader) (fs : List (List ℕ)) (rest : List ℕ) (pauses : ℕ)
    → Ready s fs rest (suc pauses)
    → Ready (poll_timed_out s) fs rest pauses
unfolding poll_timed_out
timed_out-Ready s fs rest pauses ready =
    let few : ltb 5 s.retry ≡ false = ground (arith, ready.patient) in
    subst (λ (r : Reader). Ready r fs rest pauses) (sym (if-false (ltb 5 s.retry) _ _ few))
      (record {
        comes = ready.comes;
        acks = ready.acks;
        part = ready.part;
        idle = ready.idle;
        patient = omega (arith, ready.patient);
        last = ready.last;
      })

-- Each piece has a byte, and no more than surely find room behind a part of an answer.
abbrev pub AreShort : List Event → Type 0
AreShort [] = Unit
AreShort (brought piece ∷ events) = ((0 < length piece) × (length piece ≤ 249)) × AreShort events
AreShort (timed_out ∷ events) = AreShort events

pub all_passed :
    (b : List ℕ) (fs : List (List ℕ)) → b ++ [] ≡ flatten fs → IsPart b fs → (b ≡ []) × (fs ≡ [])
unfolding flatten
all_passed b [] e part = (no_bytes b [] e, refl)
all_passed b (f ∷ fs) e part =
    absurd
      (omega (arith, ap length e, length-append b [], length-append f (flatten fs), part f fs refl))

reading_turns-Ready :
    (s : Reader) (fs : List (List ℕ)) (events : List Event)
    → Ready s fs (bytes_brought events) (time_outs events)
    → AreShort events
    → (after : Reader) × (reading_turns s events ≡ some (after, fs)) × (after.ack ≡ [])
unfolding reading_turns
reading_turns-Ready s fs [] ready small =
    let (empty, passed) = all_passed s.ack fs ready.comes ready.part in
    (s, ap (λ l. some (s, l)) (sym passed), empty)
reading_turns-Ready s fs (brought piece ∷ events) ready small =
    let turn =
      reading_turn-Turned s fs piece (bytes_brought events) (time_outs events) ready small.0.0
        small.0.1 in
    let (after, rest, empty) =
      reading_turns-Ready turn.after turn.later events turn.ready small.1 in
    (after, rw (turn.returns, rest, turn.in_order) refl, empty)
reading_turns-Ready s fs (timed_out ∷ events) ready small =
    reading_turns-Ready (poll_timed_out s) fs events
      (timed_out-Ready s fs (bytes_brought events) (time_outs events) ready) small

-- However the port splits some whole answers with a length of one byte, in pieces of at most 249 bytes and none
-- empty, and with at most six turns in all whose time is over, `Run` from its start on passes exactly these
-- answers to `ParseAck`, in order, and keeps no byte of them.
pub reading_turns-every :
    (fs : List (List ℕ)) (events : List Event)
    → All IsAck fs
    → AreShort events
    → time_outs events ≤ 6
    → bytes_brought events ≡ flatten fs
    → (after : Reader) × (reading_turns started events ≡ some (after, fs)) × (after.ack ≡ [])
reading_turns-every fs events all small few e = reading_turns-Ready started fs events ready small
  where
    first : (fs : List (List ℕ)) → All IsAck fs → IsPart [] fs
    first [] all = IsPart-nothing []
    first (f ∷ fs) all = IsPart-first [] f fs (omega (arith, all.0))

    ready : Ready started fs (bytes_brought events) (time_outs events)
    ready = record {
      comes = e;
      acks = all;
      part = first fs all;
      idle = inl refl;
      patient = omega (arith, few);
      last = refl;
    }
