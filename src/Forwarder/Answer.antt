-- ===== src/Forwarder/Answer.antt =====
-- src/CForwarderMonitor.cpp: the answer of a forwarder to A1, from the port to the list of its valves.
use concentrator.Common.{
  ℕ, ◌+◌, ◌-◌, ◌/◌, ◌%◌, ◌^◌, ◌≤◌, ◌<◌, ◌≡◌, refl, true, false, some, List, [], ◌∷◌, ◌++◌,
  append_assoc, if◌then◌else◌, ◌==◌, ltb, u32, length, length-append, take-append, drop, replicate,
  arith,
}
use concentrator.Common.File.{le32, length-le32}
use concentrator.Common.Table.{lookup}
use concentrator.Utils.Bytes.{xor_loop, generate_xor_parity}
use concentrator.Serial.{flag_at, arrived, comm_ok, read_buf}
use concentrator.Serial.Whole.{stream, read_buf-whole}
use concentrator.Forwarder.Roster.{
  composites_bytes, names, Short, named, is_in, touch_all, composites-parsed, lookup-touch_all,
}
use concentrator.Forwarder.{
  or_blank, ForwarderElement, parse_a1_ack, parse_answer, parsed, with_flags, begin_flag, end_flag,
  exchange_command, send_a1,
}

-- The answer to A1: the forwarder's number, the number of valves, and the valves with their children.
abbrev pub roster : (id : ℕ) → List (ℕ × List ℕ) → List ℕ
roster id cs =
    161
    ∷ (id % 256)
    ∷ (id / 256 % 256)
    ∷ (id / 256 ^ 2 % 256)
    ∷ (id / 256 ^ 3 % 256)
    ∷ length cs
    ∷ composites_bytes cs

-- The forwarder is online, its answer is kept between its flags and with its parity, each valve that it names is
-- entered with its address and active, and the other valves are as they were.
pub record Known (id : ℕ) (cs : List (ℕ × List ℕ)) (element after : ForwarderElement) : Type 0 where
  pub answers : after.is_offline ≡ false
  pub kept : with_flags (roster id cs) ≡ some after.a1_response
  pub valves :
      (k : ℕ)
      → lookup after.valve_list k ≡ (
          if is_in k (names cs)
          then some (named (id % 256) (id / 256 % 256) k (or_blank (lookup element.valve_list k)))
          else lookup element.valve_list k)

with_flags-some :
    (content : List ℕ)
    → length content ≤ 251
    → (framed : List ℕ) × (with_flags content ≡ some framed)
unfolding with_flags generate_xor_parity
with_flags-some content short =
    let framed = begin_flag ++ (content ++ end_flag) in
    let fits : ltb 255 (length framed) ≡ false =
      ground (arith, length-append content end_flag, short) in
    (framed ++ xor_loop 0 framed ∷ [], rw fits refl)

module _ (id : ℕ) (cs : List (ℕ × List ℕ)) (element : ForwarderElement) where
  parse_a1_ack-roster :
      (rest framed : List ℕ)
      → Short cs
      → length cs < 256
      → length (roster id cs) ≤ 251
      → with_flags (roster id cs) ≡ some framed
      → parse_a1_ack element (roster id cs ++ rest) (length (roster id cs))
        ≡ some (
          record element {
            valve_list = touch_all (id % 256) (id / 256 % 256) element.valve_list (names cs);
            a1_response = framed;
          },
          true,
        )
  unfolding parse_a1_ack
  parse_a1_ack-roster rest framed small few short made =
      let pre =
        161
        ∷ (id % 256)
        ∷ (id / 256 % 256)
        ∷ (id / 256 ^ 2 % 256)
        ∷ (id / 256 ^ 3 % 256)
        ∷ length cs
        ∷ [] in
      let composites =
        composites-parsed (id % 256) (id / 256 % 256) cs (roster id cs ++ rest) pre rest
          (length (roster id cs)) element.valve_list refl (omega arith) small refl refl in
      let len = length (roster id cs) in
      let buf = roster id cs ++ rest in
      let size : length buf ≡ len + length rest = length-append (roster id cs) rest in
      let filled : (len == 0) ≡ false = ground arith in
      let room : ltb (length buf) 6 ≡ false = ground (arith, size) in
      let whole : (len == len) ≡ true = ground arith in
      let below : ltb len 1024 ≡ true = ground (arith, short) in
      let fits : ltb 1024 (len + 5) ≡ false = ground (arith, short) in
      rw (filled, room, composites, whole, below, fits, take-append (roster id cs) rest, made) refl

  -- A forwarder is asked for its valves and answers at once, in up to 1024 bytes, with up to 251 between the flags,
  -- fewer than 256 valves with fewer than 256 children each, and numbers of two bytes; before the first flag come
  -- only bytes at which it does not begin, and behind the last one only bytes at which it does not, such as the
  -- parity. Then it is online, and its valves are those that it names with those that were known.
  pub send_a1-Known :
      (noise behind : List ℕ)
      → Short cs
      → length cs < 256
      → length (roster id cs) ≤ 251
      → length (stream begin_flag end_flag noise (roster id cs) behind 1024) ≤ 1024
      → ((k : ℕ)
          → k < length noise
          → flag_at (stream begin_flag end_flag noise (roster id cs) behind 1024) begin_flag k
            ≡ false)
      → ((k : ℕ)
          → length (noise ++ (begin_flag ++ roster id cs)) < k
          → flag_at (stream begin_flag end_flag noise (roster id cs) behind 1024) end_flag k
            ≡ false)
      → (after : ForwarderElement) × (send_a1 id element (record {
        taken = true;
        chunks = arrived (stream begin_flag end_flag noise (roster id cs) behind 1024) ∷ [];
      })
          ≡ some after)
        × Known id cs element after
  unfolding send_a1 exchange_command parse_answer
  send_a1-Known noise behind small few short fits first final =
      let body = roster id cs in
      let frame = begin_flag ++ (body ++ end_flag) in
      let zeros : List ℕ = replicate (1024 - length frame) 0 in
      let command = 161 ∷ le32 id in
      let (sent, made) = with_flags-some command (omega (arith, length-le32 id)) in
      let (framed, kept) = with_flags-some body short in
      let after : ForwarderElement = record element {
        is_offline = false;
        valve_list = touch_all (id % 256) (id / 256 % 256) element.valve_list (names cs);
        a1_response = framed;
      } in
      let n_frame : length frame ≡ length body + 4 =
        omega (arith, length-append {0} body end_flag) in
      let got : read_buf begin_flag end_flag 1024
            (arrived (stream begin_flag end_flag noise body behind 1024) ∷ [])
          ≡ comm_ok frame =
        read_buf-whole begin_flag end_flag noise body behind 1024 fits
          (omega (arith, n_frame, short)) first final in
      let len : u32 (length frame + 2 ^ 32 - 4) ≡ length body = omega (arith, n_frame, short) in
      let buf : drop 2 (frame ++ zeros) ≡ body ++ (end_flag ++ zeros) =
        append_assoc body end_flag zeros in
      let filled : (length body == 0) ≡ false = ground arith in
      let element' : ForwarderElement = record after { is_offline = element.is_offline } in
      let read = parse_a1_ack-roster (end_flag ++ zeros) framed small few short kept in
      let answered : parse_answer element (body ++ (end_flag ++ zeros)) (length body) command
          ≡ some (parsed element' true) =
        rw (filled, read) refl in
      let asked : exchange_command element command (record {
        taken = true;
        chunks = arrived (stream begin_flag end_flag noise body behind 1024) ∷ [];
      })
          ≡ some (sent, parsed element' true) =
        rw (made, got, len, buf, answered) refl in
      (
        after,
        rw (asked, send_a1) refl,
        record {
          answers = refl;
          kept = kept;
          valves = lookup-touch_all (id % 256) (id / 256 % 256) (names cs) element.valve_list;
        },
      )
