-- ===== src/Cardhost/EndToEnd.antt =====
-- src/CCardHost.cpp: from a request of the terminal to the answer on the line.
use mathlib.Core.List.{flatten}
use mathlib.Core.Path.{subst}
use concentrator.Common.{
  ℕ, ◌+◌, ◌≤◌, ◌≡◌, refl, sym, ap, ◌∙◌, Option, some, none, false, List, [], ◌∷◌, ◌++◌, append-nil,
  length, length-append, take, take-append, arith, if◌then◌else◌, ◌==◌,
}
use concentrator.Common.File.{le32, length-le32}
use concentrator.Utils.Crc.{generate_crc}
use concentrator.Cbuffer.{Cbuffer}
use concentrator.Cbuffer.Fifo
use concentrator.Cbuffer.Queue.{contents, filled_cell}
use concentrator.Cardhost.Answer.{CardHost, Sender, be16, ack_time_or_remove, transmit}
use concentrator.Cardhost.Command.{ToValve, parse_and_execute, handle_get_time}
use concentrator.Cardhost.Request.{request, request_body, parse_command-request}
use concentrator.Cardhost.Response.{Response, response_body}
use concentrator.Cardhost.Queued.{IsReady, Queued}
use concentrator.Cardhost.Acks.{time-Queued}
use concentrator.Cardhost.Write.{IsCell, frame_of}
use concentrator.Cardhost.Sent.{any_full}
use concentrator.Cardhost.Transmit.{transmit-every}

-- What was sent for a request, from the state `host`: a response with the right checksum.
pub record Answered (status : ℕ) (payload : List ℕ) (rooms : List ℕ) (wlen : ℕ)
    (o : Option (CardHost × Option ToValve)) : Type 0 where
  pub after : CardHost
  pub returns : o ≡ some (after, none)
  pub frame : List ℕ
  pub response : Response status payload (some frame)
  pub emptied : Cbuffer
  pub sender : Sender
  pub sent :
      transmit after.cmdbuf (record { wrote = 0; wlen = wlen }) rooms
      ≡ some (emptied, sender, frame)
  pub nothing_left : contents emptied ≡ []

some_value : {a b : List ℕ} → some a ≡ some b → a ≡ b
some_value e = cc

-- The cell of a response.
module _ (status : ℕ) (payload : List ℕ) (crc : ℕ) (old : List ℕ)
    (short : length payload ≤ 251) where
  abbrev whole : List ℕ
  whole = response_body status payload ++ be16 crc

  response-IsCell : IsCell (whole ++ old)
  response-IsCell = (
    omega arith,
    omega (arith, length-append whole old, length-append (response_body status payload) (be16 crc)),
  )

  frame_of-response : frame_of (whole ++ old) ≡ whole
  frame_of-response =
      ap (λ n. take n (whole ++ old)) {y = length whole}
        (omega (arith, length-append (response_body status payload) (be16 crc)))
      ∙ take-append whole old

frame-IsCell :
    (status : ℕ) (payload : List ℕ) (crc : ℕ) (frame old : List ℕ)
    → length payload ≤ 251
    → frame ≡ response_body status payload ++ be16 crc
    → IsCell (frame ++ old) × (frame_of (frame ++ old) ≡ frame)
frame-IsCell status payload crc frame old short e =
    subst (λ f. IsCell (f ++ old) × (frame_of (f ++ old) ≡ f)) (sym e)
      (response-IsCell status payload crc old short, frame_of-response status payload crc old short)

-- A response on an empty ring is what the turns send.
Queued-sent :
    (host : CardHost) (status : ℕ) (payload : List ℕ) (o : Option CardHost)
    (q : Queued host status payload o) (rooms : List ℕ) (wlen : ℕ)
    → contents host.cmdbuf ≡ []
    → length payload ≤ 251
    → any_full rooms ≡ false
    → 17 + length payload ≤ length rooms
    → (buf : Cbuffer) × (s : Sender) × (transmit q.after.cmdbuf
          (record { wrote = 0; wlen = wlen })
          rooms
        ≡ some (buf, s, q.frame))
      × (contents buf ≡ [])
unfolding flatten
Queued-sent host status payload o q rooms wlen empty short free enough =
    let frame_is : q.frame ≡ response_body status payload ++ be16 q.response.crc =
      some_value q.response.frame in
    let size : length q.frame ≡ 17 + length payload =
      ap length frame_is
      ∙ omega (arith, length-append (response_body status payload) (be16 q.response.crc)) in
    let (starts, part) : IsCell (filled_cell host.cmdbuf q.frame)
        × (frame_of (filled_cell host.cmdbuf q.frame) ≡ q.frame) =
      frame-IsCell status payload q.response.crc q.frame _ short frame_is in
    let holds : contents q.after.cmdbuf ≡ filled_cell host.cmdbuf q.frame ∷ [] =
      q.pushed
      ∙ pushed_alone host.cmdbuf.mask (contents host.cmdbuf) (filled_cell host.cmdbuf q.frame)
          empty in
    let wire : frame_of (filled_cell host.cmdbuf q.frame) ++ [] ≡ q.frame =
      append-nil (frame_of (filled_cell host.cmdbuf q.frame)) ∙ part in
    let (buf, s, sent, nothing) =
      transmit-every rooms q.after.cmdbuf (filled_cell host.cmdbuf q.frame ∷ []) wlen q.ready.0
        holds (starts, tt) free (omega (arith, ap length wire, size, enough)) in
    (buf, s, sent ∙ ap (λ out. some (buf, s, out)) wire, nothing)
  where
    pushed_alone :
        (mask : ℕ) (held : List (List ℕ)) (cell : List ℕ)
        → held ≡ []
        → (Fifo.push (mask + 1) held cell).0 ≡ cell ∷ []
    pushed_alone mask held cell e =
        let room : (0 == mask + 1) ≡ false = ground arith in rw (e, room) refl

-- The request for the time, on a ready host with an empty ring: it is answered with the time, and when the
-- port takes a byte in each of 21 turns or more, the line gets the response frame, with the right checksum, and
-- nothing else.
pub get_time-Answered :
    (host : CardHost) (time : ℕ) (answers : List (Option (List (List ℕ)))) (data' : List ℕ)
    (crc : ℕ) (rooms : List ℕ) (wlen : ℕ)
    → IsReady host
    → contents host.cmdbuf ≡ []
    → generate_crc (request_body 5 data') ≡ some crc
    → length data' ≤ 251
    → any_full rooms ≡ false
    → 21 ≤ length rooms
    → Answered
        (if length host.info == 0 then 245 else 5)
        (le32 time)
        rooms
        wlen
        (parse_and_execute host (some time) answers (request 5 data' crc))
unfolding parse_and_execute handle_get_time
get_time-Answered host time answers data' crc rooms wlen ready empty made short free enough =
    let q = time-Queued host time ready in
    let (buf, s, sent, nothing) =
      Queued-sent host (if length host.info == 0 then 245 else 5) (le32 time)
        (ack_time_or_remove host (some time) none 0) q rooms wlen empty
        (omega (arith, length-le32 time)) free (omega (arith, length-le32 time, enough)) in
    record {
      after = q.after;
      returns =
          rw (parse_command-request 5 data' crc made short, parse_and_execute, q.returns) refl;
      frame = q.frame;
      response = q.response;
      emptied = buf;
      sender = s;
      sent = sent;
      nothing_left = nothing;
    }
