-- ===== src/Cardhost/Queued.antt =====
-- src/CCardHost.cpp: the acknowledgements in the ring.
use concentrator.Common.{
  ℕ, ◌+◌, ◌≤◌, ◌≡◌, refl, sym, ap, ◌∙◌, Option, Option-cases, none, some, List, ◌++◌, inl, inr,
  length, length-append, arith,
}
use concentrator.Cbuffer.{Cbuffer, cbuffer_write, insert_packet}
use concentrator.Cbuffer.Fifo
use concentrator.Cbuffer.Queue.{IsValid, contents, filled_cell, insert_packet_refines}
use concentrator.Cardhost.{pktlen}
use concentrator.Cardhost.Answer.{CardHost, be16, put_ack}
use concentrator.Cardhost.Response.{Response, response_body}

-- The ring can hold acknowledgements.
abbrev pub IsReady : CardHost → Type 0
IsReady host = IsValid host.cmdbuf × (host.cmdbuf.cellsize ≡ pktlen)

-- A response, with the right checksum, was pushed on the ring's bounded queue, and the members that are no
-- ring are as before.
pub record Queued (host : CardHost) (status : ℕ) (payload : List ℕ) (o : Option CardHost)
    : Type 0 where
  pub frame : List ℕ
  pub response : Response status payload (some frame)
  pub after : CardHost
  pub returns : o ≡ some after
  pub ready : IsReady after
  pub pushed :
      contents after.cmdbuf
      ≡ (Fifo.push (host.cmdbuf.mask + 1) (contents host.cmdbuf) (filled_cell host.cmdbuf frame)).0
  pub kept : (after.info ≡ host.info) × (after.info_gotten ≡ host.info_gotten)

not_inserted :
    (buf : Cbuffer) (frame : List ℕ) → cbuffer_write buf ≡ none → (insert_packet buf frame).0 ≡ buf
unfolding insert_packet
not_inserted buf frame e = rw (insert_packet, e) refl

cellsize-insert :
    (buf : Cbuffer) (frame : List ℕ) → (insert_packet buf frame).0.cellsize ≡ buf.cellsize
unfolding insert_packet
cellsize-insert buf frame = ground arith

put_ack-returns :
    (host : CardHost) (frame : List ℕ)
    → put_ack host (some frame)
      ≡ some (record host { cmdbuf = (insert_packet host.cmdbuf frame).0 })
unfolding put_ack
put_ack-returns host frame = elim (Option-cases (cbuffer_write host.cmdbuf)) [
  | inl full ↦
      rw (put_ack, full)
        (ap (λ buf. some (record host { cmdbuf = buf }))
          (sym (not_inserted host.cmdbuf frame full)))
  | inr (cell, e) ↦ rw (put_ack, e) refl
]

pub put_ack-Queued :
    (host : CardHost) (status : ℕ) (payload : List ℕ) (made : Option (List ℕ))
    → IsReady host
    → length payload ≤ 252
    → Response status payload made
    → Queued host status payload (put_ack host made)
put_ack-Queued host status payload made ready short r =
    let frame = response_body status payload ++ be16 r.crc in
    let (valid, pushed) =
      insert_packet_refines host.cmdbuf frame ready.0
        (omega (arith, ready.1, length-append (response_body status payload) (be16 r.crc))) in
    record {
      frame = frame;
      response = record { crc = r.crc; sums = r.sums; frame = refl };
      after = record host { cmdbuf = (insert_packet host.cmdbuf frame).0 };
      returns = ap (put_ack host) r.frame ∙ put_ack-returns host frame;
      ready = (valid, cellsize-insert host.cmdbuf frame ∙ ready.1);
      pushed = ap (λ p. p.0) pushed;
      kept = (refl, refl);
    }
