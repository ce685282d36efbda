-- ===== src/Cardhost/Oldest.antt =====
-- src/CCardHost.cpp: the cell that `Run` writes is the oldest of the ring, and `cbuffer_read_done` gives it
-- back.
use mathlib.Core.Path.{subst}
use concentrator.Common.{
  ℕ, ◌≡◌, refl, sym, ap, ◌∙◌, inl, inr, Option, none, some, List, [], ◌∷◌, arith, length,
  Option-cases,
}
use concentrator.Common.Memory.{load}
use concentrator.Cbuffer.{Cbuffer, cbuffer_read, cbuffer_read_done, take_packet}
use concentrator.Cbuffer.Fifo
use concentrator.Cbuffer.Queue.{IsValid, contents, take_packet_refines}

-- A ring that holds a cell and others behind it.
pub record Oldest (buf : Cbuffer) (c : List ℕ) (cs : List (List ℕ)) : Type 0 where
  pub cell : ℕ
  pub found : cbuffer_read buf ≡ some cell
  pub bytes : load buf.start cell buf.cellsize ≡ c
  pub valid : IsValid (cbuffer_read_done buf)
  pub others : contents (cbuffer_read_done buf) ≡ cs

taken-none : (buf : Cbuffer) → cbuffer_read buf ≡ none → take_packet buf ≡ (buf, none)
unfolding take_packet
taken-none buf e = rw (take_packet, e) refl

taken-some :
    (buf : Cbuffer) (cell : ℕ)
    → cbuffer_read buf ≡ some cell
    → take_packet buf ≡ (cbuffer_read_done buf, some (load buf.start cell buf.cellsize))
unfolding take_packet
taken-some buf cell e = rw (take_packet, e) refl

-- A use that pops the queue of a valid ring.
abbrev Pops : (before : List (List ℕ)) → Cbuffer × Option (List ℕ) → Type 0
Pops before r = IsValid r.0 × ((contents r.0, r.1) ≡ Fifo.pop before)

some_value : {a b : List ℕ} → some a ≡ some b → a ≡ b
some_value e = cc

pub contents-Oldest :
    (buf : Cbuffer) (c : List ℕ) (cs : List (List ℕ))
    → IsValid buf
    → contents buf ≡ c ∷ cs
    → Oldest buf c cs
contents-Oldest buf c cs v holds = elim (Option-cases (cbuffer_read buf)) [
  | inl nothing ↦
      let pops : Pops (c ∷ cs) (buf, none) =
        subst (λ q. Pops q (buf, none)) holds
          (subst (λ r. Pops (contents buf) r) (taken-none buf nothing)
            (take_packet_refines buf v)) in
      absurd (omega (arith, ap (λ q. length q) (sym holds ∙ ap (λ p. p.0) pops.1)))
  | inr (cell, e) ↦
      let pops : Pops (c ∷ cs) (cbuffer_read_done buf, some (load buf.start cell buf.cellsize)) =
        subst (λ q. Pops q (cbuffer_read_done buf, some (load buf.start cell buf.cellsize))) holds
          (subst (λ r. Pops (contents buf) r) (taken-some buf cell e)
            (take_packet_refines buf v)) in
      record {
        cell = cell;
        found = e;
        bytes = some_value (ap (λ p. p.1) pops.1);
        valid = pops.0;
        others = ap (λ p. p.0) pops.1;
      }
]

-- A ring that holds nothing.
pub contents-none : (buf : Cbuffer) → IsValid buf → contents buf ≡ [] → cbuffer_read buf ≡ none
contents-none buf v holds = elim (Option-cases (cbuffer_read buf)) [
  | inl nothing ↦ nothing
  | inr (cell, e) ↦
      let pops : Pops [] (cbuffer_read_done buf, some (load buf.start cell buf.cellsize)) =
        subst (λ q. Pops q (cbuffer_read_done buf, some (load buf.start cell buf.cellsize))) holds
          (subst (λ r. Pops (contents buf) r) (taken-some buf cell e)
            (take_packet_refines buf v)) in
      absurd (cc (ap (λ p. p.1) pops.1))
]
