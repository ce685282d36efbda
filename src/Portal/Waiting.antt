-- ===== src/Portal/Waiting.antt =====
-- src/CPortal.cpp: `GPRS_Send` returns, and true only for an acknowledgement.
use concentrator.Common.{
  ℕ, suc, ◌+◌, ◌*◌, ◌≤◌, ◌≡◌, ◌⊎◌, Bool, true, false, ◌||◌, Option, some, List, [], ◌∷◌, ◌==◌,
  length,
}
use concentrator.Portal.Taken.{Acknowledges}
use concentrator.Portal.Exchange.{
  Portal, Answer, Taken, ignored, stored, acknowledged, take_answer_as, packet_fun_code,
}

-- The answers that are packets of the server with another function code.
abbrev pub others : (sent : List ℕ) → List Answer → ℕ
others sent [] = 0
others sent (a ∷ answers) = elim (take_answer_as sent a) [
  | ignored ↦ others sent answers
  | stored ↦ suc (others sent answers)
  | acknowledged ↦ others sent answers
]

-- One of some answers is the acknowledgement.
pub data HasAck (sent : List ℕ) : List Answer → Type 0 where
  here : {a : Answer} {answers : List Answer} → Acknowledges sent a → HasAck sent (a ∷ answers)
  there : {a : Answer} {answers : List Answer} → HasAck sent answers → HasAck sent (a ∷ answers)

-- What waiting comes to, in `rounds` rounds: a result, true only with an acknowledgement among the answers; and
-- no more answers were taken than the rounds and two for each other packet.
pub record Waited (sent : List ℕ) (rounds : ℕ) (answers : List Answer)
    (o : Option (Bool × List Answer × Portal)) : Type 0 where
  pub ret : Bool
  pub rest : List Answer
  pub after : Portal
  pub returns : o ≡ some (ret, rest, after)
  pub justified : (ret ≡ false) ⊎ HasAck sent answers
  pub widen : HasAck sent rest → HasAck sent answers
  pub taken : length answers + 2 * others sent rest ≤ length rest + rounds + 2 * others sent answers

-- Some call of `SendData` succeeds.
abbrev pub any_works : List Bool → Bool
any_works [] = false
any_works (works ∷ sends) = works || any_works sends

-- What the attempts come to.
record Tried (sent : List ℕ) (sends : List Bool) (answers : List Answer)
    (o : Option (Bool × List Answer × Portal)) : Type 0 where
  pub ret : Bool
  pub rest : List Answer
  pub after : Portal
  pub returns : o ≡ some (ret, rest, after)
  pub justified : (ret ≡ false) ⊎ (HasAck sent answers × (any_works sends ≡ true))

-- The outcome of an exchange: it is true only when a send succeeded and one of the answers acknowledges the
-- packet, for a portal that is registered or a packet that registers it.
pub record Exchanged (sent : List ℕ) (sends : List Bool) (answers : List Answer) (portal : Portal)
    (o : Option (Bool × Portal)) : Type 0 where
  pub ret : Bool
  pub after : Portal
  pub returns : o ≡ some (ret, after)
  pub justified :
      (ret ≡ false)
      ⊎ (HasAck sent answers
          × (any_works sends ≡ true)
          × ((portal.is_registered || (packet_fun_code sent == 1)) ≡ true))
