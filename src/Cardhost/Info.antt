-- ===== src/Cardhost/Info.antt =====
-- src/CCardHost.cpp: `HandleInfo` takes the addresses of the message.
use mathlib.Core.List.{flatten}
use concentrator.Common.{
  ℕ, ◌+◌, ◌*◌, ◌/◌, ◌≤◌, ◌≡◌, refl, sym, ap, ◌∙◌, some, true, false, List, [], ◌∷◌, ◌++◌,
  append_assoc, length, length-append, take, drop, take-append, drop-append, All, arith, ltb,
}
use concentrator.Cardhost.Answer.{CardHost}
use concentrator.Cardhost.Command.{read_addresses, info_bytes, handle_info, get_card_info}

-- Addresses of six bytes.
abbrev pub AreAddresses : List (List ℕ) → Type 0
AreAddresses addrs = All (λ a. length a ≡ 6) addrs

read_addresses-flatten :
    (addrs : List (List ℕ)) (rest : List ℕ)
    → AreAddresses addrs
    → read_addresses (length addrs) (flatten addrs ++ rest) ≡ some addrs
unfolding read_addresses flatten
read_addresses-flatten [] rest six = refl
read_addresses-flatten (a ∷ addrs) rest six =
    let split = append_assoc a (flatten addrs) rest in
    let fits : ltb (length (a ++ (flatten addrs ++ rest))) 6 ≡ false =
      ground (arith, length-append a (flatten addrs ++ rest), six.0) in
    let first : take 6 (a ++ (flatten addrs ++ rest)) ≡ a =
      ap (λ n. take n (a ++ (flatten addrs ++ rest))) (sym six.0)
      ∙ take-append a (flatten addrs ++ rest) in
    let others : drop 6 (a ++ (flatten addrs ++ rest)) ≡ flatten addrs ++ rest =
      ap (λ n. drop n (a ++ (flatten addrs ++ rest))) (sym six.0)
      ∙ drop-append a (flatten addrs ++ rest) in
    rw (split, fits, first, others, read_addresses-flatten addrs rest six.1) refl

-- A message of up to 41 addresses of six bytes behind their count, as many as a frame holds, sets the list
-- of the terminal's addresses to these, in order, whatever stands behind it in the buffer, and changes nothing
-- else; `GetCardInfo` then gives them.
pub handle_info-addresses :
    (host : CardHost) (addrs : List (List ℕ)) (rest : List ℕ)
    → AreAddresses addrs
    → length addrs ≤ 41
    → (after : CardHost) × (handle_info host
          (length addrs ∷ (flatten addrs ++ rest))
          (1 + 6 * length addrs)
        ≡ some after)
      × (get_card_info after ≡ some addrs)
      × (after.cmdbuf ≡ host.cmdbuf)
unfolding handle_info info_bytes get_card_info
handle_info-addresses host addrs rest six few =
    let turns : (info_bytes (length addrs) (1 + 6 * length addrs) + 5) / 6 ≡ length addrs =
      ground arith in
    (
      record host { info = addrs; info_gotten = true },
      rw (turns, read_addresses-flatten addrs rest six) refl,
      refl,
      refl,
    )
