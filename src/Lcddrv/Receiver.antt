-- ===== src/Lcddrv/Receiver.antt =====
-- The other end of the display's pins: on each rise of the clock a selected receiver takes the level
-- of the data pin as the next bit, high bit first, and eight bits are a byte, which is a command or
-- data by the level of the `doc` pin.
use concentrator.Common.{
  ℕ, ◌+◌, ◌*◌, ◌≡◌, refl, ◌∙◌, Bool, true, false, not, ◌&&◌, List, [], ◌∷◌, ◌++◌, append_assoc,
  ◌==◌, if◌then◌else◌, ap, sym,
}
use concentrator.Lcddrv.{cs, reset, led, doc, mc, out, Event, pio_out_value, set_pio_cfg, usleep}

pub record Receiver : Type 0 where
  pub selected : Bool
  pub is_data : Bool
  pub level : Bool
  pub clock : Bool
  pub bits : ℕ
  pub count : ℕ

abbrev pub next_bit : Receiver → ℕ
next_bit r = 2 * r.bits + (if r.level then 1 else 0)

-- What a rise of the clock does, and the byte that it ends.
unfoldable pub rise : Receiver → Receiver × List (Bool × ℕ)
rise r =
    if r.selected && not r.clock
    then (if r.count == 7
        then (record r { clock = true; bits = 0; count = 0 }, (r.is_data, next_bit r) ∷ [])
        else (record r { clock = true; bits = next_bit r; count = r.count + 1 }, []))
    else (record r { clock = true }, [])

unfoldable pub react : Receiver → Event → Receiver × List (Bool × ℕ)
unfolding rise
react r (pio_out_value cs high) = (record r { selected = not high; bits = 0; count = 0 }, [])
react r (pio_out_value doc high) = (record r { is_data = high }, [])
react r (pio_out_value out high) = (record r { level = high }, [])
react r (pio_out_value mc true) = rise r
react r (pio_out_value mc false) = (record r { clock = false }, [])
react r (pio_out_value reset high) = (r, [])
react r (pio_out_value led high) = (r, [])
react r (set_pio_cfg pin) = (r, [])
react r (usleep n) = (r, [])

-- The bytes that a receiver takes from some events, commands as `false`.
unfoldable pub received : Receiver → List Event → List (Bool × ℕ)
unfolding react
received r [] = []
received r (e ∷ es) = let (r', bytes) = react r e in bytes ++ received r' es

-- From any receiver in command mode (`false`) or data mode the events make these bytes, and leave the
-- receiver in a mode.
pub record Sends (before : Bool) (events : List Event) (bytes : List (Bool × ℕ)) (after : Bool)
    : Type 0 where
  pub runs :
      (r : Receiver)
      → r.is_data ≡ before
      → (r' : Receiver) × (r'.is_data ≡ after)
        × ((rest : List Event) → received r (events ++ rest) ≡ bytes ++ received r' rest)

pub Sends-nil : (c : Bool) → Sends c [] [] c
Sends-nil c = record { runs = λ r e. (r, e, λ rest. refl) }

pub Sends-append :
    {a b c : Bool} {xs ys : List Event} {bs cs : List (Bool × ℕ)}
    → Sends a xs bs b
    → Sends b ys cs c
    → Sends a (xs ++ ys) (bs ++ cs) c
Sends-append {xs = xs} {ys} {bs} {cs} f g = record {
  runs = λ r e.
      let (r₁, e₁, p) = f.runs r e in
      let (r₂, e₂, q) = g.runs r₁ e₁ in
      (
        r₂,
        e₂,
        λ rest.
            ap (λ l. received r l) (append_assoc xs ys rest)
            ∙ p (ys ++ rest)
            ∙ ap (λ l. bs ++ l) (q rest)
            ∙ sym (append_assoc bs cs (received r₂ rest)),
      );
}

-- The mode pin, with or without waiting first.
pub Sends-mode : (before after : Bool) → Sends before (pio_out_value doc after ∷ []) [] after
unfolding received react
Sends-mode before after = record {
  runs = λ r e. (record r { is_data = after }, refl, λ rest. refl);
}

pub Sends-start :
    (before after : Bool) (n : ℕ) → Sends before (usleep n ∷ pio_out_value doc after ∷ []) [] after
unfolding received react
Sends-start before after n = record {
  runs = λ r e. (record r { is_data = after }, refl, λ rest. refl);
}
