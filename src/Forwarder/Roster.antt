-- ===== src/Forwarder/Roster.antt =====
-- src/CForwarderMonitor.cpp: the valves of a forwarder, as its answer to A1 tells them.
use concentrator.Common.{
  ℕ, suc, ◌+◌, ◌*◌, ◌/◌, ◌%◌, ◌^◌, ◌≤◌, ◌<◌, ◌≡◌, refl, sym, ap, ◌∙◌, Bool, true, false, ◌||◌, some,
  List, [], ◌∷◌, ◌++◌, append-nil, append_assoc, if◌then◌else◌, ◌==◌, ltb, length, length-append,
  get_or, All, arith, Bool-cases, inl, inr,
}
use concentrator.Common.Parts.{get_or-append}
use concentrator.Common.Table.{lookup, put, lookup-put}
use concentrator.Forwarder.{
  ValveElem, or_blank, activate, touch_valve, parse_children, parse_composites,
}

-- A number in two bytes, low byte first; the children of a valve; the valves with their children.
abbrev pub le16 : ℕ → List ℕ
le16 v = (v % 256) ∷ (v / 256 % 256) ∷ []

abbrev pub children_bytes : List ℕ → List ℕ
children_bytes [] = []
children_bytes (v ∷ vs) = (v % 256) ∷ (v / 256 % 256) ∷ children_bytes vs

abbrev pub composites_bytes : List (ℕ × List ℕ) → List ℕ
composites_bytes [] = []
composites_bytes (c ∷ cs) =
    (c.0 % 256) ∷ (c.0 / 256 % 256) ∷ length c.1 ∷ (children_bytes c.1 ++ composites_bytes cs)

-- All valves that are named, in order.
abbrev pub names : List (ℕ × List ℕ) → List ℕ
names [] = []
names (c ∷ cs) = c.0 ∷ (c.1 ++ names cs)

-- The numbers have two bytes, and the number of children one.
abbrev pub Short : List (ℕ × List ℕ) → Type 0
Short cs =
    All (λ (c : ℕ × List ℕ). (c.0 < 2 ^ 16) × (length c.1 < 256) × All (λ (v : ℕ). v < 2 ^ 16) c.1)
      cs

-- Whether a number is in a list.
abbrev pub is_in : ℕ → List ℕ → Bool
is_in k [] = false
is_in k (v ∷ vs) = v == k || is_in k vs

module _ (f₀ f₁ : ℕ) where
  abbrev pub named : ℕ → ValveElem → ValveElem
  named v valve = activate f₀ f₁ (v % 256) (v / 256 % 256) valve

  pub touched : List (ℕ × ValveElem) → ℕ → List (ℕ × ValveElem)
  touched valves v = put valves v (named v (or_blank (lookup valves v)))

  pub touch_all : List (ℕ × ValveElem) → List ℕ → List (ℕ × ValveElem)
  touch_all valves [] = valves
  touch_all valves (v ∷ vs) = touch_all (touched valves v) vs

  touch_all-append :
      (valves : List (ℕ × ValveElem)) (vs ws : List ℕ)
      → touch_all valves (vs ++ ws) ≡ touch_all (touch_all valves vs) ws
  unfolding touch_all
  touch_all-append valves [] ws = refl
  touch_all-append valves (v ∷ vs) ws = touch_all-append (touched valves v) vs ws

  touch_valve-touched :
      (buf pre rest : List ℕ) (v : ℕ) (valves : List (ℕ × ValveElem))
      → buf ≡ pre ++ ((v % 256) ∷ (v / 256 % 256) ∷ rest)
      → v < 2 ^ 16
      → get_or buf 1 0 ≡ f₀
      → get_or buf 2 0 ≡ f₁
      → touch_valve buf (length pre) valves ≡ touched valves v
  unfolding touch_valve touched
  touch_valve-touched buf pre rest v valves e small e₀ e₁ =
      let bytes = (v % 256) ∷ (v / 256 % 256) ∷ rest in
      let here : length pre + 0 ≡ length pre = omega arith in
      let low : get_or buf (length pre) 0 ≡ v % 256 =
        rw e (rw here at (get_or-append pre bytes 0 0)) in
      let high : get_or buf (length pre + 1) 0 ≡ v / 256 % 256 =
        rw e (get_or-append pre bytes 1 0) in
      let whole : v % 256 + 256 * (v / 256 % 256) ≡ v = omega arith in
      rw (low, high, e₀, e₁, whole) refl

  pub children-parsed :
      (vs buf pre post : List ℕ) (valves : List (ℕ × ValveElem))
      → buf ≡ pre ++ (children_bytes vs ++ post)
      → All (λ (v : ℕ). v < 2 ^ 16) vs
      → get_or buf 1 0 ≡ f₀
      → get_or buf 2 0 ≡ f₁
      → parse_children buf (length vs) (length pre) valves
        ≡ some (length (pre ++ children_bytes vs), touch_all valves vs)
  unfolding parse_children touch_all
  children-parsed [] buf pre post valves e small e₀ e₁ = rw (append-nil pre) refl
  children-parsed (v ∷ vs) buf pre post valves e small e₀ e₁ =
      let bytes = (v % 256) ∷ (v / 256 % 256) ∷ [] in
      let step : length (pre ++ bytes) ≡ length pre + 2 = length-append pre bytes in
      let size : length buf ≡ length pre + suc (suc (length (children_bytes vs ++ post))) =
        ap (λ (l : List ℕ). length l) e
        ∙ length-append pre ((v % 256) ∷ (v / 256 % 256) ∷ (children_bytes vs ++ post)) in
      let room : ltb (length buf) (length pre + 2) ≡ false = ground (arith, size) in
      let e' : buf ≡ (pre ++ bytes) ++ (children_bytes vs ++ post) =
        e ∙ sym (append_assoc pre bytes (children_bytes vs ++ post)) in
      rw
        (
          room,
          touch_valve-touched buf pre (children_bytes vs ++ post) v valves e small.0 e₀ e₁,
          ← step,
          ← append_assoc pre bytes (children_bytes vs),
        )
        (children-parsed vs buf (pre ++ bytes) post (touched valves v) e' small.1 e₀ e₁)

  pub composites-parsed :
      (cs : List (ℕ × List ℕ)) (buf pre post : List ℕ) (len : ℕ) (valves : List (ℕ × ValveElem))
      → buf ≡ pre ++ (composites_bytes cs ++ post)
      → length (pre ++ composites_bytes cs) ≤ len
      → Short cs
      → get_or buf 1 0 ≡ f₀
      → get_or buf 2 0 ≡ f₁
      → parse_composites buf len (length cs) (length pre) valves
        ≡ some (length (pre ++ composites_bytes cs), touch_all valves (names cs))
  unfolding parse_composites touch_all
  composites-parsed [] buf pre post len valves e within small e₀ e₁ = rw (append-nil pre) refl
  composites-parsed (c ∷ cs) buf pre post len valves e within small e₀ e₁ =
      let head = (c.0 % 256) ∷ (c.0 / 256 % 256) ∷ length c.1 ∷ [] in
      let own = children_bytes c.1 in
      let more = composites_bytes cs in
      let joined : (own ++ more) ++ post ≡ own ++ (more ++ post) = append_assoc own more post in
      let e' : buf ≡ pre ++ (head ++ (own ++ (more ++ post))) = rw joined at e in
      let size : length buf ≡ length pre + suc (suc (suc (length (own ++ (more ++ post))))) =
        ap (λ (l : List ℕ). length l) e' ∙ length-append pre (head ++ (own ++ (more ++ post))) in
      let room : ltb (length buf) (length pre + 3) ≡ false = ground (arith, size) in
      let all : length (pre ++ (head ++ (own ++ more)))
          ≡ length pre + suc (suc (suc (length (own ++ more)))) =
        length-append pre (head ++ (own ++ more)) in
      let before : ltb (length pre) len ≡ true = ground (arith, all, within) in
      let count : get_or buf (length pre + 2) 0 ≡ length c.1 =
        rw e' (get_or-append pre (head ++ (own ++ (more ++ post))) 2 0) in
      let at : length (pre ++ head) ≡ length pre + 3 = length-append pre head in
      let e₃ : buf ≡ (pre ++ head) ++ (own ++ (more ++ post)) =
        e' ∙ sym (append_assoc pre head (own ++ (more ++ post))) in
      let e₄ : buf ≡ ((pre ++ head) ++ own) ++ (more ++ post) =
        e₃ ∙ sym (append_assoc (pre ++ head) own (more ++ post)) in
      let whole : pre ++ (head ++ (own ++ more)) ≡ ((pre ++ head) ++ own) ++ more =
        sym (append_assoc pre head (own ++ more)) ∙ sym (append_assoc (pre ++ head) own more) in
      let within' : length (((pre ++ head) ++ own) ++ more) ≤ len = rw (← whole) within in
      rw
        (
          before,
          room,
          count,
          touch_valve-touched buf pre (length c.1 ∷ (own ++ (more ++ post))) c.0 valves e' small.0.0
              e₀ e₁,
          ← at,
          children-parsed c.1 buf (pre ++ head) (more ++ post) (touched valves c.0) e₃ small.0.2 e₀
              e₁,
          whole,
          touch_all-append (touched valves c.0) c.1 (names cs),
        )
        (composites-parsed cs buf ((pre ++ head) ++ own) post len
          (touch_all (touched valves c.0) c.1) e₄ within' small.1 e₀ e₁)

  -- A valve that is named is entered and active, and the others are as they were.
  pub lookup-touch_all :
      (vs : List ℕ) (valves : List (ℕ × ValveElem)) (k : ℕ)
      → lookup (touch_all valves vs) k
        ≡ (if is_in k vs then some (named k (or_blank (lookup valves k))) else lookup valves k)
  unfolding touch_all touched
  lookup-touch_all [] valves k = refl
  lookup-touch_all (v ∷ vs) valves k =
      let valve = named v (or_blank (lookup valves v)) in
      let ih : lookup (touch_all (put valves v valve) vs) k ≡ (
          if is_in k vs
          then some (named k (or_blank (lookup (put valves v valve) k)))
          else lookup (put valves v valve) k) =
        lookup-touch_all vs (put valves v valve) k in
      let after = lookup-put valves v k valve in
      elim (Bool-cases (v == k)) [
        | inl same ↦
            let e : v ≡ k = ground (arith, same) in
            ih ∙ elim (Bool-cases (is_in k vs)) [
              | inl again ↦ rw (again, after, same, e) refl
              | inr once ↦ rw (once, after, same, e) refl
            ]
        | inr other ↦ ih ∙ rw (after, other) refl
      ]
