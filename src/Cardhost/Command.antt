-- ===== src/Cardhost/Command.antt =====
-- src/CCardHost.cpp: `ParseAndExecute` and the commands of the terminal.
use concentrator.Common.{
  ℕ, suc, zero, ◌+◌, ◌-◌, ◌*◌, ◌/◌, ◌%◌, Bool, true, false, not, ◌&&◌, ◌||◌, Option, none, some,
  List, [], ◌∷◌, ◌++◌, if◌then◌else◌, ◌==◌, ltb, u16, length, get_or, take, drop, replicate,
}
use concentrator.Common.Maybe.{◌>>=◌}
use concentrator.Utils.Crc.{generate_crc}
use concentrator.Cardhost.{pktlen}
use concentrator.Cardhost.Answer.{CardHost, ack_query_user, ack_recharge, ack_time_or_remove}

-- The ways through the checks: a return before the `switch`, the `switch` with the code, the buffer from
-- the data on and the length of the data, or an access outside the buffer or the tables.
pub data Verdict : Type 0 where
  refused : Verdict
  accepted : (code : ℕ) (data' : List ℕ) (len : ℕ) → Verdict
  outside : Verdict

abbrev pub all_equal : ℕ → List ℕ → Bool
all_equal v [] = true
all_equal v (b ∷ bytes) = (b == v) && all_equal v bytes

-- `cmd`, all of its `PKTLEN` bytes, when a frame has been read.
abbrev pub buffer_of : List ℕ → List ℕ
buffer_of frame = frame ++ replicate (pktlen - length frame) 0

-- The checksum is high byte first.
unfoldable pub check_crc : (cmd : List ℕ) (end : ℕ) (ok : Verdict) → Verdict
check_crc cmd end ok =
    if ltb (length cmd) (end + 2) then outside else elim (generate_crc (take end cmd)) [
      | none ↦ outside
      | some gcrc ↦
          if (gcrc / 256 % 256 == get_or cmd end 0) && (gcrc % 256 == get_or cmd (end + 1) 0)
          then ok
          else refused
    ]

-- `len` bytes are announced, and `ptr` is behind the length; it is a `uint16`.
unfoldable pub parse_body : (cmd : List ℕ) (len ptr : ℕ) → Verdict
parse_body cmd len ptr =
    let end = u16 (ptr + 13 + len + 65533) in
    if not (all_equal 0 (take 6 (drop ptr cmd)))
    then refused
    else if not (all_equal 255 (take 6 (drop (ptr + 6) cmd)))
    then refused
    else check_crc cmd end
        (accepted (get_or cmd (ptr + 12) 0) (drop (ptr + 13) cmd) (u16 (end + 65536 - (ptr + 13))))

unfoldable pub parse_command : (cmd : List ℕ) → Verdict
parse_command cmd =
    if not (get_or cmd 0 0 == 85)
    then refused
    else if get_or cmd 1 0 == 255
    then parse_body cmd (get_or cmd 2 0 * 256 + get_or cmd 3 0) 4
    else parse_body cmd (get_or cmd 1 0) 2

-- `GetUserList`, tried again while it fails and `retry` is left; the answers are the monitor's.
unfoldable pub get_user_list :
    (retry : ℕ) (answers : List (Option (List (List ℕ)))) → Option (List (List ℕ))
get_user_list zero answers = none
get_user_list (suc retry) [] = none
get_user_list (suc retry) (some users ∷ answers) = some users
get_user_list (suc retry) (none ∷ answers) = get_user_list retry answers

abbrev pub same_bytes : List ℕ → List ℕ → Bool
same_bytes [] [] = true
same_bytes (x ∷ xs) (y ∷ ys) = (x == y) && same_bytes xs ys
same_bytes _ _ = false

abbrev pub has_user : List (List ℕ) → (uid : List ℕ) → Bool
has_user [] uid = false
has_user (user ∷ users) uid = same_bytes user uid || has_user users uid

-- What is passed on to the monitor of the valves: the user, the buffer from the rest of the data on, and
-- the length of that.
pub data ToValve : Type 0 where
  query_user : (uid data' : List ℕ) (len : ℕ) → ToValve
  recharge : (uid data' : List ℕ) (len : ℕ) → ToValve

-- `none` is a read outside of `cmd`, or an outcome `none` of the acknowledgement.
unfoldable pub handle_query_user :
    CardHost
    → (answers : List (Option (List (List ℕ)))) (data' : List ℕ) (len : ℕ)
    → Option (CardHost × Option ToValve)
handle_query_user host answers data' len =
    let uid = take 8 data' in
    let unknown = (do host' ← ack_query_user host uid none 0; some (host', none)) in
    if ltb (length data') 8 then none else elim (get_user_list 3 answers) [
      | none ↦ unknown
      | some users ↦
          if not (has_user users uid)
          then unknown
          else if len == 8
          then (do host' ← ack_query_user host uid (some data') 0; some (host', none))
          else some (host, some (query_user uid (drop 8 data') (u16 (len + 65536 - 8))))
    ]

unfoldable pub handle_recharge :
    CardHost
    → (answers : List (Option (List (List ℕ)))) (data' : List ℕ) (len : ℕ)
    → Option (CardHost × Option ToValve)
handle_recharge host answers data' len =
    let uid = take 8 data' in
    let unknown = (do host' ← ack_recharge host uid none 0; some (host', none)) in
    if ltb (length data') 8 then none else elim (get_user_list 3 answers) [
      | none ↦ unknown
      | some users ↦
          if not (has_user users uid)
          then unknown
          else some (host, some (recharge uid (drop 8 data') (u16 (len + 65536 - 8))))
    ]

-- Both branches answer with the time.
unfoldable pub handle_get_time : CardHost → (now : Option ℕ) → Option CardHost
handle_get_time host now = ack_time_or_remove host now none 0

-- The loop's addresses: `turns` addresses of six bytes from `data'` on.
unfoldable pub read_addresses : (turns : ℕ) (data' : List ℕ) → Option (List (List ℕ))
read_addresses zero data' = some []
read_addresses (suc turns) data' =
    let rest = read_addresses turns (drop 6 data') in
    if ltb (length data') 6 then none else (do addrs ← rest; some (take 6 data' ∷ addrs))

-- The bound of the loop: the smaller of the announced bytes and `len - 1`, which is -1 and becomes 65535
-- when there is no data. (The counter, a `uint16`, then never gets there: the turns here stop being
-- those of the loop only behind the buffer.)
unfoldable pub info_bytes : (count len : ℕ) → ℕ
info_bytes count len =
    if len == 0 then 65535 else if ltb (u16 (count * 6)) (len - 1) then u16 (count * 6) else len - 1

unfoldable pub handle_info : CardHost → (data' : List ℕ) (len : ℕ) → Option CardHost
handle_info host data' len = (do
  addrs ← read_addresses ((info_bytes (get_or data' 0 0) len + 5) / 6) (drop 1 data')
  some (record host { info = addrs; info_gotten = true }))

-- `none` is a return of false.
unfoldable pub get_card_info : CardHost → Option (List (List ℕ))
get_card_info host = if host.info_gotten then some host.info else none

-- `ParseAndExecute` on the buffer that holds a frame.
unfoldable pub parse_and_execute :
    CardHost
    → (now : Option ℕ) (answers : List (Option (List (List ℕ)))) (frame : List ℕ)
    → Option (CardHost × Option ToValve)
parse_and_execute host now answers frame = elim (parse_command (buffer_of frame)) [
  | refused ↦ some (host, none)
  | outside ↦ none
  | accepted code data' len ↦
      if code == 1
      then handle_query_user host answers data' len
      else if code == 2
      then handle_recharge host answers data' len
      else if code == 5
      then (do host' ← handle_get_time host now; some (host', none))
      else if code == 245
      then (do host' ← handle_info host data' len; some (host', none))
      else some (host, none)
]
