-- ===== src/Ledger/State.antt =====
-- internal/ledger/ledger.go: how far a finding got, and the objects that say so.
use mathlib.Core.List.{[]}
use ai_k8s.Prelude.{
  ◌<>◌, String, Bool, not, Option, none, some, List, ◌∷◌, if◌then◌else◌, ◌==◌, Eq-string, Result,
  ok, err, failed, wrap, ℤ, pos, negsuc, ltbℤ,
}
use ai_k8s.Text.{trim_prefix, trim_suffix, has_char}
use ai_k8s.Text.Format.{quote}
use ai_k8s.Ledger.Store.{Store, create, list, read}

-- `other` is any other text, the unset state "" among them.
pub data State : Type 0 where
  received classified notification_attempted acknowledged : State
  other : String → State

abbrev pub state_text : State → String
state_text received = "received"
state_text classified = "classified"
state_text notification_attempted = "notification_attempted"
state_text acknowledged = "acknowledged"
state_text (other s) = s

-- The conversion `State(s)`.
unfoldable pub state_of : String → State
state_of s =
    if s == "received"
    then received
    else if s == "classified"
    then classified
    else if s == "notification_attempted"
    then notification_attempted
    else if s == "acknowledged"
    then acknowledged
    else other s

-- The place in `order`, or -1.
abbrev pub rank : State → ℤ
rank received = pos 0
rank classified = pos 1
rank notification_attempted = pos 2
rank acknowledged = pos 3
rank (other s) = negsuc 0

-- `State.Before`
unfoldable pub before : State → State → Bool
before s t = ltbℤ (rank s) (rank t)

abbrev pub is_state : State → Bool
is_state s = not (ltbℤ (rank s) (pos 0))

unfoldable pub object_name : String → State → String
object_name key s = key <> ("/" <> (state_text s <> ".json"))

-- What one name that is listed under `key/` says, if anything: the body of the loop of `Furthest`.
unfoldable pub state_in : String → String → Option State
state_in key name =
    let tail = trim_prefix name (key <> "/") in
    let s = state_of (trim_suffix tail ".json") in
    if has_char b'/' tail then none else if is_state s then some s else none

-- `furthest, found` after one more name; `none` is "nothing found".
unfoldable pub further : Option State → Option State → Option State
further sofar none = sofar
further none (some s) = some s
further (some t) (some s) = if before t s then some s else some t

unfoldable pub furthest_of : String → Option State → List String → Option State
furthest_of key sofar [] = sofar
furthest_of key sofar (name ∷ names) = furthest_of key (further sofar (state_in key name)) names

abbrev pub furthest_in : String → Result (List String) → Result (Option State)
furthest_in key (ok names) = ok (furthest_of key none names)
furthest_in key (err e) = err (wrap ("ledger: list " <> (key <> "/")) e)

module _ {Bytes : Type 0} where
  -- `Ledger.Write`
  unfoldable pub write : String → State → Bytes → Store Bytes → Result (Unit {0}) × Store Bytes
  write key s body st =
      if is_state s
      then create (object_name key s) body st
      else (err (failed ("ledger: " <> (quote (state_text s) <> " is not a state"))), st)

  -- `Ledger.Furthest`; `none` is `found == false`.
  unfoldable pub furthest : String → Store Bytes → Result (Option State) × Store Bytes
  furthest key st = let (names, st') = list (key <> "/") st in (furthest_in key names, st')

  -- `Ledger.Read`
  unfoldable pub read_state : String → State → Store Bytes → Result Bytes × Store Bytes
  read_state key s st = read (object_name key s) st
