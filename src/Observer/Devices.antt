-- ===== src/Observer/Devices.antt =====
-- `parse_devices` of tv_observer/adb.py: the lines that `adb devices -l` prints.
use Prim.Native.Char.{code}
use tv_safety_cleaner.Prelude.{
  ◌<>◌, String, Bool, List, [], ◌∷◌, not, ◌||◌, ◌==◌, nat_eq, string_eq, if◌then◌else◌, codes,
  starts_with, strip, is_empty, is_space, split_lines,
}

pub data DeviceState : Type 0 where
  connected disconnected unauthorized offline timeout malformed : DeviceState

pub record Device : Type 0 where
  pub serial : String
  pub state : DeviceState
  pub details : String

-- The words of a text from a place where `word` has been read of the current one.
unfoldable pub words_from : String → String → List String
unfolding is_space
words_from word String.[] = if is_empty word then [] else word ∷ []
words_from word (String.◌∷◌ c s) =
    let ended = words_from "" s in
    let longer = words_from (word <> String.◌∷◌ c "") s in
    if not (is_space (code c)) then longer else if is_empty word then ended else word ∷ ended

-- `s.split()`
unfoldable pub words : String → List String
unfolding words_from
words s = words_from "" s

-- `" ".join(fields)`
abbrev joined : List String → String
joined [] = ""
joined (w ∷ []) = w
joined (w ∷ ws) = w <> " " <> joined ws

-- `states.get(raw_state, DeviceState.MALFORMED)`
unfoldable pub state_of : String → DeviceState
state_of raw =
    if raw == "device"
    then connected
    else if raw == "offline"
    then offline
    else if raw == "unauthorized"
    then unauthorized
    else malformed

abbrev pub device_of : List String → Device
device_of [] = record { serial = "?"; state = malformed; details = "" }
device_of (serial ∷ []) = record { serial = serial; state = malformed; details = "" }
device_of (serial ∷ raw ∷ fields) = record {
  serial = serial;
  state = state_of raw;
  details = joined fields;
}

-- A line that is no device: blank, the header, or a message of the daemon.
unfoldable pub is_skipped : String → Bool
unfolding starts_with
is_skipped line =
    is_empty line
    || starts_with (codes line) (codes "List of devices")
    || starts_with (codes line) (codes "*")

unfoldable pub parse_lines : List String → List Device
unfolding words is_skipped
parse_lines [] = []
parse_lines (line ∷ lines) =
    let rest = parse_lines lines in
    if is_skipped (strip line) then rest else device_of (words (strip line)) ∷ rest

unfoldable pub parse_devices : String → List Device
unfolding parse_lines split_lines
parse_devices output = parse_lines (split_lines output)
