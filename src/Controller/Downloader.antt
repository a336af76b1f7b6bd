-- ===== src/Controller/Downloader.antt =====
-- `ApkDownloader` of tv_controller/apk_manager.py. The network, the clock that it measures its patience
-- with and `inspect_apk` are parameters; a response is the list of its chunks' lengths, and the error in
-- which it breaks off if it does. The repository's folder is a dict of files, of which the part of a
-- download is one. Fractions of the progress are exact quotients.
pub mod Storing
pub mod Waiting
pub mod Folder
pub mod Leftovers
use Prim.Native.Char.{Char, code}
use tv_safety_cleaner.Prelude.{
  ℕ, suc, ◌+◌, ◌-◌, ◌*◌, ◌/◌, ◌<>◌, String, Bool, true, false, Option, none, some, List, [], ◌∷◌,
  not, ◌&&◌, ◌||◌, ◌==◌, nat_eq, string_eq, if◌then◌else◌, is_empty, leb, ltb, show, is_digit,
  codes, lower, starts_with, same_codes,
}
use tv_safety_cleaner.Prelude.Dict.{Dict, lookup, insert}
use tv_safety_cleaner.Prelude.Matching.{or_else, span}
use tv_safety_cleaner.Prelude.Json.{
  object, Json, bool, num, str, null, arr, obj, no_items, item, no_fields, field,
}
use tv_safety_cleaner.Exec.{
  Exec, Result, ok, err, Error, refusal, os_error, value_error, message, pure, raise, lift,
  raise_if, catch, ◌>>=◌, ◌>>◌,
}
use tv_safety_cleaner.Controller.Names.{UrlLib, parse_package_input, safe_apk_filename}
use tv_safety_cleaner.Controller.Tasks
use tv_safety_cleaner.Controller.Tasks.{Tasks}

pub data File : Type 0 where
  bytes : (length : ℕ) → File
  document : Dict Json → File

-- `total` is the declared length, or 0.
pub record Response : Type 0 where
  pub total : ℕ
  pub chunks : List ℕ
  pub broken : Option Error

pub record DownloadUrl : Type 0 where
  pub scheme : String
  pub hostname : String
  pub name : String

pub record Net (W : Type 0) : Type 0 where
  -- A `value_error` of it stands for a `json.JSONDecodeError`; any other ValueError is an `other`.
  pub fetch_json : String → Exec W (Dict Json)
  -- `str` of an array or an object.
  pub show_json : Json → String
  pub open_url : String → Exec W Response
  pub sleep : ℕ → Exec W (Unit {0})
  pub clock : W → ℕ
  pub quote : String → String
  pub parse_url : String → DownloadUrl
  -- `inspect_apk` of a file of this length.
  pub inspect : ℕ → Exec W String

pub record Downloads (W : Type 0) : Type 0 where
  pub outside : W
  pub tasks : Tasks
  pub files : Dict File
  pub now : ℕ

abbrev pub max_apk_bytes : ℕ
max_apk_bytes = 524288000

abbrev pub poll_timeout : ℕ
poll_timeout = 180

abbrev unescaped : Char → String → String → String
unescaped c String.[] rest = String.◌∷◌ c ""
unescaped c (String.◌∷◌ d s) rest =
    if code c == b'\\' && code d == b'/' then rest else String.◌∷◌ c rest

-- `value.replace("\\/", "/")`
unfoldable pub without_escapes : String → String
without_escapes String.[] = ""
without_escapes (String.◌∷◌ c s) = let rest = without_escapes s in unescaped c s rest

-- `str(value)`; what it prints for an array or an object is the parameter.
abbrev pub printed : (Json → String) → Json → String
printed other null = "None"
printed other (bool true) = "True"
printed other (bool false) = "False"
printed other (num n) = show n
printed other (str s) = s
printed other v = other v

-- `str(answer.get(key, ""))`
abbrev pub text_of : (Json → String) → Option Json → String
text_of other none = ""
text_of other (some v) = printed other v

-- The truth of a value.
abbrev is_truthy : Json → Bool
is_truthy null = false
is_truthy (bool b) = b
is_truthy (num n) = not (n == 0)
is_truthy (str s) = not (is_empty s)
is_truthy (arr no_items) = false
is_truthy (arr (item _ _)) = true
is_truthy (obj no_fields) = false
is_truthy (obj (field _ _ _)) = true

-- `str(value or …)`
abbrev printed_or : (Json → String) → Option Json → String → String
printed_or other none fallback = fallback
printed_or other (some v) fallback = if is_truthy v then printed other v else fallback

-- `int(digits)`
abbrev pub decimal : ℕ → String → ℕ
decimal n String.[] = n
decimal n (String.◌∷◌ c s) = decimal (n * 10 + (code c - b'0')) s

abbrev is_true : Option Json → Bool
is_true (some (bool b)) = b
is_true _ = false

abbrev pub or_text : String → String → String
or_text a b = if is_empty a then b else a

-- What an answer that has been read says, with the parameter of `printed`.
module _ (other : Json → String) where
  abbrev message_of : Dict Json → String
  message_of answer =
      printed_or other (lookup "message" answer)
        (printed_or other (lookup "status" answer) "Processing")

  abbrev url_of : Dict Json → String
  url_of answer = without_escapes (text_of other (lookup "downloadUrl" answer))

  abbrev is_ready : Dict Json → Bool
  is_ready answer = is_true (lookup "success" answer) && not (is_empty (url_of answer))

-- (HTTPError, URLError, TimeoutError, json.JSONDecodeError, OSError)
abbrev is_awaited : Error → Bool
is_awaited (os_error e) = true
is_awaited (value_error e) = true
is_awaited e = false

abbrev pub pause_after : ℕ → ℕ
pause_after attempt = if leb attempt 6 then 5 else 10

abbrev pub within : ℕ → ℕ → ℕ → ℕ
within low high n = if leb n low then low else if leb high n then high else n

abbrev pub waiting : ℕ → ℕ → ℕ → String → Dict Json
waiting attempt timeout elapsed text =
    ("stage", str "waiting")
    ∷ ("status", str "Waiting for APK link")
    ∷ ("attempt", num attempt)
    ∷ ("wait_seconds", num timeout)
    ∷ ("elapsed_seconds", num elapsed)
    ∷ ("progress", num (within 1 17 (elapsed * 17 / timeout)))
    ∷ ("message", str text)
    ∷ []

-- What an attempt ends in, or the message with which the loop goes on.
pub data Attempt : Type 0 where
  got : Dict Json → Attempt
  failed : Error → Attempt
  again : String → Attempt

unfoldable pub attempt_of : (Json → String) → Result (Dict Json) → Attempt
unfolding lookup insert without_escapes
attempt_of other (err e) = if is_awaited e then again (message e) else failed e
attempt_of other (ok answer) =
    if is_ready other answer
    then got (insert "downloadUrl" (str (url_of other answer)) answer)
    else again (message_of other answer)

pub data Step (W : Type 0) : Type 0 where
  stop : Result (Dict Json) → Downloads W → Step W
  go : String → Downloads W → Step W

module _ {W A : Type 0} where
  unfoldable pub on_net : Exec W A → Exec (Downloads W) A
  on_net m s = ((m s.outside).0, record s { outside = (m s.outside).1 })

abbrev pub reported : Result Tasks.Task → Result (Unit {0})
reported (err e) = err e
reported (ok _) = ok tt

module _ {W : Type 0} where
  -- `self.repository.tasks.update(task_id, …)`
  unfoldable pub report : String → Dict Json → Exec (Downloads W) (Unit {0})
  report task changes s = (
    reported (Tasks.update s.now task changes s.tasks).0,
    record s { tasks = (Tasks.update s.now task changes s.tasks).1 },
  )

module _ {W : Type 0} (net : Net W) where
  abbrev pub time : Downloads W → ℕ
  time s = net.clock s.outside

  -- The report and the pause between two attempts.
  unfoldable pub wait : ℕ → String → ℕ → ℕ → String → Exec (Downloads W) (Unit {0})
  unfolding report on_net
  wait timeout task started attempt text s =
      (report task (waiting attempt timeout (time s - started) text)
          >> on_net (net.sleep (pause_after attempt)))
        s

  abbrev pub waited : String → Result (Unit {0}) × Downloads W → Step W
  waited text (ok _, s) = go text s
  waited text (err e, s) = stop (err e) s

  abbrev pub followed : ℕ → String → ℕ → ℕ → Attempt → Downloads W → Step W
  followed timeout task started attempt (got answer) s = stop (ok answer) s
  followed timeout task started attempt (failed e) s = stop (err e) s
  followed timeout task started attempt (again text) s =
      waited text (wait timeout task started attempt text s)

  -- One turn of the loop of `_poll`.
  unfoldable pub attempt_once : ℕ → String → String → ℕ → ℕ → Downloads W → Step W
  unfolding on_net attempt_of
  attempt_once timeout url task started attempt s =
      followed timeout task started attempt
        (attempt_of net.show_json (on_net (net.fetch_json url) s).0)
        (on_net (net.fetch_json url) s).1

  -- The loop; nothing where the fuel is spent.
  unfoldable pub poll_from :
      ℕ
      → ℕ
      → String
      → String
      → String
      → ℕ
      → ℕ
      → String
      → Downloads W
      → Option (Result (Dict Json) × Downloads W)
  unfolding attempt_once
  poll_from ℕ.zero timeout p url task started attempt text s = none
  poll_from (suc fuel) timeout p url task started attempt text s =
      if leb (started + timeout) (time s)
      then some (err (os_error ("APK downloader timeout for " <> p <> ": " <> text)), s)
      else elim (attempt_once timeout url task started (suc attempt) s) [
        | stop r t ↦ some (r, t)
        | go later t ↦ poll_from fuel timeout p url task started (suc attempt) later t
      ]

  abbrev pub or_stuck :
      Downloads W → Option (Result (Dict Json) × Downloads W) → Result (Dict Json) × Downloads W
  or_stuck s none = (err (os_error "out of fuel"), s)
  or_stuck s (some r) = r

  -- `_poll`
  unfoldable pub poll : String → String → String → Exec (Downloads W) (Dict Json)
  unfolding poll_from
  poll endpoint p task s = or_stuck s (
      poll_from (suc poll_timeout) poll_timeout p (endpoint <> "&id=" <> net.quote p) task (time s)
        0 "No response" s)
