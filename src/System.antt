-- ===== src/System.antt =====
-- What the launchers have from the operating system and Python's standard library: HTTP requests, files,
-- the clock and other programs. Each is a parameter, a function of what happened before.
pub mod JsonValue
use mathlib.Core.List.{[], ◌∷◌}
use mimi_agent.Base.{ℕ, ◌+◌, ◌*◌, ◌≤◌, String, Bool, Option, List, contains, string_eq}
use mimi_agent.Base.Dict.{Dict, lookup}
use mimi_agent.Base.Exec.{Error, Result, ok, Exec}
use mimi_agent.System.JsonValue.{Value}
use mimi_agent.Scheduler.Number.{ℤ}

-- `urllib.request.Request`, with the certificate file and the timeout it is opened with.
pub record Request : Type 0 where
  pub url : String
  pub method : String
  pub body : Option String
  pub headers : Dict String String
  pub cafile : Option String
  pub timeout : ℕ

-- The body, or the exception: `HTTPError` with its code and body, `URLError`, or any other.
pub data Response : Type 0 where
  answered : String → Response
  http_error : ℕ → String → Response
  unreachable : String → Response
  failed : Error → Response

-- The arguments of `subprocess.run`.
pub record Command : Type 0 where
  pub argv : List String
  pub cwd : Option String
  pub env : Option (Dict String String)
  pub timeout : ℕ

pub record Completed : Type 0 where
  pub returncode : ℤ
  pub stdout : String
  pub stderr : String

-- What a program did, one entry for each contact with its surroundings.
pub data Event : Type 0 where
  opened : Request → Event
  read_file : String → Event
  tested_path : String → Event
  wrote_path : String → String → Event
  read_clock : Event
  slept : ℕ → Event
  ran : Command → Event
  made_tempdir : Event
  made_dir : String → Event

abbrev pub History : Type 0
History = List Event

-- The clock counts microseconds. `loads`, `dumps` and `dumps_indented` are those of `json`, the last with `indent=2`; `show` is the text of a
-- value that is no text in an f-string, `http_text` that of an
-- `HTTPError` with its code.
pub record System : Type 0 where
  pub environ : Dict String String
  pub urlopen : History → Request → Response
  pub file_text : History → String → Result String
  pub file_exists : History → String → Bool
  pub write : History → String → String → Result (Unit {0})
  pub clock : History → ℕ
  pub run : History → Command → Result Completed
  pub tempdir : History → String
  pub mkdir : History → String → Result (Unit {0})
  pub loads : String → Result Value
  pub dumps : Value → String
  pub dumps_indented : Value → String
  pub show : Value → String
  pub http_text : ℕ → String

-- `time.monotonic` never goes back, and `time.sleep` lasts at least as long as it is told.
pub record IsMonotonic (x : System) : Type 0 where
  pub forward : (past : History) (event : Event) → x.clock past ≤ x.clock (event ∷ past)
  pub rests :
      (past : History) (seconds : ℕ)
      → x.clock past + seconds * 1000000 ≤ x.clock (slept seconds ∷ past)

-- The subclasses of `OSError` that reading a file raises.
unfoldable pub is_os_error : Error → Bool
is_os_error e =
    contains
      ("OSError" ∷ "FileNotFoundError" ∷ "PermissionError" ∷ "IsADirectoryError"
        ∷ "NotADirectoryError" ∷ "TimeoutError" ∷ [])
      e.kind

module _ (x : System) where
  -- `f"{value}"`
  abbrev pub shown : Value → String
  shown (JsonValue.text s) = s
  shown v = x.show v

  -- `os.environ.get(name)`
  unfoldable pub getenv : String → Option String
  getenv name = lookup name x.environ

  unfoldable pub open_url : Request → Exec History Response
  open_url request past = (ok (x.urlopen past request), opened request ∷ past)

  unfoldable pub read_text : String → Exec History String
  read_text path past = (x.file_text past path, read_file path ∷ past)

  unfoldable pub path_exists : String → Exec History Bool
  path_exists path past = (ok (x.file_exists past path), tested_path path ∷ past)

  unfoldable pub write_text : String → String → Exec History (Unit {0})
  write_text path content past = (x.write past path content, wrote_path path content ∷ past)

  unfoldable pub monotonic : Exec History ℕ
  monotonic past = (ok (x.clock past), read_clock ∷ past)

  unfoldable pub sleep : ℕ → Exec History (Unit {0})
  sleep seconds past = (ok tt, slept seconds ∷ past)

  unfoldable pub run_command : Command → Exec History Completed
  run_command command past = (x.run past command, ran command ∷ past)

  unfoldable pub make_tempdir : Exec History String
  make_tempdir past = (ok (x.tempdir past), made_tempdir ∷ past)

  -- `path.mkdir(parents=True, exist_ok=True)`
  unfoldable pub make_directory : String → Exec History (Unit {0})
  make_directory path past = (x.mkdir past path, made_dir path ∷ past)
