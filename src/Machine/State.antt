-- ===== src/Machine/State.antt =====
-- The state that the runtimes work on, and what the operating system answers them.
use xaac_thin_client_os.Base.{ℕ, ℤ, Bool, String, Option, List}
use xaac_thin_client_os.Json.{Json}

-- The bytes of a file: a JSON document, or any other contents, told apart by a number.
pub data Content : Type 0 where
  json : Json → Content
  blob : ℕ → Content

pub data Node : Type 0 where
  file : Content → Node
  link : String → Node
  dir : Node

-- The first entry of a path counts.
abbrev pub Disk : Type 0
Disk = List (String × Node)

-- `subprocess.run`: it raises `OSError` or `SubprocessError` (a timeout), or the command ends with
-- a code and its two outputs. A command that a signal ends has some code that is not 0.
pub data Outcome : Type 0 where
  refused : String → Outcome
  completed : ℕ → String → String → Outcome

pub data MemberKind : Type 0 where
  regular directory symbolic_link hard_link character_device block_device fifo : MemberKind

-- `tarfile.TarInfo`
pub record TarMember : Type 0 where
  pub name : String
  pub linkname : String
  pub kind : MemberKind

-- The effects of a run that outlive it, each with what it was made on.
pub data Event : Type 0 where
  ran : List String → Event
  wrote : String → Json → Event
  made_dir : String → Event
  copied : String → String → Event
  removed : String → Event
  archived : String → Event
  extracted : String → Event
  audited : String → Event
  locked : Event
  unlocked : Event

-- The operating system. Its answers may depend on the number of calls made before, so that a host
-- can answer each call of a run as it likes; commands may change any file.
pub record Host : Type 0 where
  pub exec : ℕ → List String → Disk → Outcome × Disk
  pub fault : ℕ → Event → Option String  -- the `OSError` of an effect that fails
  pub sha256 : Content → String
  pub size : Content → ℕ
  pub mtime : ℕ → String → ℕ
  pub executable : String → Bool  -- `os.access(path, os.X_OK)`
  pub now : ℕ → String
  pub new_id : ℕ → String
  pub late : ℕ → Bool  -- `time.monotonic()` has reached the deadline of the loop that asks
  pub int_of : String → Option ℤ  -- `int(s)`
  pub pack : List String → Disk → Content
  pub members : Content → List TarMember
  pub unpack : Content → Disk → Disk
  pub text_of : Content → Option String  -- `read_text`, where the bytes are UTF-8
  pub replaced : Content → String  -- `read_text(errors="replace")`
  pub encode : String → Content
  pub free_bytes : ℕ → ℕ  -- `shutil.disk_usage("/var").free`
  pub kernel : String  -- `os.uname().release`
  pub root_usage : ℕ → ℕ × ℕ × ℕ  -- `shutil.disk_usage("/")`: total, used and free bytes
  pub percent : ℕ → ℕ → ℕ  -- `int(round(used / total * 100))`, in floating point
  pub seconds : ℕ → ℕ  -- `time.time()`
  pub int_of_float : String → Option ℕ  -- `int(float(s))`
  pub which : String → Option String  -- `shutil.which`
  pub repr : Json → String  -- `str` of a list or a dict
  pub dumps : Json → String  -- `json.dumps(…, indent=2)`
  pub digest : Json → String  -- the SHA-256 of `json.dumps`

pub record World : Type 0 where
  pub host : Host
  pub time : ℕ
  pub disk : Disk
  pub trace : List Event  -- the latest effect first
