-- ===== src/Log.antt =====
-- log/logger.go: which function a line of the log is said to come from, the ten functions that log,
-- and `Init`. The package runtime gives the caller (`Caller`), and the logging library is a list of
-- the calls that it gets. Its `ParseLevel`, `strings.ToLower` and the opening of a file are parameters.
pub mod Names
use Prim.Native.String
use interlook.Prelude.{
  ℕ, String, Bool, true, false, ◌||◌, Option, none, some, List, [], ◌∷◌, ◌++◌, ◌==◌, eqb, code,
  if◌then◌else◌, split, join, first_or,
}
use interlook.Strconv.{text, last_or}

-- What `runtime.Caller` and `runtime.FuncForPC` say of a call.
pub record Caller : Type 0 where
  pub file : String
  pub name : String
  pub line : ℕ

pub record CallInfo : Type 0 where
  pub package_name : String
  pub file_name : String
  pub func_name : String
  pub line : ℕ

-- `path.Split`: what follows the last slash
unfoldable pub base : String → String
unfolding split
base file = last_or "" (split b'/' file)

pub record Ends : Type 0 where
  pub before : List String  -- parts[0:pl-2]
  pub next_last : String  -- parts[pl-2]
  pub last : String  -- parts[pl-1]

abbrev pub put_before : String → Option Ends → Option Ends
put_before a none = none
put_before a (some e) = some (record e { before = a ∷ e.before })

-- The last two parts; `none` is an index out of range.
unfoldable pub ends : List String → Option Ends
ends [] = none
ends (a ∷ []) = none
ends (a ∷ b ∷ []) = some (record { before = []; next_last = a; last = b })
ends (a ∷ b ∷ c ∷ parts) = put_before a (ends (b ∷ c ∷ parts))

-- `part[0] == '('`, which is out of range on the empty text
abbrev pub opens_receiver : String → Option Bool
opens_receiver String.[] = none
opens_receiver (String.◌∷◌ ch s) = some (eqb (code ch) b'(')

-- `strings.Join(parts, ".")`
abbrev pub dotted : List String → String
dotted = join "."

abbrev pub named : Caller → String → String → CallInfo
named c package_name func_name = record {
  package_name = package_name;
  file_name = base c.file;
  func_name = func_name;
  line = c.line;
}

-- A name with a receiver has it in its last part but one.
abbrev pub info_of : Caller → Ends → Option Bool → Option CallInfo
info_of c e none = none
info_of c e (some true) = some (named c (dotted e.before) (text (e.next_last ∷ "." ∷ e.last ∷ [])))
info_of c e (some false) = some (named c (dotted (e.before ++ e.next_last ∷ [])) e.last)

abbrev pub info_at : Caller → Option Ends → Option CallInfo
info_at c none = none
info_at c (some e) = info_of c e (opens_receiver e.next_last)

-- `none` is a panic.
unfoldable pub retrieve_call_info : Caller → Option CallInfo
unfolding split ends base join
retrieve_call_info c = info_at c (ends (split b'.' c.name))

pub data Level : Type 0 where
  debug_level info_level warn_level error_level fatal_level : Level

-- A call of the library: with its fields, and a format or none.
pub record LogCall : Type 0 where
  pub level : Level
  pub fields : CallInfo
  pub format : Option String
  pub args : List String

pub data Output : Type 0 where
  to_stdout : Output
  to_file : String → Output

-- The library's state: the minimal level by its number, and the calls that it got.
pub record Logger : Type 0 where
  pub level : ℕ
  pub output : Output
  pub calls : List LogCall
  pub messages : List String  -- those of `Init`

abbrev pub with_fields :
    Level → Option String → List String → Option CallInfo → Logger → Option Logger
with_fields level format args none l = none
with_fields level format args (some fields) l = some (record l {
  calls = l.calls ++ record { level = level; fields = fields; format = format; args = args } ∷ [];
})

unfoldable pub debug : Caller → List String → Logger → Option Logger
unfolding retrieve_call_info
debug c args l = with_fields debug_level none args (retrieve_call_info c) l

unfoldable pub debugf : Caller → String → List String → Logger → Option Logger
unfolding retrieve_call_info
debugf c format args l = with_fields debug_level (some format) args (retrieve_call_info c) l

unfoldable pub info : Caller → List String → Logger → Option Logger
unfolding retrieve_call_info
info c args l = with_fields info_level none args (retrieve_call_info c) l

unfoldable pub infof : Caller → String → List String → Logger → Option Logger
unfolding retrieve_call_info
infof c format args l = with_fields info_level (some format) args (retrieve_call_info c) l

unfoldable pub warn : Caller → List String → Logger → Option Logger
unfolding retrieve_call_info
warn c args l = with_fields warn_level none args (retrieve_call_info c) l

unfoldable pub warnf : Caller → String → List String → Logger → Option Logger
unfolding retrieve_call_info
warnf c format args l = with_fields warn_level (some format) args (retrieve_call_info c) l

unfoldable pub error : Caller → List String → Logger → Option Logger
unfolding retrieve_call_info
error c args l = with_fields error_level none args (retrieve_call_info c) l

unfoldable pub errorf : Caller → String → List String → Logger → Option Logger
unfolding retrieve_call_info
errorf c format args l = with_fields error_level (some format) args (retrieve_call_info c) l

-- The library ends the process after the call.
unfoldable pub fatal : Caller → List String → Logger → Option Logger
unfolding retrieve_call_info
fatal c args l = with_fields fatal_level none args (retrieve_call_info c) l

unfoldable pub fatalf : Caller → String → List String → Logger → Option Logger
unfolding retrieve_call_info
fatalf c format args l = with_fields fatal_level (some format) args (retrieve_call_info c) l

-- `parse_level` gives the level, also where it gives an error; `open_file` an error or none.
module _ (to_lower : String → String) (parse_level : String → ℕ × Option String)
    (open_file : String → Option String) where
  abbrev pub opened : String → Option String → Logger → Logger
  opened file none l = record l {
    output = to_file file;
    messages = l.messages ++ "logger initialized" ∷ [];
  }
  opened file (some e) l = record l {
    output = to_stdout;
    messages =
        l.messages
        ++ text ("Could not access log file (" ∷ e ∷ "), falling back to STDOUT" ∷ [])
          ∷ "Logger initialized"
          ∷ [];
  }

  unfoldable pub init_log : String → String → Logger → Logger
  init_log file level l =
      let leveled = record l { level = (parse_level level).0 } in
      if to_lower file == "stdout" || file == ""
      then record leveled { output = to_stdout; messages = l.messages ++ "logger initialized" ∷ [] }
      else opened file (open_file file) leveled
