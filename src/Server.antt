-- ===== src/Server.antt =====
-- core/server.go: which extensions are set up for a workflow, and how the messages of the core are
-- handed to them. The library structs lists the fields of the configuration: each field that is a
-- struct is given by its name and, for its own fields, their names and whether their value is an
-- extension. `strings.ToLower` is a parameter.
pub mod Extensions
pub mod Step
pub mod Moves
pub mod Handlers
pub mod Invariant
pub mod Merges
pub mod Turns
pub mod Restarts
pub mod Safety
pub mod Late
pub mod Locks
pub mod Start
pub mod Api
pub mod Shutdown
use interlook.Prelude.{
  String, Bool, true, false, Option, none, some, List, [], ◌∷◌, ◌++◌, ◌==◌, if◌then◌else◌, split,
}
use interlook.Comm.{Message}
use interlook.Workflow.{WorkflowStep, WorkflowSteps}

-- a field of the configuration that is a struct
pub record Field : Type 0 where
  pub name : String
  pub fields : List (String × Bool)

abbrev pub has_key : String → List String → Bool
has_key k [] = false
has_key k (j ∷ keys) = if j == k then true else has_key k keys

-- `s.extensions[step.Name] = ...`
unfoldable pub put_key : String → List String → List String
put_key k keys = if has_key k keys then keys else keys ++ k ∷ []

-- A panic ends the search.
infixl 5 ◌>>=◌
abbrev pub ◌>>=◌ :
    Option (List String) → (List String → Option (List String)) → Option (List String)
none >>= f = none
some extensions >>= f = f extensions

module _ (to_lower : String → String) where
  -- The innermost loop. `none` is the panic of the type assertion on a value that is no extension.
  unfoldable pub set_up :
      String → String → List (String × Bool) → List String → Option (List String)
  unfolding put_key
  set_up step ext_name [] extensions = some extensions
  set_up step ext_name ((n, is_extension) ∷ ns) extensions =
      if to_lower n == ext_name
      then if is_extension then set_up step ext_name ns (put_key step extensions) else none
      else set_up step ext_name ns extensions

  unfoldable pub search_fields :
      String → String → String → List Field → List String → Option (List String)
  unfolding set_up
  search_fields step ext_type ext_name [] extensions = some extensions
  search_fields step ext_type ext_name (f ∷ fs) extensions =
      if to_lower f.name == ext_type
      then (do
        found ← set_up step ext_name f.fields extensions
        search_fields step ext_type ext_name fs found)
      else search_fields step ext_type ext_name fs extensions

  -- The body of the loop over the workflow, at a step whose name has these parts.
  unfoldable pub search_step :
      List Field → String → List String → List String → Option (List String)
  unfolding search_fields
  search_step fields step (ext_type ∷ ext_name ∷ []) extensions =
      search_fields step (to_lower ext_type) (to_lower ext_name) fields extensions
  search_step fields step _ extensions = some extensions

  unfoldable pub init_from : List Field → WorkflowSteps → List String → Option (List String)
  unfolding search_step
  init_from fields [] extensions = some extensions
  init_from fields (step ∷ steps) extensions = do
    found ← search_step fields step.name (split b'.' step.name) extensions
    init_from fields steps found

  -- The names of the extensions that `initExtensions` sets up.
  unfoldable pub init_extensions : List Field → WorkflowSteps → Option (List String)
  unfolding init_from
  init_extensions fields workflow = init_from fields workflow []

-- A message for an extension that is not set up is only logged.
unfoldable pub send_message_to_extension : List String → Message → String → List (String × Message)
send_message_to_extension extensions msg name =
    if has_key name extensions then (name, msg) ∷ [] else []

-- The body of the loop of `messageSender`.
unfoldable pub message_sender : List String → Message → List (String × Message)
unfolding send_message_to_extension
message_sender extensions msg = send_message_to_extension extensions msg msg.destination
