-- ===== src/Server/Api.antt =====
-- core/api.go: what the server answers over HTTP. `encoding/json` is a record of the texts that its
-- encoder writes, and the multiplexer of `net/http` answers each of the five patterns, which end in
-- no slash, at its own path alone.
use Prim.Native.String
use interlook.Prelude.{ℕ, ◌≡◌, refl, length, String, Option, none, some, List, [], ◌∷◌}
use interlook.Calls.{Result, ok, failed}
use interlook.Strconv.{itoa}
use interlook.Dict.{lookup}
use interlook.Workflow.{WorkflowSteps}
use interlook.Entries.Files.{Values, exported, followed, exported_all}
use interlook.Entries.Files.Restart.{IsClosedIn, AreKeys, entry_of, found_or, found_or-followed}
use mathlib.Core.Option
use interlook.Config.{ServerConfiguration}
use interlook.Server.Start.{ServerState}

pub record Response : Type 0 where
  pub status : ℕ
  pub content_type : String
  pub body : String

-- `json.NewEncoder(w).Encode`. The fields of an extension's channels are not exported, so that the
-- encoder sees the names alone.
pub record Encoder : Type 0 where
  pub entries : Values → Result String
  pub steps : WorkflowSteps → Result String
  pub channels : List String → Result String
  pub version : String → Result String

-- The status is 200 where none is written, and an error of the encoder is only logged.
abbrev pub json_of : Result String → Response
json_of (failed e) = record { status = 200; content_type = "application/json"; body = "" }
json_of (ok text) = record { status = 200; content_type = "application/json"; body = text }

abbrev pub not_found : Response
not_found = record {
  status = 404;
  content_type = "text/plain; charset=utf-8";
  body = "404 page not found\n";
}

abbrev pub or_not_found : Option Response → Response
or_not_found none = not_found
or_not_found (some r) = r

unfoldable pub address_of : ServerConfiguration → String
unfolding itoa
address_of cfg = String.◌++◌ ":" (itoa cfg.listen_port)

abbrev pub health : Response
health = record { status = 200; content_type = "application/json"; body = "" }

module _ (encoder : Encoder) (version : String) (s : ServerState) where
  unfoldable pub get_services : Response
  unfolding followed
  get_services = json_of (encoder.entries (exported_all (followed s.table.heap s.table.entries)))

  unfoldable pub get_workflow : Response
  get_workflow = json_of (encoder.steps s.workflow)

  unfoldable pub get_active_extensions : Response
  get_active_extensions = json_of (encoder.channels s.extensions)

  unfoldable pub get_version : Response
  get_version = json_of (encoder.version version)

  unfoldable pub routes : List (String × Response)
  unfolding get_services get_workflow get_active_extensions get_version
  routes =
      ("/health", health)
      ∷ ("/services", get_services)
      ∷ ("/workflow", get_workflow)
      ∷ ("/extensions", get_active_extensions)
      ∷ ("/version", get_version)
      ∷ []

  -- The answer to a request of a path.
  unfoldable pub answer_at : String → Response
  unfolding routes lookup
  answer_at path = or_not_found (lookup path routes)

  -- `/services` shows every service with its entry, without the transition, and no other.
  pub get_services-entries :
      IsClosedIn (length s.table.heap) s.table.entries
      → AreKeys s.table.entries
      → (shown : Values) × (answer_at "/services" ≡ json_of (encoder.entries shown))
        × ((name : String) → found_or none name shown ≡ Option.map exported (entry_of s.table name))
  unfolding answer_at
  get_services-entries closed keys = (
    exported_all (followed s.table.heap s.table.entries),
    refl,
    λ name. found_or-followed name s.table.heap s.table.entries closed keys,
  )
