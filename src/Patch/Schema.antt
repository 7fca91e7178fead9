-- ===== src/Patch/Schema.antt =====
-- `parsePatchArtifact` of lib/ai-orchestrator/patch/patch-schema.ts. `fenced`, `json_parse` and
-- `issues` stand for the fence pattern, for `JSON.parse` and for the text of zod's issues.
use Prim.Native.String
use botchatgptclaude.Prelude.{
  String, Option, none, some, List, [], ◌∷◌, ◌==◌, if◌then◌else◌, Result, ok, err,
}
use botchatgptclaude.Json.{Json, str, arr, obj, Fields, member, items}
use botchatgptclaude.Payload.{◌>>=◌}
use botchatgptclaude.Extract.{extract_json_object}
use botchatgptclaude.Patch.{PatchFileAction, create, modify, delete, PatchFileSpec, PatchArtifact}

abbrev as_string : Json → Option String
as_string (str s) = some s
as_string _ = none

abbrev as_object : Json → Option Fields
as_object (obj fs) = some fs
as_object _ = none

abbrev as_array : Json → Option (List Json)
as_array (arr vs) = some (items vs)
as_array _ = none

-- `z.enum(["create", "modify", "delete"])`
abbrev action_of : String → Option PatchFileAction
action_of s =
    if s == "create"
    then some create
    else if s == "modify"
    then some modify
    else if s == "delete"
    then some delete
    else none

-- `z.string().min(1)`
abbrev non_empty : String → Option String
non_empty s = if s == "" then none else some s

-- `z.string().optional()`
abbrev optional_string : Option Json → Option (Option String)
optional_string none = some none
optional_string (some v) = do s ← as_string v; some (some s)

-- `z.string().optional().default("")`
abbrev string_or_empty : Option Json → Option String
string_or_empty none = some ""
string_or_empty (some v) = as_string v

unfoldable pub parse_strings : List Json → Option (List String)
parse_strings [] = some []
parse_strings (v ∷ vs) = do s ← as_string v; ss ← parse_strings vs; some (s ∷ ss)

-- `z.array(z.string()).default([])`
abbrev strings_or_none : Option Json → Option (List String)
strings_or_none none = some []
strings_or_none (some v) = do vs ← as_array v; parse_strings vs

unfoldable pub parse_file : Json → Option PatchFileSpec
parse_file v = do
  fs ← as_object v
  p ← member "path" fs
  path ← as_string p
  path ← non_empty path
  a ← member "action" fs
  action ← as_string a
  action ← action_of action
  content ← optional_string (member "content" fs)
  reason ← string_or_empty (member "reason" fs)
  some (record { path = path; action = action; content = content; reason = reason })

unfoldable pub parse_files : List Json → Option (List PatchFileSpec)
parse_files [] = some []
parse_files (v ∷ vs) = do f ← parse_file v; fs ← parse_files vs; some (f ∷ fs)

-- `.min(1)` on the files
abbrev at_least_one : List PatchFileSpec → Option (List PatchFileSpec)
at_least_one [] = none
at_least_one (f ∷ fs) = some (f ∷ fs)

-- `PatchArtifactSchema.safeParse`
unfoldable pub safe_parse : Json → Option PatchArtifact
safe_parse v = do
  fs ← as_object v
  l ← member "files" fs
  vs ← as_array l
  files ← parse_files vs
  files ← at_least_one files
  commands ← strings_or_none (member "commands_to_run" fs)
  notes ← strings_or_none (member "risk_notes" fs)
  some (record { files = files; commands_to_run = commands; risk_notes = notes })

module _ (fenced : String → Option String) (json_parse : String → Result Json)
    (issues : Json → String) where
  abbrev checked : Json → Option PatchArtifact → Result PatchArtifact
  checked v none = err (String.◌++◌ "Patch does not match schema: " (issues v))
  checked v (some patch) = ok patch

  abbrev parsed : Result Json → Result PatchArtifact
  parsed (err m) = err (String.◌++◌ "Invalid JSON: " m)
  parsed (ok v) = checked v (safe_parse v)

  abbrev extracted : Result String → Result PatchArtifact
  extracted (err m) = err (String.◌++◌ "No JSON patch object found: " m)
  extracted (ok json) = parsed (json_parse json)

  unfoldable pub parse_patch_artifact : String → Result PatchArtifact
  parse_patch_artifact text = extracted (extract_json_object fenced text)
