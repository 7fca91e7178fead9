-- ===== src/Patch.antt =====
-- Patch artifacts: the records of lib/ai-orchestrator/patch/patch-schema.ts and `validatePatch` of
-- patch/patch-validator.ts. The patterns on paths are read off the `/`-separated segments; the
-- patterns on contents and the redaction are in `Patterns`.
pub mod Schema
pub mod Applier
pub mod Accepted
use Prim.Native.Char.{code}
use Prim.Native.String
use botchatgptclaude.Prelude.{
  ℕ, leb, eqb, String, Bool, true, false, not, ◌&&◌, ◌||◌, Option, none, some, get_or, List, [],
  ◌∷◌, ◌++◌, ◌==◌, if◌then◌else◌, filter,
}
use botchatgptclaude.Text.{is_empty, trim, starts_with, contains, segments, to_posix}
use botchatgptclaude.Scan.{
  Found, SafetyCategory, SafetyViolation, scan_content, destructive_migration,
}
use botchatgptclaude.TestRunner.{is_command_allowed}

pub data PatchFileAction : Type 0 where
  create modify delete : PatchFileAction

pub record PatchFileSpec : Type 0 where
  pub path : String
  pub action : PatchFileAction
  pub content : Option String
  pub reason : String

pub record PatchArtifact : Type 0 where
  pub files : List PatchFileSpec
  pub commands_to_run : List String
  pub risk_notes : List String

pub record ValidatePatchOptions : Type 0 where
  pub can_delete : Bool
  pub package_lock_approved : Bool

pub record PatchFileFinding : Type 0 where
  pub path : String
  pub action : PatchFileAction
  pub errors : List String

pub record PatchValidationResult : Type 0 where
  pub ok : Bool
  pub errors : List String
  pub file_findings : List PatchFileFinding

pub record Patterns : Type 0 where
  pub found : Found
  pub redact : String → String
  -- the three shapes of `extra`, and the deploy words of a workflow
  pub extra_secret : String → Bool
  pub deploys : String → Bool

abbrev is_slash : ℕ → Bool
is_slash c = eqb c 47 || eqb c 92

abbrev is_letter : ℕ → Bool
is_letter c = (leb 65 c && leb c 90) || (leb 97 c && leb c 122)

-- `/^[A-Za-z]:[/\\]/`
unfoldable pub has_drive : String → Bool
has_drive (String.◌∷◌ a (String.◌∷◌ b (String.◌∷◌ c s))) =
    is_letter (code a) && eqb (code b) 58 && is_slash (code c)
has_drive _ = false

-- `/^([/\\])/`
unfoldable pub starts_with_slash : String → Bool
starts_with_slash String.[] = false
starts_with_slash (String.◌∷◌ c s) = is_slash (code c)

abbrev pub is_absolute_path : String → Bool
is_absolute_path p = starts_with_slash p || has_drive p

-- `(^|\/)name(\/|$)`: a segment is the name.
unfoldable pub has_segment : String → List String → Bool
has_segment name [] = false
has_segment name (x ∷ xs) = (x == name) || has_segment name xs

-- `posix.split("/").pop()`
unfoldable pub last_of : List String → String
last_of [] = ""
last_of (x ∷ []) = x
last_of (x ∷ xs) = last_of xs

abbrev pub is_env_file : String → Bool
is_env_file base = (base == ".env") || starts_with ".env." base

-- `(^|\/)\.github\/workflows\/`
unfoldable pub in_workflows : List String → Bool
in_workflows (a ∷ b ∷ c ∷ xs) =
    ((a == ".github") && (b == "workflows")) || in_workflows (b ∷ c ∷ xs)
in_workflows _ = false

abbrev pub push_if : Bool → String → List String → List String
push_if b e rest = if b then e ∷ rest else rest

abbrev pub is_delete : PatchFileAction → Bool
is_delete delete = true
is_delete _ = false

abbrev pub action_text : PatchFileAction → String
action_text create = "create"
action_text modify = "modify"
action_text delete = "delete"

abbrev is_migration : SafetyCategory → Bool
is_migration destructive_migration = true
is_migration _ = false

abbrev is_nil : List SafetyViolation → Bool
is_nil [] = true
is_nil (v ∷ vs) = false

module _ (pats : Patterns) where
  unfoldable pub content_contains_secret : String → Bool
  content_contains_secret text =
      if is_empty text
      then false
      else if not (pats.redact text == text)
      then true
      else pats.extra_secret text

  abbrev pub migrates : String → Bool
  migrates content =
      not (is_nil (filter (λ v. is_migration v.category) (scan_content pats.found false content)))

  abbrev with_path : String → PatchFileSpec → String
  with_path message file = String.◌++◌ message (trim file.path)

  abbrev pub content_of : PatchFileSpec → String
  content_of file = get_or file.content ""

  abbrev pub base_of : PatchFileSpec → String
  base_of file = last_of (segments (to_posix (trim file.path)))

  unfoldable pub validate_file : ValidatePatchOptions → PatchFileSpec → List String
  validate_file opts file =
      push_if (is_absolute_path (trim file.path)) (with_path "absolute path not allowed: " file) (
        push_if (contains ".." (trim file.path))
          (with_path "path traversal ('..') not allowed: " file)
          (push_if (contains "~" (trim file.path))
            (with_path "home-directory ('~') reference not allowed: " file)
            (push_if (has_segment ".git" (segments (to_posix (trim file.path))))
              (with_path "writing inside .git/ is forbidden: " file)
              (push_if (has_segment "node_modules" (segments (to_posix (trim file.path))))
                (with_path "writing inside node_modules/ is forbidden: " file)
                (push_if (is_env_file (base_of file))
                  (with_path "modifying env files is forbidden: " file)
                  (push_if ((base_of file == "package-lock.json") && not opts.package_lock_approved)
                    (with_path
                      "package-lock.json requires explicit approval (packageLockApproved): " file)
                    (push_if
                      (in_workflows (segments (to_posix (trim file.path)))
                        && pats.deploys (content_of file))
                      (with_path "CI workflow production deploy is forbidden: " file)
                      (push_if (is_delete file.action && not opts.can_delete)
                        (with_path "delete requires owner/admin role: " file)
                        (push_if (not (is_delete file.action) && is_empty (trim (content_of file)))
                          (String.◌++◌ (action_text file.action)
                            (with_path " requires non-empty content: " file))
                          (push_if (migrates (content_of file))
                            (with_path "destructive migration is forbidden: " file)
                            (push_if
                              (content_contains_secret (content_of file)
                                || content_contains_secret file.reason)
                              (with_path "secret/token detected in patch content: " file)
                              [])))))))))))

  unfoldable pub file_errors : ValidatePatchOptions → List PatchFileSpec → List String
  file_errors opts [] = []
  file_errors opts (file ∷ files) = validate_file opts file ++ file_errors opts files

  unfoldable pub file_findings : ValidatePatchOptions → List PatchFileSpec → List PatchFileFinding
  file_findings opts [] = []
  file_findings opts (file ∷ files) =
      (record { path = file.path; action = file.action; errors = validate_file opts file })
      ∷ file_findings opts files

  abbrev command_error : String → String
  command_error cmd =
      String.◌++◌ "command not allowed: \""
        (String.◌++◌ cmd (String.◌++◌ "\" (" (String.◌++◌ (is_command_allowed cmd).reason ")")))

  unfoldable pub command_errors : List String → List String
  command_errors [] = []
  command_errors (cmd ∷ cmds) =
      push_if (not (is_command_allowed cmd).allowed) (command_error cmd) (command_errors cmds)

  abbrev pub is_clean : List String → Bool
  is_clean [] = true
  is_clean (e ∷ es) = false

  unfoldable pub validate_patch : ValidatePatchOptions → PatchArtifact → PatchValidationResult
  validate_patch opts patch =
      let errors = file_errors opts patch.files ++ command_errors patch.commands_to_run in
      record {
        ok = is_clean errors;
        errors = errors;
        file_findings = file_findings opts patch.files;
      }
