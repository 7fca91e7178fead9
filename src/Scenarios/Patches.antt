-- ===== src/Scenarios/Patches.antt =====
-- A patch of one new file: extracted, validated, and applied to a workspace.
use botchatgptclaude.Prelude.{◌≡◌, refl, true, false, none, some, [], ◌∷◌, ok, All}
use Prim.Native.String
use botchatgptclaude.Table.{find}
use botchatgptclaude.Text.{
  trim, trim_start, trim_end, space, is_empty, starts_with, contains, segments_from, to_posix,
  collapse_from,
}
use botchatgptclaude.Hub
use botchatgptclaude.Hub.{PatchFileRecord}
use botchatgptclaude.Hub.Tables.{get_patch_set, get_patch_files}
use botchatgptclaude.Command.{normalized}
use botchatgptclaude.Scan.{scan_content, scan_rules}
use botchatgptclaude.TestRunner.{is_command_allowed, has_control}
use botchatgptclaude.Patch.{
  ValidatePatchOptions, validate_patch, validate_file, file_errors, command_errors, has_drive,
  starts_with_slash, has_segment, last_of, in_workflows, content_contains_secret,
}
use botchatgptclaude.Patch.Accepted.{IsAcceptable, validate_patch-IsAcceptable}
use botchatgptclaude.Patch.Applier.{
  is_unsafe_patch_path, Workspace, Disk, apply_file, apply_files, apply_patch_set,
}
use botchatgptclaude.Patch.Applier.Outside.{apply_patch_set-outside}
use botchatgptclaude.Patch.Applier.Changes.{Patches}
use botchatgptclaude.Patch.Applier.Applied.{paths, apply_patch_set-IsApplied}
use botchatgptclaude.Extract.{extract_json_object}
use botchatgptclaude.Extract.Balanced.{
  Body, done, plain, text, group, letter, closed, print, print_quoted, NoBrace, before,
  extract_json_object-print,
}
use botchatgptclaude.Scenarios.Pulls.{patterns, patch, patch_set}

abbrev options : ValidatePatchOptions
options = record { can_delete = false; package_lock_approved = false }

validate_patch-IsAcceptable_example :
    All (IsAcceptable patterns options) patch.files
    × All (λ c. (is_command_allowed c).allowed ≡ true) patch.commands_to_run
validate_patch-IsAcceptable_example = validate_patch-IsAcceptable patterns options patch (
    unfold validate_patch validate_file file_errors command_errors has_drive starts_with_slash
      has_segment last_of in_workflows content_contains_secret trim trim_start trim_end space
      is_empty starts_with contains segments_from to_posix collapse_from normalized scan_content
      scan_rules is_command_allowed has_control in
    refl)

abbrev new_file : PatchFileRecord
new_file = record {
  patch_set_id = "p1";
  file_path = "src/a.ts";
  change_type = Hub.create;
  old_content_hash = none;
  new_content_hash = none;
  patch_hunk = none;
  reason = none;
  new_content_redacted = some "x";
}

abbrev disk : Disk
disk = record {
  resolve = λ root path. String.◌++◌ root (String.◌++◌ "/" path);
  follow = λ path. path;
  entry = λ path. path;
  hash_of = λ content. content;
  redact = λ s. s;
  strict = true;
  read_fails = λ path. false;
  write_fails = λ path. false;
  torn = λ path. none;
  diff_stat = ok "1 file changed";
}

abbrev empty : Workspace
empty path = none

applied_patch :
    (apply_patch_set disk "/w" (patch_set ∷ []) (new_file ∷ []) "p1" empty).1.patch_applied ≡ true
unfolding apply_patch_set apply_files apply_file is_unsafe_patch_path get_patch_set get_patch_files
    find has_drive starts_with_slash has_segment last_of trim trim_start trim_end space is_empty
    starts_with contains segments_from to_posix
applied_patch = refl

apply_patch_set-IsApplied_example :
    Patches disk "/w"
      (get_patch_files "p1" (new_file ∷ []))
      empty
      (apply_patch_set disk "/w" (patch_set ∷ []) (new_file ∷ []) "p1" empty).0
    × ((apply_patch_set disk "/w" (patch_set ∷ []) (new_file ∷ []) "p1" empty).1.changed_files
        ≡ paths disk "/w" (get_patch_files "p1" (new_file ∷ [])))
apply_patch_set-IsApplied_example =
    apply_patch_set-IsApplied disk "/w" (patch_set ∷ []) (new_file ∷ []) "p1" empty applied_patch

apply_patch_set-outside_example :
    (apply_patch_set disk "/w" (patch_set ∷ []) (new_file ∷ []) "p1" empty).0 "/etc/passwd" ≡ none
apply_patch_set-outside_example =
    apply_patch_set-outside disk "/w" (patch_set ∷ []) (new_file ∷ []) "p1" "/etc/passwd" empty
      (λ target inside. (inside, inside)) (unfold starts_with in refl)

-- {"}":{}}
abbrev body : Body
body = text (letter "}" refl refl closed) (plain ":" refl refl refl (group done done))

extract_json_object-print_example :
    extract_json_object (λ s. none) "ok: {\"}\":{}} done" ≡ ok (print (group body done) "")
extract_json_object-print_example =
    extract_json_object-print (λ s. none) body "ok: {\"}\":{}} done" "ok: " " done"
      (unfold NoBrace in (refl, (refl, (refl, (refl, tt)))))
      (unfold trim trim_start trim_end space is_empty before print print_quoted in refl) refl
