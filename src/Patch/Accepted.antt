-- ===== src/Patch/Accepted.antt =====
-- What the validator lets through.
use botchatgptclaude.Prelude.{
  String, ◌≡◌, refl, Bool, true, false, not, ◌&&◌, ◌||◌, none, List, [], ◌∷◌, ◌++◌, ◌==◌, arith,
  All,
}
use botchatgptclaude.Text.{is_empty, trim, contains, segments, to_posix}
use botchatgptclaude.TestRunner.{is_command_allowed}
use botchatgptclaude.Patch.{
  PatchFileSpec, PatchArtifact, ValidatePatchOptions, Patterns, starts_with_slash, has_drive,
  has_segment, last_of, in_workflows, is_env_file, push_if, is_delete, content_contains_secret,
  migrates, content_of, base_of, validate_file, file_errors, command_errors, is_clean,
  validate_patch,
}
use botchatgptclaude.Patch.Applier.{is_unsafe_patch_path}

module _ (pats : Patterns) where
  push_if-is_clean :
      (b : Bool) (e : String) (rest : List String)
      → is_clean pats (push_if b e rest) ≡ true
      → (b ≡ false) × (is_clean pats rest ≡ true)
  push_if-is_clean true e rest clean = cc clean
  push_if-is_clean false e rest clean = (refl, clean)

  append-is_clean :
      (xs ys : List String)
      → is_clean pats (xs ++ ys) ≡ true
      → (is_clean pats xs ≡ true) × (is_clean pats ys ≡ true)
  append-is_clean [] ys clean = (refl, clean)
  append-is_clean (x ∷ xs) ys clean = cc clean

  -- A change that may be applied: the worker takes its path, only those who may delete delete, there
  -- is content to write, and it has neither a secret nor a destructive migration, nor, in a
  -- workflow, a deployment.
  pub record IsAcceptable (opts : ValidatePatchOptions) (file : PatchFileSpec) : Type 0 where
    pub safe_path : is_empty (trim file.path) ≡ false → is_unsafe_patch_path file.path ≡ none
    pub may_delete : is_delete file.action ≡ true → opts.can_delete ≡ true
    pub has_content : is_delete file.action ≡ false → is_empty (trim (content_of pats file)) ≡ false
    pub locked :
        (base_of pats file == "package-lock.json") ≡ true → opts.package_lock_approved ≡ true
    pub no_deployment :
        in_workflows (segments (to_posix (trim file.path))) ≡ true
        → pats.deploys (content_of pats file) ≡ false
    pub no_migration : migrates pats (content_of pats file) ≡ false
    pub no_secret : content_contains_secret pats (content_of pats file) ≡ false
    pub no_secret_reason : content_contains_secret pats file.reason ≡ false

  safe_path_of :
      (path : String)
      → starts_with_slash (trim path) || has_drive (trim path) ≡ false
      → contains ".." (trim path) ≡ false
      → contains "~" (trim path) ≡ false
      → has_segment ".git" (segments (to_posix (trim path))) ≡ false
      → has_segment "node_modules" (segments (to_posix (trim path))) ≡ false
      → is_env_file (last_of (segments (to_posix (trim path)))) ≡ false
      → is_empty (trim path) ≡ false
      → is_unsafe_patch_path path ≡ none
  unfolding is_unsafe_patch_path
  safe_path_of path absolute up home git modules env full =
      let relative : has_drive (trim path) || starts_with_slash (trim path) ≡ false =
        ground (arith, absolute) in
      rw (full, relative, up, home, git, modules, env) refl

  validate_file-IsAcceptable :
      (opts : ValidatePatchOptions) (file : PatchFileSpec)
      → is_clean pats (validate_file pats opts file) ≡ true
      → IsAcceptable opts file
  unfolding validate_file
  validate_file-IsAcceptable opts file clean =
      let (absolute, r1) = push_if-is_clean _ _ _ clean in
      let (up, r2) = push_if-is_clean _ _ _ r1 in
      let (home, r3) = push_if-is_clean _ _ _ r2 in
      let (git, r4) = push_if-is_clean _ _ _ r3 in
      let (modules, r5) = push_if-is_clean _ _ _ r4 in
      let (env, r6) = push_if-is_clean _ _ _ r5 in
      let (lock, r7) =
        push_if-is_clean
          ((base_of pats file == "package-lock.json") && not opts.package_lock_approved) _ _ r6 in
      let (deploy, r8) =
        push_if-is_clean
          (in_workflows (segments (to_posix (trim file.path)))
            && pats.deploys (content_of pats file))
          _ _ r7 in
      let (deletes, r9) = push_if-is_clean (is_delete file.action && not opts.can_delete) _ _ r8 in
      let (content, r10) =
        push_if-is_clean (not (is_delete file.action) && is_empty (trim (content_of pats file))) _ _
          r9 in
      let (migration, r11) = push_if-is_clean _ _ _ r10 in
      let (secret, r12) =
        push_if-is_clean
          (content_contains_secret pats (content_of pats file)
            || content_contains_secret pats file.reason)
          _ _ r11 in
      record {
        safe_path = safe_path_of file.path absolute up home git modules env;
        may_delete = λ e. ground (arith, e, deletes);
        has_content = λ e. ground (arith, e, content);
        locked = λ e. ground (arith, e, lock);
        no_deployment = λ e. ground (arith, e, deploy);
        no_migration = migration;
        no_secret = ground (arith, secret);
        no_secret_reason = ground (arith, secret);
      }

  files-IsAcceptable :
      (opts : ValidatePatchOptions) (files : List PatchFileSpec)
      → is_clean pats (file_errors pats opts files) ≡ true
      → All (IsAcceptable opts) files
  unfolding file_errors
  files-IsAcceptable opts [] clean = tt
  files-IsAcceptable opts (file ∷ files) clean =
      let (here, rest) = append-is_clean (validate_file pats opts file) _ clean in
      (validate_file-IsAcceptable opts file here, files-IsAcceptable opts files rest)

  commands_allowed :
      (cmds : List String)
      → is_clean pats (command_errors pats cmds) ≡ true
      → All (λ c. (is_command_allowed c).allowed ≡ true) cmds
  unfolding command_errors
  commands_allowed [] clean = tt
  commands_allowed (cmd ∷ cmds) clean =
      let (here, rest) = push_if-is_clean (not (is_command_allowed cmd).allowed) _ _ clean in
      (ground (arith, here), commands_allowed cmds rest)

  -- A patch that the validator accepts: each file is acceptable, and the worker's own check takes its
  -- path unless it is blank; and each command is one that the test runner allows.
  pub validate_patch-IsAcceptable :
      (opts : ValidatePatchOptions) (patch : PatchArtifact)
      → (validate_patch pats opts patch).ok ≡ true
      → All (IsAcceptable opts) patch.files
        × All (λ c. (is_command_allowed c).allowed ≡ true) patch.commands_to_run
  unfolding validate_patch
  validate_patch-IsAcceptable opts patch clean =
      let (files, commands) = append-is_clean (file_errors pats opts patch.files) _ clean in
      (files-IsAcceptable opts patch.files files, commands_allowed patch.commands_to_run commands)
