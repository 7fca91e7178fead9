-- ===== src/Command/Argv.antt =====
-- The guard on commands leaves five argument vectors to spawn.
use mathlib.Core.Path.{subst}
use botchatgptclaude.Prelude.{
  String, ◌≡◌, ◌⊎◌, refl, inl, inr, All, Bool-cases, true, false, List, [], ◌∷◌, arith, ◌==◌,
  eq_iff,
}
use botchatgptclaude.Text.{trim, space, split_from, split_from-collapse_from}
use botchatgptclaude.Command.{
  Host, spawned, worker_command_allowlist, includes, normalized, validate_worker_command,
  resolve_executable,
}

-- npm with the given arguments: by its name, or on Windows as a script of the running node.
abbrev pub IsNpm : Host → List String → List String → Type 0
IsNpm host args argv =
    (host.is_windows ≡ false) × (argv ≡ "npm" ∷ args)
    ⊎ (host.is_windows ≡ true) × (argv ≡ host.exec_path ∷ host.cli_path "npm-cli.js" ∷ args)

abbrev pub IsSafeArgv : Host → List String → Type 0
IsSafeArgv host argv =
    IsNpm host ("ci" ∷ []) argv
    ⊎ IsNpm host ("run" ∷ "typecheck" ∷ []) argv
    ⊎ IsNpm host ("test" ∷ []) argv
    ⊎ IsNpm host ("run" ∷ "build" ∷ []) argv
    ⊎ (argv ≡ "git" ∷ "diff" ∷ [])

-- What holds of each listed text holds of a text that the list includes.
pub at_included :
    (P : String → Type 0) (xs : List String) (s : String) → All P xs → includes xs s ≡ true → P s
at_included P [] s h e = cc
at_included P (x ∷ xs) s h e = elim (Bool-cases (x == s)) [
  | inl hit ↦ subst P ((eq_iff x s).0 hit) h.0
  | inr miss ↦ at_included P xs s h.1 (rw miss at e)
]

spawned-IsNpm : (host : Host) (args : List String) → IsNpm host args (spawned host ("npm" ∷ args))
spawned-IsNpm host args = elim (Bool-cases host.is_windows) [
  | inl windows ↦ inr (windows, rw windows refl)
  | inr posix ↦ inl (posix, rw posix refl)
]

spawned-git : (host : Host) (args : List String) → spawned host ("git" ∷ args) ≡ "git" ∷ args
spawned-git host args = ground arith

allowlist-IsSafeArgv :
    (host : Host)
    → All (λ s. IsSafeArgv host (spawned host (split_from false "" s))) worker_command_allowlist
unfolding split_from space
allowlist-IsSafeArgv host = (
  inl (spawned-IsNpm host ("ci" ∷ [])),
  (
    inr (inl (spawned-IsNpm host ("run" ∷ "typecheck" ∷ []))),
    (
      inr (inr (inl (spawned-IsNpm host ("test" ∷ [])))),
      (
        inr (inr (inr (inl (spawned-IsNpm host ("run" ∷ "build" ∷ []))))),
        (inr (inr (inr (inr (spawned-git host ("diff" ∷ []))))), tt),
      ),
    ),
  ),
)

allowed-includes :
    (raw : String)
    → (validate_worker_command raw).allowed ≡ true
    → includes worker_command_allowlist (normalized raw) ≡ true
unfolding validate_worker_command
allowed-includes raw h = ground arith

-- A command that the guard accepts is spawned, whatever its spacing, as one of five argument
-- vectors: git with diff, or npm with one of four lists of arguments, which on Windows is a script of
-- the running node.
pub allowed_argv :
    (host : Host) (raw : String)
    → (validate_worker_command raw).allowed ≡ true
    → IsSafeArgv host (resolve_executable host raw)
unfolding resolve_executable normalized
allowed_argv host raw h = rw (← split_from-collapse_from false "" (trim raw)) (
    at_included (λ s. IsSafeArgv host (spawned host (split_from false "" s)))
      worker_command_allowlist (normalized raw) (allowlist-IsSafeArgv host)
      (allowed-includes raw h))
