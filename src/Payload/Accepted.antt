-- ===== src/Payload/Accepted.antt =====
-- What the schemas have checked of a payload that they accept.
use mathlib.Core.Path.{subst}
use mathlib.Core.Option.{some_inj}
use botchatgptclaude.Prelude.{
  String, ◌≡◌, ◌≢◌, refl, true, false, Option, none, some, List, [], ◌∷◌, arith, All, Bool-cases,
  eq_iff, inl, inr,
}
use botchatgptclaude.Json.{Json, member}
use botchatgptclaude.Text.{trim, collapse_from, space}
use botchatgptclaude.Job.{JobType, is_test_patch}
use botchatgptclaude.Command.{
  worker_command_allowlist, includes, has_shell_control, normalized, validate_worker_command,
}
use botchatgptclaude.Command.Argv.{at_included}
use botchatgptclaude.Payload.{
  JobPayload, RepoRef, non_empty, as_object, optional_string, bool_or_true, ◌>>=◌, as_string,
  as_array, parse_command, parse_commands, command_list, parse_repo_ref, parse_test_patch,
  parse_test_branch, parse_job_payload,
}

abbrev pub IsListed : String → Type 0
IsListed c = includes worker_command_allowlist (trim c) ≡ true

parse_command-IsListed : (v : Json) (c : String) → parse_command v ≡ some c → IsListed c
unfolding parse_command
parse_command-IsListed v c h = ground arith

>>=-eq-some :
    {A B : Type 0} (m : Option A) (f : A → Option B) {b : B}
    → (m >>= f) ≡ some b
    → (a : A) × (m ≡ some a) × (f a ≡ some b)
>>=-eq-some none f h = cc
>>=-eq-some (some a) f h = (a, refl, h)

parse_commands-IsListed :
    (vs : List Json) (cs : List String) → parse_commands vs ≡ some cs → All IsListed cs
unfolding parse_commands
parse_commands-IsListed [] cs h = subst (All IsListed) {x = []} (cc) tt
parse_commands-IsListed (v ∷ vs) cs h =
    let (c, first, h') = >>=-eq-some (parse_command v) _ h in
    let (rest, later, h'') = >>=-eq-some (parse_commands vs) _ h' in
    subst (All IsListed) {x = c ∷ rest} (cc)
      (parse_command-IsListed v c first, parse_commands-IsListed vs rest later)

command_list-IsListed :
    (v : Json) (cs : List String) → command_list v ≡ some cs → All IsListed cs × (cs ≢ [])
unfolding command_list
command_list-IsListed v cs h =
    let (vs, _, h') = >>=-eq-some (as_array v) _ h in
    let (some_cs, parsed, h'') = >>=-eq-some (parse_commands vs) _ h' in
    let same : some_cs ≡ cs = ground arith in
    (subst (All IsListed) same (parse_commands-IsListed vs some_cs parsed), ground arith)

non_empty-ne : (s : String) {t : String} → non_empty s ≡ some t → t ≢ ""
non_empty-ne s h = ground (arith, eq_iff s "")

parse_repo_ref-ne :
    (v : Json) (r : RepoRef) → parse_repo_ref v ≡ some r → (r.clone_url ≢ "") × (r.branch ≢ "")
unfolding parse_repo_ref
parse_repo_ref-ne v r h =
    let (fs, _, h1) = >>=-eq-some (as_object v) _ h in
    let (u, _, h2) = >>=-eq-some (member "clone_url" fs) _ h1 in
    let (url, _, h3) = >>=-eq-some (as_string u) _ h2 in
    let (url', full, h4) = >>=-eq-some (non_empty url) _ h3 in
    let (b, _, h5) = >>=-eq-some (member "branch" fs) _ h4 in
    let (branch, _, h6) = >>=-eq-some (as_string b) _ h5 in
    let (branch', full', h7) = >>=-eq-some (non_empty branch) _ h6 in
    let (sha, _, h8) = >>=-eq-some (optional_string (member "commit_sha" fs)) _ h7 in
    (
      subst (λ (t : String). t ≢ "") {x = url'} (ground arith) (non_empty-ne url full),
      subst (λ (t : String). t ≢ "") {x = branch'} (ground arith) (non_empty-ne branch full'),
    )

abbrev pub IsAccepted : JobType → JobPayload → Type 0
IsAccepted job_type p =
    All IsListed p.commands
    × (p.commands ≢ [])
    × (p.repo.clone_url ≢ "")
    × (p.repo.branch ≢ "")
    × (is_test_patch job_type ≡ true → (psid : String) × (p.patch_set_id ≡ some psid) × (psid ≢ ""))

parse_test_patch-IsAccepted :
    (job_type : JobType) (raw : Json) (p : JobPayload)
    → parse_test_patch raw ≡ some p
    → IsAccepted job_type p
unfolding parse_test_patch
parse_test_patch-IsAccepted job_type raw p h =
    let (fs, _, h1) = >>=-eq-some (as_object raw) _ h in
    let (r, _, h2) = >>=-eq-some (member "repo" fs) _ h1 in
    let (repo, parsed, h3) = >>=-eq-some (parse_repo_ref r) _ h2 in
    let (q, _, h4) = >>=-eq-some (member "patch_set_id" fs) _ h3 in
    let (psid, _, h5) = >>=-eq-some (as_string q) _ h4 in
    let (psid', full, h6) = >>=-eq-some (non_empty psid) _ h5 in
    let (apply, _, h7) = >>=-eq-some (bool_or_true (member "apply_patch" fs)) _ h6 in
    let (c, _, h8) = >>=-eq-some (member "commands" fs) _ h7 in
    let (commands, listed, h9) = >>=-eq-some (command_list c) _ h8 in
    subst (IsAccepted job_type) (some_inj.0 h9) (
      (command_list-IsListed c commands listed).0,
      (command_list-IsListed c commands listed).1,
      (parse_repo_ref-ne r repo parsed).0,
      (parse_repo_ref-ne r repo parsed).1,
      λ _. (psid', refl, non_empty-ne psid full),
    )

accepted_branch :
    (raw : Json) (p : JobPayload)
    → parse_test_branch raw ≡ some p
    → All IsListed p.commands × (p.commands ≢ []) × (p.repo.clone_url ≢ "") × (p.repo.branch ≢ "")
unfolding parse_test_branch
accepted_branch raw p h =
    let (fs, _, h1) = >>=-eq-some (as_object raw) _ h in
    let (r, _, h2) = >>=-eq-some (member "repo" fs) _ h1 in
    let (repo, parsed, h3) = >>=-eq-some (parse_repo_ref r) _ h2 in
    let (c, _, h8) = >>=-eq-some (member "commands" fs) _ h3 in
    let (commands, listed, h9) = >>=-eq-some (command_list c) _ h8 in
    subst
      (λ q.
        All IsListed q.commands
        × (q.commands ≢ [])
        × (q.repo.clone_url ≢ "")
        × (q.repo.branch ≢ ""))
      (some_inj.0 h9)
      (
        (command_list-IsListed c commands listed).0,
        (command_list-IsListed c commands listed).1,
        (parse_repo_ref-ne r repo parsed).0,
        (parse_repo_ref-ne r repo parsed).1,
      )

-- An accepted payload has at least one command, all of them listed once trimmed, a repository with
-- a non-empty URL and branch, and, for a patch job, a non-empty patch set.
pub parse_job_payload-IsAccepted :
    (job_type : JobType) (raw : Json) (p : JobPayload)
    → parse_job_payload job_type raw ≡ some p
    → IsAccepted job_type p
unfolding parse_job_payload
parse_job_payload-IsAccepted job_type raw p h = elim (Bool-cases (is_test_patch job_type)) [
  | inl patch ↦ parse_test_patch-IsAccepted job_type raw p (rw (patch, parse_job_payload) at h)
  | inr other ↦
      let (a, ne, url, branch) = accepted_branch raw p (rw (other, parse_job_payload) at h) in
      (a, ne, url, branch, λ t. cc)
]

listed_runs : All (λ t. collapse_from false t ≡ t) worker_command_allowlist
unfolding collapse_from space
listed_runs = (refl, (refl, (refl, (refl, (refl, tt)))))

-- A command that the schema lists and that holds no shell control character passes the check that
-- the runner repeats.
pub listed_passes_runner :
    (c : String)
    → IsListed c
    → has_shell_control c ≡ false
    → (validate_worker_command c).allowed ≡ true
unfolding validate_worker_command normalized
listed_passes_runner c h plain = rw (
  plain,
  at_included (λ t. collapse_from false t ≡ t) worker_command_allowlist (trim c) listed_runs h,
  h,
)
