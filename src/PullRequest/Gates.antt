-- ===== src/PullRequest/Gates.antt =====
-- What each gate before the tests lets through.
use botchatgptclaude.Prelude.{
  String, ◌≡◌, refl, Bool, true, false, Option, none, some, List, Result, ok, err, Bool-cases,
  Option-cases, inl, inr,
}
use botchatgptclaude.Text.{is_empty}
use botchatgptclaude.Rbac.{subject_has_permission, can_access_session}
use botchatgptclaude.Effect.{◌>>=◌}
use botchatgptclaude.Hub.{PatchSetRecord, GithubClient, Hub, HubAction, Call}
use botchatgptclaude.Hub.Tables.{get_patch_set, update_patch_set}
use botchatgptclaude.Patch.{PatchArtifact, validate_patch}
use botchatgptclaude.PullRequest.{
  PrFlowDeps, PrFlowResult, Gate, stop, go, continue, is_approved, rbac_session, audit,
  validate_options,
}
use botchatgptclaude.PullRequest.Steps.{
  check_access, check_approval, client_of, smoke_ok, with_health, with_client, live_gates,
  revalidated, reparsed, reparse, reparse_text,
}

abbrev pub Calls : Type 0
Calls = List Call

-- What a gate satisfies: it makes no call; it stops with a failure, or lets go on what has `P`.
abbrev pub Passes : {A : Type 0} → Calls → (A → Type 0) → Hub → Result (Gate A) → Type 0
Passes calls P h (err m) = h.calls ≡ calls
Passes calls P h (ok (stop r)) = (h.calls ≡ calls) × (r.ok ≡ false)
Passes calls P h (ok (go a)) = (h.calls ≡ calls) × P a

pub gate_then :
    {A : Type 0} (calls : Calls) (P : A → Type 0) (Q : Hub → Result PrFlowResult → Type 0)
    (m : HubAction (Gate A)) (f : A → HubAction PrFlowResult) (h : Hub)
    → Passes calls P (m h).0 (m h).1
    → ((h' : Hub) (m : String) → h'.calls ≡ calls → Q h' (err m))
    → ((h' : Hub) (r : PrFlowResult) → h'.calls ≡ calls → r.ok ≡ false → Q h' (ok r))
    → ((h' : Hub) (a : A) → h'.calls ≡ calls → P a → Q (f a h').0 (f a h').1)
    → Q ((m >>= continue f) h).0 ((m >>= continue f) h).1
gate_then {A} calls P Q m f h passes threw stopped goes = at (m h).0 (m h).1 passes
  where
    at :
        (h' : Hub) (r : Result (Gate A))
        → Passes calls P h' r
        → Q (((λ _. (h', r)) >>= continue f) h').0 (((λ _. (h', r)) >>= continue f) h').1
    at h' (err e) p = threw h' e p
    at h' (ok (stop r)) p = stopped h' r p.0 p.1
    at h' (ok (go a)) p = goes h' a p.0 p.1

pub Passes-mono :
    {A : Type 0} (calls : Calls) (P Q : A → Type 0) (h : Hub) (r : Result (Gate A))
    → ((a : A) → P a → Q a)
    → Passes calls P h r
    → Passes calls Q h r
Passes-mono calls P Q h (err m) f p = p
Passes-mono calls P Q h (ok (stop r)) f p = p
Passes-mono calls P Q h (ok (go a)) f p = (p.0, f a p.1)

module _ (deps : PrFlowDeps) where
  pub record IsPermitted : Type 0 where
    pub may_open : subject_has_permission deps.subject "ai:pr:create" ≡ true
    pub reaches :
        can_access_session deps.subject (rbac_session deps.session) deps.is_collaborator ≡ true

  pub check_access-Passes :
      (h : Hub) → Passes h.calls (λ _. IsPermitted) (check_access deps h).0 (check_access deps h).1
  unfolding check_access audit
  check_access-Passes h = elim (Bool-cases (subject_has_permission deps.subject "ai:pr:create")) [
    | inr out ↦ rw out (refl, refl)
    | inl may ↦
        elim (Bool-cases
          (can_access_session deps.subject (rbac_session deps.session) deps.is_collaborator)) [
            | inr out ↦ rw (may, out) (refl, refl)
            | inl reaches ↦ simp (may, reaches) (refl, record { may_open = may; reaches = reaches })
          ]
  ]

  pub check_approval-Passes :
      (set : PatchSetRecord) (h : Hub)
      → Passes h.calls
          (λ _. is_approved deps.session ≡ true)
          (check_approval deps set h).0
          (check_approval deps set h).1
  unfolding check_approval audit
  check_approval-Passes set h = elim (Bool-cases (is_approved deps.session)) [
    | inr out ↦ rw out (refl, refl)
    | inl free ↦ rw free (refl, refl)
  ]

  -- A patch that the validator accepts.
  abbrev pub IsValid : PatchArtifact → Type 0
  IsValid patch = (validate_patch deps.patterns (validate_options deps) patch).ok ≡ true

  -- The switch is on, the smoke test has passed if it is required, and the health is good.
  pub record IsLive : Type 0 where
    pub switched_on : deps.config.enable_github_pr ≡ true
    pub smoked : smoke_ok deps ≡ true
    pub healthy : deps.health_check ≡ ok true

  with_health-Passes :
      (set : PatchSetRecord) (client : GithubClient) (r : Result Bool) (h : Hub)
      → deps.config.enable_github_pr ≡ true
      → smoke_ok deps ≡ true
      → deps.health_check ≡ r
      → Passes h.calls
          (λ (_ : GithubClient). IsLive)
          (with_health deps set client r h).0
          (with_health deps set client r h).1
  with_health-Passes set client (err m) h on smoked healthy = refl
  with_health-Passes set client (ok false) h on smoked healthy = (refl, refl)
  with_health-Passes set client (ok true) h on smoked healthy =
      (refl, record { switched_on = on; smoked = smoked; healthy = healthy })

  with_client-Passes :
      (set : PatchSetRecord) (o : Option GithubClient) (h : Hub)
      → deps.config.enable_github_pr ≡ true
      → Passes h.calls
          (λ (_ : GithubClient). IsLive)
          (with_client deps set o h).0
          (with_client deps set o h).1
  with_client-Passes set none h on = (refl, refl)
  with_client-Passes set (some client) h on = elim (Bool-cases (smoke_ok deps)) [
    | inr cold ↦ rw cold (refl, refl)
    | inl smoked ↦ simp smoked (with_health-Passes set client deps.health_check h on smoked refl)
  ]

  pub live_gates-Passes :
      (set : PatchSetRecord) (h : Hub)
      → Passes h.calls
          (λ (_ : GithubClient). IsLive)
          (live_gates deps set h).0
          (live_gates deps set h).1
  unfolding live_gates
  live_gates-Passes set h = elim (Bool-cases deps.config.enable_github_pr) [
    | inr off ↦ rw off (refl, refl)
    | inl on ↦
        simp on (
          with_client-Passes set (client_of deps deps.github_client deps.config.github_config) h on)
  ]

  reparse-IsValid :
      (set : PatchSetRecord) (patch : PatchArtifact) (h : Hub)
      → Passes h.calls IsValid (revalidated deps set patch h).0 (revalidated deps set patch h).1
  unfolding update_patch_set
  reparse-IsValid set patch h =
      elim (Bool-cases (validate_patch deps.patterns (validate_options deps) patch).ok) [
        | inl valid ↦ rw valid (refl, valid)
        | inr bad ↦ rw bad (elim (Option-cases (get_patch_set set.id h.patch_sets)) [
          | inl missing ↦ rw missing refl
          | inr (x, there) ↦ rw there (refl, refl)
        ])
      ]

  reparsed-Passes :
      (set : PatchSetRecord) (r : Result PatchArtifact) (h : Hub)
      → Passes h.calls IsValid (reparsed deps set r h).0 (reparsed deps set r h).1
  reparsed-Passes set (err m) h = (refl, refl)
  reparsed-Passes set (ok patch) h = reparse-IsValid set patch h

  reparse_text-Passes :
      (set : PatchSetRecord) (o : Option String) (h : Hub)
      → Passes h.calls IsValid (reparse_text deps set o h).0 (reparse_text deps set o h).1
  reparse_text-Passes set none h = (refl, refl)
  reparse_text-Passes set (some text) h = elim (Bool-cases (is_empty text)) [
    | inl nothing ↦ rw nothing (refl, refl)
    | inr some_text ↦ rw some_text (reparsed-Passes set (deps.parse_patch text) h)
  ]

  pub reparse-Passes :
      (set : PatchSetRecord) (o : Option PatchArtifact) (h : Hub)
      → ((p : PatchArtifact) → o ≡ some p → IsValid p)
      → Passes h.calls IsValid (reparse deps set o h).0 (reparse deps set o h).1
  unfolding reparse
  reparse-Passes set (some patch) h good = (refl, good patch refl)
  reparse-Passes set none h good = reparse_text-Passes set deps.patch_artifact_text h
