-- ===== src/PullRequest/Resolved.antt =====
-- The patch set that the flow goes on with: what was validated and stored just now is valid.
use mathlib.Core.Path.{subst}
use mathlib.Core.Option.{some_inj}
use botchatgptclaude.Prelude.{
  String, ◌≡◌, refl, Bool, true, false, Option, none, some, List, [], ◌∷◌, Result, ok, err,
  Bool-cases, inl, inr,
}
use botchatgptclaude.Text.{is_empty}
use botchatgptclaude.Effect.{◌>>=◌, return}
use botchatgptclaude.Audit
use botchatgptclaude.Hub.{PatchSetRecord, Hub, HubAction}
use botchatgptclaude.Hub.Tables.{create_patch_set, new_patch_set, add_patch_file}
use botchatgptclaude.Patch.{PatchFileSpec, PatchArtifact}
use botchatgptclaude.PullRequest.{PrFlowDeps, is_validated, Stored, audit}
use botchatgptclaude.PullRequest.Steps.{
  store_files, store_parsed, validate_and_store_patch, resolve_patch_set, resolved, reuse,
  validate_text, store_as, set_args, files_of,
}
use botchatgptclaude.PullRequest.Gates.{Calls, Passes, IsValid}

module _ (deps : PrFlowDeps) where
  store_files_then :
      {B : Type 0} (set : String) (files : List PatchFileSpec) (f : Unit → HubAction B)
      (Q : Hub → Result B → Type 0) (h : Hub)
      → ((h' : Hub) → h'.calls ≡ h.calls → Q (f tt h').0 (f tt h').1)
      → Q ((store_files deps set files >>= f) h).0 ((store_files deps set files >>= f) h).1
  unfolding store_files add_patch_file
  store_files_then set [] f Q h k = k h refl
  store_files_then set (x ∷ xs) f Q h k = store_files_then set xs f Q _ (λ h' e. k h' e)

  abbrev pub IsResolved : PatchSetRecord × Option PatchArtifact → Type 0
  IsResolved r = (p : PatchArtifact) → r.1 ≡ some p → IsValid deps p

  -- `Stored` as validation leaves it: what is marked as good is a valid patch.
  abbrev IsStored : Calls → Hub → Result Stored → Type 0
  IsStored calls h (err m) = ⊥
  IsStored calls h (ok x) =
      (h.calls ≡ calls) × (x.is_ok ≡ true → (p : PatchArtifact) → x.patch ≡ some p → IsValid deps p)

  store_as-IsStored :
      (text : String) (patch : Option PatchArtifact) (is_ok : Bool) (errors : List String) (h : Hub)
      → (is_ok ≡ true → (p : PatchArtifact) → patch ≡ some p → IsValid deps p)
      → IsStored h.calls
          (store_as deps text patch is_ok errors h).0
          (store_as deps text patch is_ok errors h).1
  unfolding create_patch_set
  store_as-IsStored text patch is_ok errors h good =
      let args = set_args deps text patch is_ok errors in
      let made = create_patch_set deps.patch_set_id deps.now args h in
      store_files_then deps.patch_set_id (files_of deps patch)
        (λ _. return (record {
          patch_set = new_patch_set deps.patch_set_id deps.now args;
          patch = patch;
          is_ok = is_ok;
          errors = errors;
        }))
        (IsStored h.calls) made.0 (λ h' e. (e, good))

  store_parsed-IsStored :
      (text : String) (r : Result PatchArtifact) (h : Hub)
      → IsStored h.calls (store_parsed deps text r h).0 (store_parsed deps text r h).1
  store_parsed-IsStored text (err m) h =
      store_as-IsStored text none false (m ∷ []) h (λ bad. cc bad)
  store_parsed-IsStored text (ok patch) h =
      store_as-IsStored text (some patch) _ _ h
        (λ good p same. subst (IsValid deps) (some_inj.0 same) good)

  resolved-Passes :
      (calls : Calls) (h : Hub) (r : Result Stored)
      → IsStored calls h r
      → Passes calls IsResolved
          (((λ _. (h, r)) >>= resolved deps) h).0
          (((λ _. (h, r)) >>= resolved deps) h).1
  unfolding audit
  resolved-Passes calls h (err m) bad = absurd bad
  resolved-Passes calls h (ok x) (same, good) = elim (Bool-cases x.is_ok) [
    | inr bad ↦ rw bad (same, refl)
    | inl fine ↦ rw fine (same, good fine)
  ]

  validate_text-Passes :
      (o : Option String) (h : Hub)
      → Passes h.calls IsResolved (validate_text deps o h).0 (validate_text deps o h).1
  unfolding validate_and_store_patch audit
  validate_text-Passes none h = (refl, refl)
  validate_text-Passes (some text) h = elim (Bool-cases (is_empty text)) [
    | inl nothing ↦ rw nothing (refl, refl)
    | inr some_text ↦ rw some_text (
        resolved-Passes h.calls _ _ (
          store_parsed-IsStored text (deps.parse_patch text)
            (audit deps Audit.patch_validation_started "ok" h).0))
  ]

  reuse-Passes :
      (o : Option PatchSetRecord) (h : Hub)
      → Passes h.calls IsResolved (reuse deps o h).0 (reuse deps o h).1
  reuse-Passes none h = validate_text-Passes deps.patch_artifact_text h
  reuse-Passes (some set) h = elim (Bool-cases (is_validated set.status)) [
    | inl valid ↦ rw valid (refl, λ p same. cc same)
    | inr stale ↦ rw stale (validate_text-Passes deps.patch_artifact_text h)
  ]

  pub resolve_patch_set-Passes :
      (h : Hub)
      → Passes h.calls IsResolved (resolve_patch_set deps h).0 (resolve_patch_set deps h).1
  unfolding resolve_patch_set
  resolve_patch_set-Passes h = reuse-Passes deps.existing_patch_set h
