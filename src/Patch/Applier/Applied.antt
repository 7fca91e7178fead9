-- ===== src/Patch/Applier/Applied.antt =====
-- What a successful application has done.
use mathlib.Core.List.{append_assoc, append-nil}
use botchatgptclaude.Prelude.{
  String, ◌≡◌, refl, sym, ap, ◌∙◌, true, false, Option, none, some, List, [], ◌∷◌, ◌++◌, is_some,
  map, Bool-cases, Option-cases, inl, inr,
}
use botchatgptclaude.Hub.{PatchSetRecord, PatchFileRecord}
use botchatgptclaude.Hub.Tables.{get_patch_set, get_patch_files}
use botchatgptclaude.Patch.Applier.{
  is_unsafe_patch_path, Workspace, Disk, Progress, ApplyPatchResult, target_of, place_of, is_inside,
  apply_file, apply_files, is_clean, start, result_of, is_applyable, apply_all, apply_patch_set,
  is_rename,
}
use botchatgptclaude.Patch.Applier.Changes.{
  Changes, Patches, done, next, failed-is_clean, change-Applies,
}

module _ (disk : Disk) (root : String) where
  none_of : (o : Option String) → is_some o ≡ false → o ≡ none
  none_of none e = refl
  none_of (some x) e = cc e

  apply_file-Applies :
      (file : PatchFileRecord) (p : Progress)
      → is_clean disk root (apply_file disk root file p).errors ≡ true
      → (is_unsafe_patch_path file.file_path ≡ none)
        × (is_inside disk root (target_of disk root file) ≡ true)
        × Changes disk root file p.files (apply_file disk root file p).files
        × ((apply_file disk root file p).changed ≡ p.changed ++ file.file_path ∷ [])
  unfolding apply_file
  apply_file-Applies file p = elim (Bool-cases (is_some (is_unsafe_patch_path file.file_path))) [
    | inl bad ↦
        simp bad (λ clean. absurd cc (clean, failed-is_clean disk root "path_unsafe" file p))
    | inr safe ↦ elim (Bool-cases (is_rename disk root file.change_type)) [
      | inl named ↦
          simp (safe, named)
            (λ clean. absurd cc (clean, failed-is_clean disk root "rename_not_supported" file p))
      | inr other ↦ elim (Bool-cases (is_inside disk root (target_of disk root file))) [
        | inr escapes ↦
            simp (safe, other, escapes)
              (λ clean. absurd cc (clean, failed-is_clean disk root "escapes_workspace" file p))
        | inl inside ↦
            simp (safe, other, inside)
              (λ clean.
                let (changes, listed) =
                  change-Applies disk root file file.change_type (p.files (place_of disk root file))
                    p refl refl clean in
                (none_of (is_unsafe_patch_path file.file_path) safe, refl, changes, listed))
      ]
    ]
  ]

  abbrev pub paths : List PatchFileRecord → List String
  paths = map (λ f. f.file_path)

  apply_files-Patches :
      (files : List PatchFileRecord) (p : Progress)
      → is_clean disk root (apply_files disk root files p).errors ≡ true
      → Patches disk root files p.files (apply_files disk root files p).files
        × ((apply_files disk root files p).changed ≡ p.changed ++ paths files)
  unfolding apply_files
  apply_files-Patches [] p = λ clean. (done, sym (append-nil p.changed))
  apply_files-Patches (file ∷ files) p =
      let q = apply_file disk root file p in
      elim (Bool-cases (is_clean disk root q.errors)) [
        | inr broken ↦ simp broken (λ clean. cc clean)
        | inl fine ↦ simp fine (λ clean.
            let (safe, inside, changes, listed) = apply_file-Applies file p fine in
            let (rest, all_listed) = apply_files-Patches files q clean in
            (
              next safe inside changes rest,
              all_listed
                  ∙ ap (λ xs. xs ++ paths files) listed
                  ∙ append_assoc p.changed (file.file_path ∷ []) (paths files),
            ))
      ]

  -- What a result says when it says that the patch is applied.
  abbrev pub IsApplied : List PatchFileRecord → Workspace → Workspace → ApplyPatchResult → Type 0
  IsApplied files ws ws' r =
      r.patch_applied ≡ true → Patches disk root files ws ws' × (r.changed_files ≡ paths files)

  result_of-IsApplied :
      (files : List PatchFileRecord) (ws : Workspace) (p : Progress)
      → (is_clean disk root p.errors ≡ true
          → Patches disk root files ws p.files × (p.changed ≡ paths files))
      → IsApplied files ws p.files (result_of disk root p)
  result_of-IsApplied files ws p k = elim (Bool-cases (is_clean disk root p.errors)) [
    | inr broken ↦ simp broken (λ applied. cc applied)
    | inl fine ↦ simp fine (λ applied. k fine)
  ]

  apply_all-IsApplied :
      (files : List PatchFileRecord) (ws : Workspace)
      → IsApplied files ws (apply_all disk root files ws).0 (apply_all disk root files ws).1
  apply_all-IsApplied [] ws = λ applied. cc applied
  apply_all-IsApplied (file ∷ files) ws =
      result_of-IsApplied (file ∷ files) ws
        (apply_files disk root (file ∷ files) (start disk root ws))
        (apply_files-Patches (file ∷ files) (start disk root ws))

  -- A patch set that is reported as applied was applied as a whole: each of its files, in order, on a
  -- safe path that is inside of the workspace before its links are followed; a created file was not
  -- there, a changed or deleted one was, with the stored hash, which is not missing in strict mode;
  -- and the report lists their paths.
  pub apply_patch_set-IsApplied :
      (sets : List PatchSetRecord) (files : List PatchFileRecord) (id : String) (ws : Workspace)
      → (apply_patch_set disk root sets files id ws).1.patch_applied ≡ true
      → Patches disk root
          (get_patch_files id files)
          ws
          (apply_patch_set disk root sets files id ws).0
        × ((apply_patch_set disk root sets files id ws).1.changed_files
            ≡ paths (get_patch_files id files))
  unfolding apply_patch_set
  apply_patch_set-IsApplied sets files id ws = elim (Option-cases (get_patch_set id sets)) [
    | inl missing ↦ rw missing (λ applied. cc applied)
    | inr (set, there) ↦ rw there (elim (Bool-cases (is_applyable disk root set.status)) [
      | inr stale ↦ simp stale (λ applied. cc applied)
      | inl ready ↦ simp ready (apply_all-IsApplied (get_patch_files id files) ws)
    ])
  ]
