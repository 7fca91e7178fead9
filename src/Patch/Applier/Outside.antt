-- ===== src/Patch/Applier/Outside.antt =====
-- What the applier leaves alone.
use botchatgptclaude.Prelude.{
  String, ◌≡◌, refl, ◌∙◌, true, false, Option, none, some, List, [], ◌∷◌, ◌==◌, eq_iff, is_some,
  Bool-cases, Option-cases, inl, inr,
}
use botchatgptclaude.Hub.{
  PatchSetRecord, PatchFileRecord, PatchFileChangeType, create, modify, delete, rename,
}
use botchatgptclaude.Hub.Tables.{get_patch_set, get_patch_files}
use botchatgptclaude.Patch.Applier.{
  is_unsafe_patch_path, Workspace, Disk, Progress, set_at, target_of, place_of, entry_of, is_inside,
  put, put_content, guarded, change, apply_file, apply_files, is_clean, start, is_applyable,
  apply_all, apply_patch_set, has_hash, drifts, is_rename,
}

set_at-apart :
    (target at : String) (content : Option String) (ws : Workspace)
    → (at == target) ≡ false
    → set_at target content ws at ≡ ws at
set_at-apart target at content ws apart = rw apart refl

module _ (disk : Disk) (root : String) where
  -- A path that the target does not lead to keeps its content.
  module _ (file : PatchFileRecord) (at : String) (apart : (at == place_of disk root file) ≡ false)
      (gone : (at == entry_of disk root file) ≡ false) where
    put-frame :
        (place : String) (content : Option String) (p : Progress)
        → (at == place) ≡ false
        → (put disk root file place content p).files at ≡ p.files at
    put-frame place content p other = elim (Bool-cases (disk.write_fails place)) [
      | inl broken ↦ simp broken (set_at-apart place at (disk.torn place) p.files other)
      | inr fine ↦ simp fine (set_at-apart place at content p.files other)
    ]

    guarded-frame :
        (content : String) (next : Progress → Progress) (p : Progress)
        → ((q : Progress) → q.files at ≡ p.files at → (next q).files at ≡ p.files at)
        → (guarded disk root file content next p).files at ≡ p.files at
    guarded-frame content next p go = elim (Bool-cases (has_hash disk root file.old_content_hash)) [
      | inr bare ↦ elim (Bool-cases disk.strict) [
        | inl strict ↦ simp (bare, strict) refl
        | inr lax ↦ simp (bare, lax) (go _ refl)
      ]
      | inl hashed ↦ elim (Bool-cases (disk.read_fails (place_of disk root file))) [
        | inl broken ↦ simp (hashed, broken) refl
        | inr fine ↦ elim (Bool-cases (drifts disk root content file.old_content_hash)) [
          | inl moved ↦ simp (hashed, fine, moved) refl
          | inr still ↦ simp (hashed, fine, still) (go p refl)
        ]
      ]
    ]

    put_content-frame :
        (o : Option String) (p : Progress) → (put_content disk root file o p).files at ≡ p.files at
    put_content-frame none p = refl
    put_content-frame (some content) p = put-frame (place_of disk root file) (some content) p apart

    change-frame :
        (kind : PatchFileChangeType) (there : Option String) (p : Progress)
        → (change disk root file kind there p).files at ≡ p.files at
    change-frame create (some c) p = refl
    change-frame create none p = put-frame (place_of disk root file) _ p apart
    change-frame modify none p = refl
    change-frame modify (some c) p =
        guarded-frame c (put_content disk root file file.new_content_redacted) p
          (λ q same. put_content-frame file.new_content_redacted q ∙ same)
    change-frame delete none p = refl
    change-frame delete (some c) p =
        guarded-frame c (put disk root file (entry_of disk root file) none) p
          (λ q same. put-frame (entry_of disk root file) none q gone ∙ same)
    change-frame rename there p = refl

  differ :
      (at target : String)
      → is_inside disk root at ≡ false
      → is_inside disk root target ≡ true
      → (at == target) ≡ false
  differ at target outside inside = elim (Bool-cases (at == target)) [
    | inr apart ↦ apart
    | inl same ↦ cc ((eq_iff at target).0 same, outside, inside)
  ]

  -- Whatever the links of the workspace are, they lead to places in it.
  abbrev pub StaysInside : Type 0
  StaysInside =
      (target : String)
      → is_inside disk root target ≡ true
      → (is_inside disk root (disk.follow target) ≡ true)
        × (is_inside disk root (disk.entry target) ≡ true)

  apply_file-outside :
      (file : PatchFileRecord) (at : String) (p : Progress)
      → StaysInside
      → is_inside disk root at ≡ false
      → (apply_file disk root file p).files at ≡ p.files at
  unfolding apply_file
  apply_file-outside file at p stays outside =
      elim (Bool-cases (is_some (is_unsafe_patch_path file.file_path))) [
        | inl bad ↦ simp bad refl
        | inr safe ↦ elim (Bool-cases (is_rename disk root file.change_type)) [
          | inl named ↦ simp (safe, named) refl
          | inr other ↦ elim (Bool-cases (is_inside disk root (target_of disk root file))) [
            | inr escapes ↦ simp (safe, other, escapes) refl
            | inl inside ↦
                simp (safe, other, inside)
                  (change-frame file at
                    (differ at (place_of disk root file) outside
                      (stays (target_of disk root file) inside).0)
                    (differ at (entry_of disk root file) outside
                      (stays (target_of disk root file) inside).1)
                    _ _ p)
          ]
        ]
      ]

  apply_files-outside :
      (files : List PatchFileRecord) (at : String) (p : Progress)
      → StaysInside
      → is_inside disk root at ≡ false
      → (apply_files disk root files p).files at ≡ p.files at
  unfolding apply_files
  apply_files-outside [] at p stays outside = refl
  apply_files-outside (file ∷ files) at p stays outside =
      elim (Bool-cases (is_clean disk root (apply_file disk root file p).errors)) [
        | inr broken ↦ simp broken (apply_file-outside file at p stays outside)
        | inl fine ↦ simp fine (
            apply_files-outside files at (apply_file disk root file p) stays outside
            ∙ apply_file-outside file at p stays outside)
      ]

  apply_all-outside :
      (files : List PatchFileRecord) (at : String) (ws : Workspace)
      → StaysInside
      → is_inside disk root at ≡ false
      → (apply_all disk root files ws).0 at ≡ ws at
  apply_all-outside [] at ws stays outside = refl
  apply_all-outside (file ∷ files) at ws stays outside =
      apply_files-outside (file ∷ files) at (start disk root ws) stays outside

  -- In a workspace whose links lead to places in it, whatever the stored patch names and however the
  -- disk fails, each path outside of the workspace keeps what it had.
  pub apply_patch_set-outside :
      (sets : List PatchSetRecord) (files : List PatchFileRecord) (id at : String) (ws : Workspace)
      → StaysInside
      → is_inside disk root at ≡ false
      → (apply_patch_set disk root sets files id ws).0 at ≡ ws at
  unfolding apply_patch_set
  apply_patch_set-outside sets files id at ws stays outside =
      elim (Option-cases (get_patch_set id sets)) [
        | inl missing ↦ rw missing refl
        | inr (set, there) ↦ rw there (elim (Bool-cases (is_applyable disk root set.status)) [
          | inr stale ↦ simp stale refl
          | inl ready ↦
              simp ready (apply_all-outside (get_patch_files id files) at ws stays outside)
        ])
      ]
