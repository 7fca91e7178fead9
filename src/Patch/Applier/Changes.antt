-- ===== src/Patch/Applier/Changes.antt =====
-- What the change of one file does when it leaves no error.
use botchatgptclaude.Prelude.{
  String, ◌≡◌, refl, true, false, not, Option, none, some, get_or, List, [], ◌∷◌, ◌++◌, ◌==◌,
  eq_iff, arith, Bool-cases, inl, inr,
}
use botchatgptclaude.Text.{is_empty}
use botchatgptclaude.Job.{ApplyError}
use botchatgptclaude.Hub.{PatchFileRecord, PatchFileChangeType, create, modify, delete, rename}
use botchatgptclaude.Patch.Applier.{
  is_unsafe_patch_path, Workspace, Disk, Progress, set_at, target_of, place_of, entry_of, is_inside,
  failed, put, put_content, guarded, change, is_clean, has_hash, drifts,
}

module _ (disk : Disk) (root : String) where
  -- The stored hash is the hash of what is replaced; it may be missing only outside of strict mode.
  pub record IsChecked (file : PatchFileRecord) (content : String) : Type 0 where
    pub matches :
        (h : String)
        → file.old_content_hash ≡ some h
        → is_empty h ≡ false
        → disk.hash_of content ≡ h
    pub hashed : disk.strict ≡ true → has_hash disk root file.old_content_hash ≡ true

  -- One change of a workspace, by its kind.
  pub data Changes (file : PatchFileRecord) (ws : Workspace) : Workspace → Type 0 where
    creates :
        file.change_type ≡ create
        → ws (place_of disk root file) ≡ none
        → Changes file ws
            (set_at (place_of disk root file) (some (get_or file.new_content_redacted "")) ws)
    modifies :
        (old new : String)
        → file.change_type ≡ modify
        → ws (place_of disk root file) ≡ some old
        → IsChecked file old
        → file.new_content_redacted ≡ some new
        → Changes file ws (set_at (place_of disk root file) (some new) ws)
    deletes :
        (old : String)
        → file.change_type ≡ delete
        → ws (place_of disk root file) ≡ some old
        → IsChecked file old
        → Changes file ws (set_at (entry_of disk root file) none ws)

  -- A patch takes a workspace to another one, file by file and each on a safe path inside of it.
  pub data Patches : List PatchFileRecord → Workspace → Workspace → Type 0 where
    done : {ws : Workspace} → Patches [] ws ws
    next :
        {file : PatchFileRecord} {files : List PatchFileRecord} {ws ws' ws'' : Workspace}
        → is_unsafe_patch_path file.file_path ≡ none
        → is_inside disk root (target_of disk root file) ≡ true
        → Changes file ws ws'
        → Patches files ws' ws''
        → Patches (file ∷ files) ws ws''

  pub failed-is_clean :
      (code : String) (file : PatchFileRecord) (p : Progress)
      → is_clean disk root (failed disk root code file p).errors ≡ false
  failed-is_clean code file p = snoc p.errors _
    where
      snoc : (es : List ApplyError) (e : ApplyError) → is_clean disk root (es ++ e ∷ []) ≡ false
      snoc [] e = refl
      snoc (x ∷ es) e = refl

  module _ (file : PatchFileRecord) where
    -- If the file was applied without an error, it has changed the workspace and is listed.
    abbrev pub Applies : Progress → Progress → Type 0
    Applies p q =
        is_clean disk root q.errors ≡ true
        → Changes file p.files q.files × (q.changed ≡ p.changed ++ file.file_path ∷ [])

    fails : (code : String) (p q : Progress) → Applies p (failed disk root code file q)
    fails code p q clean = absurd cc (clean, failed-is_clean code file q)

    put-Applies :
        (place : String) (content : Option String) (p q : Progress)
        → q.files ≡ p.files
        → q.changed ≡ p.changed
        → Changes file p.files (set_at place content p.files)
        → Applies p (put disk root file place content q)
    put-Applies place content p q same_files same_changed changes =
        elim (Bool-cases (disk.write_fails place)) [
          | inl broken ↦
              simp broken
                (fails "io_error" p (record q { files = set_at place (disk.torn place) q.files }))
          | inr fine ↦ simp fine (λ clean. (rw same_files changes, rw same_changed refl))
        ]

    bare-IsChecked :
        (content : String)
        → has_hash disk root file.old_content_hash ≡ false
        → disk.strict ≡ false
        → IsChecked file content
    bare-IsChecked content bare lax = record {
      matches = λ h named full. absurd (empty_hash file.old_content_hash h bare named full);
      hashed = λ strict. cc (strict, lax);
    }
      where
        empty_hash :
            (o : Option String) (h : String)
            → has_hash disk root o ≡ false
            → o ≡ some h
            → is_empty h ≡ false
            → ⊥
        empty_hash o h bare named full = cc (rw (named, full) at bare)

    still-IsChecked :
        (content : String)
        → has_hash disk root file.old_content_hash ≡ true
        → drifts disk root content file.old_content_hash ≡ false
        → IsChecked file content
    still-IsChecked content hashed still = record {
      matches = λ h named full. same_hash file.old_content_hash h named still;
      hashed = λ strict. hashed;
    }
      where
        same_hash :
            (o : Option String) (h : String)
            → o ≡ some h
            → drifts disk root content o ≡ false
            → disk.hash_of content ≡ h
        same_hash o h named still =
            let e : not (disk.hash_of content == h) ≡ false = rw named at still in
            ground (arith, e, eq_iff (disk.hash_of content) h)

    guarded-Applies :
        (content : String) (go : Progress → Progress) (p : Progress)
        → ((q : Progress)
            → q.files ≡ p.files
            → q.changed ≡ p.changed
            → IsChecked file content
            → Applies p (go q))
        → Applies p (guarded disk root file content go p)
    guarded-Applies content go p k = elim (Bool-cases (has_hash disk root file.old_content_hash)) [
      | inr bare ↦ elim (Bool-cases disk.strict) [
        | inl strict ↦ simp (bare, strict) (fails "missing_old_content_hash" p p)
        | inr lax ↦
            simp (bare, lax)
              (k (record p { base_hash_checked = false }) refl refl
                (bare-IsChecked content bare lax))
      ]
      | inl hashed ↦ elim (Bool-cases (disk.read_fails (place_of disk root file))) [
        | inl broken ↦ simp (hashed, broken) (fails "io_error" p p)
        | inr fine ↦ elim (Bool-cases (drifts disk root content file.old_content_hash)) [
          | inl moved ↦ simp (hashed, fine, moved) (fails "base_hash_mismatch" p p)
          | inr still ↦
              simp (hashed, fine, still) (k p refl refl (still-IsChecked content hashed still))
        ]
      ]
    ]

    put_content-Applies :
        (old : String) (o : Option String) (p q : Progress)
        → file.new_content_redacted ≡ o
        → file.change_type ≡ modify
        → p.files (place_of disk root file) ≡ some old
        → IsChecked file old
        → q.files ≡ p.files
        → q.changed ≡ p.changed
        → Applies p (put_content disk root file o q)
    put_content-Applies old none p q content kind there checked a b =
        fails "missing_new_content" p q
    put_content-Applies old (some new) p q content kind there checked a b =
        put-Applies (place_of disk root file) (some new) p q a b
          (modifies old new kind there checked content)

    pub change-Applies :
        (kind : PatchFileChangeType) (there : Option String) (p : Progress)
        → file.change_type ≡ kind
        → p.files (place_of disk root file) ≡ there
        → Applies p (change disk root file kind there p)
    change-Applies create (some c) p kind there = fails "create_existing_file" p p
    change-Applies create none p kind there =
        put-Applies (place_of disk root file) _ p p refl refl (creates kind there)
    change-Applies modify none p kind there = fails "modify_missing_file" p p
    change-Applies modify (some c) p kind there =
        guarded-Applies c (put_content disk root file file.new_content_redacted) p (λ q a b checked.
          put_content-Applies c file.new_content_redacted p q refl kind there checked a b)
    change-Applies delete none p kind there = fails "delete_missing_file" p p
    change-Applies delete (some c) p kind there =
        guarded-Applies c (put disk root file (entry_of disk root file) none) p (λ q a b checked.
          put-Applies (entry_of disk root file) none p q a b (deletes c kind there checked))
    change-Applies rename there p kind found = fails "rename_not_supported" p p
