-- ===== src/Github/Branches.antt =====
-- Where the program writes on GitHub.
use Prim.Native.String
use botchatgptclaude.Prelude.{
  ℕ, zero, suc, String, ◌≡◌, Bool, true, false, ◌||◌, Option, none, some, List, [], ◌∷◌, ◌==◌,
  arith, Result, ok, err, Bool-cases, inl, inr, ◌++◌, ◌⊎◌, refl,
}
use botchatgptclaude.Text.{is_empty}
use botchatgptclaude.Effect.{◌>>=◌, ◌>>◌, return, bind_then}
use botchatgptclaude.Hub
use botchatgptclaude.Hub.{
  GithubFileContent, PutFileArgs, DeleteFileArgs, CreatePullRequestArgs, Call, GithubClient, Hub,
  HubAction, ask,
}
use botchatgptclaude.Patch.{PatchFileAction, create, modify, delete, PatchFileSpec, action_text}
use botchatgptclaude.Github.{
  is_protected, branch_at, put_args, delete_args, CreatedBranch, AppliedFile, build_branch_name,
  take_branch, try_branch, from_sha, create_session_branch, write_file, apply_patch_files,
}

module _ (base : String) where
  -- Neither the base branch nor a protected one.
  abbrev pub IsFree : String → Type 0
  IsFree b = ((b == base) ≡ false) × (is_protected b ≡ false)

  abbrev pub Creates : String → Call → Type 0
  Creates b (Hub.create_branch name sha) = name ≡ b
  Creates b _ = ⊥

  -- Some call of the log has created the branch.
  abbrev pub IsCreated : List Call → String → Type 0
  IsCreated [] b = ⊥
  IsCreated (c ∷ calls) b = Creates b c ⊎ IsCreated calls b

  -- A branch of the program's own: it has created it, and it is no base or protected branch.
  abbrev pub IsOwnBranch : List Call → String → Type 0
  IsOwnBranch calls b = IsFree b × IsCreated calls b

  -- What a call may write to after the calls of the log: a new free branch, or a branch of the
  -- program's own; a pull request goes from one to the base.
  abbrev pub IsContained : List Call → Call → Type 0
  IsContained calls (Hub.create_branch name sha) = IsFree name
  IsContained calls (Hub.put_file args) = IsOwnBranch calls args.branch
  IsContained calls (Hub.delete_file args) = IsOwnBranch calls args.branch
  IsContained calls (Hub.create_pull_request args) =
      IsOwnBranch calls args.head × (args.base ≡ base)
  IsContained calls _ = Unit

  -- A log in which each call is contained after those before it.
  pub data AllContained : List Call → Type 0 where
    no_calls : AllContained []
    one_more :
        (calls : List Call) (c : Call)
        → AllContained calls
        → IsContained calls c
        → AllContained (calls ++ c ∷ [])

  -- The branch `b` is created, and the log is contained.
  abbrev pub Keeps : String → List Call → Type 0
  Keeps b calls = AllContained calls × IsCreated calls b

  IsCreated-append :
      (b : String) (calls : List Call) (c : Call)
      → IsCreated calls b
      → IsCreated (calls ++ c ∷ []) b
  IsCreated-append b [] c h = absurd h
  IsCreated-append b (x ∷ calls) c (inl here) = inl here
  IsCreated-append b (x ∷ calls) c (inr later) = inr (IsCreated-append b calls c later)

  IsCreated-last :
      (b sha : String) (calls : List Call) → IsCreated (calls ++ Hub.create_branch b sha ∷ []) b
  IsCreated-last b sha [] = inl refl
  IsCreated-last b sha (x ∷ calls) = inr (IsCreated-last b sha calls)

  logged_then :
      {A B : Type 0} (c : Call) (answer : List Call → Result A) (f : A → HubAction B)
      (K : List Call → Type 0) (Q : Hub → Result B → Type 0) (h : Hub)
      → K (h.calls ++ c ∷ [])
      → ((h' : Hub) (a : A) → K h'.calls → Q (f a h').0 (f a h').1)
      → ((h' : Hub) (m : String) → K h'.calls → Q h' (err m))
      → Q ((ask c answer >>= f) h).0 ((ask c answer >>= f) h).1
  unfolding ask
  logged_then {A} c answer f K Q h logged on_ok on_err =
      bind_then (ask c answer) f (λ h' (_ : Result A). K h'.calls) Q h logged
        (λ h' a k. on_ok h' a k) (λ h' m k. on_err h' m k)

  -- A call before there is a branch.
  pub ask_then :
      {A B : Type 0} (c : Call) (answer : List Call → Result A) (f : A → HubAction B)
      (Q : Hub → Result B → Type 0) (h : Hub)
      → IsContained h.calls c
      → AllContained h.calls
      → ((h' : Hub) (a : A) → AllContained h'.calls → Q (f a h').0 (f a h').1)
      → ((h' : Hub) (m : String) → AllContained h'.calls → Q h' (err m))
      → Q ((ask c answer >>= f) h).0 ((ask c answer >>= f) h).1
  ask_then c answer f Q h safe kept on_ok on_err =
      logged_then c answer f AllContained Q h (one_more h.calls c kept safe) on_ok on_err

  -- A call when the branch `b` is created.
  pub write_then :
      {A B : Type 0} (b : String) (c : Call) (answer : List Call → Result A) (f : A → HubAction B)
      (Q : Hub → Result B → Type 0) (h : Hub)
      → IsContained h.calls c
      → Keeps b h.calls
      → ((h' : Hub) (a : A) → Keeps b h'.calls → Q (f a h').0 (f a h').1)
      → ((h' : Hub) (m : String) → Keeps b h'.calls → Q h' (err m))
      → Q ((ask c answer >>= f) h).0 ((ask c answer >>= f) h).1
  write_then b c answer f Q h safe kept on_ok on_err =
      logged_then c answer f (Keeps b) Q h
        (one_more h.calls c kept.0 safe, IsCreated-append b h.calls c kept.1) on_ok on_err

  abbrev pub Kept : (B : Type 0) → String → Hub → Result B → Type 0
  Kept B b h r = Keeps b h.calls

  ask_only :
      {A B : Type 0} (b : String) (c : Call) (answer : List Call → Result A) (v : B) (h : Hub)
      → IsContained h.calls c
      → Keeps b h.calls
      → Keeps b ((ask c answer >> return v) h).0.calls
  ask_only {A} {B} b c answer v h safe kept =
      write_then b c answer (λ _. return v) (Kept B b) h safe kept (λ h' a k. k) (λ h' m k. k)

  -- What creating a branch leaves.
  abbrev pub Branched : Hub → Result CreatedBranch → Type 0
  Branched h (ok b) = Keeps b.branch_name h.calls × IsFree b.branch_name
  Branched h (err m) = AllContained h.calls

  module _ (client : GithubClient) (redact hash : String → String) where
    take_branch-Branched :
        (name sha : String) (next : HubAction CreatedBranch) (taken : Bool) (h : Hub)
        → IsFree name
        → AllContained h.calls
        → ((h' : Hub) → AllContained h'.calls → Branched (next h').0 (next h').1)
        → Branched
            (take_branch client redact hash name sha next taken h).0
            (take_branch client redact hash name sha next taken h).1
    take_branch-Branched name sha next true h own kept later = later h kept
    take_branch-Branched name sha next false h own kept later =
        logged_then (Hub.create_branch name sha) _
          (λ _. return (record { branch_name = name; base_sha = sha })) (Keeps name) Branched h
          (one_more h.calls (Hub.create_branch name sha) kept own, IsCreated-last name sha h.calls)
          (λ h' a k. (k, own)) (λ h' m k. k.0)

    try_branch-Branched :
        (root sha : String) (left attempt : ℕ) (h : Hub)
        → AllContained h.calls
        → Branched
            (try_branch client redact hash base root sha left attempt h).0
            (try_branch client redact hash base root sha left attempt h).1
    unfolding try_branch
    try_branch-Branched root sha zero attempt h kept = kept
    try_branch-Branched root sha (suc left) attempt h kept =
        let name = branch_at client redact hash root attempt in
        elim (Bool-cases ((name == base) || is_protected name)) [
          | inl bad ↦ simp bad kept
          | inr free ↦ simp free (
              ask_then (Hub.branch_exists name) _
                (take_branch client redact hash name sha
                  (try_branch client redact hash base root sha left (suc attempt)))
                Branched h tt kept
                (λ h' taken k.
                  take_branch-Branched name sha _ taken h' (ground (arith, free)) k
                    (λ h'' k'. try_branch-Branched root sha left (suc attempt) h'' k'))
                (λ h' m k. k))
        ]

    from_sha-Branched :
        (root : String) (o : Option String) (h : Hub)
        → AllContained h.calls
        → Branched
            (from_sha client redact hash base root o h).0
            (from_sha client redact hash base root o h).1
    from_sha-Branched root none h kept = kept
    from_sha-Branched root (some sha) h kept = elim (Bool-cases (is_empty sha)) [
      | inl nothing ↦ simp nothing kept
      | inr there ↦ simp there (try_branch-Branched root sha 5 1 h kept)
    ]

    pub create_session_branch-Branched :
        (session_id : String) (timestamp : ℕ) (h : Hub)
        → AllContained h.calls
        → Branched
            (create_session_branch client redact hash session_id base timestamp h).0
            (create_session_branch client redact hash session_id base timestamp h).1
    unfolding create_session_branch
    create_session_branch-Branched session_id timestamp h kept =
        ask_then (Hub.get_branch_sha base) _
          (from_sha client redact hash base (build_branch_name session_id timestamp)) Branched h tt
          kept (λ h' o k. from_sha-Branched _ o h' k) (λ h' m k. k)

    write_file-kept :
        (branch message : String) (file : PatchFileSpec) (action : PatchFileAction)
        (existing : Option GithubFileContent) (h : Hub)
        → IsFree branch
        → Keeps branch h.calls
        → Keeps branch (write_file client redact hash branch message file action existing h).0.calls
    write_file-kept branch message file create (some x) h own kept = kept
    write_file-kept branch message file create none h own kept =
        ask_only branch (Hub.put_file (put_args client redact hash branch message file none)) _ _ h
          (own, kept.1) kept
    write_file-kept branch message file modify none h own kept = kept
    write_file-kept branch message file modify (some x) h own kept =
        ask_only branch
          (Hub.put_file (put_args client redact hash branch message file (some x.sha))) _ _ h
          (own, kept.1) kept
    write_file-kept branch message file delete none h own kept = kept
    write_file-kept branch message file delete (some x) h own kept =
        ask_only branch (Hub.delete_file (delete_args client redact hash branch message file x.sha))
          _ _ h (own, kept.1) kept

    pub apply_patch_files-kept :
        (branch prefix : String) (files : List PatchFileSpec) (h : Hub)
        → IsFree branch
        → Keeps branch h.calls
        → Keeps branch (apply_patch_files client redact hash branch base prefix files h).0.calls
    unfolding apply_patch_files
    apply_patch_files-kept branch prefix [] h own kept = kept
    apply_patch_files-kept branch prefix (file ∷ files) h own kept =
        let message =
          String.◌++◌ prefix (
            String.◌++◌ ": " (String.◌++◌ (action_text file.action) (String.◌++◌ " " file.path))) in
        let others = apply_patch_files client redact hash branch base prefix files in
        let write = write_file client redact hash branch message file file.action in
        write_then branch (Hub.get_file file.path base) _
          (λ existing. write existing >>= (λ one. others >>= (λ rest. return (one ∷ rest))))
          (Kept (List AppliedFile) branch) h tt kept
          (λ h1 existing k.
            bind_then (write existing) (λ one. others >>= (λ rest. return (one ∷ rest)))
              (Kept AppliedFile branch) (Kept (List AppliedFile) branch) h1
              (write_file-kept branch message file file.action existing h1 own k)
              (λ h2 one k2.
                bind_then others (λ rest. return (one ∷ rest)) (Kept (List AppliedFile) branch)
                  (Kept (List AppliedFile) branch) h2
                  (apply_patch_files-kept branch prefix files h2 own k2) (λ h3 rest k3. k3)
                  (λ h3 m k3. k3))
              (λ h2 m k2. k2))
          (λ h1 m k. k)
