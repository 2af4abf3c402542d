-- ===== src/FileTools/Contained.antt =====
-- workspace.go and the two tools: what happens to a path outside the workspace.
use docsclaw.Base.{
  Str, bytes, ◌==◌, eq_iff, has_prefix, has_prefix-eq, has_prefix-append, Map, none, some, [], ◌++◌,
  true, false, ◌≡◌, ◌≢◌, ◌⊎◌, inl, inr, arith, subst, Bool-cases, Option-cases,
}
use docsclaw.Json.{Json}
use docsclaw.FileTools.{
  Files, argument, resolved, resolved_workspace, is_inside_workspace, refused, read_file,
  write_file,
}

module _ {W : Type 0} (fs : Files W) where
  -- One path is another, or it begins with that and a separator.
  abbrev IsBelow : Str → Str → Type 0
  IsBelow path root = (path ≡ root) ⊎ ((rest : Str) × (path ≡ (root ++ bytes "/") ++ rest))

  -- Where a path leads, as the links stand, and that it is below the root: the file exists; or only
  -- its directory does; or neither does, and then nothing is known but the text of the path.
  pub data IsPlaced (w : W) (path root : Str) : Type 0 where
    exists :
        {real : Str}
        → fs.eval_symlinks w path ≡ some real
        → IsBelow real root
        → IsPlaced w path root
    new_file :
        {real : Str}
        → fs.eval_symlinks w path ≡ none
        → fs.eval_symlinks w (fs.dir path) ≡ some real
        → IsBelow (fs.join real (fs.base path)) root
        → IsPlaced w path root
    unresolved :
        fs.eval_symlinks w path ≡ none
        → fs.eval_symlinks w (fs.dir path) ≡ none
        → IsBelow path root
        → IsPlaced w path root

  -- The workspace with its links resolved, where it exists.
  pub data IsRoot (w : W) (workspace : Str) : Str → Type 0 where
    real_root : {real : Str} → fs.eval_symlinks w workspace ≡ some real → IsRoot w workspace real
    no_root : fs.eval_symlinks w workspace ≡ none → IsRoot w workspace workspace

  -- Both have absolute forms, and that of the path is placed below the workspace's.
  pub record IsInside (w : W) (path workspace : Str) : Type 0 where
    pub abs_path : Str
    pub abs_workspace : Str
    pub root : Str
    pub path_abs : fs.abs path ≡ some abs_path
    pub workspace_abs : fs.abs workspace ≡ some abs_workspace
    pub root_of : IsRoot w abs_workspace root
    pub placed : IsPlaced w abs_path root

  resolved_workspace-IsRoot : (w : W) (q : Str) → IsRoot w q (resolved_workspace fs w q)
  unfolding resolved_workspace
  resolved_workspace-IsRoot w q = elim (Option-cases (fs.eval_symlinks w q)) [
    | inl e ↦ subst (IsRoot w q) (ground (arith, e)) (no_root e)
    | inr (real, e) ↦ subst (IsRoot w q) (ground (arith, e)) (real_root e)
  ]

  resolved-IsPlaced : (w : W) (p root : Str) → IsBelow (resolved fs w p) root → IsPlaced w p root
  unfolding resolved
  resolved-IsPlaced w p root h = elim (Option-cases (fs.eval_symlinks w p)) [
    | inr (real, e) ↦ exists e (
        subst (λ s. IsBelow s root) (let same : resolved fs w p ≡ real = ground (arith, e) in same)
          h)
    | inl e ↦ elim (Option-cases (fs.eval_symlinks w (fs.dir p))) [
      | inr (real, f) ↦ new_file e f (
          subst (λ s. IsBelow s root)
            (let same : resolved fs w p ≡ fs.join real (fs.base p) = ground (arith, e, f) in same)
            h)
      | inl f ↦ unresolved e f (
          subst (λ s. IsBelow s root)
            (let same : resolved fs w p ≡ p = ground (arith, e, f) in same) h)
    ]
  ]

  is_inside_workspace-IsInside :
      (w : W) (path workspace : Str)
      → is_inside_workspace fs w path workspace ≡ true
      → IsInside w path workspace
  unfolding is_inside_workspace
  is_inside_workspace-IsInside w path workspace h = elim (Option-cases (fs.abs path)) [
    | inl e ↦ absurd (ground arith)
    | inr (p, e) ↦ elim (Option-cases (fs.abs workspace)) [
      | inl f ↦ absurd (ground arith)
      | inr (q, f) ↦ record {
        abs_path = p;
        abs_workspace = q;
        root = resolved_workspace fs w q;
        path_abs = e;
        workspace_abs = f;
        root_of = resolved_workspace-IsRoot w q;
        placed =
            resolved-IsPlaced w p (resolved_workspace fs w q)
              (elim (Bool-cases (resolved fs w p == resolved_workspace fs w q)) [
                | inl same ↦ inl ((eq_iff _ _).0 same)
                | inr other ↦ inr (has_prefix-eq _ _ (ground (arith, e, f)))
              ]);
      }
    ]
  ]

  -- With a workspace set, writing changes something outside the process only if the path was, when the
  -- tool is called, one of these: a file that exists, and whose real path is the workspace's or
  -- below it; a name in a directory that exists, and the name below that real directory is; or a path
  -- whose file and directory do not exist, and then only its text is the workspace's or below it.
  pub write_file-IsInside :
      (w : W) (workspace : Str) (args : Map Json)
      → workspace ≢ []
      → (write_file fs workspace args w).1 ≢ w
      → IsInside w (argument (bytes "path") args) workspace
  unfolding write_file refused
  write_file-IsInside w workspace args set changed =
      let path = argument (bytes "path") args in
      elim (Bool-cases (is_inside_workspace fs w path workspace)) [
        | inl inside ↦ is_inside_workspace-IsInside w path workspace inside
        | inr outside ↦ absurd (changed (ground (arith, outside, eq_iff workspace [])))
      ]

  -- With a workspace set, reading gives no error only if the path is placed in the
  -- workspace in the same sense.
  read_file-IsInside :
      (w : W) (workspace : Str) (args : Map Json)
      → workspace ≢ []
      → (read_file fs workspace args w).0.error ≡ false
      → IsInside w (argument (bytes "path") args) workspace
  unfolding read_file refused
  read_file-IsInside w workspace args set fine =
      let path = argument (bytes "path") args in
      elim (Bool-cases (is_inside_workspace fs w path workspace)) [
        | inl inside ↦ is_inside_workspace-IsInside w path workspace inside
        | inr outside ↦ absurd (ground (arith, outside, eq_iff workspace []))
      ]

  -- A path of which neither the file nor its directory exists is accepted by its text alone: if that
  -- begins with the workspace, the links on the way do not matter, wherever they lead.
  unresolved_is_inside :
      (w : W) (path workspace abs_path abs_workspace real rest : Str)
      → fs.abs path ≡ some abs_path
      → fs.abs workspace ≡ some abs_workspace
      → fs.eval_symlinks w abs_path ≡ none
      → fs.eval_symlinks w (fs.dir abs_path) ≡ none
      → fs.eval_symlinks w abs_workspace ≡ some real
      → abs_path ≡ (real ++ bytes "/") ++ rest
      → is_inside_workspace fs w path workspace ≡ true
  unfolding is_inside_workspace resolved resolved_workspace
  unresolved_is_inside w path workspace abs_path abs_workspace real rest p q no_file no_dir e text =
      let front : has_prefix abs_path (real ++ bytes "/") ≡ true =
        rw text (has_prefix-append (real ++ bytes "/") rest) in
      ground (arith, front)
