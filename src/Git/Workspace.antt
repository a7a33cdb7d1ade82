-- ===== src/Git/Workspace.antt =====
-- src/ai_runtime/git/workspace.py: `GitWorkspaceManager`.
pub mod Gate
use Prim.Native.String.{◌++◌, len}
use design_document.Base.{
  ℕ, String, Bool, true, not, ◌||◌, Option, none, some, List, [], ◌∷◌, map, keep, ◌==◌, nat_eq, ltb,
  if◌then◌else◌, Result, ok, err,
}
use design_document.Identifier.{is_safe_feature_id}
use design_document.Text.{strip, splitlines, split_space}
use design_document.Git.Command.{
  GitPort, Completed, Git, GitError, bad_feature_id, invariant_error, ◌>>=◌, ◌>>◌, pure, raise,
  require, run_unchecked, run, head, require_clean, resolve_commit, is_ancestor,
}

pub record Workspace : Type 0 where
  pub feature_id : String
  pub path : String
  pub branch : String
  pub base_ref : String
  pub base_head : String

pub record MergeBinding : Type 0 where
  pub feature_id : String
  pub base_head : String
  pub reviewed_head : String
  pub branch : String

-- A repository's directory and the root of its worktrees.
pub record Places : Type 0 where
  pub repository : String
  pub worktree_root : String

module _ {W : Type 0} (port : GitPort W) where
  -- `None` where the command fails.
  unfoldable pub branch_exists : String → String → Git W Bool
  branch_exists repo branch = do
    c ←
        run_unchecked port repo
          ("show-ref" ∷ "--verify" ∷ "--quiet" ∷ ("refs/heads/" ++ branch) ∷ [])
    pure (nat_eq c.returncode 0)

  -- `excluded_branch` is a name or `None`; an empty name excludes nothing.
  abbrev is_other : Option String → String × String → Bool
  is_other none (ref, object_id) = true
  is_other (some excluded) (ref, object_id) =
      (excluded == "") || not (ref == ("refs/heads/" ++ excluded))

  -- `ref_snapshot(excluded_branch=...)`: the pairs of the dictionary.
  unfoldable pub ref_snapshot : Places → Option String → Git W (List (String × String))
  ref_snapshot p excluded = do
    c ←
        run port p.repository
          ("for-each-ref" ∷ "--format=%(refname) %(objectname)" ∷ "refs/heads" ∷ "refs/tags" ∷ [])
    pure (
        keep (is_other excluded)
          (map split_space (keep (λ line. not (line == "")) (splitlines c.stdout))))

  unfoldable pub local_config_sha256 : Places → Git W String
  local_config_sha256 p = do
    c ← run port p.repository ("config" ∷ "--local" ∷ "--null" ∷ "--list" ∷ [])
    pure (port.sha256 c.stdout)

  abbrev workspace_of : String → String → String → String → String → Workspace
  workspace_of feature_id path branch base_ref base_head = record {
    feature_id = feature_id;
    path = path;
    branch = branch;
    base_ref = base_ref;
    base_head = base_head;
  }

  -- The worktree is there: its branch must be the feature's.
  reuse_worktree : Workspace → Git W Workspace
  reuse_worktree ws = do
    c ← run port ws.path ("branch" ∷ "--show-current" ∷ [])
    require (strip c.stdout == ws.branch)
        (invariant_error "existing worktree has unexpected branch")
    pure ws

  add_worktree : Places → Workspace → Git W Workspace
  add_worktree p ws = do
    known ← branch_exists p.repository ws.branch
    run port p.repository (
        "worktree"
        ∷ "add"
        ∷ (if known
            then ws.path ∷ ws.branch ∷ []
            else "-b" ∷ ws.branch ∷ ws.path ∷ ws.base_head ∷ []))
    pure ws

  open_worktree : Places → Workspace → Git W Workspace
  unfolding reuse_worktree add_worktree
  open_worktree p ws w = if port.exists w ws.path then reuse_worktree ws w else add_worktree p ws w

  -- `create`. A safe id cannot leave the root, since it has no separator and does not begin with
  -- a dot, so the check of the path's parent never fails.
  unfoldable pub create : Places → String → String → Git W Workspace
  unfolding open_worktree
  create p feature_id base_ref = do
    require (is_safe_feature_id feature_id) bad_feature_id
    base_head ← resolve_commit port p.repository base_ref
    open_worktree p (
        workspace_of feature_id (p.worktree_root ++ ("/" ++ feature_id))
          ("ai-runtime/" ++ feature_id) base_ref base_head)

  unfoldable pub review_patch : ℕ → Workspace → Git W String
  review_patch max_bytes ws = do
    current ← head port ws.path
    c ← run port ws.path ("diff" ∷ "--no-ext-diff" ∷ (ws.base_head ++ (".." ++ current)) ∷ [])
    require (not (ltb max_bytes (len c.stdout)))
        (invariant_error "review patch exceeds temporary adapter limit")
    pure c.stdout

pub record Inspection : Type 0 where
  pub base_head : String
  pub head : String
  pub branch : String
  pub changed_paths : List String
  pub diff_sha256 : String

module _ {W : Type 0} (port : GitPort W) where
  unfoldable pub inspect_implementation : Workspace → Git W Inspection
  inspect_implementation ws = do
    require_clean port ws.path
    current ← head port ws.path
    require (not (current == ws.base_head)) (invariant_error "implementation produced no commit")
    descends ← is_ancestor port ws.path ws.base_head current
    require descends (invariant_error "feature head does not descend from approved base")
    let range = ws.base_head ++ (".." ++ current)
    diff ← run port ws.path ("diff" ∷ "--binary" ∷ "--no-ext-diff" ∷ range ∷ [])
    names ← run port ws.path ("diff" ∷ "--name-only" ∷ "--no-ext-diff" ∷ range ∷ [])
    pure (record {
      base_head = ws.base_head;
      head = current;
      branch = ws.branch;
      changed_paths = keep (λ line. not (line == "")) (splitlines names.stdout);
      diff_sha256 = port.sha256 diff.stdout;
    })

  unfoldable pub validate_merge : Places → MergeBinding → Git W Unit
  validate_merge p b = do
    require_clean port p.repository
    current_base ← head port p.repository
    require (current_base == b.base_head) (invariant_error "integration head drifted")
    branch_head ← resolve_commit port p.repository b.branch
    require (branch_head == b.reviewed_head) (invariant_error "reviewed head drifted")
    preflight ←
        run_unchecked port p.repository
          ("merge-tree" ∷ "--write-tree" ∷ b.base_head ∷ b.reviewed_head ∷ [])
    require (nat_eq preflight.returncode 0) (invariant_error "merge preflight found conflicts")

  unfoldable pub merge : Places → MergeBinding → Bool → Git W String
  unfolding validate_merge
  merge p b prevalidated = do
    if prevalidated then pure tt else validate_merge p b
    run port p.repository ("merge" ∷ "--no-ff" ∷ "--no-edit" ∷ b.reviewed_head ∷ [])
    require_clean port p.repository
    head port p.repository

  unfoldable pub remove_worktree : Places → Workspace → String → Git W Unit
  remove_worktree p ws merged_head = do
    require_clean port ws.path
    current ← head port ws.path
    require (current == merged_head)
        (invariant_error "refusing cleanup because feature worktree head changed")
    run port p.repository ("worktree" ∷ "remove" ∷ ws.path ∷ [])
    pure tt

  unfoldable pub remove_branch : Places → Workspace → Git W Unit
  remove_branch p ws = do
    found ←
        run_unchecked port p.repository
          ("rev-parse" ∷ "--verify" ∷ ("refs/heads/" ++ ws.branch) ∷ [])
    if nat_eq found.returncode 0
        then (run port p.repository ("branch" ∷ "-d" ∷ ws.branch ∷ []) >> pure tt)
        else pure tt

  unfoldable pub cleanup : Places → Workspace → String → Git W Unit
  cleanup p ws merged_head w =
      (if port.exists w ws.path
          then (remove_worktree p ws merged_head >> remove_branch p ws)
          else remove_branch p ws)
        w
