-- ===== src/Git/Tests.antt =====
-- Leases and merge gates on small inputs.
use design_document.Base.{
  ◌+◌, ◌≤◌, ◌<◌, String, ◌≡◌, ◌≢◌, refl, ap, ◌⊎◌, inl, true, false, none, some, List, [], ◌∷◌,
  arith, ◌==◌, ok, err,
}
use design_document.Git.Lease.{
  Lease, LeaseFiles, LeaseError, Acquisition, update, acquire, validate,
}
use design_document.Git.Lease.Fencing.{issued, IsFenced, acquire-token, acquire-exclusive}
use design_document.Git.Lease.History.{
  acquires, revokes, run, IsSuperseded, superseded_stays_invalid, issued-run,
}
use design_document.Identifier.{is_safe_feature_id}
use design_document.Text.{strip, splitlines}
use design_document.Git.Command.{
  GitPort, Completed, Git, head, is_clean, require_clean, resolve_commit, is_ancestor,
  run_unchecked,
}
use design_document.Git.Workspace.{
  Places, Workspace, MergeBinding, Inspection, validate_merge, inspect_implementation, merge,
  cleanup, remove_worktree, remove_branch,
}
use design_document.Git.Workspace.Gate.{
  Validated, validate_merge-binds, merge-binds, inspect_implementation-binds, cleanup-binds,
}

abbrev first_lease : Lease
first_lease = record {
  feature_id = "f1";
  owner = "s1";
  workspace = "/w/f1";
  fencing_token = 1;
  lease_id = "u1";
  expires_at = 60000000;
}

abbrev no_files : LeaseFiles
no_files = record { lease_file = λ id. none; token_file = λ id. none }

abbrev one_lease : LeaseFiles
one_lease = record {
  lease_file = update (λ id. none) "f1" (some first_lease);
  token_file = update (λ id. none) "f1" (some 1);
}

abbrev one_token : LeaseFiles
one_token = record { lease_file = λ id. none; token_file = update (λ id. none) "f1" (some 1) }

abbrev request : String → Acquisition
request owner = record { feature_id = "f1"; owner = owner; workspace = "/w/f1"; ttl_seconds = 60 }

no_files-IsFenced : IsFenced no_files
no_files-IsFenced = record { on_record = λ id. omega arith; own_file = λ id l e. cc }

one_token-IsFenced : IsFenced one_token
one_token-IsFenced = record { on_record = λ id. omega arith; own_file = λ id l e. cc }

acquire_run : acquire no_files (request "s1") 0 "u1" ≡ ok (one_lease, first_lease)
unfolding acquire is_safe_feature_id
acquire_run = refl

acquire-token_example :
    ((one_lease ≡ no_files)
      × (no_files.lease_file "f1" ≡ some first_lease)
      × (0 < 60000000)
      × (first_lease.owner ≡ (request "s1").owner)
      × (first_lease.workspace ≡ (request "s1").workspace))
    ⊎ ((1 ≡ issued no_files "f1" + 1)
        × (issued one_lease "f1" ≡ 1)
        × (one_lease.lease_file "f1" ≡ some first_lease)
        × (one_lease.lease_file ≡ update no_files.lease_file "f1" (some first_lease))
        × (one_lease.token_file ≡ update no_files.token_file "f1" (some 1)))
acquire-token_example =
    acquire-token no_files one_lease (request "s1") 0 "u1" first_lease no_files-IsFenced acquire_run

other_owner : first_lease.owner ≢ (request "s2").owner
other_owner e = ground (arith, ap (λ s. s == "s1") e)

acquire-exclusive_example : (x : LeaseError) × (acquire one_lease (request "s2") 5 "u2" ≡ err x)
acquire-exclusive_example =
    acquire-exclusive one_lease (request "s2") 5 "u2" first_lease refl (omega arith)
      (inl other_owner)

first_lease-IsSuperseded : IsSuperseded one_token first_lease
first_lease-IsSuperseded = record { spent = omega arith; displaced = λ l e. cc }

superseded_stays_invalid_example :
    (x : LeaseError) × (validate
        (run one_token (acquires (request "s1") 7 "u1" ∷ revokes first_lease ∷ []))
        first_lease
        9
      ≡ err x)
superseded_stays_invalid_example =
    superseded_stays_invalid one_token (acquires (request "s1") 7 "u1" ∷ revokes first_lease ∷ [])
      first_lease 9 one_token-IsFenced first_lease-IsSuperseded

issued-run_example :
    (issued one_token "f1" ≤ issued (run one_token (acquires (request "s1") 7 "u1" ∷ [])) "f1")
    × IsFenced (run one_token (acquires (request "s1") 7 "u1" ∷ []))
issued-run_example =
    issued-run one_token (acquires (request "s1") 7 "u1" ∷ []) "f1" one_token-IsFenced

-- A repository whose world is the list of the answers still to come.
abbrev answered : List String → List String × Completed
answered [] = ([], record { returncode = 1; stdout = "" })
answered (text ∷ texts) = (texts, record { returncode = 0; stdout = text })

abbrev git : GitPort (List String)
git = record {
  command = λ w cwd arguments. answered w;
  exists = λ w path. true;
  sha256 = λ text. text;
}

abbrev places : Places
places = record { repository = "/r"; worktree_root = "/w" }

abbrev binding : MergeBinding
binding = record {
  feature_id = "f1";
  base_head = "b";
  reviewed_head = "h";
  branch = "ai-runtime/f1";
}

abbrev workspace : Workspace
workspace = record {
  feature_id = "f1";
  path = "/w/f1";
  branch = "ai-runtime/f1";
  base_ref = "HEAD";
  base_head = "b";
}

abbrev gate_answers : List String
gate_answers = "" ∷ "b" ∷ "h" ∷ "tree" ∷ []

validate_merge_run : validate_merge git places binding gate_answers ≡ (ok tt, [])
unfolding validate_merge require_clean is_clean design_document.Git.Command.run run_unchecked strip
    head resolve_commit
validate_merge_run = refl

validate_merge-binds_example : Validated git places binding gate_answers []
validate_merge-binds_example =
    validate_merge-binds git places binding gate_answers [] validate_merge_run

abbrev merge_answers : List String
merge_answers = "" ∷ "b" ∷ "h" ∷ "tree" ∷ "" ∷ "" ∷ "m" ∷ []

merge_run : merge git places binding false merge_answers ≡ (ok "m", [])
unfolding merge validate_merge require_clean is_clean design_document.Git.Command.run run_unchecked
    strip head resolve_commit
merge_run = refl

merge-binds_example :
    (w₁ w₂ w₃ : List String) × (c : Completed) × Validated git places binding merge_answers w₁
    × (design_document.Git.Command.run git "/r" ("merge" ∷ "--no-ff" ∷ "--no-edit" ∷ "h" ∷ []) w₁
        ≡ (ok c, w₂))
    × (require_clean git "/r" w₂ ≡ (ok tt, w₃))
    × (head git "/r" w₃ ≡ (ok "m", []))
merge-binds_example = merge-binds git places binding merge_answers [] "m" merge_run

abbrev inspection : Inspection
inspection = record {
  base_head = "b";
  head = "h";
  branch = "ai-runtime/f1";
  changed_paths = "a.py" ∷ [];
  diff_sha256 = "diff";
}

abbrev inspect_answers : List String
inspect_answers = "" ∷ "h" ∷ "" ∷ "diff" ∷ "a.py" ∷ []

inspect_run : inspect_implementation git workspace inspect_answers ≡ (ok inspection, [])
unfolding inspect_implementation require_clean is_clean design_document.Git.Command.run
    run_unchecked strip head is_ancestor splitlines
inspect_run = refl

inspect_implementation-binds_example :
    (inspection.base_head ≡ workspace.base_head)
    × (inspection.branch ≡ workspace.branch)
    × (("h" == "b") ≡ false)
    × ((w₁ w₂ w₃ : List String) × (require_clean git "/w/f1" inspect_answers ≡ (ok tt, w₁))
        × (head git "/w/f1" w₁ ≡ (ok "h", w₂))
        × (is_ancestor git "/w/f1" "b" "h" w₂ ≡ (ok true, w₃)))
inspect_implementation-binds_example =
    inspect_implementation-binds git workspace inspect_answers [] inspection inspect_run

abbrev cleanup_answers : List String
cleanup_answers = "" ∷ "h" ∷ "" ∷ "h" ∷ "" ∷ []

cleanup_run : cleanup git places workspace "h" cleanup_answers ≡ (ok tt, [])
unfolding cleanup remove_worktree remove_branch require_clean is_clean
    design_document.Git.Command.run run_unchecked strip head
cleanup_run = refl

cleanup-binds_example :
    (w₁ w₂ : List String) × (require_clean git "/w/f1" cleanup_answers ≡ (ok tt, w₁))
    × (head git "/w/f1" w₁ ≡ (ok "h", w₂))
cleanup-binds_example = cleanup-binds git places workspace "h" cleanup_answers [] refl cleanup_run
