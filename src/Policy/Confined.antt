-- ===== src/Policy/Confined.antt =====
-- What a permission that the safe policy gives keeps to.
use autonomous_dev_platform.Base.{
  Bool, true, false, not, ◌&&◌, ◌||◌, String, List, ◌≡◌, refl, arith, if◌then◌else◌, ◌==◌, same_any,
  lower_case,
}
use autonomous_dev_platform.Policy.Command.{
  Request, Verdict, command_allowed, extract_command, extract_requested_path,
}
use autonomous_dev_platform.Policy.Permission.{
  PermissionPolicy, PermissionContext, Decided, Reason, decide_permission, allowed, denied,
  by_policy, decided_safely, by_verdict, lies_in, lies_outside, writes_secret, safe_kinds,
  exec_kinds, extract_permission_kind,
}

-- A kind that reads or edits, and does not run a program.
abbrev is_safe_kind : Request → Bool
is_safe_kind r =
    same_any lower_case safe_kinds (extract_permission_kind r)
    && not (same_any lower_case exec_kinds (extract_permission_kind r))

abbrev chosen : Bool → Bool → Bool → Bool → Bool → Verdict → Decided
chosen outside owner secret safe runs v =
    if outside
    then denied Reason.workspace_escape
    else if owner && outside
    then denied Reason.owner_worktree
    else if secret
    then denied Reason.secret_file
    else if safe
    then allowed Reason.safe_kind
    else if runs
    then by_verdict v
    else denied Reason.unknown_permission

verdict_allow : (v : Verdict) → (by_verdict v).allow ≡ true → v.allow ≡ true
verdict_allow v h = ground arith

chosen_outcome :
    (outside owner secret safe runs : Bool) (v : Verdict)
    → (chosen outside owner secret safe runs v).allow ≡ true
    → (outside ≡ false) × (secret ≡ false) × ((safe || v.allow) ≡ true)
chosen_outcome true owner secret safe runs v h = cc
chosen_outcome false true true safe runs v h = cc
chosen_outcome false false true safe runs v h = cc
chosen_outcome false true false true runs v h = (refl, refl, refl)
chosen_outcome false false false true runs v h = (refl, refl, refl)
chosen_outcome false true false false true v h = (refl, refl, verdict_allow v h)
chosen_outcome false false false false true v h = (refl, refl, verdict_allow v h)
chosen_outcome false true false false false v h = cc
chosen_outcome false false false false false v h = cc

module _ (resolve : String → String) (patterns : List String) (request : Request)
    (context : PermissionContext) where
  -- Where the safe policy gives a permission, the path that is read from the request does not lie
  -- outside the workspace, if there are a path and a known workspace, and the request does not edit,
  -- write or delete at it if it is that of a file with secrets. The request is of a kind that runs no
  -- program, or the policy of commands allows the command that it names. Paths within a command, and
  -- any other paths of the request, are not looked at.
  pub permission_confined :
      (decide_permission resolve patterns PermissionPolicy.safe_development request
          context).decided.allow
        ≡ true
      → (lies_outside resolve (extract_requested_path request) context.workspace_root ≡ false)
        × (writes_secret (extract_requested_path request) (extract_permission_kind request) ≡ false)
        × ((is_safe_kind request
              || (command_allowed patterns (extract_command request) context.branch).allow)
            ≡ true)
  unfolding decide_permission by_policy decided_safely
  permission_confined h =
      chosen_outcome (lies_outside resolve (extract_requested_path request) context.workspace_root)
        (lies_in resolve (extract_requested_path request) context.owner_path)
        (writes_secret (extract_requested_path request) (extract_permission_kind request))
        (is_safe_kind request)
        (same_any lower_case exec_kinds (extract_permission_kind request)
          || not (extract_command request == ""))
        (command_allowed patterns (extract_command request) context.branch) h
