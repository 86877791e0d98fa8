-- ===== src/Policy/Permission.antt =====
-- cursor/permission-policy.js: the answer to a permission that the agent asks for. `resolve`
-- is the file system's answer to where a path leads.
use autonomous_dev_platform.Base.{
  Bool, true, false, not, ◌&&◌, ◌||◌, Option, none, some, String, List, [], ◌∷◌, ◌==◌,
  if◌then◌else◌, lower_case, same, same_any, contains_any, trim, or_else, includes,
}
use autonomous_dev_platform.Policy.Boundary.{is_inside_root}
use autonomous_dev_platform.Policy.SecretFiles.{is_protected_secret_file}
use autonomous_dev_platform.Policy.Command.{
  CommandCategory, Request, Verdict, command_allowed, extract_command, extract_requested_path,
  or_empty,
}

pub data PermissionPolicy : Type 0 where
  deny_all safe_development allow_all : PermissionPolicy

-- The policy's name, or those of the two environment variables.
unfoldable pub resolve_permission_policy :
    Option String → Option String → Option String → PermissionPolicy
unfolding trim
resolve_permission_policy name cursor_policy acp_policy =
    let value = trim (
      or_empty
        (or_else name (or_else cursor_policy (or_else acp_policy (some "safe-development"))))) in
    if same lower_case "allow-all" value || same lower_case "allowall" value
    then allow_all
    else if same lower_case "deny" value
    then deny_all
    else safe_development

abbrev pick_option : List String → List String → String → String
pick_option ids [] default = default
pick_option ids (c ∷ cs) default =
    let rest = pick_option ids cs default in if includes c ids then c else rest

-- The kind that a request names, of which the case is ignored below.
unfoldable pub extract_permission_kind : Request → String
extract_permission_kind r = or_empty (
    or_else r.tool_kind
      (or_else r.tool_type (or_else r.permission_kind (or_else r.kind (or_else r.tool none)))))

abbrev pub safe_kinds : List String
safe_kinds =
    "read" ∷ ("edit" ∷ ("write" ∷ ("delete" ∷ ("glob" ∷ ("grep" ∷ ("search" ∷ ("list" ∷ [])))))))

abbrev pub exec_kinds : List String
exec_kinds = "execute" ∷ ("terminal" ∷ ("shell" ∷ ("command" ∷ [])))

pub data Reason : Type 0 where
  by_allow_all policy_deny workspace_escape owner_worktree secret_file safe_kind : Reason
  unknown_permission : Reason
  sandboxed by_category : CommandCategory → Reason

pub record PermissionContext : Type 0 where
  pub workspace_root : Option String
  pub owner_path : Option String
  pub branch : Option String

pub record Decided : Type 0 where
  pub allow : Bool
  pub reason : Reason

pub record PermissionDecision : Type 0 where
  pub policy : PermissionPolicy
  pub command : Option String
  pub path : Option String
  pub decided : Decided
  pub option_id : String

abbrev pub allowed : Reason → Decided
allowed reason = record { allow = true; reason = reason }

abbrev pub denied : Reason → Decided
denied reason = record { allow = false; reason = reason }

abbrev pub is_unknown : CommandCategory → Bool
is_unknown CommandCategory.unknown_command = true
is_unknown _ = false

-- `verdict.route === 'sandbox'`
abbrev pub is_sandbox : Option String → Bool
is_sandbox none = false
is_sandbox (some r) = r == "sandbox"

abbrev pub by_verdict : Verdict → Decided
by_verdict v =
    if v.allow && not (is_unknown v.classified.category)
    then allowed (
        if is_sandbox v.route
        then sandboxed v.classified.category
        else by_category v.classified.category)
    else denied (by_category v.classified.category)

unfoldable pub writes_secret : Option String → String → Bool
unfolding is_protected_secret_file
writes_secret none kind = false
writes_secret (some p) kind =
    not (p == "")
    && (is_protected_secret_file p
        && contains_any lower_case ("edit" ∷ ("write" ∷ ("delete" ∷ []))) kind)

module _ (resolve : String → String) where
  -- `path && root && assertInsideWorkspace(path, root)`, and with `!assertInsideWorkspace`
  abbrev pub lies_in : Option String → Option String → Bool
  lies_in none root = false
  lies_in (some p) none = false
  lies_in (some p) (some r) = not (p == "") && (not (r == "") && is_inside_root resolve p r)

  abbrev pub lies_outside : Option String → Option String → Bool
  lies_outside none root = false
  lies_outside (some p) none = false
  lies_outside (some p) (some r) =
      not (p == "") && (not (r == "") && not (is_inside_root resolve p r))

  unfoldable pub decided_safely :
      List String → PermissionContext → String → String → Option String → Decided
  unfolding writes_secret command_allowed
  decided_safely patterns context kind command path =
      if lies_outside path context.workspace_root
      then denied workspace_escape
      else if lies_in path context.owner_path && lies_outside path context.workspace_root
      then denied owner_worktree
      else if writes_secret path kind
      then denied secret_file
      else if same_any lower_case safe_kinds kind && not (same_any lower_case exec_kinds kind)
      then allowed safe_kind
      else if same_any lower_case exec_kinds kind || not (command == "")
      then by_verdict (command_allowed patterns command context.branch)
      else denied unknown_permission

  unfoldable pub by_policy :
      PermissionPolicy → List String → PermissionContext → String → String → Option String → Decided
  unfolding decided_safely
  by_policy allow_all patterns context kind command path = allowed by_allow_all
  by_policy deny_all patterns context kind command path = denied policy_deny
  by_policy safe_development patterns context kind command path =
      decided_safely patterns context kind command path

  unfoldable pub decide_permission :
      List String → PermissionPolicy → Request → PermissionContext → PermissionDecision
  unfolding by_policy
  decide_permission patterns policy request context =
      let kind = extract_permission_kind request in
      let command = extract_command request in
      let path = extract_requested_path request in
      let d = by_policy policy patterns context kind command path in
      record {
        policy = policy;
        command = if command == "" then none else some command;
        path = path;
        decided = d;
        option_id =
            if d.allow
            then pick_option request.options
                ("allow-once" ∷ ("allow" ∷ ("approve" ∷ ("allow-always" ∷ [])))) "allow-once"
            else pick_option request.options ("reject" ∷ ("deny" ∷ ("cancel" ∷ ("decline" ∷ []))))
                "reject";
      }

-- The answer to a plan of the agent: whether it is accepted.
unfoldable pub decide_plan : PermissionPolicy → Bool
decide_plan deny_all = false
decide_plan safe_development = true
decide_plan allow_all = true
