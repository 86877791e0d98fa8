-- ===== src/Policy/Examples.antt =====
-- The theorems about the policies, at concrete commands.
use autonomous_dev_platform.Base.{true, false, none, some, ◌≡◌, ◌||◌, [], ◌∷◌, refl, trim, words}
use autonomous_dev_platform.Policy.Git.{
  classify_git, classify_git_command, on_protected, is_protected_branch, match_branch,
}
use autonomous_dev_platform.Policy.Command.{
  Request, command_allowed, is_git, program, mentions_tests, extract_command,
  extract_requested_path,
}
use autonomous_dev_platform.Policy.Boundary.{is_inside_root}
use autonomous_dev_platform.Policy.Permission.{
  PermissionContext, decide_permission, by_policy, decided_safely, extract_permission_kind,
  lies_outside, writes_secret,
}
use autonomous_dev_platform.Policy.Allowed.{git_allowed_exactly, test_argument_allows}
use autonomous_dev_platform.Policy.Confined.{permission_confined}

-- A commit on a protected branch.
git_allowed_exactly_example :
    (command_allowed ("main" ∷ []) " git commit -m x" (some "main")).allow ≡ false
unfolding on_protected is_protected_branch match_branch trim words is_git program classify_git
    classify_git_command
git_allowed_exactly_example =
    git_allowed_exactly ("main" ∷ []) " git commit -m x" (some "main") refl refl

test_argument_allows_example : (command_allowed [] "rm -rf latest" none).allow ≡ true
unfolding trim words is_git program mentions_tests
test_argument_allows_example = test_argument_allows [] "rm -rf latest" none refl refl refl

abbrev build_request : Request
build_request = record {
  tool_command = some "npm run build";
  tool_input_command = none;
  command = none;
  args_command = none;
  title = none;
  tool_path = none;
  tool_input_path = none;
  tool_input_file = none;
  path = some "/work/package.json";
  file = none;
  tool_kind = some "execute";
  tool_type = none;
  permission_kind = none;
  kind = none;
  tool = none;
  options = [];
}

abbrev work : PermissionContext
work = record { workspace_root = some "/work"; owner_path = some "/owner"; branch = none }

permission_confined_example :
    (lies_outside (λ path. path) (some "/work/package.json") (some "/work") ≡ false)
    × (writes_secret (some "/work/package.json") "execute" ≡ false)
    × ((false || (command_allowed [] "npm run build" none).allow) ≡ true)
unfolding decide_permission by_policy decided_safely extract_requested_path extract_permission_kind
    extract_command is_inside_root
permission_confined_example = permission_confined (λ path. path) [] build_request work refl
