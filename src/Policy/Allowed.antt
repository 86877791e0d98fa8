-- ===== src/Policy/Allowed.antt =====
-- Which commands and permissions the policies allow.
use autonomous_dev_platform.Base.{
  Bool, true, false, not, ◌&&◌, ◌||◌, Option, String, List, ◌≡◌, refl, ◌∙◌, ap, ◌==◌, arith,
  if◌then◌else◌, trim, words, words-trim, spaced, same_any, lower_case, contains, ignore_case,
}
use autonomous_dev_platform.Policy.Git.{
  GitAction, GitClass, is_action, classify_git, classify_git_command, on_protected,
  git_policy_allows_cursor,
}
use autonomous_dev_platform.Policy.Command.{
  CommandCategory, Classified, classify_command, command_allowed, is_git, rest_of, verdict_of,
  mentions_tests, acting_category, git_command, git_category, other_category, is_sandbox_routed,
  program, read_programs, test_programs,
}

abbrev may_mutate : GitAction → Bool → Bool
may_mutate action protected =
    is_action action GitAction.safe || (is_action action GitAction.mutating && not protected)

classify_git-trim :
    (patterns : List String) (command : String)
    → classify_git_command patterns (trim command) ≡ classify_git_command patterns command
unfolding classify_git_command
classify_git-trim patterns command = ap (λ ws. classify_git patterns ws) (words-trim command)

classify_command-git :
    (patterns : List String) (command : String)
    → (trim command == "") ≡ false
    → is_git (trim command) ≡ true
    → classify_command patterns command
      ≡ git_command (trim command) (classify_git_command patterns command)
unfolding classify_command
classify_command-git patterns command h g = rw (h, g, classify_git-trim patterns command) refl

abbrev policy_allows : GitAction → Bool → Bool → Bool
policy_allows action push protected =
    if is_action action GitAction.destructive
    then false
    else if is_action action GitAction.network && push
    then false
    else if protected && not (is_action action GitAction.safe)
    then false
    else if is_action action GitAction.unknown
    then false
    else true

-- The verdict on a classified command.
abbrev verdict_allows : CommandCategory → Bool → Bool
verdict_allows CommandCategory.git_safe policy = true
verdict_allows CommandCategory.git_mutating policy = policy
verdict_allows CommandCategory.read_only policy = true
verdict_allows category policy = is_sandbox_routed category

verdict_of-allows :
    (category : CommandCategory) (text : String) (git : Option GitClass) (policy : Bool)
    → (verdict_of (record { category = category; command = text; git = git }) policy).allow
      ≡ verdict_allows category policy
unfolding verdict_of
verdict_of-allows CommandCategory.read_only text git policy = refl
verdict_of-allows CommandCategory.project_build text git policy = refl
verdict_of-allows CommandCategory.project_test text git policy = refl
verdict_of-allows CommandCategory.package_manager text git policy = refl
verdict_of-allows CommandCategory.project_runtime text git policy = refl
verdict_of-allows CommandCategory.project_script text git policy = refl
verdict_of-allows CommandCategory.git_safe text git policy = refl
verdict_of-allows CommandCategory.git_mutating text git policy = refl
verdict_of-allows CommandCategory.network_access text git policy = refl
verdict_of-allows CommandCategory.system text git policy = refl
verdict_of-allows CommandCategory.destruction text git policy = refl
verdict_of-allows CommandCategory.unknown_command text git policy = refl

command_allowed-verdict :
    (patterns : List String) (command : String) (branch : Option String)
    → (command_allowed patterns command branch).allow
      ≡ verdict_allows
          (classify_command patterns command).category
          (git_policy_allows_cursor patterns command branch)
unfolding command_allowed
command_allowed-verdict patterns command branch =
    let c = classify_command patterns command in
    verdict_of-allows c.category c.command c.git (git_policy_allows_cursor patterns command branch)

git_outcome :
    (action : GitAction) (push protected : Bool)
    → verdict_allows (git_category action) (policy_allows action push protected)
      ≡ may_mutate action protected
git_outcome GitAction.safe push protected = refl
git_outcome GitAction.mutating push protected = ground arith
git_outcome GitAction.destructive push protected = refl
git_outcome GitAction.network push protected = refl
git_outcome GitAction.unknown push protected = refl

-- A git command is allowed to the agent exactly if git's policy calls it safe, or calls it mutating
-- and the agent's branch is not protected. Whatever is destructive, reaches the network or is not
-- known is refused on every branch.
pub git_allowed_exactly :
    (patterns : List String) (command : String) (branch : Option String)
    → (trim command == "") ≡ false
    → is_git (trim command) ≡ true
    → (command_allowed patterns command branch).allow
      ≡ may_mutate (classify_git_command patterns command).action (on_protected patterns branch)
unfolding git_policy_allows_cursor
git_allowed_exactly patterns command branch h g =
    command_allowed-verdict patterns command branch
    ∙ ap
        (λ (c : Classified).
          verdict_allows c.category (git_policy_allows_cursor patterns command branch))
        (classify_command-git patterns command h g)
    ∙ git_outcome (classify_git_command patterns command).action
        (contains ignore_case "push" command) (on_protected patterns branch)

tests_first :
    (read test mentions : Bool) (other : CommandCategory) (policy : Bool)
    → mentions ≡ true
    → verdict_allows
        (if read
          then CommandCategory.read_only
          else if test || mentions
          then CommandCategory.project_test
          else other)
        policy
      ≡ true
tests_first read test mentions other policy h = ground arith

classify_command-other :
    (patterns : List String) (command : String)
    → (trim command == "") ≡ false
    → is_git (trim command) ≡ false
    → (classify_command patterns command).category ≡ other_category (trim command)
unfolding classify_command
classify_command-other patterns command h g = rw (h, g) refl

-- Every command of a program other than git that mentions `test` or `lint` anywhere in its
-- arguments is allowed, whatever the program is: the tests for programs that destroy, reach the
-- network or change the system come later.
pub test_argument_allows :
    (patterns : List String) (command : String) (branch : Option String)
    → (trim command == "") ≡ false
    → is_git (trim command) ≡ false
    → mentions_tests (trim command) ≡ true
    → (command_allowed patterns command branch).allow ≡ true
unfolding other_category
test_argument_allows patterns command branch h g m =
    let text = trim command in
    let policy = git_policy_allows_cursor patterns command branch in
    command_allowed-verdict patterns command branch
    ∙ ap (λ k. verdict_allows k policy) (classify_command-other patterns command h g)
    ∙ tests_first (same_any lower_case read_programs (program text))
        (same_any lower_case test_programs (program text)) (mentions_tests text)
        (acting_category (program text) (spaced (rest_of (words text))) text) policy m
