-- ===== src/Policy/Command.antt =====
-- cursor/command-policy.js: the kind of a command that the agent asks to run, and whether it may.
use autonomous_dev_platform.Base.{
  Bool, true, false, ◌||◌, Option, none, some, String, List, [], ◌∷◌, ◌≡◌, refl, ◌==◌,
  if◌then◌else◌, exact, ignore_case, lower_case, begins, contains_any, same, same_any, after,
  spaces, somewhere, has_word, has_url, base_name, words, trim, spaced, or_else,
}
use autonomous_dev_platform.Policy.Git.{
  GitAction, GitClass, classify_git_command, git_policy_allows_cursor, first_of,
}
use Prim.Native.String.{[] as no_text, ◌∷◌ as char}

pub data CommandCategory : Type 0 where
  read_only project_build project_test package_manager project_runtime : CommandCategory
  project_script git_safe git_mutating network_access system destruction : CommandCategory
  unknown_command : CommandCategory

pub record Classified : Type 0 where
  pub category : CommandCategory
  pub command : String
  pub git : Option GitClass

-- `tokens.slice(1)`
abbrev pub rest_of : List String → List String
rest_of [] = []
rest_of (_ ∷ ts) = ts

-- `replace(/\.exe$/i, '')`
abbrev without_exe : String → String
without_exe no_text = no_text
without_exe (char c t) =
    let rest = without_exe t in if same ignore_case ".exe" (char c t) then no_text else char c rest

-- The program's name, of which the case is ignored below.
unfoldable pub program : String → String
unfolding words
program text = without_exe (base_name (first_of (words text)))

abbrev pub plain : CommandCategory → String → Classified
plain category text = record { category = category; command = text; git = none }

abbrev pub git_category : GitAction → CommandCategory
git_category GitAction.safe = git_safe
git_category GitAction.mutating = git_mutating
git_category GitAction.destructive = destruction
git_category GitAction.network = network_access
git_category GitAction.unknown = unknown_command

abbrev pub read_programs : List String
read_programs =
    "ls"
    ∷ ("dir"
        ∷ ("cat"
            ∷ ("type"
                ∷ ("head" ∷ ("tail" ∷ ("pwd" ∷ ("echo" ∷ ("which" ∷ ("where" ∷ ("env" ∷ []))))))))))

abbrev build_programs : List String
build_programs =
    "node"
    ∷ ("tsc"
        ∷ ("eslint"
            ∷ ("prettier"
                ∷ ("python"
                    ∷ ("python3"
                        ∷ ("ruby"
                            ∷ ("go"
                                ∷ ("java"
                                    ∷ ("javac" ∷ ("dotnet" ∷ ("make" ∷ ("cmake" ∷ []))))))))))))

abbrev pub test_programs : List String
test_programs = "jest" ∷ ("vitest" ∷ ("mocha" ∷ ("pytest" ∷ ("phpunit" ∷ ("rspec" ∷ [])))))

abbrev package_programs : List String
package_programs =
    "npm"
    ∷ ("npx"
        ∷ ("pnpm" ∷ ("yarn" ∷ ("pip" ∷ ("pip3" ∷ ("composer" ∷ ("bundle" ∷ ("cargo" ∷ []))))))))

abbrev network_programs : List String
network_programs =
    "curl" ∷ ("wget" ∷ ("ssh" ∷ ("scp" ∷ ("sftp" ∷ ("nc" ∷ ("ncat" ∷ ("telnet" ∷ [])))))))

abbrev destructive_programs : List String
destructive_programs =
    "rm"
    ∷ ("rmdir"
        ∷ ("del" ∷ ("rd" ∷ ("format" ∷ ("mkfs" ∷ ("shutdown" ∷ ("reboot" ∷ ("diskpart" ∷ []))))))))

abbrev system_programs : List String
system_programs =
    "sudo"
    ∷ ("su"
        ∷ ("chmod"
            ∷ ("chown"
                ∷ ("icacls"
                    ∷ ("reg"
                        ∷ ("powershell"
                            ∷ ("pwsh" ∷ ("cmd" ∷ ("bash" ∷ ("sh" ∷ ("zsh" ∷ [])))))))))))

-- `/rm\s+-rf\s+[\\/]/`
abbrev removes_root : String → Bool
removes_root text =
    somewhere
      (after exact "rm"
        (spaces (after exact "-rf" (spaces (λ t. begins exact "/" t || begins exact "\\" t)))))
      text

-- `/del\s+\/s/`
abbrev deletes_tree : String → Bool
deletes_tree text = somewhere (after exact "del" (spaces (begins exact "/s"))) text

-- The command of a package manager, by its arguments.
package_category : String → CommandCategory
package_category rest =
    if has_word ("publish" ∷ ("login" ∷ ("token" ∷ ("config set" ∷ [])))) rest
    then network_access
    else if has_word ("test" ∷ ("lint" ∷ [])) rest
    then project_test
    else if has_word ("start" ∷ ("preview" ∷ ("serve" ∷ []))) rest
    then project_runtime
    else if has_word ("run build" ∷ ("run" ∷ ("build" ∷ []))) rest
    then project_build
    else package_manager

-- A command of a program that neither reads nor tests.
unfoldable pub acting_category : String → String → String → CommandCategory
unfolding package_category
acting_category bin rest text =
    if same_any lower_case package_programs bin
    then package_category rest
    else if same lower_case "serve" bin
    then project_runtime
    else if same_any lower_case build_programs bin
    then project_build
    else if same_any lower_case network_programs bin || has_url text
    then network_access
    else if same_any lower_case destructive_programs bin || (removes_root text || deletes_tree text)
    then destruction
    else if same_any lower_case system_programs bin
    then system
    else unknown_command

-- Whether `test` or `lint` stands anywhere in the arguments.
unfoldable pub mentions_tests : String → Bool
unfolding words
mentions_tests text = contains_any exact ("test" ∷ ("lint" ∷ [])) (spaced (rest_of (words text)))

-- A command of a program other than git.
unfoldable pub other_category : String → CommandCategory
unfolding program words acting_category mentions_tests
other_category text =
    let bin = program text in
    if same_any lower_case read_programs bin
    then read_only
    else if same_any lower_case test_programs bin || mentions_tests text
    then project_test
    else acting_category bin (spaced (rest_of (words text))) text

abbrev pub git_command : String → GitClass → Classified
git_command text c = record { category = git_category c.action; command = text; git = some c }

unfoldable pub is_git : String → Bool
unfolding program
is_git text = same lower_case "git" (program text) || begins exact "git " text

unfoldable pub classify_command : List String → String → Classified
unfolding trim is_git classify_git_command other_category
classify_command patterns command =
    let text = trim command in
    if text == ""
    then plain unknown_command text
    else if is_git text
    then git_command text (classify_git_command patterns text)
    else plain (other_category text) text

-- `SANDBOX_ROUTED.has(category)`
abbrev pub is_sandbox_routed : CommandCategory → Bool
is_sandbox_routed project_build = true
is_sandbox_routed project_test = true
is_sandbox_routed package_manager = true
is_sandbox_routed project_runtime = true
is_sandbox_routed project_script = true
is_sandbox_routed _ = false

abbrev pub is_category_free : CommandCategory → Bool
is_category_free git_safe = true
is_category_free read_only = true
is_category_free _ = false

abbrev is_git_mutating : CommandCategory → Bool
is_git_mutating git_mutating = true
is_git_mutating _ = false

pub record Verdict : Type 0 where
  pub allow : Bool
  pub classified : Classified
  pub route : Option String

unfoldable pub verdict_of : Classified → Bool → Verdict
verdict_of c policy =
    if is_sandbox_routed c.category || is_category_free c.category
    then record {
      allow = true;
      classified = c;
      route = some (if is_sandbox_routed c.category then "sandbox" else "platform");
    }
    else if is_git_mutating c.category
    then record { allow = policy; classified = c; route = none }
    else record { allow = false; classified = c; route = none }

unfoldable pub command_allowed : List String → String → Option String → Verdict
unfolding classify_command git_policy_allows_cursor verdict_of
command_allowed patterns command branch =
    verdict_of (classify_command patterns command)
      (git_policy_allows_cursor patterns command branch)

-- What the agent's protocol may send, of `request.params`. An absent text is read as `undefined`.
pub record Request : Type 0 where
  pub tool_command : Option String
  pub tool_input_command : Option String
  pub command : Option String
  pub args_command : Option String
  pub title : Option String
  pub tool_path : Option String
  pub tool_input_path : Option String
  pub tool_input_file : Option String
  pub path : Option String
  pub file : Option String
  pub tool_kind : Option String
  pub tool_type : Option String
  pub permission_kind : Option String
  pub kind : Option String
  pub tool : Option String
  pub options : List String  -- the identifiers of `options` that are not empty

abbrev pub or_empty : Option String → String
or_empty none = ""
or_empty (some s) = s

unfoldable pub extract_command : Request → String
extract_command r = or_empty (
    or_else r.tool_command (
      or_else r.tool_input_command
        (or_else r.command (or_else r.args_command (or_else r.title none)))))

-- `… || null`
unfoldable pub extract_requested_path : Request → Option String
extract_requested_path r =
    or_else r.tool_path
      (or_else r.tool_input_path (or_else r.tool_input_file (or_else r.path (or_else r.file none))))

remove_test : (classify_command [] "rm -rf build").category ≡ destruction
unfolding classify_command trim is_git program words other_category
remove_test = refl

npm_test : (classify_command [] "C:\\bin\\NPM.exe run lint-all").category ≡ project_test
unfolding classify_command trim is_git program words other_category
npm_test = refl

push_test : (command_allowed [] "git push origin" none).allow ≡ false
unfolding command_allowed
push_test = refl
