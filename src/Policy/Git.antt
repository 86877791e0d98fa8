-- ===== src/Policy/Git.antt =====
-- git/policy.js: what a git command does, and which of them the agent may run. The environment's
-- patterns of the protected branches are an argument. A `?` in a pattern stands for itself.
use Prim.Native.Char.{code}
use Prim.Native.String.{[] as no_text, ◌∷◌ as char, ◌++◌ as concat}
use autonomous_dev_platform.Base.{
  ℕ, leb, or_text, Bool, true, false, not, ◌&&◌, ◌||◌, Option, none, some, String, List, [], ◌∷◌,
  ◌≡◌, refl, ◌==◌, eqb, if◌then◌else◌, includes, exact, ignore_case, begins, contains, ends,
  anything, words, trim, spaced,
}
use autonomous_dev_platform.Errors.{Thrown, known, platform_error, ErrorCode}

pub data GitAction : Type 0 where
  safe mutating destructive network unknown : GitAction

pub record GitClass : Type 0 where
  pub action : GitAction
  pub verb : Option String
  pub reason : Option String
  pub target : Option String

abbrev pub is_action : GitAction → GitAction → Bool
is_action safe safe = true
is_action safe other = false
is_action mutating mutating = true
is_action mutating other = false
is_action destructive destructive = true
is_action destructive other = false
is_action network network = true
is_action network other = false
is_action unknown unknown = true
is_action unknown other = false

-- `new RegExp('^' + … + '$').test(branch)`, where each `*` of the pattern is `.*`.
abbrev glob : String → String → Bool
glob no_text no_text = true
glob no_text (char d t) = false
glob (char c p) no_text = eqb (code c) 42 && glob p no_text
glob (char c p) (char d t) =
    if eqb (code c) 42 then anything (glob p) (char d t) else eqb (code c) (code d) && glob p t

abbrev without_last : String → String
without_last no_text = no_text
without_last (char c no_text) = no_text
without_last (char c (char d t)) = char c (without_last (char d t))

unfoldable pub match_branch : String → String → Bool
match_branch branch pattern =
    if ends exact "/*" pattern
    then branch == without_last (without_last pattern) || begins exact (without_last pattern) branch
    else if contains exact "*" pattern
    then glob pattern branch
    else branch == pattern

matches_any : String → List String → Bool
unfolding match_branch
matches_any branch [] = false
matches_any branch (p ∷ ps) = match_branch branch p || matches_any branch ps

-- `replace(/^refs\/heads\//, '')`
abbrev without_heads : String → String → String
without_heads no_text t = t
without_heads (char c p) no_text = no_text
without_heads (char c p) (char d t) = without_heads p t

abbrev branch_name : String → String
branch_name name =
    if begins exact "refs/heads/" name then without_heads "refs/heads/" name else name

unfoldable pub is_protected_branch : List String → String → Bool
unfolding trim matches_any
is_protected_branch patterns name =
    let branch = trim (branch_name name) in
    if branch == "" then false else matches_any branch patterns

abbrev split_commas : String → List String
split_commas no_text = "" ∷ []
split_commas (char c t) = elim (split_commas t) [
  | [] ↦ char c no_text ∷ []
  | w ∷ ws ↦ if eqb (code c) 44 then "" ∷ (w ∷ ws) else char c w ∷ ws
]

trimmed : List String → List String
unfolding trim
trimmed [] = []
trimmed (w ∷ ws) = let rest = trimmed ws in if trim w == "" then rest else trim w ∷ rest

unfoldable pub protected_branch_patterns : Option String → List String
unfolding trimmed
protected_branch_patterns none = "main" ∷ ("master" ∷ ("production" ∷ ("release/*" ∷ [])))
protected_branch_patterns (some raw) =
    if raw == ""
    then "main" ∷ ("master" ∷ ("production" ∷ ("release/*" ∷ [])))
    else trimmed (split_commas raw)

-- `replace(/[^a-zA-Z0-9._-]/g, '')`
abbrev is_branch_character : ℕ → Bool
is_branch_character n =
    (leb 48 n && leb n 57)
    || ((leb 65 n && leb n 90) || ((leb 97 n && leb n 122) || (eqb n 46 || (eqb n 95 || eqb n 45))))

abbrev branch_characters : String → String
branch_characters no_text = no_text
branch_characters (char c t) =
    let rest = branch_characters t in if is_branch_character (code c) then char c rest else rest

unfoldable pub autonomous_branch_name : Option String → String → String
autonomous_branch_name prefix id = concat (or_text prefix "adp") (concat "/" (branch_characters id))

-- `token.startsWith('-')`
abbrev is_flag : String → Bool
is_flag t = begins exact "-" t

abbrev flags_of : List String → List String
flags_of [] = []
flags_of (t ∷ ts) = let rest = flags_of ts in if is_flag t then t ∷ rest else rest

abbrev pub plain_of : List String → List String
plain_of [] = []
plain_of (t ∷ ts) = let rest = plain_of ts in if is_flag t then rest else t ∷ rest

abbrev pub first_of : List String → String
first_of [] = ""
first_of (t ∷ _) = t

abbrev second_of : List String → Option String
second_of [] = none
second_of (_ ∷ []) = none
second_of (_ ∷ (t ∷ _)) = some t

abbrev any_forces : List String → Bool
any_forces [] = false
any_forces (f ∷ fs) = (f == "-f" || begins exact "--force" f) || any_forces fs

-- `tokens[0] === 'git' ? tokens.slice(1) : tokens`
abbrev pub git_arguments : List String → List String
git_arguments [] = []
git_arguments (t ∷ ts) = if t == "git" then ts else t ∷ ts

abbrev pub git_class : GitAction → String → Option String → GitClass
git_class action verb reason = record {
  action = action;
  verb = some verb;
  reason = reason;
  target = none;
}

is_protected_target : List String → Option String → Bool
unfolding is_protected_branch
is_protected_target patterns none = false
is_protected_target patterns (some t) = not (t == "") && is_protected_branch patterns t

unfoldable pub classify_git : List String → List String → GitClass
unfolding is_protected_target
classify_git patterns tokens =
    let args = git_arguments tokens in
    let verb = first_of (plain_of args) in
    let flags = flags_of args in
    let joined = spaced args in
    let target = second_of (plain_of args) in
    if includes verb (
      "status"
      ∷ ("diff"
          ∷ ("log" ∷ ("show" ∷ ("rev-parse" ∷ ("describe" ∷ ("ls-files" ∷ ("blame" ∷ []))))))))
    then git_class safe verb none
    else if verb == "branch" && (includes "--show-current" flags || includes "--show-current" args)
    then git_class safe verb none
    else if includes verb ("add" ∷ ("commit" ∷ []))
    then (if includes "--amend" flags || contains exact "reset" joined
        then git_class destructive verb none
        else git_class mutating verb none)
    else if includes verb ("push" ∷ ("fetch" ∷ ("clone" ∷ ("pull" ∷ []))))
    then (if any_forces flags
        then git_class destructive verb (some "force_push")
        else git_class network verb none)
    else if verb == "reset"
        && (includes "--hard" flags || (includes "--merge" flags || contains exact "--hard" joined))
    then git_class destructive verb (some "reset_hard")
    else if verb == "clean"
        && (contains exact "-fd" joined
            || ((contains exact "-f" joined && contains exact "-d" joined)
                || contains exact "-x" joined))
    then git_class destructive verb (some "clean")
    else if includes verb ("checkout" ∷ ("switch" ∷ ("rebase" ∷ ("merge" ∷ []))))
    then (if is_protected_target patterns target
        then record {
          action = destructive;
          verb = some verb;
          reason = some "protected_branch";
          target = target;
        }
        else record { action = mutating; verb = some verb; reason = none; target = target })
    else if verb == "branch"
        && (includes "-D" flags || (includes "-d" flags || includes "--delete" flags))
    then git_class destructive verb (some "delete_branch")
    else if verb == "worktree" && (contains exact "remove" joined || contains exact "prune" joined)
    then git_class destructive verb (some "worktree_remove")
    else if verb == ""
    then record { action = unknown; verb = none; reason = none; target = none }
    else git_class unknown verb none

-- A command as a text.
unfoldable pub classify_git_command : List String → String → GitClass
unfolding classify_git words
classify_git_command patterns command = classify_git patterns (words command)

pub data Asserted : Type 0 where
  classified : GitClass → Asserted
  violation : Thrown → Asserted

git_violation : Asserted
unfolding platform_error
git_violation = violation (
    platform_error (some (known ErrorCode.git_policy_violation)) (some "CURSOR_EXECUTING")
      (some false))

-- `branch && isProtectedBranch(branch)`
unfoldable pub on_protected : List String → Option String → Bool
unfolding is_protected_branch
on_protected patterns none = false
on_protected patterns (some b) = not (b == "") && is_protected_branch patterns b

abbrev is_push : Option String → Bool
is_push none = false
is_push (some verb) = verb == "push"

unfoldable pub assert_autonomous_git : List String → List String → Option String → Asserted
unfolding classify_git git_violation on_protected
assert_autonomous_git patterns tokens branch =
    let c = classify_git patterns tokens in
    if is_action c.action destructive
    then git_violation
    else if is_action c.action network && is_push c.verb
    then git_violation
    else if on_protected patterns branch && is_action c.action mutating
    then git_violation
    else classified c

unfoldable pub git_policy_allows_cursor : List String → String → Option String → Bool
unfolding classify_git_command on_protected
git_policy_allows_cursor patterns command branch =
    let action = (classify_git_command patterns command).action in
    if is_action action destructive
    then false
    else if is_action action network && contains ignore_case "push" command
    then false
    else if on_protected patterns branch && not (is_action action safe)
    then false
    else if is_action action unknown
    then false
    else true

clean_test : (classify_git_command [] "git clean -xfd").reason ≡ some "clean"
unfolding classify_git_command classify_git words
clean_test = refl

release_test : is_protected_branch ("release/*" ∷ []) "refs/heads/release/1.2" ≡ true
unfolding is_protected_branch match_branch trim matches_any
release_test = refl

glob_test : is_protected_branch ("v*.x" ∷ []) "v1.2.x" ≡ true
unfolding is_protected_branch match_branch trim matches_any
glob_test = refl
