-- ===== src/Secrets/Leases.antt =====
-- The classes of secrets that projects ask for, and the leases that they are given.
use autonomous_dev_platform.Base.{
  ℕ, Bool, true, false, ◌&&◌, Option, none, some, String, List, [], ◌∷◌, ◌==◌, ◌≡◌, refl, arith,
  if◌then◌else◌, find,
}
use autonomous_dev_platform.Errors.{Thrown}
use autonomous_dev_platform.Orchestrator.World.{Answer, answered, refused}
use autonomous_dev_platform.Secrets.{
  SecretClass, Lease, IssuedSecret, Backend, Broker, is_platform_class, Issuing, issued, not_issued,
  issue, issued_by, set_lease, Revoking, revoked_lease, nothing_revoked, not_revoked, revoke_lease,
  revoke_found, mark_revoked, is_foreign, access_denied,
}

-- The broker after a call.
abbrev pub after_issue : Issuing → Broker
after_issue (issued s l b) = b
after_issue (not_issued e b) = b

abbrev pub after_revoke : Revoking → Broker
after_revoke (revoked_lease id b) = b
after_revoke (nothing_revoked b) = b
after_revoke (not_revoked e b) = b

-- A class of secrets that a project may have, or none that was named.
abbrev pub is_for_project : Option SecretClass → Bool
is_for_project none = true
is_for_project (some SecretClass.project_build_secret) = true
is_for_project (some SecretClass.project_runtime_secret) = true
is_for_project (some SecretClass.project_test_secret) = true
is_for_project (some SecretClass.external_service_secret) = true
is_for_project (some SecretClass.control_plane_secret) = false
is_for_project (some SecretClass.owner_auth_secret) = false

guard_lem : (cls : Option SecretClass) → is_platform_class cls ≡ false → is_for_project cls ≡ true
guard_lem none h = refl
guard_lem (some SecretClass.project_build_secret) h = refl
guard_lem (some SecretClass.project_runtime_secret) h = refl
guard_lem (some SecretClass.project_test_secret) h = refl
guard_lem (some SecretClass.external_service_secret) h = refl
guard_lem (some SecretClass.control_plane_secret) h = cc
guard_lem (some SecretClass.owner_auth_secret) h = cc

abbrev pub all_of_projects : List Lease → Bool
all_of_projects [] = true
all_of_projects (l ∷ ls) = is_for_project l.cls && all_of_projects ls

both : {a b : Bool} → a ≡ true → b ≡ true → (a && b) ≡ true
both h k = ground arith

first : (a b : Bool) → (a && b) ≡ true → a ≡ true
first a b h = ground arith

second : (a b : Bool) → (a && b) ≡ true → b ≡ true
second a b h = ground arith

-- A lease that is put in the place of the head, or behind it.
set_if :
    (same : Bool) (l m : Lease) (ms rest : List Lease)
    → is_for_project l.cls ≡ true
    → all_of_projects (m ∷ ms) ≡ true
    → all_of_projects rest ≡ true
    → all_of_projects (if same then l ∷ ms else m ∷ rest) ≡ true
set_if true l m ms rest h k r = both h (second (is_for_project m.cls) _ k)
set_if false l m ms rest h k r = both (first (is_for_project m.cls) (all_of_projects ms) k) r

set_keeps :
    (l : Lease) (ms : List Lease)
    → is_for_project l.cls ≡ true
    → all_of_projects ms ≡ true
    → all_of_projects (set_lease l ms) ≡ true
set_keeps l [] h k = both h refl
set_keeps l (m ∷ ms) h k =
    set_if (m.id == l.id) l m ms (set_lease l ms) h k
      (set_keeps l ms h (second (is_for_project m.cls) _ k))

mark_keeps :
    (id : String) (ls : List Lease)
    → all_of_projects ls ≡ true
    → all_of_projects (mark_revoked id ls) ≡ true
mark_keeps id [] h = refl
mark_keeps id (l ∷ ls) h =
    set_if (l.id == id) (record l { revoked = true }) l ls (mark_revoked id ls)
      (first (is_for_project l.cls) (all_of_projects ls) h) h
      (mark_keeps id ls (second (is_for_project l.cls) _ h))

issued_keeps :
    (id : String) (now ttl : ℕ) (project ref : String) (cls : Option SecretClass)
    (operation : Option String) (b : Broker) (a : Answer IssuedSecret)
    → is_for_project cls ≡ true
    → all_of_projects b.leases ≡ true
    → all_of_projects (after_issue (issued_by id now ttl project ref cls operation b a)).leases
      ≡ true
unfolding issued_by
issued_keeps id now ttl project ref cls operation b (refused e) c h = h
issued_keeps id now ttl project ref cls operation b (answered s) c h = set_keeps _ b.leases c h

issue_if :
    (platform : Bool) (x y : Issuing)
    → all_of_projects (after_issue x).leases ≡ true
    → (platform ≡ false → all_of_projects (after_issue y).leases ≡ true)
    → all_of_projects (after_issue (if platform then x else y)).leases ≡ true
issue_if true x y h k = h
issue_if false x y h k = k refl

issue_keeps :
    (backend : Backend) (id : String) (now ttl : ℕ) (project ref : String)
    (cls : Option SecretClass) (operation : Option String) (b : Broker)
    → all_of_projects b.leases ≡ true
    → all_of_projects (after_issue (issue backend id now ttl project ref cls operation b)).leases
      ≡ true
unfolding issue
issue_keeps backend id now ttl project ref cls operation b h =
    issue_if (is_platform_class cls) _ _ h (λ c.
      issued_keeps id now ttl project ref cls operation b (backend.get ref project cls)
        (guard_lem cls c) h)

answered_keeps :
    (l : Lease) (b : Broker) (o : Option Thrown) (x : Broker)
    → all_of_projects b.leases ≡ true
    → all_of_projects x.leases ≡ true
    → all_of_projects
        (after_revoke (elim o [ some e ↦ not_revoked e b | none ↦ revoked_lease l.id x ])).leases
      ≡ true
answered_keeps l b none x h k = k
answered_keeps l b (some e) x h k = h

found_keeps :
    (l : Lease) (b : Broker) (o : Option (Lease → Option Thrown))
    → all_of_projects b.leases ≡ true
    → all_of_projects (after_revoke (revoke_found l b o)).leases ≡ true
unfolding revoke_found
found_keeps l b none h = mark_keeps l.id b.leases h
found_keeps l b (some revoke) h = answered_keeps l b (revoke l) _ h (mark_keeps l.id b.leases h)

revoke_if :
    (foreign : Bool) (x y : Revoking)
    → all_of_projects (after_revoke x).leases ≡ true
    → all_of_projects (after_revoke y).leases ≡ true
    → all_of_projects (after_revoke (if foreign then x else y)).leases ≡ true
revoke_if true x y h k = h
revoke_if false x y h k = k

lease_keeps :
    (backend : Backend) (project : Option String) (b : Broker) (o : Option Lease)
    → all_of_projects b.leases ≡ true
    → all_of_projects
        (after_revoke (elim o [
          | none ↦ nothing_revoked b
          | some l ↦
              if is_foreign project l
              then not_revoked access_denied b
              else revoke_found l b backend.revoke
        ])).leases
      ≡ true
lease_keeps backend project b none h = h
lease_keeps backend project b (some l) h =
    revoke_if (is_foreign project l) _ _ h (found_keeps l b backend.revoke h)

-- One call of the broker, with any arguments and any backend.
pub data BrokerCall (b : Broker) : Broker → Type 0 where
  issuing :
      (backend : Backend) (id : String) (now ttl : ℕ) (project ref : String)
      (cls : Option SecretClass) (operation : Option String)
      → BrokerCall b (after_issue (issue backend id now ttl project ref cls operation b))
  revoking :
      (backend : Backend) (id : String) (project : Option String)
      → BrokerCall b (after_revoke (revoke_lease backend id project b))

pub data BrokerCalls (b : Broker) : Broker → Type 0 where
  no_call : BrokerCalls b b
  and_call : {c d : Broker} → BrokerCalls b c → BrokerCall c d → BrokerCalls b d

call_keeps :
    {b c : Broker}
    → BrokerCall b c
    → all_of_projects b.leases ≡ true
    → all_of_projects c.leases ≡ true
unfolding revoke_lease
call_keeps {b} (issuing backend id now ttl project ref cls operation) h =
    issue_keeps backend id now ttl project ref cls operation b h
call_keeps {b} (revoking backend id project) h =
    lease_keeps backend project b (find (λ (l : Lease). l.id == id) b.leases) h

-- Whatever secrets are asked for and revoked, in any order and with any backend, no lease names as
-- the class that was asked for one of the control plane's or of the owner's authentication, if none did
-- before. The class is the caller's: whether the secret is of that class is left to the backend.
pub leases_stay_of_projects :
    {b c : Broker}
    → BrokerCalls b c
    → all_of_projects b.leases ≡ true
    → all_of_projects c.leases ≡ true
leases_stay_of_projects no_call h = h
leases_stay_of_projects (and_call before call) h =
    call_keeps call (leases_stay_of_projects before h)
