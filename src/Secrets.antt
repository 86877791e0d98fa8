-- ===== src/Secrets.antt =====
-- secrets/broker.js: the secrets that projects are given, and the leases under which they have them.
-- The backend that keeps the values, the environment, the clock and new identifiers are arguments.
-- `revokeLease` is called with a lease's identifier; the operation and the lease that an event names,
-- and the time of a revocation, are left out.
pub mod Leases
mod Examples
use Prim.Native.Char.{code}
use Prim.Native.String.{[] as no_text, ◌∷◌ as char}
use autonomous_dev_platform.Base.{
  ℕ, ◌+◌, Bool, true, false, not, ◌&&◌, ◌||◌, Option, none, some, String, List, [], ◌∷◌, ◌++◌, ◌==◌,
  eqb, ltb, if◌then◌else◌, find, select, truthy,
}
use autonomous_dev_platform.Errors.{Thrown, known, platform_error, secret_access_denied}
use autonomous_dev_platform.Orchestrator.World.{Answer, answered, refused}

pub data SecretClass : Type 0 where
  control_plane_secret project_build_secret project_runtime_secret : SecretClass
  project_test_secret external_service_secret owner_auth_secret : SecretClass

pub record Lease : Type 0 where
  pub id : String
  pub project_id : String
  pub operation : Option String
  pub secret_ref : String
  pub cls : Option SecretClass  -- as it was asked for
  pub issued_at : ℕ
  pub expires_at : ℕ
  pub lease_id : Option String
  pub revoked : Bool

-- What a backend returns with a secret.
pub record IssuedSecret : Type 0 where
  pub secret_ref : String
  pub value : String
  pub cls : Option SecretClass  -- as it is stored
  pub expires_at : Option ℕ
  pub lease_id : Option String

pub record Backend : Type 0 where
  pub get : String → String → Option SecretClass → Answer IssuedSecret
  pub revoke : Option (Lease → Option Thrown)  -- a backend need not have it

pub data SecretEvent : Type 0 where
  secret_issued secret_revoked secret_refused : String → String → Option SecretClass → SecretEvent

pub record Broker : Type 0 where
  pub leases : List Lease
  pub events : List SecretEvent

-- The classes that belong to the platform and to its owner; a class that is not given is neither.
abbrev pub is_platform_class : Option SecretClass → Bool
is_platform_class (some control_plane_secret) = true
is_platform_class (some owner_auth_secret) = true
is_platform_class _ = false

unfoldable pub access_denied : Thrown
unfolding platform_error
access_denied =
    platform_error (some (known secret_access_denied)) (some "SECRET_BROKER") (some false)

-- `ref.split('/').pop()`
abbrev has_separator : String → Bool
has_separator no_text = false
has_separator (char c t) = eqb (code c) 47 || has_separator t

abbrev last_segment : String → String
last_segment no_text = no_text
last_segment (char c t) =
    let rest = last_segment t in
    if has_separator t then rest else if eqb (code c) 47 then t else char c t

-- `EnvironmentBootstrapBroker.get`, over the environment's variables.
unfoldable pub bootstrap_get :
    (String → Option String) → String → Option SecretClass → Answer IssuedSecret
unfolding access_denied
bootstrap_get env ref cls =
    if not (is_platform_class cls) then refused access_denied else elim (env (last_segment ref)) [
      | none ↦ refused access_denied
      | some value ↦
          if value == ""
          then refused access_denied
          else answered record {
            secret_ref = ref;
            value = value;
            cls = cls;
            expires_at = none;
            lease_id = none;
          }
    ]

-- `value || null`
abbrev or_null : Option String → Option String
or_null o = if truthy o then o else none

pub data Issuing : Type 0 where
  issued : IssuedSecret → Lease → Broker → Issuing
  not_issued : Thrown → Broker → Issuing

abbrev with_event : SecretEvent → Broker → Broker
with_event e b = record b { events = b.events ++ (e ∷ []) }

-- `leases.set(lease.id, lease)`
abbrev pub set_lease : Lease → List Lease → List Lease
set_lease l [] = l ∷ []
set_lease l (m ∷ ms) = let rest = set_lease l ms in if m.id == l.id then l ∷ ms else m ∷ rest

unfoldable pub issued_by :
    String
    → ℕ
    → ℕ
    → String
    → String
    → Option SecretClass
    → Option String
    → Broker
    → Answer IssuedSecret
    → Issuing
issued_by id now ttl project ref cls operation b (refused e) = not_issued e b
issued_by id now ttl project ref cls operation b (answered s) =
    let lease : Lease = record {
      id = id;
      project_id = project;
      operation = or_null operation;
      secret_ref = ref;
      cls = cls;
      issued_at = now;
      expires_at = elim s.expires_at [ none ↦ now + ttl | some t ↦ t ];
      lease_id = or_null s.lease_id;
      revoked = false;
    } in
    issued s lease
      (with_event (secret_issued project ref cls) (record b { leases = set_lease lease b.leases }))

unfoldable pub issue :
    Backend
    → String
    → ℕ
    → ℕ
    → String
    → String
    → Option SecretClass
    → Option String
    → Broker
    → Issuing
unfolding access_denied issued_by
issue backend id now ttl project ref cls operation b =
    if is_platform_class cls
    then not_issued access_denied (with_event (secret_refused project ref cls) b)
    else issued_by id now ttl project ref cls operation b (backend.get ref project cls)

pub data Revoking : Type 0 where
  revoked_lease : String → Broker → Revoking
  nothing_revoked : Broker → Revoking
  not_revoked : Thrown → Broker → Revoking

abbrev pub mark_revoked : String → List Lease → List Lease
mark_revoked id [] = []
mark_revoked id (l ∷ ls) =
    let rest = mark_revoked id ls in
    if l.id == id then record l { revoked = true } ∷ ls else l ∷ rest

unfoldable pub revoke_found : Lease → Broker → Option (Lease → Option Thrown) → Revoking
revoke_found l b none = revoked_lease l.id (
    with_event (secret_revoked l.project_id l.secret_ref l.cls)
      (record b { leases = mark_revoked l.id b.leases }))
revoke_found l b (some revoke) = elim (revoke l) [
  | some e ↦ not_revoked e b
  | none ↦ revoked_lease l.id (
      with_event (secret_revoked l.project_id l.secret_ref l.cls)
        (record b { leases = mark_revoked l.id b.leases }))
]

-- `projectId && lease.projectId !== projectId`
abbrev pub is_foreign : Option String → Lease → Bool
is_foreign none l = false
is_foreign (some project) l = not (project == "") && not (l.project_id == project)

unfoldable pub revoke_lease : Backend → String → Option String → Broker → Revoking
unfolding revoke_found access_denied
revoke_lease backend id project b = elim (find (λ (l : Lease). l.id == id) b.leases) [
  | none ↦ nothing_revoked b
  | some l ↦
      if is_foreign project l then not_revoked access_denied b else revoke_found l b backend.revoke
]

abbrev pub is_for : Option String → Lease → Bool
is_for none l = true
is_for (some project) l = project == "" || l.project_id == project

unfoldable pub active_leases : Option String → Broker → List Lease
active_leases project b = select (λ l. is_for project l && not l.revoked) b.leases

unfoldable pub required_revocation_pending : ℕ → Option String → Broker → List Lease
unfolding active_leases
required_revocation_pending now project b =
    select (λ l. ltb now l.expires_at) (active_leases project b)
