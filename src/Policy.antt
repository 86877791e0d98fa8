-- ===== src/Policy.antt =====
-- What the agent may do on the machine: git/policy.js, cursor/command-policy.js,
-- cursor/permission-policy.js and git/secrets.js.
pub mod Git
pub mod SecretFiles
pub mod Command
pub mod Boundary
pub mod Permission
pub mod Allowed
pub mod Confined
mod Examples
