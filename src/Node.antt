-- ===== src/Node.antt =====
-- The node controllers: node/controller.go, node/task.go, node/user.go, node/node.go and node/cert.go.
pub mod Users
pub mod Report
pub mod Cert
pub mod Lego
pub mod LegoUser
pub mod Controller
pub mod Monitor
pub mod Set
mod Tests
