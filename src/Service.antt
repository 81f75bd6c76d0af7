-- ===== src/Service.antt =====
-- ros/service_client.go and ros/service_server.go: a call of a service over its own connection.
pub mod Client
pub mod Server
pub mod Exchange
use rosgo.Prelude.{Bytes}

-- A service as one side knows it: the name, the type, and the node that calls or serves it.
pub record Service : Type 0 where
  pub service : Bytes
  pub md5sum : Bytes
  pub type_name : Bytes
  pub node_id : Bytes
