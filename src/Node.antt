-- ===== src/Node.antt =====
-- ros/node.go: what the slave API reads of a node, and the parts of the node below.
pub mod Slave
pub mod Answers
pub mod Arguments
pub mod Names
pub mod Topics
pub mod Queries
pub mod Host
use rosgo.Prelude.{Bool, List, Option, Bytes}
use rosgo.Prelude.Int.{ℤ}

-- A publisher of the node: the type of its messages, and the host and the port of its listener, unless
-- they cannot be told.
pub record Publication : Type 0 where
  pub type_name : Bytes
  pub address : Option (Bytes × Bytes)

-- What the slave API reads of a node; the topics are in the order in which the maps are iterated.
pub record Node : Type 0 where
  pub master_uri : Bytes
  pub pid : ℤ
  pub subscribers : List (Bytes × Bytes)
  pub publishers : List (Bytes × Publication)
