-- ===== src/Payload/Tree.antt =====
-- `compiledNode` and the maps of them, over the type of compiled programs. A node is a program,
-- a nested map, or a literal: the source's `isLiteral` is the constructor.
use hyperfleet_sentinel.Base.{String, Value}

mutual
  pub data Node (Program : Type 0) : Type 0 where
    program : Program → Node Program
    children : Nodes Program → Node Program
    literal : Value → Node Program

  pub data Nodes (Program : Type 0) : Type 0 where
    end_nodes : Nodes Program
    node : String → Node Program → Nodes Program → Nodes Program
