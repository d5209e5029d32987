-- ===== src/Cash/Ast.antt =====
-- userspace/cash/include/cash/ast.hpp: the nodes of the tree. `Node` is the type `Node *`, with
-- `nullptr` among its values; `Nodes` is the vector of them. `NodeAllocator::freeAll` only forgets
-- the pointers it keeps and deletes no node, so a node is a value that lives on.
use radish_os.Prelude.{ℕ, Bool, true, false, List}
use radish_os.Cash.Token.{TokenType}

mutual
  pub data Node : Type 0 where
    nullptr : Node
    node_var_decl : List ℕ → Node → Node
    node_const_decl : List ℕ → Node → Node
    node_unary_op : Node → TokenType → Node
    node_binary_op : Node → Node → TokenType → Node
    node_integer : List ℕ → Node
    node_bool : List ℕ → Node
    -- name, fallback and index
    node_name : List ℕ → List ℕ → Node → Node
    node_string : List ℕ → Node
    -- name, index and value
    node_assign : List ℕ → Node → Node → Node
    node_list : Nodes → Node
    -- path and arguments
    node_command : Node → Nodes → Node

  pub data Nodes : Type 0 where
    no_nodes : Nodes
    next_node : Node → Nodes → Nodes

-- `pushBack`
unfoldable pub push_node : Nodes → Node → Nodes
push_node no_nodes n = next_node n no_nodes
push_node (next_node m ns) n = next_node m (push_node ns n)

-- `if (node)`
abbrev pub is_null : Node → Bool
is_null nullptr = true
is_null n = false
