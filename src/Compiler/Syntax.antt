-- ===== src/Compiler/Syntax.antt =====
-- ast.type.h: the nodes of the syntax tree. A child that the code tests for NULL is a `MaybeNode`;
-- the parser sets the others, and they are never NULL here. Positions in the text are left out.
use gsc.Base.{ℕ, Bool, List}

mutual
  pub data Node : Type 0 where
    ast_function : List ℕ → Node
    ast_function_pointer_expr : Node → Node
    ast_struct_expr ast_array_expr : Nodes → Node
    ast_group_expr : Node → Node
    -- the operator, the left side and the right side
    ast_assignment_expr ast_binary_expr : ℕ → Node → Node → Node
    -- threaded, the object, the callee and the arguments
    ast_call_expr : Bool → MaybeNode → Node → Nodes → Node
    ast_conditional_expr : Node → Node → Node → Node
    ast_file_reference : List ℕ → Node
    ast_identifier : List ℕ → Node
    ast_literal : Literal → Node
    -- the object, the property and the operator, which is `.` or `[`
    ast_member_expr : Node → Node → ℕ → Node
    ast_self : Node
    -- the argument, the operator, and whether it stands in front
    ast_unary_expr : Node → ℕ → Bool → Node
    ast_vector_expr : Nodes → Node
    ast_block_stmt : Nodes → Node
    ast_break_stmt ast_continue_stmt ast_empty_stmt ast_wait_till_frame_end_stmt : Node
    ast_do_while_stmt : Node → Node → Node
    ast_expr_stmt : Node → Node
    -- the initialisation, the test, the update and the body
    ast_for_stmt : MaybeNode → MaybeNode → MaybeNode → Node → Node
    ast_if_stmt : Node → Node → MaybeNode → Node
    ast_return_stmt : MaybeNode → Node
    -- a case, or the default when it has no test
    ast_switch_case : MaybeNode → Nodes → Node
    ast_switch_stmt : Node → Nodes → Node
    ast_wait_stmt : MaybeNode → Node
    ast_while_stmt : MaybeNode → Node → Node

  pub data MaybeNode : Type 0 where
    absent : MaybeNode
    present : Node → MaybeNode

  pub data Nodes : Type 0 where
    end : Nodes
    node : Node → Nodes → Nodes

  -- `ASTLiteral`: its type and its value. A floating-point number is its bit pattern.
  pub data Literal : Type 0 where
    literal_string literal_localized_string : List ℕ → Literal
    literal_integer literal_boolean literal_float : ℕ → Literal
    literal_function : MaybeNode → Node → Literal
    literal_undefined : Literal

-- `ASTLiteralType`.
unfoldable pub literal_type : Literal → ℕ
literal_type (literal_string _) = 0
literal_type (literal_integer _) = 1
literal_type (literal_boolean _) = 2
literal_type (literal_float _) = 3
literal_type (literal_function _ _) = 4
literal_type (literal_localized_string _) = 5
literal_type literal_undefined = 6

-- `is_expr`.
unfoldable pub is_expr : Node → Bool
is_expr (ast_function_pointer_expr _) = Bool.true
is_expr (ast_array_expr _) = Bool.true
is_expr (ast_group_expr _) = Bool.true
is_expr (ast_assignment_expr _ _ _) = Bool.true
is_expr (ast_binary_expr _ _ _) = Bool.true
is_expr (ast_call_expr _ _ _ _) = Bool.true
is_expr (ast_conditional_expr _ _ _) = Bool.true
is_expr (ast_identifier _) = Bool.true
is_expr (ast_literal _) = Bool.true
is_expr (ast_member_expr _ _ _) = Bool.true
is_expr (ast_unary_expr _ _ _) = Bool.true
is_expr (ast_vector_expr _) = Bool.true
is_expr _ = Bool.false
