-- ===== src/Cvl/Expression.antt =====
-- Expressions and left-hand sides (composer/cvl/schema.py). `Expressions` is `list[Expression]`.
use certora_aicomposer.Prelude.{String, Bool, List, Option}
use certora_aicomposer.Cvl.Types.{TypeAndId, VmType}

pub data OldOrNew : Type 0 where
  old new : OldOrNew

pub data BinaryOperator : Type 0 where
  add sub mul div mod' exponent and or implies iff : BinaryOperator
  bw_or bw_xor bw_and bw_lshift bw_rshift bw_rshift_wzeros : BinaryOperator
  eq ne lt le gt ge in_set : BinaryOperator

pub data UnaryOperator : Type 0 where
  not bw_not uminus : UnaryOperator

pub data RevertAnnotation : Type 0 where
  withrevert norevert : RevertAnnotation

pub record MethodReference : Type 0 where
  pub contract : Option String
  pub method_name : String

mutual
  pub data Expression : Type 0 where
    bool_literal : (value : Bool) → Expression
    number_literal : (value : String) → Expression
    hex_literal : (value : String) → Expression
    string_literal : (value : String) → Expression
    array_literal : (elements : Expressions) → Expression
    identifier : (name : String) (annotation : Option OldOrNew) → Expression
    binary_op : (operator : BinaryOperator) (left right : Expression) → Expression
    unary_op : (operator : UnaryOperator) (operand : Expression) → Expression
    conditional : (condition then_expr else_expr : Expression) → Expression
    quantifier : (is_forall : Bool) (variable : TypeAndId) (body : Expression) → Expression
    sum : (is_unsigned : Bool) (variables : List TypeAndId) (body : Expression) → Expression
    array_access : (base index : Expression) → Expression
    field_access : (base : Expression) (field_name : String) → Expression
    function_call : (application : FunctionApplication) → Expression
    signature_literal : (method_ref : MethodReference) (parameter_types : List VmType) → Expression

  pub data FunctionApplication : Type 0 where
    apply :
        (annotation : Option RevertAnnotation) (name : String) (host_contract : Option String)
        (params : Expressions) (state : Option String)
        → FunctionApplication

  pub data Expressions : Type 0 where
    no_expressions : Expressions
    one_more : (first : Expression) (rest : Expressions) → Expressions

pub record FilteredBlock : Type 0 where
  pub e : Expression
  pub method_param : String

pub data LeftHandSide : Type 0 where
  id : (name : String) → LeftHandSide
  array_access : (base : LeftHandSide) (index : Expression) → LeftHandSide
  field_access : (base : LeftHandSide) (field_name : String) → LeftHandSide
