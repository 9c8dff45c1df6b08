-- ===== src/Symbol.antt =====
-- include/mylang/hashmap.h: symbol table entries and stack frames. The compiler shares both by pointer
-- and writes to them after they were stored: here they stand in two lists, and a pointer is a place in
-- its list. A field that no code has set is `none`: to read it is undefined.
use my_lang.Prelude.{ℕ, Bool, false, Option, none, List, Bytes}
use my_lang.Ast.{Param}

pub data SymbolType : Type 0 where
  sym_function sym_variable sym_keyword sym_const : SymbolType

pub data TypeSpecifier : Type 0 where
  ts_int ts_void ts_char ts_long ts_double ts_float : TypeSpecifier

pub record StackFrame : Type 0 where
  pub size : ℕ
  pub func : Bytes

pub record SymTabEntry : Type 0 where
  pub key : Bytes
  pub symbol : SymbolType
  pub type : TypeSpecifier
  pub is_arg_loaded : Bool
  pub arg_reg : Option ℕ
  pub offset : Option ℕ
  pub params : Option (List Param)
  pub const_value : Option ℕ
  pub frame : Option ℕ
  pub is_used : Bool

unfoldable pub make_symtab_entry : Bytes → TypeSpecifier → SymbolType → SymTabEntry
make_symtab_entry key type symbol = record {
  key = key;
  symbol = symbol;
  type = type;
  is_arg_loaded = false;
  arg_reg = none;
  offset = none;
  params = none;
  const_value = none;
  frame = none;
  is_used = false;
}

pub record TypeEnvEntry : Type 0 where
  pub value : Bytes
  pub ts : TypeSpecifier

abbrev pub make_type_env_entry : Bytes → TypeSpecifier → TypeEnvEntry
make_type_env_entry value ts = record { value = value; ts = ts }
