-- ===== src/Tds/ColumnMetadata.antt =====
-- src/tds/tds_column_metadata.cpp and .hpp: a result column and its predicates. The parser of the
-- COLMETADATA token stands in ColumnMetadata/Parse.
pub mod Parse
pub mod ParseLaws
pub mod ParsePrefix
use mssql_extension.Prelude.{ℕ, ◌==◌, Bool, true, false, List, if◌then◌else◌, not}
use mssql_extension.Tds.Types.{TypeId}

-- The name is UTF-8, as bytes.
pub record ColumnMetadata : Type 0 where
  pub name : List ℕ
  pub type_id : TypeId
  pub max_length : ℕ
  pub precision : ℕ
  pub scale : ℕ
  pub collation : ℕ
  pub flags : ℕ

unfoldable pub is_variable_length : TypeId → Bool
is_variable_length TypeId.bigchar = true
is_variable_length TypeId.bigvarchar = true
is_variable_length TypeId.nchar = true
is_variable_length TypeId.nvarchar = true
is_variable_length TypeId.bigbinary = true
is_variable_length TypeId.bigvarbinary = true
is_variable_length _ = false

unfoldable pub is_nullable_variant : TypeId → Bool
is_nullable_variant TypeId.intn = true
is_nullable_variant TypeId.bitn = true
is_nullable_variant TypeId.floatn = true
is_nullable_variant TypeId.moneyn = true
is_nullable_variant TypeId.datetimen = true
is_nullable_variant _ = false

-- The switch of IsPLPType, which is reached with a max_length of 0xFFFF.
unfoldable pub is_max_type : TypeId → Bool
is_max_type TypeId.bigchar = true
is_max_type TypeId.bigvarchar = true
is_max_type TypeId.nchar = true
is_max_type TypeId.nvarchar = true
is_max_type TypeId.bigbinary = true
is_max_type TypeId.bigvarbinary = true
is_max_type _ = false

is_plp : TypeId → ℕ → Bool
is_plp TypeId.xml max_length = true
is_plp t max_length = if not (max_length == 0xffff) then false else is_max_type t

unfoldable pub is_plp_type : ColumnMetadata → Bool
unfolding is_plp is_max_type
is_plp_type c = is_plp c.type_id c.max_length

unfoldable pub get_fixed_size : TypeId → ℕ
get_fixed_size TypeId.tinyint = 1
get_fixed_size TypeId.bit = 1
get_fixed_size TypeId.smallint = 2
get_fixed_size TypeId.int = 4
get_fixed_size TypeId.bigint = 8
get_fixed_size TypeId.real = 4
get_fixed_size TypeId.float = 8
get_fixed_size TypeId.money = 8
get_fixed_size TypeId.smallmoney = 4
get_fixed_size TypeId.datetime = 8
get_fixed_size TypeId.smalldatetime = 4
get_fixed_size TypeId.date = 3
get_fixed_size _ = 0
