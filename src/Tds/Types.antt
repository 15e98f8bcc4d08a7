-- ===== src/Tds/Types.antt =====
-- The wire constants of src/include/tds/tds_types.hpp: data type identifiers and token types. A byte
-- that is none of the constants keeps its value.
use mssql_extension.Prelude.{ℕ, ◌==◌, if◌then◌else◌}

pub data TypeId : Type 0 where
  null tinyint bit smallint int smalldatetime real money datetime float smallmoney bigint intn bitn
        floatn moneyn datetimen decimal numeric uniqueidentifier bigchar bigvarchar nchar nvarchar
        bigbinary bigvarbinary date time datetime2 datetimeoffset xml udt sql_variant image text
        ntext :
      TypeId
  unknown : ℕ → TypeId

unfoldable pub type_of_byte : ℕ → TypeId
type_of_byte b =
    if b == 0x1f
    then TypeId.null
    else if b == 0x30
    then TypeId.tinyint
    else if b == 0x32
    then TypeId.bit
    else if b == 0x34
    then TypeId.smallint
    else if b == 0x38
    then TypeId.int
    else if b == 0x3a
    then TypeId.smalldatetime
    else if b == 0x3b
    then TypeId.real
    else if b == 0x3c
    then TypeId.money
    else if b == 0x3d
    then TypeId.datetime
    else if b == 0x3e
    then TypeId.float
    else if b == 0x7a
    then TypeId.smallmoney
    else if b == 0x7f
    then TypeId.bigint
    else if b == 0x26
    then TypeId.intn
    else if b == 0x68
    then TypeId.bitn
    else if b == 0x6d
    then TypeId.floatn
    else if b == 0x6e
    then TypeId.moneyn
    else if b == 0x6f
    then TypeId.datetimen
    else if b == 0x6a
    then TypeId.decimal
    else if b == 0x6c
    then TypeId.numeric
    else if b == 0x24
    then TypeId.uniqueidentifier
    else if b == 0xaf
    then TypeId.bigchar
    else if b == 0xa7
    then TypeId.bigvarchar
    else if b == 0xef
    then TypeId.nchar
    else if b == 0xe7
    then TypeId.nvarchar
    else if b == 0xad
    then TypeId.bigbinary
    else if b == 0xa5
    then TypeId.bigvarbinary
    else if b == 0x28
    then TypeId.date
    else if b == 0x29
    then TypeId.time
    else if b == 0x2a
    then TypeId.datetime2
    else if b == 0x2b
    then TypeId.datetimeoffset
    else if b == 0xf1
    then TypeId.xml
    else if b == 0xf0
    then TypeId.udt
    else if b == 0x62
    then TypeId.sql_variant
    else if b == 0x22
    then TypeId.image
    else if b == 0x23
    then TypeId.text
    else if b == 0x63
    then TypeId.ntext
    else TypeId.unknown b

pub data TokenType : Type 0 where
  tabname colinfo done doneproc doneinproc error_token info loginack envchange colmetadata row
        nbcrow returnstatus order returnvalue sspi featureextack fedauthinfo :
      TokenType
  unknown : ℕ → TokenType

unfoldable pub token_of_byte : ℕ → TokenType
token_of_byte b =
    if b == 0x04
    then TokenType.tabname
    else if b == 0xa5
    then TokenType.colinfo
    else if b == 0xfd
    then TokenType.done
    else if b == 0xfe
    then TokenType.doneproc
    else if b == 0xff
    then TokenType.doneinproc
    else if b == 0xaa
    then TokenType.error_token
    else if b == 0xab
    then TokenType.info
    else if b == 0xad
    then TokenType.loginack
    else if b == 0xe3
    then TokenType.envchange
    else if b == 0x81
    then TokenType.colmetadata
    else if b == 0xd1
    then TokenType.row
    else if b == 0xd2
    then TokenType.nbcrow
    else if b == 0x79
    then TokenType.returnstatus
    else if b == 0xa9
    then TokenType.order
    else if b == 0xac
    then TokenType.returnvalue
    else if b == 0xed
    then TokenType.sspi
    else if b == 0xae
    then TokenType.featureextack
    else if b == 0xee
    then TokenType.fedauthinfo
    else TokenType.unknown b
