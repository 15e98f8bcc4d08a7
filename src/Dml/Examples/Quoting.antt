-- ===== src/Dml/Examples/Quoting.antt =====
-- Quoting of src/dml/insert/mssql_value_serializer.cpp at concrete texts.
use mssql_extension.Prelude.{refl, some, ◌++◌, ◌∷◌, ◌≡◌}
use mssql_extension.Dml.DeleteStatement.{delete_escape_identifier}
use mssql_extension.Dml.DeleteStatement.Escape.{delete_escape_identifier-escape_identifier}
use mssql_extension.Dml.Text.{codes}
use mssql_extension.Dml.ValueSerializer.{
  escape_identifier, escape_string, is_negative, serialize_decimal,
}
use mssql_extension.Dml.ValueSerializer.Decimals.{Writes, serialize_decimal-Writes}
use mssql_extension.Dml.ValueSerializer.Lexer.{read_string}
use mssql_extension.Dml.ValueSerializer.RoundTrip.{escape_string-read}

quoted_quote : escape_string (codes "O'Brien") ≡ codes "O''Brien"
unfolding escape_string
quoted_quote = refl

bracketed : escape_identifier (codes "a]b") ≡ codes "[a]]b]"
unfolding escape_identifier
bracketed = refl

bracketed_twice : delete_escape_identifier (codes "a]b]") ≡ some (codes "[a]]b]]]")
unfolding delete_escape_identifier
bracketed_twice = refl

negative_cents : serialize_decimal (codes "-7") 2 ≡ codes "-0.07"
unfolding serialize_decimal
negative_cents = refl

escape_string-read_example :
    read_string (codes "N'" ++ escape_string (codes "'); quit") ++ b'\'' ∷ codes ", 2")
    ≡ some (codes "'); quit", codes ", 2")
escape_string-read_example = escape_string-read (codes "'); quit") (codes ", 2") refl

serialize_decimal-Writes_example : Writes (serialize_decimal (codes "12345") 2) (codes "12345") 2
unfolding is_negative
serialize_decimal-Writes_example = serialize_decimal-Writes (codes "12345") 2 refl

delete_escape_identifier-escape_identifier_example :
    delete_escape_identifier (codes "x]y") ≡ some (escape_identifier (codes "x]y"))
delete_escape_identifier-escape_identifier_example =
    delete_escape_identifier-escape_identifier (codes "x]y")
