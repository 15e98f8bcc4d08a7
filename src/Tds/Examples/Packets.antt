-- ===== src/Tds/Examples/Packets.antt =====
-- Packets and reads of src/tds/tds_packet.cpp, src/tds/tds_protocol.cpp and src/tds/tds_socket.cpp.
use mssql_extension.Prelude.{
  All, Ensures, List, [], arith, none, ok, refl, some, take, true, ℕ, ◌++◌, ◌+◌, ◌-◌, ◌∷◌, ◌≡◌,
}
use mssql_extension.Tds.Packet.{
  IsParseResult, TdsPacket, append_payload, get_length, is_end_of_message, new_packet, parse_packet,
  serialize, set_end_of_message,
}
use mssql_extension.Tds.Packet.Split.{
  all_headers, build_bulk_load_multi_packet, build_sql_batch_multi_packet, bulk_load, chunk_packet,
  guarded_max_payload, split_into_packets, split_loop, sql_batch,
}
use mssql_extension.Tds.Packet.SplitLaws.{
  IsSplit, build_bulk_load_multi_packet-IsSplit, build_sql_batch_multi_packet-IsSplit,
}
use mssql_extension.Tds.Packet.Wire.{
  parse_packet-IsParseResult, parse_packet-partial, parse_packet-serialize,
}
use mssql_extension.Tds.Socket.{Socket, pending, receive_message}
use mssql_extension.Tds.Socket.Frames.{IsData}
use mssql_extension.Tds.Socket.Messages.{
  IsMessage, IsSendable, Received, receive_message-split_into_packets, receive_message-wire, wire,
}
use mssql_extension.Tds.Socket.Safety.{Ends, receive_message-Ends}

abbrev a_message : TdsPacket
a_message = record {
  packet_type = sql_batch;
  status = 1;
  spid = 0;
  packet_id = 1;
  window = 0;
  payload = 10 ∷ 20 ∷ 30 ∷ [];
}

abbrev the_wire : List ℕ
the_wire = 1 ∷ 1 ∷ 0 ∷ 11 ∷ 0 ∷ 0 ∷ 1 ∷ 0 ∷ 10 ∷ 20 ∷ 30 ∷ []

a_message_ends : is_end_of_message a_message ≡ true
unfolding is_end_of_message
a_message_ends = refl

a_message_on_the_wire : serialize a_message ≡ the_wire
unfolding serialize get_length
a_message_on_the_wire = refl

parse_packet-serialize_example :
    parse_packet (serialize a_message ++ (99 ∷ [])) ≡ ok (some (8 + 3, a_message))
parse_packet-serialize_example =
    parse_packet-serialize a_message (99 ∷ []) (omega arith) (omega arith)

parse_packet-partial_example : parse_packet (take 9 (serialize a_message)) ≡ ok none
parse_packet-partial_example = parse_packet-partial a_message 9 (omega arith) (omega arith)

parse_packet-IsParseResult_example :
    Ensures (IsParseResult (1 ∷ 1 ∷ 255 ∷ 255 ∷ [])) (parse_packet (1 ∷ 1 ∷ 255 ∷ 255 ∷ []))
parse_packet-IsParseResult_example = parse_packet-IsParseResult (1 ∷ 1 ∷ 255 ∷ 255 ∷ [])

-- The encoding of a text in ASCII.
abbrev widen : List ℕ → List ℕ
widen [] = []
widen (a ∷ rest) = a ∷ 0 ∷ widen rest

build_sql_batch_multi_packet-IsSplit_example :
    Ensures
      (IsSplit sql_batch (16 - 8) (all_headers none ++ (71 ∷ 0 ∷ 79 ∷ 0 ∷ [])))
      (build_sql_batch_multi_packet widen (71 ∷ 79 ∷ []) 16 none)
build_sql_batch_multi_packet-IsSplit_example =
    build_sql_batch_multi_packet-IsSplit widen (71 ∷ 79 ∷ []) 16 none (λ h. cc) (omega arith)
      (omega arith)

build_bulk_load_multi_packet-IsSplit_example :
    Ensures
      (IsSplit bulk_load (10 - 8) (1 ∷ 2 ∷ 3 ∷ []))
      (build_bulk_load_multi_packet (1 ∷ 2 ∷ 3 ∷ []) 10)
build_bulk_load_multi_packet-IsSplit_example =
    build_bulk_load_multi_packet-IsSplit (1 ∷ 2 ∷ 3 ∷ []) 10 (omega arith) (omega arith)

abbrev two_packets : List TdsPacket
two_packets =
    record a_message { status = 0; payload = 10 ∷ 20 ∷ [] }
    ∷ record a_message { payload = 30 ∷ [] }
    ∷ []

-- The bytes of the two packets, cut inside the first header and inside the second payload.
abbrev a_socket : Socket
a_socket = record {
  buffered = 1 ∷ 0 ∷ 0 ∷ [];
  reads =
      (10 ∷ 0 ∷ 0 ∷ 1 ∷ 0 ∷ 10 ∷ 20 ∷ 1 ∷ 1 ∷ [])
      ∷ (0 ∷ 9 ∷ 0 ∷ 0 ∷ 1 ∷ 0 ∷ [])
      ∷ (30 ∷ 77 ∷ [])
      ∷ [];
}

a_socket_IsData : All IsData a_socket.reads
a_socket_IsData = (omega arith, (omega arith, (omega arith, tt)))

two_packets-IsSendable : All IsSendable two_packets
two_packets-IsSendable = ((omega arith, omega arith), ((omega arith, omega arith), tt))

two_packets-IsMessage : IsMessage two_packets
unfolding is_end_of_message
two_packets-IsMessage = (refl, refl)

on_the_wire : pending a_socket ≡ wire two_packets ++ (77 ∷ [])
unfolding serialize get_length
on_the_wire = refl

receive_message-wire_example : Received (10 ∷ 20 ∷ 30 ∷ []) (77 ∷ []) (receive_message a_socket)
receive_message-wire_example =
    receive_message-wire two_packets a_socket (77 ∷ []) two_packets-IsMessage two_packets-IsSendable
      a_socket_IsData on_the_wire

split_a_message : split_into_packets a_message 10 ≡ ok two_packets
unfolding split_into_packets guarded_max_payload split_loop chunk_packet append_payload new_packet
    set_end_of_message
split_a_message = refl

receive_message-split_into_packets_example :
    Received (10 ∷ 20 ∷ 30 ∷ []) (77 ∷ []) (receive_message a_socket)
receive_message-split_into_packets_example =
    receive_message-split_into_packets a_message 10 two_packets a_socket (77 ∷ []) (omega arith)
      a_message_ends (omega arith) split_a_message a_socket_IsData on_the_wire

-- A stream that announces a packet of one byte.
receive_message-Ends_example :
    Ends (
      receive_message (record { buffered = []; reads = (1 ∷ 1 ∷ 0 ∷ 1 ∷ 0 ∷ 0 ∷ 1 ∷ 0 ∷ []) ∷ [] }))
receive_message-Ends_example =
    receive_message-Ends
      (record { buffered = []; reads = (1 ∷ 1 ∷ 0 ∷ 1 ∷ 0 ∷ 0 ∷ 1 ∷ 0 ∷ []) ∷ [] })
