-- ===== src/Console/Words.antt =====
-- client.cpp: how the type of a trade is printed.
use quote_server.Base.{String}
use quote_server.Protobuf.{TradeType, activate_type, change_type, done_type, match_type, open_type}

unfoldable pub trade_to_string : TradeType → String
trade_to_string activate_type = "ACTIVATE"
trade_to_string change_type = "CHANGE"
trade_to_string done_type = "CHANGE"
trade_to_string match_type = "MATCH"
trade_to_string open_type = "OPEN"
