-- ===== src/RestTransport.antt =====
-- transport/src/RestTransport.cpp: a request over HTTP, whose two kinds of failure give the empty text.
-- The transfer itself is curlpp's, a parameter.
use quote_server.Base.{String}

-- How `ss << request` ends: with the text of the response, or in an exception of curlpp.
pub data Transfer : Type 0 where
  response : String → Transfer
  logic_error runtime_error : Transfer

unfoldable pub request : (String → Transfer) → String → String
request perform address = elim (perform address) [
  | response output ↦ output
  | logic_error ↦ ""
  | runtime_error ↦ ""
]
