-- ===== src/Protocol/Control.antt =====
-- relay-protocol/src/mcp_control.rs: the control kinds of the MCP websocket and their names.
use chat_x.Prelude.{
  Option, none, some, ◌≡◌, refl, Str, codes, ◌==◌, str_eq, str_beq, str_beq_iff, if◌then◌else◌,
  arith,
}

pub data ControlKind : Type 0 where
  hello hello_ack ping pong request request_end request_cancel head chunk end error : ControlKind

unfoldable pub as_str : ControlKind → Str
as_str hello = codes "hello"
as_str hello_ack = codes "hello_ack"
as_str ping = codes "ping"
as_str pong = codes "pong"
as_str request = codes "request"
as_str request_end = codes "request_end"
as_str request_cancel = codes "request_cancel"
as_str head = codes "head"
as_str chunk = codes "chunk"
as_str end = codes "end"
as_str error = codes "error"

unfoldable pub parse : Str → Option ControlKind
parse kind =
    if kind == codes "hello"
    then some hello
    else if kind == codes "hello_ack"
    then some hello_ack
    else if kind == codes "ping"
    then some ping
    else if kind == codes "pong"
    then some pong
    else if kind == codes "request"
    then some request
    else if kind == codes "request_end"
    then some request_end
    else if kind == codes "request_cancel"
    then some request_cancel
    else if kind == codes "head"
    then some head
    else if kind == codes "chunk"
    then some chunk
    else if kind == codes "end"
    then some end
    else if kind == codes "error"
    then some error
    else none

-- Every kind is parsed back from its name.
parse-as_str : (k : ControlKind) → parse (as_str k) ≡ some k
unfolding parse as_str str_beq
parse-as_str hello = refl
parse-as_str _ = refl

-- Nothing but a kind's own name is parsed as that kind.
as_str-parse : (s : Str) (k : ControlKind) → parse s ≡ some k → as_str k ≡ s
unfolding parse as_str
as_str-parse s k h = ground (
  arith,
  str_beq_iff s (codes "hello"),
  str_beq_iff s (codes "hello_ack"),
  str_beq_iff s (codes "ping"),
  str_beq_iff s (codes "pong"),
  str_beq_iff s (codes "request"),
  str_beq_iff s (codes "request_end"),
  str_beq_iff s (codes "request_cancel"),
  str_beq_iff s (codes "head"),
  str_beq_iff s (codes "chunk"),
  str_beq_iff s (codes "end"),
  str_beq_iff s (codes "error"),
)
