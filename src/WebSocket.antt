-- ===== src/WebSocket.antt =====
-- sockets/WSOpCode.hpp and sockets/live/WebSocketLiveEndpoint.hpp: op codes and the frames that an
-- endpoint sends. A `char` is its byte, a number below 256.
pub mod Endpoint
pub mod Receive
pub mod Frames
pub mod Wire
pub mod Cycle
pub mod Stages
pub mod Delivery
pub mod Waiting
pub mod Chunks
pub mod Stream
pub mod Delivered
pub mod Sender
pub mod Session
pub mod Bounds
pub mod Upgrade
pub mod Handshake
use medici.Prelude.{
  ℕ, zero, suc, ◌+◌, ◌*◌, ◌-◌, ◌/◌, ◌%◌, ◌^◌, Bool, true, false, leb, ◌==◌, if◌then◌else◌, List, [],
  ◌∷◌, ◌++◌, length, get_or,
}
use Prim.Native.Nat.{bit_and, bit_or, bit_xor}

-- Any number can be cast to the enumeration.
pub data WsOpCode : Type 0 where
  continuation text binary closed_connection ping pong : WsOpCode
  unknown : ℕ → WsOpCode

-- `static_cast<WSOpCode>`.
unfoldable pub to_op_code : ℕ → WsOpCode
to_op_code n =
    if n == 0
    then continuation
    else if n == 1
    then text
    else if n == 2
    then binary
    else if n == 8
    then closed_connection
    else if n == 9
    then ping
    else if n == 10
    then pong
    else unknown n

-- `static_cast<int>`.
unfoldable pub op_value : WsOpCode → ℕ
op_value continuation = 0
op_value text = 1
op_value binary = 2
op_value closed_connection = 8
op_value ping = 9
op_value pong = 10
op_value (unknown n) = n

-- `opCode == WSOpCode::Text || opCode == WSOpCode::Binary`.
abbrev pub is_content : WsOpCode → Bool
is_content text = true
is_content binary = true
is_content other = false

-- `static_cast<uint16_t>(std::size(payload))`.
abbrev pub payload_size : List ℕ → ℕ
payload_size payload = length payload % 2 ^ 16

unfoldable pub first_byte : Bool → WsOpCode → ℕ
unfolding op_value
first_byte compressed op_code =
    bit_or (bit_or 0x80 (if compressed then 0x40 else 0)) (op_value op_code) % 256

-- The loop that writes a length of eight bytes: `n` is `i + 1`.
unfoldable pub length_octets : ℕ → ℕ → List ℕ
length_octets zero size = []
length_octets (suc i) size = bit_and (size / 2 ^ (i * 8)) 0xff ∷ length_octets i size

unfoldable pub client_length : ℕ → List ℕ
unfolding length_octets
client_length size =
    if leb size 125
    then bit_or 0x80 size % 256 ∷ []
    else if leb size 65536
    then bit_or 0x80 126 ∷ bit_and (size / 2 ^ 8) 0xff ∷ bit_and size 0xff ∷ []
    else bit_or 0x80 127 ∷ length_octets 8 size

unfoldable pub server_length : ℕ → List ℕ
unfolding length_octets
server_length size =
    if leb size 125
    then size % 256 ∷ []
    else if leb size 65536
    then 126 ∷ bit_and (size / 2 ^ 8) 0xff ∷ bit_and size 0xff ∷ []
    else 127 ∷ length_octets 8 size

-- The loop that masks or unmasks a payload, from its byte `i` on.
unfoldable pub mask_from : List ℕ → ℕ → List ℕ → List ℕ
mask_from key i [] = []
mask_from key i (b ∷ payload) = bit_xor b (get_or key (i % 4) 0) ∷ mask_from key (suc i) payload

-- The send buffer of `clientSendFramedPayload`.
unfoldable pub client_frame : List ℕ → Bool → WsOpCode → List ℕ → List ℕ
unfolding first_byte client_length mask_from
client_frame key compressed op_code payload =
    first_byte compressed op_code
    ∷ (client_length (payload_size payload) ++ (key ++ mask_from key 0 payload))

-- The send buffer of `serverSendFramedPayload`.
unfoldable pub server_frame : Bool → WsOpCode → List ℕ → List ℕ
unfolding first_byte server_length
server_frame compressed op_code payload =
    first_byte compressed op_code ∷ (server_length (payload_size payload) ++ payload)
