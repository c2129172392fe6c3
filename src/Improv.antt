-- ===== src/Improv.antt =====
-- components/generic_main/improv_wifi.c: the Improv WiFi serial protocol. This file has the
-- packet types, what is written to the serial line, and length-prefixed strings; the children
-- have the reader, the session of the device, and the proofs.
pub mod Read
pub mod Session
pub mod Flow
mod Tests
use rigcontrol.Common.{ℕ, ◌+◌, ◌%◌, ◌^◌, List, [], ◌∷◌, ◌++◌, Bytes, codes, length, take, get_or}

-- `improv_type_t` and `improv_rpc_command_t`, with their values on the line.
pub data ImprovType : Type 0 where
  current_state error_state rpc_command rpc_result : ImprovType

abbrev pub type_code : ImprovType → ℕ
type_code ImprovType.current_state = 1
type_code ImprovType.error_state = 2
type_code ImprovType.rpc_command = 3
type_code ImprovType.rpc_result = 4

pub data RpcCommand : Type 0 where
  send_wifi_settings request_current_state : RpcCommand
  request_device_information request_scanned_wifi_networks : RpcCommand

abbrev pub command_code : RpcCommand → ℕ
command_code RpcCommand.send_wifi_settings = 1
command_code RpcCommand.request_current_state = 2
command_code RpcCommand.request_device_information = 3
command_code RpcCommand.request_scanned_wifi_networks = 4

-- `improv_state_t` and `improv_error_state_t`, likewise.
pub data ImprovState : Type 0 where
  ready provisioning provisioned : ImprovState

pub data ImprovError : Type 0 where
  no_error invalid_rpc_packet unknown_rpc_command : ImprovError
  unable_to_connect end_improv unknown_error : ImprovError

abbrev pub state_code : ImprovState → ℕ
state_code ImprovState.ready = 2
state_code ImprovState.provisioning = 3
state_code ImprovState.provisioned = 4

abbrev pub error_code : ImprovError → ℕ
error_code ImprovError.no_error = 0
error_code ImprovError.invalid_rpc_packet = 1
error_code ImprovError.unknown_rpc_command = 2
error_code ImprovError.unable_to_connect = 3
error_code ImprovError.end_improv = 0xfe
error_code ImprovError.unknown_error = 0xff

abbrev pub magic : Bytes
magic = codes "IMPROV"

abbrev pub improv_version : ℕ
improv_version = 1

-- `checksum += buffer[i]` over `unsigned int`.
abbrev pub add_all : ℕ → Bytes → ℕ
add_all sum [] = sum
add_all sum (c ∷ cs) = add_all ((sum + c) % 2 ^ 32) cs

-- What the checksum covers: magic, version, type, length and data.
abbrev pub covered : Bytes → ℕ → ℕ → Bytes
covered payload type len = magic ++ improv_version ∷ (type % 256) ∷ (len % 256) ∷ take len payload

-- The bytes that `improv_send` writes.
unfoldable pub improv_send : Bytes → ℕ → ℕ → Bytes
improv_send payload type len =
    covered payload type len ++ (add_all 0 (covered payload type len) % 256) ∷ b'\n' ∷ []

-- What `improv_send_error` writes.
unfoldable pub improv_send_error : ImprovError → Bytes
improv_send_error e = improv_send ((error_code e % 256) ∷ []) (type_code ImprovType.error_state) 1

-- The bytes that `improv_encode_string` stores; their number is what it returns.
unfoldable pub improv_encode_string : Bytes → Bytes
improv_encode_string s = (length s % 256) ∷ s

-- The string that `improv_decode_string` copies, and the bytes that it consumes.
unfoldable pub improv_decode_string : Bytes → Bytes × ℕ
improv_decode_string [] = ([], 1)
improv_decode_string (n ∷ bytes) = (take n bytes, n + 1)
