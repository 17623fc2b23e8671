-- ===== src/Process.antt =====
-- The client of a process such as RECV or SMRB: its data, and the exceptions that gRPC errors become
-- (src/ska_pst_lmc/component/grpc_lmc_client.py). Protobuf messages are a type of the caller's.
pub mod Api
pub mod Reactions
pub mod Monitor
pub mod Simulator
mod Examples
use ska_pst_lmc.Prelude.{
  ℕ, String, Bool, true, false, Option, none, some, List, [], ◌∷◌, string_key, ◌==◌, if◌then◌else◌,
}

-- The codes of the protobuf `ErrorCode` that have an exception of their own, and the others.
pub data ErrorCode : Type 0 where
  already_scanning_code not_scanning_code invalid_request_code : ErrorCode
  configured_for_beam_already not_configured_for_beam : ErrorCode
  configured_for_scan_already not_configured_for_scan_code : ErrorCode
  other_code : ℕ → ErrorCode

-- `BaseGrpcException` and the classes below it; the last two carry an error code, -1 being `none`.
pub data Kind : Type 0 where
  already_scanning not_scanning invalid_request : Kind
  resources_already_assigned resources_not_assigned : Kind
  scan_configured_already not_configured_for_scan : Kind
  server_error unknown_grpc : Option ℕ → Kind

pub record GrpcException : Type 0 where
  pub kind : Kind
  pub message : String

-- A `grpc.RpcError`: the attributes that it may lack are options.
pub record RpcError : Type 0 where
  pub trailing_metadata : Option (List (String × String))
  pub code : Option ℕ
  pub details : String

-- `ERROR_CODE_EXCEPTION_MAP`
abbrev pub error_code_exception_map : ErrorCode → Option Kind
error_code_exception_map already_scanning_code = some already_scanning
error_code_exception_map not_scanning_code = some not_scanning
error_code_exception_map invalid_request_code = some invalid_request
error_code_exception_map configured_for_beam_already = some resources_already_assigned
error_code_exception_map not_configured_for_beam = some resources_not_assigned
error_code_exception_map configured_for_scan_already = some scan_configured_already
error_code_exception_map not_configured_for_scan_code = some not_configured_for_scan
error_code_exception_map (other_code n) = none

abbrev pub code_number : ErrorCode → Option ℕ
code_number (other_code n) = some n
code_number _ = none

-- `parse` is `Status.ParseFromString`.
module _ (parse : String → ErrorCode × String) where
  -- A status without an exception of its own is a `ServerError`.
  abbrev pub of_status : RpcError → ErrorCode × String → GrpcException
  of_status error (code, message) = elim (error_code_exception_map code) [
    | some kind ↦ record { kind = kind; message = message }
    | none ↦ elim error.code [
      | some n ↦ record { kind = server_error (some n); message = message }
      | none ↦ record { kind = server_error (code_number code); message = message }
    ]
  ]

  abbrev pub find_details : List (String × String) → Option String
  find_details [] = none
  find_details ((k, v) ∷ metadata) =
      if k == "grpc-status-details-bin" then some v else find_details metadata

  abbrev unknown : RpcError → GrpcException
  unknown error = record { kind = unknown_grpc error.code; message = error.details }

  -- The exception that `_handle_grpc_error` raises.
  unfoldable pub handle_grpc_error : RpcError → GrpcException
  handle_grpc_error error = elim error.trailing_metadata [
    | none ↦ unknown error
    | some metadata ↦ elim (find_details metadata) [
      | none ↦ unknown error
      | some v ↦ of_status error (parse v)
    ]
  ]
