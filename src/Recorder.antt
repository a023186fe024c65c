-- ===== src/Recorder.antt =====
-- crates/local-run-recorder/src/lib.rs: the records of one run, and the store that keeps the latest
-- runs within bounds. The fields of a run that no operation reads are left out.
pub mod Finalize
pub mod Store
pub mod Retention
pub mod Publishing
use deskkin.Prelude.{ℕ, Bool, Option, List, [], ◌∷◌}
use deskkin.Prelude.Bytes.{Bytes}

pub data RecordingMode : Type 0 where
  on off : RecordingMode

pub data RunOutcome : Type 0 where
  success error cancel timeout : RunOutcome

pub data Completeness : Type 0 where
  complete partial dropped : Completeness

pub data RecordingHealth : Type 0 where
  healthy storage_unavailable capacity_exhausted : RecordingHealth

pub data Operation : Type 0 where
  status_refresh core_transition effect_read_status effect_arm_refresh_timer : Operation
  presenter_apply_view transport_connect transport_accept transport_frame_read : Operation
  transport_frame_write noise_handshake pairing_confirm pairing_persist : Operation
  protocol_negotiate availability_read host_capability_route : Operation
  connector_availability_read control_route identity_init identity_unpair : Operation
  wifi_association dhcp_acquire tcp_connect nvs_publication device_ui display_transfer : Operation
  profile_resolve host_owner_acquire host_bind host_runtime_start host_runtime_stop : Operation
  host_owner_release profile_status profile_stop : Operation

pub data OperationStatus : Type 0 where
  in_progress success error cancel timeout : OperationStatus

pub data ErrorType : Type 0 where
  read_unavailable timer_arm_unavailable cancelled timeout crash scenario_failed : ErrorType
  connection_lost version_mismatch permission_denied session_busy request_timeout : ErrorType
  queue_full end_of_stream frame_oversize malformed_frame handshake_timeout : ErrorType
  authentication_failed pairing_expired identity_store preauth_capacity owner_lost : ErrorType
  revocation_recovery_required invalid_address pairing_rejected pairing_incomplete : ErrorType
  store_failed store_stalled owner_busy profile_mismatch stale_generation : ErrorType
  shutdown_rejected lock_timeout profile_decrypt_failed profile_schema_invalid : ErrorType
  wifi_association dhcp_timeout tcp_connect noise availability_timeout : ErrorType
  connector_unavailable recording_degraded : ErrorType

pub data ClosedValue : Type 0 where
  started available unavailable unknown armed read_failed arm_failed success error : ClosedValue
  cancel timeout : ClosedValue

pub record SemanticRecord : Type 0 where
  pub operation : Operation
  pub operation_id : ℕ
  pub parent_operation_id : Option ℕ
  pub status : OperationStatus
  pub error_type : Option ErrorType
  pub effect_id : Option ℕ
  pub virtual_time_ms : ℕ
  pub end_virtual_time_ms : ℕ
  pub duration_ms : Option ℕ
  pub render_width : Option ℕ
  pub render_height : Option ℕ
  pub value : Option ClosedValue

pub data MissingReason : Type 0 where
  crash : MissingReason

pub record ProcessOwner : Type 0 where
  pub pid : ℕ
  pub start_ticks : ℕ

pub record DiagnosticRun : Type 0 where
  pub run_id : Bytes
  pub outcome : RunOutcome
  pub completeness : Completeness
  pub health : RecordingHealth
  pub terminal : Bool
  pub missing_reason : Option MissingReason
  pub owner : Option ProcessOwner
  pub retained : Bool
  pub created_unix_ms : ℕ
  pub records : List SemanticRecord

-- `RunOutcome::Success`, and the others
abbrev pub is_success : RunOutcome → Bool
is_success RunOutcome.success = Bool.true
is_success _ = Bool.false

abbrev opened : Operation → ℕ → Option ℕ → Option ℕ → ℕ → SemanticRecord
opened operation operation_id parent effect_id started_ms = record {
  operation = operation;
  operation_id = operation_id;
  parent_operation_id = parent;
  status = OperationStatus.in_progress;
  error_type = Option.none;
  effect_id = effect_id;
  virtual_time_ms = started_ms;
  end_virtual_time_ms = started_ms;
  duration_ms = Option.none;
  render_width = Option.none;
  render_height = Option.none;
  value = Option.some ClosedValue.started;
}

-- the run of a refresh that has just begun; its owner and its time are those of the system
unfoldable pub in_progress_run : Option ProcessOwner → ℕ → Bytes → ℕ → ℕ → DiagnosticRun
in_progress_run owner now run_id effect_id started_ms = record {
  run_id = run_id;
  outcome = RunOutcome.error;
  completeness = Completeness.partial;
  health = RecordingHealth.healthy;
  terminal = Bool.false;
  missing_reason = Option.none;
  owner = owner;
  retained = Bool.false;
  created_unix_ms = now;
  records =
      opened Operation.status_refresh 1 Option.none Option.none started_ms
      ∷ opened Operation.effect_read_status 2 (Option.some 1) (Option.some effect_id) started_ms
      ∷ [];
}
