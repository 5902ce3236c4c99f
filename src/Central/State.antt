-- ===== src/Central/State.antt =====
-- What `CentralReplication::run` keeps from one iteration to the next.
use moergo_rmk.Prelude.{ℕ, ◌^◌, Bool, true, false, Option, none}
use moergo_rmk.Wire.Types.{ReplicaDigests}
use moergo_rmk.Replies.Attestation.{AttestationRecovery}
use moergo_rmk.Replies.Attestation as Recovery

-- `rmk::host::ReplicationHealth`
pub data ReplicationHealth : Type 0 where
  healthy resynchronizing stale diverged halted : ReplicationHealth

pub data TransferKind : Type 0 where
  full_snapshot context_update : TransferKind

-- An `Instant` and a `Duration` are numbers of milliseconds.
pub record PendingAck : Type 0 where
  pub generation : ℕ
  pub revision : ℕ
  pub kind : TransferKind
  pub deadline : ℕ
  pub digests : Option ReplicaDigests

abbrev pub ack_timeout : ℕ
ack_timeout = 500

abbrev pub resync_fast_attempts : ℕ
resync_fast_attempts = 5

abbrev pub resync_idle_backoff : ℕ
resync_idle_backoff = 20_000

abbrev pub send_backoff : ℕ
send_backoff = 50

abbrev pub u8_mod : ℕ
u8_mod = 2 ^ 8

-- The local variables of `run`, with the `generation` of `self`.
pub record Replication : Type 0 where
  pub link_up : Bool
  pub full_dirty : Bool
  pub context_dirty : Bool
  pub awaiting_ack : Option PendingAck
  pub last_acked_revision : Option ℕ
  pub expected_digests : Option ReplicaDigests
  pub health : ReplicationHealth
  pub failed_attempts : ℕ
  pub last_attested_at : Option ℕ
  pub recovery : AttestationRecovery
  pub status_request_id : ℕ
  pub retry_at : Option ℕ
  pub generation : ℕ

-- `replication()`, and the initial values of `run`.
unfoldable pub replication : Replication
replication = record {
  link_up = false;
  full_dirty = true;
  context_dirty = false;
  awaiting_ack = none;
  last_acked_revision = none;
  expected_digests = none;
  health = ReplicationHealth.resynchronizing;
  failed_attempts = 0;
  last_attested_at = none;
  recovery = Recovery.new;
  status_request_id = 0;
  retry_at = none;
  generation = 0;
}

abbrev pub is_full : TransferKind → Bool
is_full TransferKind.full_snapshot = true
is_full TransferKind.context_update = false

abbrev pub is_halted : ReplicationHealth → Bool
is_halted ReplicationHealth.halted = true
is_halted _ = false
