-- ===== src/Replies/Attestation.antt =====
-- `AttestationRecovery`: the answer to a digest of the replica that differs from the expected one.
use moergo_rmk.Prelude.{
  ℕ, ◌+◌, ◌≡◌, Bool, true, false, not, ◌&&◌, List, [], ◌∷◌, Option, none, some, ◌==◌, ==_refl, leb,
  if◌then◌else◌, min,
}
use moergo_rmk.Wire.Types.{ReplicaDigests}

pub data AttestationDecision : Type 0 where
  matching recover stale halt : AttestationDecision

pub record AttestationRecovery : Type 0 where
  pub target_revision : Option ℕ
  pub mismatch_count : ℕ
  pub awaiting_post_resync : Bool

abbrev pub new : AttestationRecovery
new = record { target_revision = none; mismatch_count = 0; awaiting_post_resync = false }

-- `==` of `ReplicaDigests`, and `Some(a) == Some(b)`.
abbrev pub digests_eq : ReplicaDigests → ReplicaDigests → Bool
digests_eq a b =
    a.schema == b.schema
    && a.revision == b.revision
    && a.settings == b.settings
    && a.overlay == b.overlay
    && a.scenes == b.scenes
    && a.conditional_scenes == b.conditional_scenes

abbrev pub is_some_of {ℓ} : {A : Type ℓ} → (A → Bool) → Option A → Bool
is_some_of p none = false
is_some_of p (some a) = p a

-- `self.target_revision == Some(revision)`
abbrev pub targets : ℕ → AttestationRecovery → Bool
targets revision r = is_some_of (λ t. t == revision) r.target_revision

unfoldable pub snapshot_acked : ℕ → AttestationRecovery → AttestationRecovery
snapshot_acked revision r = record r { awaiting_post_resync = targets revision r }

-- A mismatch behind an acknowledged snapshot, with the new count.
abbrev pub after_resync : ℕ → AttestationRecovery → AttestationRecovery × AttestationDecision
after_resync count r = (
  record r { awaiting_post_resync = false; mismatch_count = count },
  if leb 2 count then AttestationDecision.halt else AttestationDecision.recover,
)

unfoldable pub observe :
    Option ReplicaDigests
    → ReplicaDigests
    → AttestationRecovery
    → AttestationRecovery × AttestationDecision
observe expected observed r =
    if is_some_of (λ e. digests_eq e observed) expected
    then (new, AttestationDecision.matching)
    else if not (is_some_of (λ e. e.revision == observed.revision) expected)
    then (new, AttestationDecision.stale)
    else if not (targets observed.revision r)
    then (
      record {
        target_revision = some observed.revision;
        mismatch_count = 1;
        awaiting_post_resync = false;
      },
      AttestationDecision.recover,
    )
    else if r.awaiting_post_resync
    then after_resync (min (r.mismatch_count + 1) 255) r
    else (r, AttestationDecision.recover)

-- A sequence of observations, with their decisions.
unfoldable pub observe_all :
    List (Option ReplicaDigests × ReplicaDigests)
    → AttestationRecovery
    → AttestationRecovery × List AttestationDecision
observe_all [] r = (r, [])
observe_all ((expected, observed) ∷ os) r =
    let (r', d) = observe expected observed r in
    let (last, ds) = observe_all os r' in (last, d ∷ ds)

-- Not the terminal decision.
abbrev pub continues : AttestationDecision → Bool
continues AttestationDecision.halt = false
continues _ = true

abbrev pub all_continue : List AttestationDecision → Bool
all_continue [] = true
all_continue (d ∷ ds) = continues d && all_continue ds

module _ (expected observed : ReplicaDigests) (same : expected.revision ≡ observed.revision)
    (differ : digests_eq expected observed ≡ false) where
  -- The state between the first mismatch and the acknowledgement.
  abbrev pending : AttestationRecovery
  pending = record {
    target_revision = some observed.revision;
    mismatch_count = 1;
    awaiting_post_resync = false;
  }

  revision_same : (expected.revision == observed.revision) ≡ true
  revision_same = rw (same, ==_refl observed.revision)

  -- The first mismatch of a revision asks for a snapshot, any number of repetitions ask again and
  -- change nothing, and the mismatch after the snapshot of that revision is acknowledged is terminal.
  pub second_mismatch-halts :
      (r : AttestationRecovery)
      → targets observed.revision r ≡ false
      → (observe (some expected) observed r ≡ (pending, AttestationDecision.recover))
        × (observe (some expected) observed pending ≡ (pending, AttestationDecision.recover))
        × ((observe (some expected) observed (snapshot_acked observed.revision pending)).1
            ≡ AttestationDecision.halt)
  unfolding observe snapshot_acked
  second_mismatch-halts r h = (
    rw (differ, revision_same, h),
    rw (differ, revision_same, ==_refl observed.revision),
    rw (differ, revision_same, ==_refl observed.revision),
  )
