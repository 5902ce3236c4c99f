-- ===== src/Central/Converge.antt =====
-- A whole transfer: what the central queues, what the peripheral makes of it, and how the central
-- takes the acknowledgement and the attestation.
use moergo_rmk.Prelude.{
  ℕ, ◌+◌, ◌%◌, ◌≤◌, ◌∙◌, ◌++◌, Bool, true, false, ◌≡◌, sym, ap, subst, List, [], ◌∷◌, Option, some,
  length, map, All,
}
use moergo_rmk.Wire.Rmk.{Foreign, LayerOps, Sizes}
use moergo_rmk.Wire.Types.{ReplicaDigests, ExtensionReplicaParams, ExtensionLayerState}
use moergo_rmk.Wire.Message.{Message}
use moergo_rmk.Wire.Fits.{Fits, IsU32}
use moergo_rmk.Wire.Encode.{packet}
use moergo_rmk.Wire.RoundTrip.{decode-packet}
use moergo_rmk.Replica.Tables.{Tables, TableLaws}
use moergo_rmk.Replica.Snapshot.{Snapshot}
use moergo_rmk.Replica.Stage.{Receiver}
use moergo_rmk.Replica.Replicates.{Replicates}
use moergo_rmk.Replica.Transfer.{Sendable, SizesFit}
use moergo_rmk.Replica.Digest.{replica_digests}
use moergo_rmk.Replica.Digest.Bounds.{replica_digests-DigestsFit}
use moergo_rmk.Replica.Digest.Agreement.{replica_digests-Replicates}
use moergo_rmk.Replica.Walk.{Channel, snapshot_counts, snapshot_packets}
use moergo_rmk.Replica.Sender.{ChannelLaws, oversized, try_queue_snapshot_lem}
use moergo_rmk.Peripheral.{Effect, process_all}
use moergo_rmk.Peripheral.Snapshots.{process_all-snapshot_packets}
use moergo_rmk.Central.State.{u8_mod}
use moergo_rmk.Central.Handlers.{on_attestation}
use moergo_rmk.Central.Offer.{clear_retry}
use moergo_rmk.Central.Loop.{Event, Clock, Turn, World, head, turn}
use moergo_rmk.Central.Pace.{Ready}
use moergo_rmk.Central.Settle.{
  Acked, on_ack-Acked, on_attestation-Acked, offer-Awaits, offer-Acked, received_ack,
  received_attestation,
}

module _ {F : Foreign} (z : Sizes) (T : Tables F) (table_laws : TableLaws z T) (fit : SizesFit z T)
    (ops : LayerOps F) (values : ExtensionReplicaParams → List ℕ) (small : z.leds_per_half ≤ 64)
    (schema layer_capacity : ℕ) (C : Channel (List ℕ)) (laws : ChannelLaws C)
    (no_layers : F.LayerState) (is_utf8 : List ℕ → Bool) where
  abbrev pub digests : Snapshot T → ReplicaDigests
  digests = replica_digests z T values schema layer_capacity

  abbrev pub replies_with : Clock → Option (Snapshot T) → Message F → Turn T
  replies_with clock prepared m = record {
    clock = clock;
    prepared = prepared;
    event = Event.received (packet z ops values m);
  }

  abbrev pub iterate : Turn T → World F C → World F C
  iterate = turn z T ops C (packet z ops values) digests no_layers is_utf8

  abbrev pub offers : Turn T → World F C → World F C
  offers = head z T ops C (packet z ops values) digests no_layers is_utf8

  module _ (s : Snapshot T) (w : World F C) (clock : Clock) where
    abbrev pub next_generation : ℕ
    next_generation = (w.replication.generation + 1) % u8_mod

    abbrev pub transfer : List (Message F)
    transfer = snapshot_packets z T next_generation s w.batteries (snapshot_counts z T s)

    abbrev pub acked_turn : Turn T
    acked_turn = replies_with clock (some s) (Message.ack next_generation s.revision)

    -- The iteration that offers the snapshot and is woken by its acknowledgement.
    acked_turn-Acked :
        Ready (clear_retry clock.top w.replication)
        → w.replication.full_dirty ≡ true
        → oversized z T C (packet z ops values) (snapshot_counts z T s) ≡ false
        → length transfer ≤ C.free_capacity w.queue
        → IsU32 s.revision
        → (C.queued (offers acked_turn w).queue
            ≡ C.queued w.queue ++ map (packet z ops values) transfer)
          × Acked s.revision (digests s) (iterate acked_turn w).replication
    unfolding head
    acked_turn-Acked can due fits room u32 =
        let (q', taken, queued) =
          (try_queue_snapshot_lem z T C (packet z ops values) laws next_generation s w.batteries
              w.queue).0
            fits room in
        let (sent, awaits) =
          offer-Awaits z T C (packet z ops values) digests clock.top clock.sent s w.batteries
            w.replication w.queue q' can due taken in
        (
          ap C.queued sent ∙ queued,
          subst (Acked s.revision (digests s))
              (sym (
                received_ack z T ops C (packet z ops values) digests no_layers is_utf8 clock
                  (some s) _ next_generation s.revision w
                  (decode-packet z ops values small (Message.ack next_generation s.revision) u32)))
              (on_ack-Acked _ (digests s) _ awaits),
        )

    -- What the attestation of a replica, in the next iteration, leaves.
    attested-Acked :
        (s' : Snapshot T) (g : ℕ) (later : Clock) (prepared : Option (Snapshot T))
        → digests s' ≡ digests s
        → IsU32 s.revision
        → Acked s.revision (digests s) (iterate acked_turn w).replication
        → let t = replies_with later prepared (Message.attestation g (digests s')) in
          Acked s.revision (digests s) (iterate t (iterate acked_turn w)).replication
          × ((iterate t (iterate acked_turn w)).replication.recovery.mismatch_count ≡ 0)
          × ((offers t (iterate acked_turn w)).queue ≡ (iterate acked_turn w).queue)
    unfolding head
    attested-Acked s' g later prepared same u32 settled =
        let (v, t) : World F C × Turn T = (
          iterate acked_turn w,
          replies_with later prepared (Message.attestation g (digests s')),
        ) in
        let (quiet, still) =
          offer-Acked z T C (packet z ops values) digests later.top later.sent s.revision prepared
            v.batteries (digests s) v.replication v.queue settled in
        let fits : Fits z ops values (Message.attestation g (digests s')) =
          rw same (replica_digests-DigestsFit z T values schema layer_capacity s u32) in
        let reply =
          received_attestation z T ops C (packet z ops values) digests no_layers is_utf8 later
            prepared _ g (digests s') v
            (decode-packet z ops values small (Message.attestation g (digests s')) fits) in
        let (acked, count) =
          on_attestation-Acked later.woken s.revision (digests s) (offers t v).replication still in
        let reply' : (iterate t v).replication
            ≡ on_attestation later.woken (digests s) (offers t v).replication =
          reply ∙ ap (λ d. on_attestation later.woken d (offers t v).replication) same in
        (
          subst (Acked s.revision (digests s)) (sym reply') acked,
          ap (λ r. r.recovery.mismatch_count) reply' ∙ count,
          quiet,
        )

    -- A whole transfer converges, for a snapshot that has its extension layers (`Some`), with
    -- containers and a queue that keep their laws and a half of at most 64 keys. When the snapshot is
    -- owed and may be offered, its counts are in bounds, no two of its overlay cells or of its scene
    -- cells for the right half stand under one key, its values fit their packets, its revision is a
    -- 32-bit number and the queue has room, one iteration queues the encoded packets of the
    -- transaction; from them the peripheral, in whatever stage it is, publishes exactly one snapshot,
    -- which replicates the central's; and the packet that acknowledges it, followed by the packet that
    -- attests its digests, leaves the central with nothing owed, that revision acknowledged, the link
    -- healthy and no mismatch counted.
    pub transfer-converges :
        (later : Clock) (prepared : Option (Snapshot T)) (tag : ℕ) (applied : Option ℕ)
        (rx : Receiver T) (layers : ExtensionLayerState) (g : ℕ)
        → Ready (clear_retry clock.top w.replication)
        → w.replication.full_dirty ≡ true
        → length transfer ≤ C.free_capacity w.queue
        → oversized z T C (packet z ops values) (snapshot_counts z T s) ≡ false
        → Sendable z T s
        → All (Fits z ops values) transfer
        → IsU32 s.revision
        → s.extension_layers ≡ some layers
        → (s' : Snapshot T) × (C.queued (offers acked_turn w).queue
            ≡ C.queued w.queue ++ map (packet z ops values) transfer)
          × ((process_all z T ops tag applied (map (packet z ops values) transfer) rx).1
              ≡ Effect.publish next_generation s' w.batteries ∷ [])
          × Replicates T z s s'
          × Acked s.revision
              (digests s)
              (iterate
                (replies_with later prepared (Message.attestation g (digests s')))
                (iterate acked_turn w)).replication
          × ((iterate
                (replies_with later prepared (Message.attestation g (digests s')))
                (iterate acked_turn w)).replication.recovery.mismatch_count
              ≡ 0)
    transfer-converges later prepared tag applied rx layers g can due room fits send values_fit u32
          known =
        let (queued, settled) = acked_turn-Acked can due fits room u32 in
        let (s', stage, published, replica) =
          process_all-snapshot_packets z T table_laws fit ops values small tag applied
            next_generation s w.batteries rx send values_fit in
        let same : digests s' ≡ digests s =
          replica_digests-Replicates z T values schema layer_capacity s s' replica layers known in
        let (acked, count, quiet) = attested-Acked s' g later prepared same u32 settled in
        (s', queued, published, replica, acked, count)
