-- ===== src/Peripheral/Replies.antt =====
-- The room that the loop of the peripheral leaves to the answers of its worker.
use moergo_rmk.Prelude.{
  ℕ, ◌≤◌, ◌≡◌, refl, subst, ap, ◌∙◌, true, [], ◌∷◌, ◌++◌, append_assoc, some, arith, inl, inr,
}
use moergo_rmk.Wire.Rmk.{Foreign, LayerOps, Sizes}
use moergo_rmk.Wire.Message.{Message}
use moergo_rmk.Replica.Tables.{Tables}
use moergo_rmk.Replica.Walk.{Channel}
use moergo_rmk.Replica.Sender.{ChannelLaws}
use moergo_rmk.Peripheral.Loop.{Surroundings, Wakeup, Session, iterate}
use moergo_rmk.Peripheral.Session.{Sent, iterate-Sent}
use moergo_rmk.Peripheral.Worker.{ApplyRequest, Worker, apply_request, attest_after}

module _ {F : Foreign} {D : Type 0} (C : Channel D) (laws : ChannelLaws C) (encode : Message F → D)
    (capacity : ℕ) where
  -- What has been sent, and the records, when a replica was applied.
  abbrev pub Replied : ApplyRequest → C.Queue → Worker C → Type 0
  Replied request q w =
      (C.queued w.outbound
        ≡ C.queued q
          ++ (encode (Message.ack request.generation request.revision)
              ∷ encode (Message.attestation request.generation request.digests)
              ∷ []))
      × (w.last_applied ≡ some request.revision)
      × (w.last_digests ≡ some request.digests)

  -- The attestation behind an acknowledgement.
  attest_after-queued :
      (request : ApplyRequest) (q : C.Queue)
      → 1 ≤ C.free_capacity q
      → C.queued (attest_after C encode capacity request (q, true))
        ≡ C.queued q ++ (encode (Message.attestation request.generation request.digests) ∷ [])
  attest_after-queued request q room =
      let (q', taken, queued, less) =
        laws.try_send_room (encode (Message.attestation request.generation request.digests)) q
          (omega (arith, room)) in
      rw (taken, attest_after) queued

  apply_request-Replied :
      (request : ApplyRequest) (w : Worker C)
      → 2 ≤ C.free_capacity w.outbound
      → Replied request w.outbound (apply_request C encode capacity true request w)
  unfolding apply_request
  apply_request-Replied request w room =
      let ack = encode (Message.ack request.generation request.revision) in
      let attestation = encode (Message.attestation request.generation request.digests) in
      let (q, taken, queued, less) = laws.try_send_room ack w.outbound (omega (arith, room)) in
      rw taken (
        attest_after-queued request q (omega (arith, room, less))
            ∙ ap (λ l. l ++ (attestation ∷ [])) queued
            ∙ append_assoc (C.queued w.outbound) (ack ∷ []) (attestation ∷ []),
        refl,
        refl,
      )

  -- The queue that `try_send` leaves has one place less.
  sent_room :
      (d : D) (q q' : C.Queue)
      → 3 ≤ C.free_capacity q
      → C.try_send d q ≡ some q'
      → 2 ≤ C.free_capacity q'
  sent_room d q q' wide sent =
      let (q'', taken, queued, less) = laws.try_send_room d q (omega (arith, wide)) in
      let same : q'' ≡ q' = cc (taken, sent) in
      subst (λ x. 2 ≤ C.free_capacity x) same (omega (arith, wide, less))

  Sent-room :
      (q q' : C.Queue)
      → C.free_capacity q ≡ capacity
      → 3 ≤ capacity
      → Sent C encode capacity q q'
      → 2 ≤ C.free_capacity q'
  Sent-room q q' empty wide (inl same) = rw (same) (omega (arith, empty, wide))
  Sent-room q q' empty wide (inr (inl (m, h, sent))) =
      sent_room (encode m) q q' (omega (arith, empty, wide)) sent
  Sent-room q q' empty wide (inr (inr (g, r, sent))) =
      sent_room (encode (Message.ack g r)) q q' (omega (arith, empty, wide)) sent

module _ {F : Foreign} (z : Sizes) (T : Tables F) (ops : LayerOps F) {D : Type 0} (C : Channel D)
    (laws : ChannelLaws C) (encode : Message F → D) (capacity bootloader_tag : ℕ) where
  -- An iteration of the loop on an empty queue of at least three packets, whatever wakes it, leaves
  -- room for the worker: when the engine takes a replica, the acknowledgement and the attestation
  -- follow in the queue, and the revision and the digests are recorded.
  pub iterate-apply_request :
      (w : Surroundings) (e : Wakeup) (s : Session T C) (request : ApplyRequest) (k : Worker C)
      → C.free_capacity s.outbound ≡ capacity
      → 3 ≤ capacity
      → Replied C laws encode capacity request
          (iterate z T ops C encode capacity bootloader_tag w e s).outbound
          (apply_request C encode capacity true request (record k {
            outbound = (iterate z T ops C encode capacity bootloader_tag w e s).outbound;
          }))
  iterate-apply_request w e s request k empty wide =
      apply_request-Replied C laws encode capacity request
        (record k { outbound = (iterate z T ops C encode capacity bootloader_tag w e s).outbound })
        (Sent-room C laws encode capacity s.outbound
          (iterate z T ops C encode capacity bootloader_tag w e s).outbound empty wide
          (iterate-Sent z T ops C encode capacity bootloader_tag w e s))
