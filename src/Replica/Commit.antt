-- ===== src/Replica/Commit.antt =====
-- What a snapshot that `SnapshotStage` hands out has been checked for.
use moergo_rmk.Prelude.{
  ℕ, ◌≡◌, refl, true, none, some, length, ◌⊎◌, inl, inr, Bool-cases, Option-cases, arith,
}
use moergo_rmk.Wire.Rmk.{Foreign, Sizes}
use moergo_rmk.Wire.Message.{Message}
use moergo_rmk.Replica.Tables.{Tables}
use moergo_rmk.Replica.Stage.{Stage, Receiver, apply, on_commit, commit_valid, is_complete}

module _ {F : Foreign} (z : Sizes) (T : Tables F) where
  -- A stage that a commit completes.
  abbrev pub Complete : Stage T → ℕ → ℕ → ℕ → ℕ → Type 0
  Complete st g r n p =
      (st.generation ≡ g)
      × (st.snapshot.revision ≡ r)
      × (length (T.overlay_slice st.snapshot.overlay) ≡ n)
      × (length (T.scenes_iter st.snapshot.scenes) ≡ p)
      × (is_complete z T st.expected_conditional_scene_cells
            (length (T.rules_iter st.snapshot.rules))
          ≡ true)
      × (st.wake_layers_received ≡ true)
      × (st.context_received ≡ true)
      × (st.extension_received ≡ true)
      × (st.extension_overlay_received ≡ true)

  commit_valid-Complete :
      (g r n p : ℕ) (st : Stage T) → commit_valid z T g r n p st ≡ true → Complete st g r n p
  commit_valid-Complete g r n p st h = ground arith

  -- A message hands out nothing, unless it is a `Commit` on a stage that matches its generation and
  -- revision, has the counts of cells that it names and all conditional cells announced, and has
  -- received the four single packets: then it hands out that stage's snapshot.
  pub apply_output :
      (m : Message F) (rx : Receiver T)
      → ((apply z T m rx).1 ≡ none)
        ⊎ ((st : Stage T) × (g : ℕ) × (r : ℕ) × (n : ℕ) × (p : ℕ) × (m ≡ Message.commit g r n p)
            × (rx.stage ≡ some st)
            × ((apply z T m rx).1 ≡ some (st.generation, st.snapshot, st.batteries))
            × Complete st g r n p)
  unfolding apply on_commit
  apply_output (Message.commit g r n p) rx = elim (Option-cases rx.stage) [
    | inl h ↦ inl (rw h)
    | inr (st, h) ↦ elim (Bool-cases (commit_valid z T g r n p st)) [
      | inl valid ↦
          inr (st, g, r, n, p, refl, h, rw (h, valid), commit_valid-Complete g r n p st valid)
      | inr invalid ↦ inl (rw (h, invalid))
    ]
  ]
  apply_output m rx = inl refl
