-- ===== src/Replica/Transfer/Cells.antt =====
-- The overlay cells of a transaction.
use moergo_rmk.Prelude.{
  ℕ, ◌+◌, ◌≤◌, ◌≡◌, refl, ap, ◌∙◌, sym, Bool, true, false, List, [], ◌∷◌, ◌++◌, none, some, length,
  map, leb, any, ◌==◌, arith, length-append, append-nil, append_assoc,
}
use moergo_rmk.Prelude.Distinct.{distinct, fresh, fresh-append}
use moergo_rmk.Wire.Rmk.{Foreign, Sizes}
use moergo_rmk.Wire.Types.{OverlayCell}
use moergo_rmk.Wire.Message.{Message}
use moergo_rmk.Replica.Tables.{Tables, TableLaws}
use moergo_rmk.Replica.Stage.{Stage, matches, apply, receive, on_cell}
use moergo_rmk.Replica.Transfer.Steps.{with_overlay, receive_quiet}

-- `existing.slot == cell.slot`
abbrev pub same_slot : OverlayCell → OverlayCell → Bool
same_slot c d = c.slot == d.slot

module _ {F : Foreign} (z : Sizes) (T : Tables F) (laws : TableLaws z T) (g r : ℕ) where
  on_cell_lem :
      (c : OverlayCell) (t t' : T.Overlay) (st : Stage T) (debug : ℕ)
      → matches z T g r st ≡ true
      → leb st.expected_overlay_cells (length (T.overlay_slice t)) ≡ false
      → any (λ d. same_slot d c) (T.overlay_slice t) ≡ false
      → T.overlay_push c t ≡ some t'
      → apply z T
          (Message.cell g r c)
          (record { stage = some (with_overlay T t st); debug = debug })
        ≡ (record { stage = some (with_overlay T t' st); debug = debug }, none)
  unfolding apply on_cell
  on_cell_lem c t t' st debug m room new push = rw (m, room, new, push)

  pub receive_cells :
      (cells : List OverlayCell) (t : T.Overlay) (st : Stage T) (debug : ℕ)
      (rest : List (Message F))
      → matches z T g r st ≡ true
      → length (T.overlay_slice t) + length cells ≤ st.expected_overlay_cells
      → st.expected_overlay_cells ≤ z.overlay_capacity
      → fresh same_slot (T.overlay_slice t) cells ≡ true
      → distinct same_slot cells ≡ true
      → (t' : T.Overlay) × (T.overlay_slice t' ≡ T.overlay_slice t ++ cells)
        × (receive z T
              (map (Message.cell g r) cells ++ rest)
              (record { stage = some (with_overlay T t st); debug = debug })
            ≡ receive z T rest (record { stage = some (with_overlay T t' st); debug = debug }))
  receive_cells [] t st debug rest m fits room new dist = (t, sym (append-nil _), refl)
  receive_cells (c ∷ cs) t st debug rest m fits room new dist =
      let (u, push, sliced) = laws.overlay_push_lem c t (omega arith) in
      let (t', sliced', run) =
        receive_cells cs u st debug rest m
          (omega (arith, ap length sliced, length-append (T.overlay_slice t) (c ∷ []))) room
          (ap (λ l. fresh same_slot l cs) sliced
            ∙ fresh-append same_slot (T.overlay_slice t) c cs (ground arith) (ground arith))
          (ground arith) in
      (
        t',
        sliced' ∙ ap (λ l. l ++ cs) sliced ∙ append_assoc (T.overlay_slice t) (c ∷ []) cs,
        receive_quiet z T _ _ _ _ (on_cell_lem c t u st debug m (ground arith) (ground arith) push)
            ∙ run,
      )
