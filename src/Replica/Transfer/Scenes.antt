-- ===== src/Replica/Transfer/Scenes.antt =====
-- The scene cells of a transaction.
use moergo_rmk.Prelude.{
  ℕ, ◌+◌, ◌≤◌, ◌≡◌, refl, ap, subst, ◌∙◌, sym, Bool, true, false, List, [], ◌∷◌, ◌++◌, none, some,
  length, map, leb, any, find, keep, arith, length-append, append-nil, append_assoc,
}
use moergo_rmk.Prelude.Distinct.{
  distinct, fresh, fresh-append, find-append, find_from, find-none, any-none, keep-all,
  length-keep-append,
}
use moergo_rmk.Wire.Rmk.{Foreign, Sizes}
use moergo_rmk.Wire.Types.{SceneTableCell}
use moergo_rmk.Wire.Message.{Message}
use moergo_rmk.Replica.Tables.{Tables, TableLaws, at_key}
use moergo_rmk.Replica.Replicates.{Holds}
use moergo_rmk.Replica.Stage.{Stage, matches, apply, receive, on_scene_cell}
use moergo_rmk.Replica.Transfer.Steps.{with_scenes, receive_quiet}

-- `existing.layer == cell.layer && existing.slot == cell.slot`
abbrev pub same_key : SceneTableCell → SceneTableCell → Bool
same_key c d = at_key d.layer d.slot c

module _ {F : Foreign} (T : Tables F) (t : T.Scenes) (acc : List SceneTableCell)
    (h : Holds T t acc) where
  pub length-Holds : length (T.scenes_iter t) ≡ length acc
  length-Holds =
      sym (ap length (keep-all (T.scenes_iter t))) ∙ h.1 (λ c. true) ∙ ap length (keep-all acc)

  any-Holds :
      (layer slot : ℕ)
      → any (at_key layer slot) acc ≡ false
      → any (at_key layer slot) (T.scenes_iter t) ≡ false
  any-Holds layer slot none_in =
      any-none (at_key layer slot) (T.scenes_iter t)
        (h.0 layer slot ∙ find-none (at_key layer slot) acc none_in)

  -- A table that changed like the list that iterates it still holds the longer list.
  Holds-append :
      (u : T.Scenes) (c : SceneTableCell)
      → ((layer slot : ℕ)
          → find (at_key layer slot) (T.scenes_iter u)
            ≡ find (at_key layer slot) (T.scenes_iter t ++ (c ∷ [])))
      → ((p : SceneTableCell → Bool)
          → length (keep p (T.scenes_iter u)) ≡ length (keep p (T.scenes_iter t ++ (c ∷ []))))
      → Holds T u (acc ++ (c ∷ []))
  Holds-append u c finds counts = (
    λ layer slot.
        finds layer slot
        ∙ find-append (at_key layer slot) (T.scenes_iter t) (c ∷ [])
        ∙ ap (λ o. find_from (at_key layer slot) o (c ∷ [])) (h.0 layer slot)
        ∙ sym (find-append (at_key layer slot) acc (c ∷ [])),
    λ p. omega (
      arith,
      counts p,
      length-keep-append p (T.scenes_iter t) (c ∷ []),
      length-keep-append p acc (c ∷ []),
      h.1 p,
    ),
  )

module _ {F : Foreign} (z : Sizes) (T : Tables F) (laws : TableLaws z T) (g r : ℕ) where
  on_scene_cell_lem :
      (c : SceneTableCell) (t t' : T.Scenes) (st : Stage T) (debug : ℕ)
      → matches z T g r st ≡ true
      → leb st.expected_scene_cells (length (T.scenes_iter t)) ≡ false
      → any (at_key c.layer c.slot) (T.scenes_iter t) ≡ false
      → T.scenes_set c t ≡ some t'
      → apply z T
          (Message.scene_cell g r c)
          (record { stage = some (with_scenes T t st); debug = debug })
        ≡ (record { stage = some (with_scenes T t' st); debug = debug }, none)
  unfolding apply on_scene_cell
  on_scene_cell_lem c t t' st debug m room new set = rw (m, room, new, set)

  pub receive_scene_cells :
      (cells acc : List SceneTableCell) (t : T.Scenes) (st : Stage T) (debug : ℕ)
      (rest : List (Message F))
      → matches z T g r st ≡ true
      → Holds T t acc
      → length acc + length cells ≤ st.expected_scene_cells
      → st.expected_scene_cells ≤ z.scene_capacity
      → fresh same_key acc cells ≡ true
      → distinct same_key cells ≡ true
      → (t' : T.Scenes) × Holds T t' (acc ++ cells)
        × (T.policy t' ≡ T.policy t)
        × (receive z T
              (map (Message.scene_cell g r) cells ++ rest)
              (record { stage = some (with_scenes T t st); debug = debug })
            ≡ receive z T rest (record { stage = some (with_scenes T t' st); debug = debug }))
  receive_scene_cells [] acc t st debug rest m holds fits room new dist =
      (t, subst (Holds T t) (sym (append-nil acc)) holds, refl, refl)
  receive_scene_cells (c ∷ cs) acc t st debug rest m holds fits room new dist =
      let no_such = any-Holds T t acc holds c.layer c.slot (ground arith) in
      let len = length-Holds T t acc holds in
      let (u, set, policy, finds, counts) =
        laws.scenes_set_lem c t (find-none (at_key c.layer c.slot) (T.scenes_iter t) no_such)
          (omega (arith, len)) in
      let (t', holds', policy', run) =
        receive_scene_cells cs (acc ++ (c ∷ [])) u st debug rest m
          (Holds-append T t acc holds u c finds counts) (omega (arith, length-append acc (c ∷ [])))
          room (fresh-append same_key acc c cs (ground arith) (ground arith)) (ground arith) in
      (
        t',
        subst (Holds T t') (append_assoc acc (c ∷ []) cs) holds',
        policy' ∙ policy,
        receive_quiet z T _ _ _ _
              (on_scene_cell_lem c t u st debug m (ground (arith, len)) no_such set)
            ∙ run,
      )
