-- ===== src/Replica/Transfer/Steps.antt =====
-- One quiet message of a sequence, and the fields of a stage that the loops change.
use moergo_rmk.Prelude.{◌≡◌, List, ◌∷◌, none}
use moergo_rmk.Wire.Rmk.{Foreign, Sizes}
use moergo_rmk.Wire.Message.{Message}
use moergo_rmk.Replica.Tables.{Tables}
use moergo_rmk.Replica.Stage.{Stage, Receiver, apply, receive}

module _ {F : Foreign} (T : Tables F) where
  abbrev pub with_overlay : T.Overlay → Stage T → Stage T
  with_overlay t st = record st { snapshot = record (st.snapshot) { overlay = t } }

  abbrev pub with_scenes : T.Scenes → Stage T → Stage T
  with_scenes t st = record st { snapshot = record (st.snapshot) { scenes = t } }

  abbrev pub with_rules : T.Rules → Stage T → Stage T
  with_rules t st = record st { snapshot = record (st.snapshot) { rules = t } }

module _ {F : Foreign} (z : Sizes) (T : Tables F) where
  pub receive_quiet :
      (m : Message F) (ms : List (Message F)) (rx rx' : Receiver T)
      → apply z T m rx ≡ (rx', none)
      → receive z T (m ∷ ms) rx ≡ receive z T ms rx'
  unfolding receive
  receive_quiet m ms rx rx' h = rw h
