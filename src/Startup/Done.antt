-- ===== src/Startup/Done.antt =====
-- What holds of the world where an action of src/startup_coordination.rs returns without an error.
use postgres_mcp.Prelude.{ℕ, Option, List, [], ◌∷◌, if_both, text_Eq}
use postgres_mcp.Startup.{Result, ok, err, StartupCoordinationConfig}
use postgres_mcp.Startup.Journal.{
  Turn, World, StartupLeaseGuard, Action, continue, elapse, take_turn,
}

unfoldable pub IfDone : {A : Type 0} → (World → Type 0) → Result A × World → Type 0
IfDone P (ok a, w) = P w
IfDone P (err e, w) = Unit

module _ {A B : Type 0} (P Q : World → Type 0) where
  pub continue-IfDone :
      (r : Result A × World) (f : A → Action B)
      → IfDone P r
      → ((a : A) (w : World) → P w → IfDone Q (f a w))
      → IfDone Q (continue r f)
  unfolding IfDone
  continue-IfDone (ok a, w) f p h = h a w p
  continue-IfDone (err e, w) f p h = tt

pub IfDone-map :
    {A : Type 0} (P Q : World → Type 0)
    → ((w : World) → P w → Q w)
    → (r : Result A × World) → IfDone P r
    → IfDone Q r
unfolding IfDone
IfDone-map P Q f (ok a, w) p = f w p
IfDone-map P Q f (err e, w) p = tt

pub IfDone-Unit : {A : Type 0} (r : Result A × World) → IfDone (λ w. Unit {0}) r
unfolding IfDone
IfDone-Unit (ok a, w) = tt
IfDone-Unit (err e, w) = tt

pub take_turn-IfDone :
    {A : Type 0} (P : World → Type 0) (c : StartupCoordinationConfig) (g : Option StartupLeaseGuard)
    (statement : ℕ → World → A × World) (ts : List Turn) (w : World)
    → ((now : ℕ) (w' : World) → P (statement now w').1)
    → IfDone P (take_turn c g statement ts w)
unfolding IfDone
take_turn-IfDone P c g statement [] w h = tt
take_turn-IfDone P c g statement (t ∷ ts) w h =
    if_both (IfDone P) t.fails tt (h t.now (elapse c g t.others (record w { turns = ts })))
