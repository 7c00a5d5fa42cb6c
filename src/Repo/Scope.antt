-- ===== src/Repo/Scope.antt =====
-- What a rollback of src/asc/repo.py may touch.
use asc_orchestrator_v.Base.{
  String, ◌≡◌, refl, Bool, true, false, not, List, [], ◌∷◌, All, contains, if◌then◌else◌,
}
use asc_orchestrator_v.Repo.{Git, roll_back, roll_back_all}

module _ {W : Type 0} (git : Git W) (P : W → Type 0) (path : String)
    (untracked changed : List String) where
  -- Undoing the changes of this file keeps `P`: deleting it does, and so does checking it out, if
  -- it is listed as changed and not as untracked.
  abbrev pub KeptBy : String → Type 0
  KeptBy f =
      ((v : W) → P v → P (git.unlink path f v))
      × (contains f untracked ≡ false
          → contains f changed ≡ true
          → (v : W) → P v
          → P (git.checkout path f v))

  pub roll_back-keeps :
      (f : String) (w : W) → KeptBy f → P w → P (roll_back git path untracked changed f w)
  unfolding roll_back
  roll_back-keeps f w (by_unlink, by_checkout) p =
      split (git.exists path f w) (git.is_file path f w) (contains f untracked) (contains f changed)
        refl refl
    where
      split :
          (there file new tracked : Bool)
          → contains f untracked ≡ new
          → contains f changed ≡ tracked
          → P (
              if not there
              then w
              else if new
              then (if file then git.unlink path f w else w)
              else if tracked
              then git.checkout path f w
              else w)
      split false file new tracked n t = p
      split true true true tracked n t = by_unlink w p
      split true false true tracked n t = p
      split true file false true n t = by_checkout n t w p
      split true file false false n t = p

  pub roll_back_all-keeps :
      (delta : List String) (w : W)
      → All KeptBy delta
      → P w
      → P (roll_back_all git path untracked changed delta w)
  unfolding roll_back_all
  roll_back_all-keeps [] w keeps p = p
  roll_back_all-keeps (f ∷ fs) w keeps p =
      roll_back_all-keeps fs _ keeps.1 (roll_back-keeps f w keeps.0 p)
