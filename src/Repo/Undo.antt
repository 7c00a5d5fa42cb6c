-- ===== src/Repo/Undo.antt =====
-- What `rollback_attempt` of src/asc/repo.py makes of the files of an attempt.
use asc_orchestrator_v.Base.{
  String, ◌≡◌, refl, sym, ◌∙◌, subst, ◌≢◌, ◌==◌, str_eq→eq, eq_iff, Bool, true, false, not, List,
  [], ◌∷◌, ◌++◌, ◌⊎◌, inl, inr, All, Member, Bool-cases, contains, if◌then◌else◌,
}
use asc_orchestrator_v.Repo.{Git, get_porcelain_status, roll_back, roll_back_all, rollback_attempt}
use asc_orchestrator_v.Repo.Scope.{KeptBy, roll_back-keeps, roll_back_all-keeps}

-- What deleting a file and `git checkout HEAD -- file` do, where `Tracked f` says that HEAD has a
-- file and `Restored f` that the file is as in HEAD: each does its work on its own file, leaves
-- every other file as it is, and takes nothing out of HEAD.
pub record IsTree {W : Type 0} (git : Git W) (path : String)
    (Tracked Restored : String → W → Type 0) : Type 0 where
  pub file_exists : (f : String) (v : W) → git.is_file path f v ≡ true → git.exists path f v ≡ true
  pub deletes :
      (f : String) (v : W)
      → git.is_file path f v ≡ true
      → git.is_file path f (git.unlink path f v) ≡ false
  pub restores : (f : String) (v : W) → Tracked f v → Restored f (git.checkout path f v)
  pub unlink_tracked : (g f : String) (v : W) → Tracked f v → Tracked f (git.unlink path g v)
  pub checkout_tracked : (g f : String) (v : W) → Tracked f v → Tracked f (git.checkout path g v)
  pub unlink_file :
      (g f : String) (v : W)
      → g ≢ f
      → git.is_file path f (git.unlink path g v) ≡ git.is_file path f v
  pub checkout_file :
      (g f : String) (v : W)
      → Tracked g v
      → g ≢ f
      → git.is_file path f (git.checkout path g v) ≡ git.is_file path f v
  pub unlink_other :
      (g f : String) (v : W) → g ≢ f → Restored f v → Restored f (git.unlink path g v)
  pub checkout_other :
      (g f : String) (v : W)
      → Tracked g v
      → g ≢ f
      → Restored f v
      → Restored f (git.checkout path g v)

apart : (g f : String) → g == f ≡ false → g ≢ f
apart g f h e = let clash : true ≡ false = sym ((eq_iff g f).1 e) ∙ h in cc

module _ {W : Type 0} (git : Git W) (path : String) (Tracked Restored : String → W → Type 0)
    (tree : IsTree git path Tracked Restored) where
  -- A file that was new is gone, and one that was not is as in HEAD.
  abbrev pub Undone : Bool → String → W → Type 0
  Undone true f v = git.is_file path f v ≡ false
  Undone false f v = Restored f v

  unlink-Undone :
      (new : Bool) (g f : String) (v : W)
      → g ≢ f
      → Undone new f v
      → Undone new f (git.unlink path g v)
  unlink-Undone true g f v n u = tree.unlink_file g f v n ∙ u
  unlink-Undone false g f v n u = tree.unlink_other g f v n u

  checkout-Undone :
      (new : Bool) (g f : String) (v : W)
      → Tracked g v
      → g ≢ f
      → Undone new f v
      → Undone new f (git.checkout path g v)
  checkout-Undone true g f v t n u = tree.checkout_file g f v t n ∙ u
  checkout-Undone false g f v t n u = tree.checkout_other g f v t n u

  -- What is listed as changed and not as untracked is in HEAD.
  abbrev pub Listed : List String → List String → W → String → Type 0
  Listed untracked changed w g =
      contains g untracked ≡ false → contains g changed ≡ true → Tracked g w

  module _ (untracked changed : List String) (w : W) where
    -- Nothing has left HEAD.
    abbrev SameHead : W → Type 0
    SameHead v = (h : String) → Tracked h w → Tracked h v

    -- What deleting a file keeps, and checking it out if HEAD has it, its turn keeps.
    turn_KeptBy :
        (Q : W → Type 0) (g : String)
        → Listed untracked changed w g
        → ((x : W) → Q x → Q (git.unlink path g x))
        → ((x : W) → Tracked g x → Q x → Q (git.checkout path g x))
        → KeptBy git (λ x. SameHead x × Q x) path untracked changed g
    turn_KeptBy Q g listed on_unlink on_checkout = (
      λ x (s, q). (λ h t. tree.unlink_tracked g h x (s h t), on_unlink x q),
      λ n c x (s, q).
          (λ h t. tree.checkout_tracked g h x (s h t), on_checkout x (s g (listed n c)) q),
    )

    turn_head :
        (g : String) (v : W)
        → Listed untracked changed w g
        → SameHead v
        → SameHead (roll_back git path untracked changed g v)
    turn_head g v listed s =
        (roll_back-keeps git (λ x. SameHead x × Unit) path untracked changed g v
          (turn_KeptBy (λ x. Unit) g listed (λ x u. tt) (λ x t u. tt)) (s, tt)).0

    module _ (f : String) where
      -- The turn of a file that is there and has changed.
      roll_back-Undone :
          (v : W)
          → SameHead v
          → Listed untracked changed w f
          → git.is_file path f v ≡ true
          → (contains f untracked ≡ true) ⊎ (contains f changed ≡ true)
          → Undone (contains f untracked) f (roll_back git path untracked changed f v)
      unfolding roll_back
      roll_back-Undone v s listed file touched =
          rw (tree.file_exists f v file, file)
            (split (contains f untracked) (contains f changed) (λ n c. s f (listed n c)) touched)
        where
          split :
              (new tracked : Bool)
              → (new ≡ false → tracked ≡ true → Tracked f v)
              → (new ≡ true) ⊎ (tracked ≡ true)
              → Undone new f (
                  if new then git.unlink path f v else if tracked then git.checkout path f v else v)
          split true tracked known t = tree.deletes f v file
          split false true known t = tree.restores f v (known refl refl)
          split false false known (inl t) = cc
          split false false known (inr t) = cc

      -- A further turn of a file whose change is undone.
      roll_back-again :
          (v : W)
          → SameHead v
          → Listed untracked changed w f
          → Undone (contains f untracked) f v
          → Undone (contains f untracked) f (roll_back git path untracked changed f v)
      unfolding roll_back
      roll_back-again v s listed u =
          split (git.exists path f v) (contains f untracked) (contains f changed)
            (λ n c. s f (listed n c)) u
        where
          split :
              (there new tracked : Bool)
              → (new ≡ false → tracked ≡ true → Tracked f v)
              → Undone new f v
              → Undone new f (
                  if not there
                  then v
                  else if new
                  then (if git.is_file path f v then git.unlink path f v else v)
                  else if tracked
                  then git.checkout path f v
                  else v)
          split false new tracked known u = u
          split true true tracked known u = rw u u
          split true false true known u = tree.restores f v (known refl refl)
          split true false false known u = u

      roll_back_all-again :
          (delta : List String) (v : W)
          → SameHead v
          → All (Listed untracked changed w) delta
          → Undone (contains f untracked) f v
          → Undone (contains f untracked) f (roll_back_all git path untracked changed delta v)
      unfolding roll_back_all
      roll_back_all-again [] v s listed u = u
      roll_back_all-again (g ∷ gs) v s listed u =
          roll_back_all-again gs _ (turn_head g v listed.0 s) listed.1 (elim (Bool-cases (g == f)) [
            | inr e ↦
                let n = apart g f e in
                (roll_back-keeps git (λ x. SameHead x × Undone (contains f untracked) f x) path
                  untracked changed g v
                  (turn_KeptBy (Undone (contains f untracked) f) g listed.0
                    (λ x p. unlink-Undone (contains f untracked) g f x n p)
                    (λ x t p. checkout-Undone (contains f untracked) g f x t n p))
                  (s, u)).1
            | inl e ↦
                let same = str_eq→eq g f e in
                subst
                  (λ h. Undone (contains f untracked) f (roll_back git path untracked changed h v))
                  (sym same)
                  (roll_back-again v s (subst (Listed untracked changed w) same listed.0) u)
          ])

      roll_back_all-Undone :
          (delta : List String) (v : W)
          → SameHead v
          → All (Listed untracked changed w) delta
          → Member f delta
          → git.is_file path f v ≡ true
          → (contains f untracked ≡ true) ⊎ (contains f changed ≡ true)
          → Undone (contains f untracked) f (roll_back_all git path untracked changed delta v)
      unfolding roll_back_all
      roll_back_all-Undone [] v s listed m file touched = absurd m
      roll_back_all-Undone (g ∷ gs) v s listed m file touched = elim (Bool-cases (g == f)) [
        | inl e ↦
            let same = str_eq→eq g f e in
            roll_back_all-again gs _ (turn_head g v listed.0 s) listed.1 (
              subst
                (λ h. Undone (contains f untracked) f (roll_back git path untracked changed h v))
                (sym same)
                (roll_back-Undone v s (subst (Listed untracked changed w) same listed.0) file
                  touched))
        | inr e ↦
            let n = apart g f e in
            let later : Member f gs = elim m [ inl p ↦ absurd (n p) | inr k ↦ k ] in
            let (s', still) =
              roll_back-keeps git (λ x. SameHead x × (git.is_file path f x ≡ true)) path untracked
                changed g v
                (turn_KeptBy (λ x. git.is_file path f x ≡ true) g listed.0
                  (λ x p. tree.unlink_file g f x n ∙ p) (λ x t p. tree.checkout_file g f x t n ∙ p))
                (s, file) in
            roll_back_all-Undone gs _ s' listed.1 later still touched
      ]

    -- Files that are not among those of the attempt stay.
    others_stay :
        (delta : List String) (g : String)
        → All (Listed untracked changed w) delta
        → ¬ Member g delta
        → git.is_file path g (roll_back_all git path untracked changed delta w)
          ≡ git.is_file path g w
    others_stay delta g listed outside =
        (roll_back_all-keeps git (λ x. SameHead x × (git.is_file path g x ≡ git.is_file path g w))
          path untracked changed delta w (each delta listed outside) ((λ h t. t), refl)).1
      where
        each :
            (fs : List String)
            → All (Listed untracked changed w) fs
            → ¬ Member g fs
            → All
                (KeptBy git
                  (λ x. SameHead x × (git.is_file path g x ≡ git.is_file path g w))
                  path
                  untracked
                  changed)
                fs
        each [] l n = tt
        each (f ∷ fs) l n = (
          turn_KeptBy (λ x. git.is_file path g x ≡ git.is_file path g w) f l.0
              (λ v p. tree.unlink_file f g v (λ e. n (inl e)) ∙ p)
              (λ v t p. tree.checkout_file f g v t (λ e. n (inl e)) ∙ p),
          each fs l.1 (λ m. n (inr m)),
        )

  -- Where deleting and checking out a file do their work on that file and leave the others as they
  -- are: inside a repository, and if every file of the attempt that git lists as modified or staged
  -- and not as untracked is in HEAD, a file of the attempt that is there, and that git lists as
  -- untracked, modified or staged, is gone after the rollback if it was untracked, and as in
  -- HEAD if not; and no file outside of the attempt is deleted or made.
  pub rollback_attempt-Undone :
      (f : String) (delta : List String) (w : W)
      → git.is_git_repo path w ≡ true
      → let status = get_porcelain_status git path w in
        All (Listed status.untracked (status.modified ++ status.staged) w) delta
        → Member f delta
        → git.is_file path f w ≡ true
        → (contains f (get_porcelain_status git path w).untracked ≡ true)
          ⊎ (contains f (
                (get_porcelain_status git path w).modified
                ++ (get_porcelain_status git path w).staged)
              ≡ true)
        → let after = rollback_attempt git path delta w in
          Undone (contains f (get_porcelain_status git path w).untracked) f after
          × ((g : String) → ¬ Member g delta → git.is_file path g after ≡ git.is_file path g w)
  unfolding rollback_attempt
  rollback_attempt-Undone f [] w repo listed m file touched = absurd m
  rollback_attempt-Undone f (x ∷ fs) w repo listed m file touched =
      rw (repo, rollback_attempt)
        (
          roll_back_all-Undone _ _ w f (x ∷ fs) w (λ h t. t) listed m file touched,
          λ g outside. others_stay _ _ w (x ∷ fs) g listed outside,
        )
