-- ===== src/Revisions/Cleaned.antt =====
-- The clean-up deletes the chosen revisions, and no revision that is in use.
use mathlib.Core.Path.{fun_ext}
use rudr_x.Base.{
  All, Bool-cases, List, String, [], ap, arith, false, inl, inr, length, refl, suc, take, true,
  zero, ℕ, ◌+◌, ◌-◌, ◌∷◌, ◌≡◌, ◌≢◌,
}
use rudr_x.Base.Int.{leb_ℤ, pos, ◌-ℤ◌}
use rudr_x.Cluster.Calls.{Call, fails, is_not_found, on_error, pure, unless_gone, ◌>>◌}
use rudr_x.Cluster.Posts.{Keeps, bind-Keeps, if-Keeps, on_error-Keeps}
use rudr_x.Revisions.{AppHandler, RevisionApi, in_use, kill, kill_surplus, sorted_revision}
use rudr_x.Revisions.Chosen.{IsUnique, chosen, chosen-unused, free, length-chosen, surplus}

-- Deleting names one after the other; one that is gone already is no error.
unfoldable pub delete_all : {W : Type 0} → RevisionApi W → List String → Call W (Unit {0})
delete_all api [] = pure tt
delete_all api (n ∷ ns) =
    let rest = delete_all api ns in
    on_error (api.delete_app_revision n) pure (λ e. unless_gone e e) >> rest

module _ {W : Type 0} (api : RevisionApi W) where
  kill-delete_all :
      (k : ℕ) (used revs : List String) (w : W)
      → kill api k used revs w ≡ delete_all api (take k (free used revs)) w
  unfolding kill delete_all free
  kill-delete_all zero used [] w = refl
  kill-delete_all (suc k) used [] w = refl
  kill-delete_all zero used (n ∷ ns) w = refl
  kill-delete_all (suc k) used (n ∷ ns) w = elim (Bool-cases (in_use n used)) [
    | inl used_one ↦ rw used_one (kill-delete_all (suc k) used ns w)
    | inr unused ↦ rw (unused, fun_ext (kill-delete_all k used ns)) refl
  ]

  chosen_none :
      (h : AppHandler) (items used : List String)
      → leb_ℤ (pos (length items) -ℤ h.app_revision_limit -ℤ pos (length used)) (pos 0) ≡ true
      → surplus h items used ≡ 0
  unfolding surplus
  chosen_none h items used le = ground arith

  pub kill_surplus_lem :
      (h : AppHandler) (items used : List String) (w : W)
      → kill_surplus api h items used w ≡ delete_all api (chosen h items used) w
  unfolding kill_surplus chosen surplus delete_all
  kill_surplus_lem h items used w =
      elim (Bool-cases
        (leb_ℤ (pos (length items) -ℤ h.app_revision_limit -ℤ pos (length used)) (pos 0))) [
          | inl le ↦ rw (le, chosen_none h items used le) refl
          | inr gt ↦ rw gt (kill-delete_all (surplus h items used) used (sorted_revision items) w)
        ]

  -- What a clean-up deletes, once the revisions and the names in use are read, with a limit that is
  -- not negative and no revision twice on the list: the chosen ones, one after the other until a
  -- deletion fails. As many are chosen as there are more revisions than the limit and the names in use
  -- together, and none of them is in use.
  pub kill_surplus-chosen :
      (h : AppHandler) (items used : List String) (w : W) {limit : ℕ}
      → h.app_revision_limit ≡ pos limit
      → IsUnique items
      → (kill_surplus api h items used w ≡ delete_all api (chosen h items used) w)
        × (length (chosen h items used) ≡ length items - (limit + length used))
        × All (λ n. in_use n used ≡ false) (chosen h items used)
  kill_surplus-chosen h items used w limited unique = (
    kill_surplus_lem h items used w,
    length-chosen h items used limited unique,
    chosen-unused h items used,
  )

used-ne : (m n : String) (used : List String) → in_use m used ≡ true → in_use n used ≡ false → m ≢ n
used-ne m n used h k e = cc (ap (λ x. in_use x used) e)

pub used-ne-All :
    (m : String) (used ns : List String)
    → in_use m used ≡ true
    → All (λ n. in_use n used ≡ false) ns
    → All (λ n. m ≢ n) ns
used-ne-All m used [] h all = tt
used-ne-All m used (n ∷ ns) h all = (used-ne m n used h all.0, used-ne-All m used ns h all.1)

-- The revision is still there, and what the code relies on: a deletion takes away no other revision,
-- and neither does reading.
pub record KeepsRevisions {W : Type 0} (api : RevisionApi W) (Exists : String → W → Type 0)
    : Type 0 where
  pub delete_keeps : (m n : String) → m ≢ n → Keeps (Exists m) (api.delete_app_revision n)

module _ {W : Type 0} (api : RevisionApi W) (Exists : String → W → Type 0)
    (law : KeepsRevisions api Exists) where
  pub delete_all-Keeps :
      (m : String) (ns : List String) → All (λ n. m ≢ n) ns → Keeps (Exists m) (delete_all api ns)
  unfolding delete_all
  delete_all-Keeps m [] ne = λ w h. h
  delete_all-Keeps m (n ∷ ns) ne =
      bind-Keeps (Exists m) (on_error (api.delete_app_revision n) pure (λ e. unless_gone e e)) _
        (on_error-Keeps (Exists m) (api.delete_app_revision n) pure _ (law.delete_keeps m n ne.0)
          (λ a w h. h)
          (λ e. if-Keeps (Exists m) (is_not_found e) (pure tt) (fails e) (λ w h. h) (λ w h. h)))
        (λ u. delete_all-Keeps m ns ne.1)
