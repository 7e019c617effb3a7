-- ===== src/Dispatch/Server.antt =====
-- A small API server that keeps objects and trackers: the hypotheses on the server hold for it. It
-- serves an object under every API version, and the finalizer of a volume holds it until somebody else
-- lets it go.
use rudr_x.Base.{
  Bool, List, String, [], arith, eq_iff, false, if◌then◌else◌, inl, inr, refl, str_eq, sym, true,
  ◌&&◌, ◌||◌, ◌↔◌, ◌∙◌, ◌∷◌, ◌≡◌,
}
use rudr_x.Apply.{ObjectApi}
use rudr_x.Apply.Posts.{Answers, KeepsObjects}
use rudr_x.Cluster.Calls.{Result, err, is_not_found, not_found, ok}
use rudr_x.Cluster.Posts.{Post, Whatever}
use rudr_x.Cluster.References.{Manifest, TypedReference, reference}
use rudr_x.Dispatch.Applied.{KeepsCluster}
use rudr_x.Dispatch.Collected.{Deletes, Leaving, Spares}
use rudr_x.Dispatch.Trackers.{DispatchApi, ResourceTracker}

pub record Cluster : Type 0 where
  pub objects : List TypedReference
  pub terminating : List TypedReference
  pub trackers : List ResourceTracker

-- One object, under whatever API version.
unfoldable pub one_object : TypedReference → TypedReference → Bool
one_object a b = str_eq a.kind b.kind && str_eq a.name b.name && str_eq a.namespace b.namespace

abbrev pub Same : TypedReference → TypedReference → Type 0
Same a b = one_object a b ≡ true

unfoldable pub held : TypedReference → List TypedReference → Bool
held d [] = false
held d (x ∷ xs) = one_object d x || held d xs

abbrev pub Present : TypedReference → Cluster → Type 0
Present r w = held r w.objects ≡ true

abbrev pub Marked : TypedReference → Cluster → Type 0
Marked r w = held r w.terminating ≡ true

unfoldable pub dropped : TypedReference → List TypedReference → List TypedReference
dropped d [] = []
dropped d (x ∷ xs) = if one_object d x then dropped d xs else x ∷ dropped d xs

unfoldable pub has_finalizer : TypedReference → Bool
has_finalizer d = str_eq d.kind "PersistentVolume"

abbrev pub after_delete : TypedReference → Cluster → Bool → Cluster
after_delete d w finalizer =
    if finalizer
    then record w { terminating = d ∷ w.terminating }
    else record w { objects = dropped d w.objects }

unfoldable pub find_tracker : String → List ResourceTracker → Result ResourceTracker
find_tracker n [] = err (not_found n)
find_tracker n (t ∷ ts) = if str_eq t.name n then ok t else find_tracker n ts

unfoldable pub with_tracker : ResourceTracker → List ResourceTracker → List ResourceTracker
with_tracker t [] = t ∷ []
with_tracker t (u ∷ us) = if str_eq t.name u.name then t ∷ us else u ∷ with_tracker t us

unfoldable pub without_tracker : String → List ResourceTracker → List ResourceTracker
without_tracker n [] = []
without_tracker n (u ∷ us) =
    if str_eq u.name n then without_tracker n us else u ∷ without_tracker n us

abbrev pub objects_api : ObjectApi Cluster (Unit {0})
objects_api = record {
  get_object = λ m w. (if held (reference m) w.objects then ok m else err (not_found m.name), w);
  create_object = λ m w. (ok m, record w { objects = reference m ∷ w.objects });
  patch_object =
      λ m p w. (if held (reference m) w.objects then ok m else err (not_found m.name), w);
}

abbrev pub server : DispatchApi Cluster (Unit {0})
server = record {
  objects = objects_api;
  delete_object = λ d w. (
    if held d w.objects then ok tt else err (not_found d.name),
    after_delete d w (has_finalizer d),
  );
  get_tracker = λ n w. (find_tracker n w.trackers, w);
  create_tracker = λ t w. (ok t, record w { trackers = with_tracker t w.trackers });
  update_tracker_status = λ t w. (ok t, record w { trackers = with_tracker t w.trackers });
  delete_tracker = λ t w. (ok tt, record w { trackers = without_tracker t.name w.trackers });
  retries = 2;
}

one_object_iff :
    (a b : TypedReference)
    → (one_object a b ≡ true)
      ↔ ((a.kind ≡ b.kind) × (a.name ≡ b.name) × (a.namespace ≡ b.namespace))
unfolding one_object
one_object_iff a b = (
  (λ h. ground (arith, eq_iff a.kind b.kind, eq_iff a.name b.name, eq_iff a.namespace b.namespace)),
  (λ h. ground (arith, eq_iff a.kind b.kind, eq_iff a.name b.name, eq_iff a.namespace b.namespace)),
)

Same-joins : (r d x : TypedReference) → Same r x → Same d x → Same r d
Same-joins r d x h k =
    let p = (one_object_iff r x).0 h in
    let q = (one_object_iff d x).0 k in
    (one_object_iff r d).1 (p.0 ∙ sym q.0, p.1 ∙ sym q.1, p.2 ∙ sym q.2)

dropped_self : (d : TypedReference) (xs : List TypedReference) → held d (dropped d xs) ≡ false
unfolding held dropped
dropped_self d [] = refl
dropped_self d (x ∷ xs) = ground (arith, dropped_self d xs)

held-head : (r : TypedReference) (rs : List TypedReference) → held r (r ∷ rs) ≡ true
unfolding held
held-head r rs = rw ((one_object_iff r r).1 (refl, refl, refl)) refl

held-tail :
    (r x : TypedReference) (rs : List TypedReference) → held r rs ≡ true → held r (x ∷ rs) ≡ true
unfolding held
held-tail r x rs h = ground arith

patched-here :
    (m : Manifest) (w : Cluster) (b : Bool)
    → held (reference m) w.objects ≡ b
    → Post (Answers Present m) Whatever (if b then ok m else err (not_found m.name), w)
patched-here m w true h = (h, λ named. refl)
patched-here m w false h = tt

dropped-other :
    (r d : TypedReference) (xs : List TypedReference)
    → ¬ (Same r d)
    → held r xs ≡ true
    → held r (dropped d xs) ≡ true
unfolding held dropped
dropped-other r d [] ne h = h
dropped-other r d (x ∷ xs) ne h = ground (arith, dropped-other r d xs ne, Same-joins r d x)

dropped-old :
    (r d : TypedReference) (xs : List TypedReference)
    → held r (dropped d xs) ≡ true
    → held r xs ≡ true
unfolding held dropped
dropped-old r d [] h = h
dropped-old r d (x ∷ xs) h = ground (arith, dropped-old r d xs)

objects_api-keeps : KeepsObjects objects_api Present
objects_api-keeps = record {
  get_object_keeps = λ r m w h. h;
  create_object_keeps = λ r m w h. held-tail r (reference m) w.objects h;
  patch_object_keeps = λ r m p w h. h;
  created = λ m w. (held-head (reference m) w.objects, λ named. refl);
  patched = λ m p w. patched-here m w (held (reference m) w.objects) refl;
}

after_delete-keeps :
    (r d : TypedReference) (w : Cluster) (finalizer : Bool)
    → ¬ (Same r d)
    → Present r w
    → Present r (after_delete d w finalizer)
after_delete-keeps r d w true ne h = h
after_delete-keeps r d w false ne h = dropped-other r d w.objects ne h

after_delete-leaves :
    (r d : TypedReference) (w : Cluster) (finalizer : Bool)
    → Leaving Present Marked r w
    → Leaving Present Marked r (after_delete d w finalizer)
after_delete-leaves r d w true (inl gone) = inl gone
after_delete-leaves r d w true (inr marked) = inr (held-tail r d w.terminating marked)
after_delete-leaves r d w false (inl gone) = inl (λ k. gone (dropped-old r d w.objects k))
after_delete-leaves r d w false (inr marked) = inr marked

after_delete-Leaving :
    (d : TypedReference) (w : Cluster) (finalizer : Bool)
    → Leaving Present Marked d (after_delete d w finalizer)
after_delete-Leaving d w true = inr (held-head d w.terminating)
after_delete-Leaving d w false = inl (λ k. cc (dropped_self d w.objects))

deleted-Post :
    (d : TypedReference) (w : Cluster) (b : Bool)
    → Post {A = Unit {0}}
        (λ a w'. Leaving Present Marked d w')
        (λ e w'. is_not_found e ≡ true → Leaving Present Marked d w')
        (if b then ok tt else err (not_found d.name), after_delete d w (has_finalizer d))
deleted-Post d w true = after_delete-Leaving d w (has_finalizer d)
deleted-Post d w false = λ e. after_delete-Leaving d w (has_finalizer d)

pub server-spares : Spares server Present Same
server-spares = record {
  delete_object_keeps = λ r d ne w h. after_delete-keeps r d w (has_finalizer d) ne h;
  delete_tracker_keeps = λ r t w h. h;
}

pub server-deletes : Deletes server Present Marked
server-deletes = record {
  delete_object_leaves = λ r d w h. after_delete-leaves r d w (has_finalizer d) h;
  delete_tracker_leaves = λ r t w h. h;
  deleted = λ d w. deleted-Post d w (held d w.objects);
}

pub server-keeps : KeepsCluster server Present Same
server-keeps = record {
  objects = objects_api-keeps;
  spares = server-spares;
  get_tracker_keeps = λ r n w h. h;
  update_tracker_status_keeps = λ r t w h. h;
}
