-- ===== src/Operator/Present.antt =====
-- What is there when the installation of the operator reports success.
use cluster_fabric_operator.Base.{
  ◌≡◌, refl, Text, List, [], ◌∷◌, ◌++◌, map, All, All-append, Option, ok,
}
use cluster_fabric_operator.Base.Action.{
  Outcome, returns, fails, panics, runs_on, Action, next, ◌>>=◌, in_turn,
}
use cluster_fabric_operator.Operator.{Manifest, Object, Server}
use cluster_fabric_operator.Operator.Install.{Cluster}

-- An object that is to be there: one named by its manifest, or one that is known.
pub data Target : Type 0 where
  named : Manifest → (Text → Object) → Target
  fixed : Object → Target

module _ {W : Type 0} (server : Server W) (Present : Object → W → Type 0) where
  abbrev pub IsThere : W → Target → Type 0
  IsThere w (named yaml object) =
      (name : Text) × (server.get_object_name yaml ≡ ok name) × Present (object name) w
  IsThere w (fixed object) = Present object w

  -- No object goes, however the run ends.
  abbrev pub Keeps {κ} : {A : Type κ} → Action W A → Type 0
  Keeps run = (o : Object) (w : W) → Present o w → Present o (run w).1

  -- If the run returns, the targets are there.
  abbrev pub Makes : {A : Type 0} → List Target → Action W A → Type 0
  Makes {A} targets run =
      Keeps run × ((w : W) (a : A) → (run w).0 ≡ returns a → All (IsThere (run w).1) targets)

  All-keep :
      (targets : List Target) (w w' : W)
      → ((o : Object) → Present o w → Present o w')
      → All (IsThere w) targets
      → All (IsThere w') targets
  All-keep [] w w' keep _ = tt
  All-keep (named yaml object ∷ ts) w w' keep ((name, e, p), ps) =
      ((name, e, keep (object name) p), All-keep ts w w' keep ps)
  All-keep (fixed o ∷ ts) w w' keep (p, ps) = (keep o p, All-keep ts w w' keep ps)

  module _ {A B : Type 0} (targets more : List Target) (f : A → Action W B)
      (second : (a : A) → Makes more (f a)) where
    next-keeps :
        (o : Outcome A) (object : Object) (w : W) → Present object w → Present object (next o w f).1
    next-keeps (returns a) object w p = (second a).0 object w p
    next-keeps (fails e) object w p = p
    next-keeps panics object w p = p
    next-keeps runs_on object w p = p

    next-makes :
        (o : Outcome A) (w : W) (b : B)
        → ((a : A) → o ≡ returns a → All (IsThere w) targets)
        → (next o w f).0 ≡ returns b
        → All (IsThere (next o w f).1) (targets ++ more)
    next-makes (returns a) w b first h =
        All-append (IsThere (f a w).1) targets more
          (All-keep targets w (f a w).1 (λ o. (second a).0 o w) (first a refl)) ((second a).1 w b h)
    next-makes (fails e) w b first h = absurd (cc h)
    next-makes panics w b first h = absurd (cc h)
    next-makes runs_on w b first h = absurd (cc h)

    pub then-Makes : (m : Action W A) → Makes targets m → Makes (targets ++ more) (m >>= f)
    then-Makes m (keep, make) = (
      λ object w p. next-keeps (m w).0 object (m w).1 (keep object w p),
      λ w b h. next-makes (m w).0 (m w).1 b (make w) h,
    )

  pub in_turn-Makes :
      {B : Type 0} (target : B → Target) (run : B → Action W (Unit {0}))
      → ((b : B) → Makes (target b ∷ []) (run b))
      → (bs : List B) → Makes (map target bs) (in_turn (map run bs))
  unfolding in_turn
  in_turn-Makes target run each [] = (λ o w p. p, λ w a h. tt)
  in_turn-Makes target run each (b ∷ bs) =
      then-Makes (target b ∷ []) (map target bs) (λ _. in_turn (map run bs))
        (λ _. in_turn-Makes target run each bs) (run b) (each b)

-- A view of what is there that the calls of the installation keep, for the objects that it asks for.
-- Operator/Named makes two of them out of what the API server documents.
pub record KeptLaws {W : Type 0} (cluster : Cluster W) (Present : Object → W → Type 0)
    (Asked : Object → Type 0) : Type 0 where
  pub puts :
      (o : Object)
      → Asked o
      → (w : W) → (cluster.server.create_or_update o w).0 ≡ returns tt
      → Present o (cluster.server.create_or_update o w).1
  pub put_keeps :
      (o : Object) → Asked o → Keeps cluster.server Present (cluster.server.create_or_update o)
  pub namespace_keeps :
      (o : Object) (name : Text) (w : W) → Present o w → Present o (cluster.get_namespace name w).1
  pub deployment_keeps :
      (o : Object) (namespace name : Text) (w : W)
      → Present o w
      → Present o (cluster.get_deployment namespace name w).1
  pub users_keep : (o : Object) (w : W) → Present o w → Present o (cluster.scc.get w).1
  pub update_keeps :
      (o : Object) (us : List (Option Text)) (w : W)
      → Present o w
      → Present o (cluster.scc.update us w).1
